-- ===== src/Snapshot/Build/Arranged.antt =====
-- `BuildNodeTree` of internal/indexsync/snapshot/builder.go arranges its entries in a tree.
use deep_agent_cli.Base.{ℕ, ◌≡◌, subst, ◌⊎◌, inl, inr, List, [], ◌∷◌, In}
use deep_agent_cli.Base.Sort.{sort, In-sort}
use deep_agent_cli.Text.{Text}
use deep_agent_cli.Snapshot.{Entry, Node, Nodes, node}
use deep_agent_cli.Snapshot.Build.{
  built, entry_le, sort_tree, placed_entry, relative, attach, root_entry, build_node_tree,
}
use deep_agent_cli.Snapshot.Build.Tree.{
  Has, HasAny, IsPlaced, attach-sound, attach_complete, bind-built, built_injective,
}
use deep_agent_cli.Snapshot.Build.Sorted.{Has-sort_tree}
use deep_agent_cli.Snapshot.Build.Shape.{
  IsListing, IsListing-sort, attach-WellShaped, sort_tree-IsTree,
}
use deep_agent_cli.Diff.Tree.{IsTree}

-- The tree of a listing: one that the diff takes, with the listing's entries and no others.
pub record IsTreeOf (entries : List Entry) (root : Node) : Type 0 where
  pub shape : IsTree root
  pub complete :
      (x : Entry)
      → In x entries
      → (path : Text) → relative x.path ≡ built path
      → Has (placed_entry x path) root
  pub sound : (e : Entry) → Has e root → IsPlaced entries e

-- A tree that is built of files and directories no two of which have one normalized path holds
-- every entry of the list, its path normalized, and no other below its root; no two children of a
-- node have one path, so the tree is one that the comparison of snapshots takes.
pub build_node_tree-IsTreeOf :
    (entries : List Entry) (root : Node)
    → build_node_tree entries ≡ built root
    → IsListing entries
    → IsTreeOf entries root
unfolding build_node_tree
build_node_tree-IsTreeOf entries root h l =
    let sorted = sort entry_le entries in
    let (f, a, h1) = bind-built (attach sorted (([], 0) ∷ []) 1) _ root h in
    let tree = node root_entry (f 0) in
    let w = attach-WellShaped sorted (([], 0) ∷ []) 1 f a (IsListing-sort entries l) 0 in
    subst (IsTreeOf entries) (built_injective (sort_tree tree) root h1) record {
      shape = sort_tree-IsTree tree (tt, w.0, w.1);
      complete = λ x i path q. (Has-sort_tree (placed_entry x path) tree).1 (
          at_root f (placed_entry x path) (
            attach_complete sorted (([], 0) ∷ []) 1 f a x ((In-sort entry_le x entries).1 i) path
              q));
      sound = λ e m.
          let p = attach-sound sorted (([], 0) ∷ []) 1 f a 0 e ((Has-sort_tree e tree).0 m) in
          record {
            source = p.source;
            present = (In-sort entry_le p.source entries).0 p.present;
            path = p.path;
            normalizes = p.normalizes;
            rewritten = p.rewritten;
          };
    }
  where
    at_root :
        (f : ℕ → Nodes) (e : Entry) → ((i : ℕ) × ((i ≡ 0) ⊎ ⊥) × HasAny e (f i)) → HasAny e (f 0)
    at_root f e (i, inl q, m) = subst (λ j. HasAny e (f j)) q m
    at_root f e (i, inr q, m) = absurd q
