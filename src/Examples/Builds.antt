-- ===== src/Examples/Builds.antt =====
-- A listing of a directory and the file in it, in the wrong order.
use deep_agent_cli.Base.{◌≡◌, refl, sym, ap, ◌∙◌, inl, inr, List, [], ◌∷◌, arith, In}
use deep_agent_cli.Text.{Text, text, eq, le}
use deep_agent_cli.Text.Trim.{trim}
use deep_agent_cli.FilePath.{clean, normalize_snapshot_path}
use deep_agent_cli.IndexSync.{file, dir, same_type}
use deep_agent_cli.Snapshot.{Entry, Node, node, nil, cons}
use deep_agent_cli.Snapshot.Build.{
  built, root_entry, placed_entry, build_node_tree, relative, parent_path,
}
use deep_agent_cli.Snapshot.Build.Shape.{IsListing}
use deep_agent_cli.Snapshot.Build.Arranged.{IsTreeOf, build_node_tree-IsTreeOf}
use deep_agent_cli.Examples.Trees.{entry_of}

abbrev folder : Entry
folder = entry_of dir (text "d") (text "1")

abbrev inner : Entry
inner = entry_of file (text "d/f") (text "2")

abbrev listing : List Entry
listing = inner ∷ folder ∷ []

abbrev tree : Node
tree =
    node root_entry (cons (node folder (cons (node (placed_entry inner (text "d/f")) nil) nil)) nil)

listing_tree : build_node_tree listing ≡ built tree
unfolding build_node_tree normalize_snapshot_path clean trim eq le same_type parent_path
listing_tree = refl

listing_paths :
    (relative (text "d/f") ≡ built (text "d/f")) × (relative (text "d") ≡ built (text "d"))
unfolding relative normalize_snapshot_path clean trim eq
listing_paths = (refl, refl)

other_path : ¬ (built (text "d/f") ≡ built (text "d"))
other_path h = absurd (ground arith)

apart :
    (path : Text)
    → relative (text "d/f") ≡ built path
    → (y : Entry) → In y (folder ∷ [])
    → ¬ (relative y.path ≡ built path)
apart path h y (inl e) k =
    other_path (sym listing_paths.0 ∙ h ∙ sym k ∙ ap (λ z. relative z.path) e ∙ listing_paths.1)
apart path h y (inr z) k = z

listing-IsListing : IsListing listing
listing-IsListing = (apart, tt, ((λ path h y i k. i), tt, tt))

build_node_tree-IsTreeOf_example : IsTreeOf listing tree
build_node_tree-IsTreeOf_example =
    build_node_tree-IsTreeOf listing tree listing_tree listing-IsListing
