-- ===== src/Diff/Complete.antt =====
-- A delta set misses nothing: every file of either tree is kept, or has its record.
mod Loop
mod Cases
use deep_agent_cli.Base.{
  ℕ, zero, suc, ◌≤◌, ◌≡◌, refl, sym, inl, inr, true, Option, none, some, [], ◌++◌, map, arith,
  Bool-cases, All, In, All-map,
}
use deep_agent_cli.IndexSync.{NodeType, file, dir, same_type, same_type_iff}
use deep_agent_cli.Snapshot.{
  Entry, Node, Nodes, node, Snapshot, entry, to_list, children, Snapshot, depth, files, files_all,
}
use deep_agent_cli.Text.{Text}
use deep_agent_cli.Diff.{
  Changes, Result, ok, add, delete, added, deleted, modified, FileDelta, child_at, child_keys,
  diff_node, collect_subtree, diff_changed, same_hash, depth_of, root_of, same_root, delta_le,
  delta_set, SyncDeltaSet, diff_snapshots, diff_keys, collect_file, ◌>>=◌,
}
use deep_agent_cli.Base.Sort.{IsSorted, sort, In-sort, sort-IsSorted}
use deep_agent_cli.Diff.Order.{delta_le-IsOrder}
use deep_agent_cli.Diff.Keys.{child_at-In, child_at-find, In-child_keys, Distinct}
use deep_agent_cli.Diff.Tree.{
  IsTree, AreTrees, AreTrees-In, Sub, here, below, Kept, SameFiles, IsFaithful, files_of, depth-In,
  In-files_all, All-files_all, files-dir, files-file,
}
use deep_agent_cli.Diff.Collect.{collect_subtree_lem}
use Cases.{Covers-added, Covers-deleted, Covers-same, Done-replaced, Done-children, Done-changed}
use Loop.{Gone, New, Covers, Done, Gone-grows, New-grows, diff_keys-Done}

abbrev pub IsTree? : Option Node → Type 0
IsTree? none = Unit
IsTree? (some n) = IsTree n

abbrev pub IsFaithful? : Option Node → Option Node → Type 0
IsFaithful? (some p) (some c) = IsFaithful p c
IsFaithful? _ _ = Unit

-- What a call of `diff_node` needs: fuel, two trees and hashes that tell their files apart.
record Fits (fuel : ℕ) (p c : Option Node) : Type 0 where
  fuel_fits : depth_of p ≤ fuel
  previous : IsTree? p
  current : IsTree? c
  faithful : IsFaithful? p c

-- The children under one path fit the fuel left.
Fits-child :
    (fuel : ℕ) (k : Text) (e e' : Entry) (cs cs' : Nodes)
    → Fits (suc fuel) (some (node e cs)) (some (node e' cs'))
    → (a b : Option Node) → child_at k (to_list cs) ≡ a
    → child_at k (to_list cs') ≡ b
    → Fits fuel a b
unfolding depth
Fits-child fuel k e e' cs cs' h none none p q = record {
  fuel_fits = omega arith;
  previous = tt;
  current = tt;
  faithful = tt;
}
Fits-child fuel k e e' cs cs' h none (some c) p q = record {
  fuel_fits = omega arith;
  previous = tt;
  current = AreTrees-In c cs' h.current.2 (child_at-In k (to_list cs') q).0;
  faithful = tt;
}
Fits-child fuel k e e' cs cs' h (some n) none p q =
    let i = (child_at-In k (to_list cs) p).0 in
    record {
      fuel_fits = omega (arith, depth-In n cs i, h.fuel_fits);
      previous = AreTrees-In n cs h.previous.2 i;
      current = tt;
      faithful = tt;
    }
Fits-child fuel k e e' cs cs' h (some n) (some c) p q =
    let i = (child_at-In k (to_list cs) p).0 in
    let j = (child_at-In k (to_list cs') q).0 in
    record {
      fuel_fits = omega (arith, depth-In n cs i, h.fuel_fits);
      previous = AreTrees-In n cs h.previous.2 i;
      current = AreTrees-In c cs' h.current.2 j;
      faithful = λ x y s t. h.faithful x y (below i s) (below j t);
    }

diff_node-Done :
    (fuel : ℕ) (p c : Option Node) (d : Changes)
    → Fits fuel p c
    → Done (diff_node fuel p c d) (files_of p) (files_of c) d
unfolding diff_node
diff_node-Done fuel none none d h = (d, refl, record { grows = λ x i. i; gone = tt; new = tt })
diff_node-Done fuel none (some c) d h = (
  d ++ map added (files c),
  unfold collect_file in collect_subtree_lem add added (λ e x. refl) c d h.current,
  Covers-added (files c) d,
)
diff_node-Done fuel (some p) none d h = (
  d ++ map deleted (files p),
  unfold collect_file in collect_subtree_lem delete deleted (λ e x. refl) p d h.previous,
  Covers-deleted (files p) d,
)
diff_node-Done zero (some (node e cs)) (some c) d h =
    absurd (unfold depth in omega (arith, h.fuel_fits))
diff_node-Done (suc fuel) (some (node e cs)) (some (node e' cs')) d h =
    elim (Bool-cases (same_type e.node_type e'.node_type)) [
      | inr other_type ↦
          rw other_type (Done-replaced (node e cs) (node e' cs') d h.previous h.current)
      | inl one_type ↦ rw one_type (elim (Bool-cases (same_hash e e')) [
        | inl one_hash ↦ rw one_hash (
          d,
          refl,
          Covers-same (files (node e cs)) (files (node e' cs')) d
              (h.faithful (node e cs) (node e' cs') here here one_type one_hash),
        )
        | inr changed ↦ rw changed (
            Done-changed e.node_type e e' cs cs' d _ h.previous.0 refl
              (sym ((same_type_iff e.node_type e'.node_type).0 one_type))
              (Done-children cs cs' d (λ a b d'. diff_node fuel a b d') h.previous.1 h.current.1
                (λ k d₁.
                  diff_node-Done fuel (child_at k (to_list cs)) (child_at k (to_list cs')) d₁ (
                    Fits-child fuel k e e' cs cs' h (child_at k (to_list cs))
                      (child_at k (to_list cs')) refl refl))))
      ])
    ]

-- What a comparison of two snapshots takes for granted: well-formed trees whose hashes, the root
-- hashes included, tell their files apart.
pub record IsComparable (previous current : Option Snapshot) : Type 0 where
  pub previous_tree : IsTree? (root_of previous)
  pub current_tree : IsTree? (root_of current)
  pub faithful : IsFaithful? (root_of previous) (root_of current)
  pub faithful_root :
      same_root previous current ≡ true
      → SameFiles (files_of (root_of previous)) (files_of (root_of current))

-- The records account for the files of both snapshots, and come in order.
pub record Accounts (previous current : Option Snapshot) (s : SyncDeltaSet) : Type 0 where
  pub gone : All (Gone (files_of (root_of current)) s.changes) (files_of (root_of previous))
  pub new : All (New (files_of (root_of previous)) s.changes) (files_of (root_of current))
  pub sorted : IsSorted delta_le s.changes

-- Comparing two comparable snapshots, either of which may be missing, succeeds. Every file of the
-- previous one is in the current one under its path with its hash, or recorded as deleted or as
-- modified; every file of the current one was there with its hash, or is recorded as added or as
-- modified; and the records are sorted by path.
pub diff_snapshots-Accounts :
    (previous current : Option Snapshot)
    → IsComparable previous current
    → (s : SyncDeltaSet) × (diff_snapshots previous current ≡ ok s) × Accounts previous current s
unfolding diff_snapshots
diff_snapshots-Accounts previous current h = elim (Bool-cases (same_root previous current)) [
  | inl same ↦ (
    delta_set previous current [],
    rw same refl,
    record {
      gone = All-map (λ e k. inl k) (files_of (root_of previous)) (h.faithful_root same).0;
      new = All-map (λ e k. inl k) (files_of (root_of current)) (h.faithful_root same).1;
      sorted = tt;
    },
  )
  | inr differ ↦
      let p = root_of previous in
      let c = root_of current in
      let (d, e, k) = diff_node-Done (depth_of p) p c [] (record {
        fuel_fits = omega arith;
        previous = h.previous_tree;
        current = h.current_tree;
        faithful = h.faithful;
      }) in
      let keep : (x : FileDelta) → In x d → In x (sort delta_le d) =
        λ x i. (In-sort delta_le x d).1 i in
      (
        delta_set previous current (sort delta_le d),
        rw (differ, e) refl,
        record {
          gone =
              All-map (Gone-grows (files_of c) (files_of c) d (sort delta_le d) (λ x i. i) keep)
                (files_of p) k.gone;
          new =
              All-map (New-grows (files_of p) (files_of p) d (sort delta_le d) (λ x i. i) keep)
                (files_of c) k.new;
          sorted = sort-IsSorted delta_le delta_le-IsOrder d;
        },
      )
]
