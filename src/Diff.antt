-- ===== src/Diff.antt =====
-- internal/indexsync/diff: the changes between two snapshots (delta.go, merkle_diff.go).
pub mod Order
pub mod Keys
pub mod Tree
pub mod Collect
pub mod Hashes
pub mod Sound
pub mod Complete
pub mod Materialize
use deep_agent_cli.Base.{
  ℕ, zero, suc, Bool, false, not, ◌&&◌, Option, none, some, List, [], ◌∷◌, ◌++◌, map, leb,
  if◌then◌else◌,
}
use deep_agent_cli.Base.Sort.{sort}
use deep_agent_cli.Text.{Text, eq, le, member}
use deep_agent_cli.IndexSync.{NodeType, file, dir, same_type}
use deep_agent_cli.Snapshot.{Entry, Node, Nodes, node, nil, cons, entry, children, Snapshot, depth}

pub data DeltaOp : Type 0 where
  add modify delete : DeltaOp
  other : Text → DeltaOp

pub record FileDelta : Type 0 where
  pub op : DeltaOp
  pub path : Text
  pub previous_node_hash : Text
  pub current_node_hash : Text
  pub previous_content_hash : Text
  pub current_content_hash : Text

pub record SyncDeltaSet : Type 0 where
  pub previous_root_hash : Text
  pub current_root_hash : Text
  pub changes : List FileDelta

-- The errors of merkle_diff.go. `exhausted` is the model's: the recursion ran out of fuel.
pub data DiffError : Type 0 where
  unsupported_node_type : NodeType → DiffError
  unsupported_op : DeltaOp → DiffError
  exhausted : DiffError

pub data Result (A : Type 0) : Type 0 where
  ok : A → Result A
  err : DiffError → Result A

infixl 5 ◌>>=◌
abbrev pub ◌>>=◌ : {A B : Type 0} → Result A → (A → Result B) → Result B
ok a >>= f = f a
err e >>= f = err e

-- `Changes`, which the recursion extends in place
abbrev pub Changes : Type 0
Changes = List FileDelta

-- `compareDeltaOp` subtracts these numbers.
abbrev pub op_order : DeltaOp → ℕ
op_order add = 0
op_order modify = 1
op_order delete = 2
op_order (DeltaOp.other t) = 3

-- the comparison of `SyncDeltaSet.sort`, at most 0
unfoldable pub delta_le : FileDelta → FileDelta → Bool
delta_le a b = if eq a.path b.path then leb (op_order a.op) (op_order b.op) else le a.path b.path

abbrev pub added : Entry → FileDelta
added e = record {
  op = add;
  path = e.path;
  previous_node_hash = [];
  current_node_hash = e.node_hash;
  previous_content_hash = [];
  current_content_hash = e.content_hash;
}

abbrev pub deleted : Entry → FileDelta
deleted e = record {
  op = delete;
  path = e.path;
  previous_node_hash = e.node_hash;
  current_node_hash = [];
  previous_content_hash = e.content_hash;
  current_content_hash = [];
}

abbrev pub modified : Entry → Entry → FileDelta
modified p c = record {
  op = modify;
  path = c.path;
  previous_node_hash = p.node_hash;
  current_node_hash = c.node_hash;
  previous_content_hash = p.content_hash;
  current_content_hash = c.content_hash;
}

-- the case of a file in `collectSubtree`
unfoldable pub collect_file : Entry → DeltaOp → Changes → Result Changes
collect_file e add d = ok (d ++ (added e ∷ []))
collect_file e delete d = ok (d ++ (deleted e ∷ []))
collect_file e modify d = err (unsupported_op modify)
collect_file e (DeltaOp.other t) d = err (unsupported_op (DeltaOp.other t))

-- the `switch` of `collectSubtree`, given what the children yield
abbrev pub collect_at : NodeType → Entry → DeltaOp → Changes → Result Changes → Result Changes
collect_at dir e op d below = below
collect_at file e op d below = collect_file e op d
collect_at (NodeType.other t) e op d below = err (unsupported_node_type (NodeType.other t))

unfoldable mutual
  unfolding collect_file

  pub collect_subtree : Node → DeltaOp → Changes → Result Changes
  collect_subtree (node e cs) op d = collect_at e.node_type e op d (collect_all cs op d)

  pub collect_all : Nodes → DeltaOp → Changes → Result Changes
  collect_all nil op d = ok d
  collect_all (cons n ns) op d = collect_subtree n op d >>= λ d'. collect_all ns op d'

-- `childrenByPath(children)[path]`: of two children with one path the later stays.
unfoldable pub child_at : Text → List Node → Option Node
child_at path [] = none
child_at path (n ∷ ns) = elim (child_at path ns) [
  | some m ↦ some m
  | none ↦ if eq (entry n).path path then some n else none
]

abbrev pub paths : List Node → List Text
paths ns = map (λ n. (entry n).path) ns

-- the paths not seen before
unfoldable pub dedup : List Text → List Text → List Text
dedup seen [] = []
dedup seen (p ∷ ps) =
    let rest = dedup seen ps in
    let rest' = dedup (p ∷ seen) ps in if member p seen then rest else p ∷ rest'

-- `keys` of `diffChildren`
unfoldable pub child_keys : List Node → List Node → List Text
unfolding dedup
child_keys previous current = sort le (dedup [] (paths previous ++ paths current))

-- the loop of `diffChildren`, given what it calls for each pair of children
unfoldable pub diff_keys :
    (Option Node → Option Node → Changes → Result Changes)
    → List Node
    → List Node
    → List Text
    → Changes
    → Result Changes
diff_keys visit previous current [] d = ok d
diff_keys visit previous current (k ∷ ks) d =
    visit (child_at k previous) (child_at k current) d >>= λ d'.
    diff_keys visit previous current ks d'

-- `DiffNodeRecursive` at two nodes of one type whose hashes differ
abbrev pub diff_changed : NodeType → Entry → Entry → Changes → Result Changes → Result Changes
diff_changed file p c d below = ok (d ++ (modified p c ∷ []))
diff_changed dir p c d below = below
diff_changed (NodeType.other t) p c d below = err (unsupported_node_type (NodeType.other t))

unfoldable pub same_hash : Entry → Entry → Bool
same_hash p c = not (eq p.node_hash []) && eq p.node_hash c.node_hash

-- `DiffNodeRecursive`; the fuel bounds how deep it calls itself.
unfoldable pub diff_node : ℕ → Option Node → Option Node → Changes → Result Changes
unfolding child_keys child_at diff_keys same_hash
diff_node fuel none none d = ok d
diff_node fuel none (some c) d = collect_subtree c add d
diff_node fuel (some p) none d = collect_subtree p delete d
diff_node zero (some p) (some c) d = err exhausted
diff_node (suc fuel) (some p) (some c) d =
    let below =
      diff_keys (λ a b d'. diff_node fuel a b d') (children p) (children c)
        (child_keys (children p) (children c)) d in
    if not (same_type (entry p).node_type (entry c).node_type)
    then (collect_subtree p delete d >>= λ d'. collect_subtree c add d')
    else if same_hash (entry p) (entry c)
    then ok d
    else diff_changed (entry p).node_type (entry p) (entry c) d below

abbrev pub depth_of : Option Node → ℕ
depth_of none = 0
depth_of (some n) = depth n

abbrev pub root_hash_of : Option Snapshot → Text
root_hash_of none = []
root_hash_of (some s) = s.root_hash

abbrev pub root_of : Option Snapshot → Option Node
root_of none = none
root_of (some s) = s.root

-- `previous != nil && current != nil && previous.RootHash == current.RootHash`
abbrev pub same_root : Option Snapshot → Option Snapshot → Bool
same_root (some p) (some c) = eq p.root_hash c.root_hash
same_root _ _ = false

abbrev pub delta_set : Option Snapshot → Option Snapshot → Changes → SyncDeltaSet
delta_set previous current changes = record {
  previous_root_hash = root_hash_of previous;
  current_root_hash = root_hash_of current;
  changes = changes;
}

-- The depth of the previous tree is fuel enough: below it one side is missing.
unfoldable pub diff_snapshots : Option Snapshot → Option Snapshot → Result SyncDeltaSet
unfolding delta_le diff_node
diff_snapshots previous current =
    if same_root previous current
    then ok (delta_set previous current [])
    else diff_node (depth_of (root_of previous)) (root_of previous) (root_of current) []
      >>= λ changes. ok (delta_set previous current (sort delta_le changes))
