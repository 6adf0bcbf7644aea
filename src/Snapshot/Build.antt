-- ===== src/Snapshot/Build.antt =====
-- The tree of internal/indexsync/snapshot/builder.go: `BuildNodeTree`, `OrderedPaths`, `sortEntries`,
-- `sortTree`, `parentPath` and `pathDepth`.
use deep_agent_cli.Base.{
  ℕ, suc, ◌+◌, Bool, not, ◌||◌, Option, none, some, List, [], ◌∷◌, ◌++◌, ltb, ◌==◌, if◌then◌else◌,
}
use deep_agent_cli.Base.Sort.{sort}
use deep_agent_cli.Text.{Text, eq, le}
use deep_agent_cli.FilePath.{
  slash, dot, clean, PathError, PathResult, ok, err, normalize_snapshot_path,
}
use deep_agent_cli.IndexSync.{NodeType, file, dir, same_type}
use deep_agent_cli.Snapshot.{Entry, Node, Nodes, node, nil, cons, entry, to_list, Snapshot}
pub mod Tree
pub mod Shape
pub mod Sorted
pub mod Arranged

pub data BuildError : Type 0 where
  bad_path : Text → PathError → BuildError
  missing_parent : Text → BuildError

pub data Result {ℓ} (A : Type ℓ) : Type ℓ where
  built : A → Result A
  failed : BuildError → Result A

infixl 5 ◌>>=◌
abbrev pub ◌>>=◌ {ℓ κ} : {A : Type ℓ} {B : Type κ} → Result A → (A → Result B) → Result B
built a >>= f = f a
failed e >>= f = failed e

-- a path up to its last slash, that included
unfoldable pub up_to_slash : Text → Text
up_to_slash [] = []
up_to_slash (c ∷ s) =
    let rest = up_to_slash s in
    if not (eq rest []) then c ∷ rest else if c == slash then c ∷ [] else []

-- `parentPath`, with `filepath.Dir`
unfoldable pub parent_path : Text → Text
unfolding up_to_slash
parent_path rel_path =
    if eq (clean (up_to_slash rel_path)) dot then [] else clean (up_to_slash rel_path)

-- `strings.Count(s, "/")`
unfoldable pub count_slashes : Text → ℕ
count_slashes [] = 0
count_slashes (c ∷ s) = (if c == slash then 1 else 0) + count_slashes s

-- `pathDepth`
unfoldable pub path_depth : Text → ℕ
unfolding count_slashes
path_depth rel_path = if eq rel_path [] then 0 else count_slashes rel_path + 1

-- the last part of both comparisons: a directory before any other type
abbrev pub type_le : NodeType → NodeType → Bool
type_le a b = same_type a b || same_type a dir

-- the comparison of `sortEntries` is not positive
unfoldable pub entry_le : Entry → Entry → Bool
unfolding path_depth same_type
entry_le a b =
    if path_depth a.path == path_depth b.path
    then (if eq a.path b.path then type_le a.node_type b.node_type else le a.path b.path)
    else ltb (path_depth a.path) (path_depth b.path)

-- the comparison of `sortTree` is not positive
unfoldable pub child_le : Node → Node → Bool
unfolding same_type
child_le a b =
    if eq (entry a).path (entry b).path
    then type_le (entry a).node_type (entry b).node_type
    else le (entry a).path (entry b).path

abbrev pub of_list : List Node → Nodes
of_list [] = nil
of_list (n ∷ ns) = cons n (of_list ns)

-- `sortTree`. The code sorts the children and then each child, which keeps its entry.
unfoldable mutual
  unfolding child_le sort

  pub sort_tree : Node → Node
  sort_tree (node e cs) = node e (of_list (sort child_le (to_list (sort_trees cs))))

  pub sort_trees : Nodes → Nodes
  sort_trees nil = nil
  sort_trees (cons n ns) = cons (sort_tree n) (sort_trees ns)

-- `nodesByPath`: the nodes are numbered in the order of their creation, the root is 0, and the
-- latest entry of a path counts.
abbrev pub NodesByPath : Type 0
NodesByPath = List (Text × ℕ)

unfoldable pub node_at : Text → NodesByPath → Option ℕ
node_at path [] = none
node_at path ((p, i) ∷ rest) = if eq p path then some i else node_at path rest

-- the entry as the loop rewrites it
abbrev pub placed_entry : Entry → Text → Entry
placed_entry e path = record e { path = path; parent_path = parent_path path }

of_path : Text → PathResult → Result Text
of_path path (ok p) = built p
of_path path (err e) = failed (bad_path path e)

-- `normalizeSnapshotPath` with its error
unfoldable pub relative : Text → Result Text
unfolding of_path
relative path = of_path path (normalize_snapshot_path path)

unfoldable pub parent_of : Text → NodesByPath → Result ℕ
unfolding node_at
parent_of path nodes = elim (node_at (parent_path path) nodes) [
  | none ↦ failed (missing_parent path)
  | some i ↦ built i
]

-- `parentNode.Children = append(parentNode.Children, node)`, in front of what follows
abbrev pub append_child : ℕ → Node → (ℕ → Nodes) → ℕ → Nodes
append_child parent child later i = if i == parent then cons child (later i) else later i

-- The loop of `BuildNodeTree` from an entry on: what it and the later rounds append to the children
-- of each node. `n` is the number of the node that the round creates.
unfoldable pub attach : List Entry → NodesByPath → ℕ → Result (ℕ → Nodes)
unfolding relative parent_of
attach [] nodes n = built (λ i. nil)
attach (e ∷ es) nodes n = do
  path ← relative e.path
  parent ← parent_of path nodes
  later ← attach es ((path, n) ∷ nodes) (suc n)
  built (append_child parent (node (placed_entry e path) (later n)) later)

abbrev pub root_entry : Entry
root_entry = record {
  path = [];
  parent_path = [];
  node_type = dir;
  node_hash = [];
  parent_hash = [];
  content_hash = [];
  size_bytes = none;
  mtime_ns = none;
}

-- `BuildNodeTree`; without entries the sorted tree is the root alone
unfoldable pub build_node_tree : List Entry → Result Node
unfolding entry_le sort attach sort_tree
build_node_tree entries = do
  children ← attach (sort entry_le entries) (([], 0) ∷ []) 1
  built (sort_tree (node root_entry (children 0)))

-- the walk of `OrderedPaths` below a node
unfoldable mutual
  pub paths_below : Node → List Text
  paths_below (node e cs) = paths_of cs

  pub paths_of : Nodes → List Text
  paths_of nil = []
  paths_of (cons n ns) = ((entry n).path ∷ paths_below n) ++ paths_of ns

-- `OrderedPaths`
unfoldable pub ordered_paths : Snapshot → List Text
unfolding paths_below
ordered_paths s = elim s.root [ none ↦ [] | some n ↦ paths_below n ]
