-- ===== src/Snapshot.antt =====
-- internal/indexsync/snapshot/builder.go: entries, the tree of nodes and snapshots.
pub mod Build
use deep_agent_cli.Base.{ℕ, suc, max, Option, List, [], ◌∷◌, ◌++◌}
use deep_agent_cli.Text.{Text}
use deep_agent_cli.IndexSync.{NodeType, file, dir}

pub record Entry : Type 0 where
  pub path : Text
  pub parent_path : Text
  pub node_type : NodeType
  pub node_hash : Text
  pub parent_hash : Text
  pub content_hash : Text
  pub size_bytes : Option ℕ
  pub mtime_ns : Option ℕ

-- `Children []*Node`; the code never puts a nil pointer among the children.
mutual
  pub data Node : Type 0 where
    node : Entry → Nodes → Node

  pub data Nodes : Type 0 where
    nil : Nodes
    cons : Node → Nodes → Nodes

abbrev pub entry : Node → Entry
entry (node e cs) = e

abbrev pub to_list : Nodes → List Node
to_list nil = []
to_list (cons n ns) = n ∷ to_list ns

abbrev pub children : Node → List Node
children (node e cs) = to_list cs

pub record Snapshot : Type 0 where
  pub repo_root : Text
  pub entries : List Entry
  pub root : Option Node
  pub root_hash : Text

unfoldable mutual
  pub depth : Node → ℕ
  depth (node e cs) = suc (depth_all cs)

  pub depth_all : Nodes → ℕ
  depth_all nil = 0
  depth_all (cons n ns) = max (depth n) (depth_all ns)

abbrev pub files_at : NodeType → Entry → List Entry → List Entry
files_at file e below = e ∷ []
files_at dir e below = below
files_at (NodeType.other t) e below = []

-- The entries of the files of a tree, in the order of the tree.
unfoldable mutual
  pub files : Node → List Entry
  files (node e cs) = files_at e.node_type e (files_all cs)

  pub files_all : Nodes → List Entry
  files_all nil = []
  files_all (cons n ns) = files n ++ files_all ns
