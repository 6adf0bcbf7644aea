-- ===== src/IndexStore/Latest.antt =====
-- `LoadLatestSnapshot` of internal/indexstore/sync_store.go, of a store with its query functions, as
-- `New` makes it. Its three queries are numbered from 0.
pub mod First
use deep_agent_cli.Base.{
  ℕ, Bool, true, false, Option, none, some, List, [], ◌∷◌, map, ltb, ◌==◌, if◌then◌else◌,
}
use deep_agent_cli.Text.{Text, text, eq}
use deep_agent_cli.IndexSync.{Time, SnapshotRoot, MerkleNode, FileState}
use deep_agent_cli.IndexStore.{SnapshotState}
use deep_agent_cli.IndexStore.Tables.{
  Tables, NodeRow, FileRow, StoreError, statement, Result, ok, err, Env,
}
use deep_agent_cli.IndexStore.Rows.{in_scope}
use deep_agent_cli.IndexStore.Items.{string_from_ptr, file_in}
use deep_agent_cli.IndexStore.Checks.{validate_scope}
use deep_agent_cli.Base.Sort.{sort}

unfoldable pub select_where : {A : Type 0} → (A → Bool) → List A → List A
select_where test [] = []
select_where test (r ∷ rs) = let rest = select_where test rs in if test r then r ∷ rest else rest

-- is_active DESC, with what decides a tie
abbrev pub active_before : Bool → Bool → Bool → Bool
active_before true false tie = true
active_before false true tie = false
active_before true true tie = tie
active_before false false tie = tie

-- completed_at DESC NULLS LAST
abbrev pub completed_before : Option Time → Option Time → Bool → Bool
completed_before none none tie = tie
completed_before none (some b) tie = false
completed_before (some a) none tie = true
completed_before (some a) (some b) tie = if a == b then tie else ltb b a

-- ORDER BY is_active DESC, completed_at DESC NULLS LAST, created_at DESC, id DESC
unfoldable pub before : SnapshotRoot → SnapshotRoot → Bool
before a b = active_before a.is_active b.is_active (
    completed_before a.completed_at b.completed_at
      (if a.created_at == b.created_at then ltb b.id a.id else ltb b.created_at a.created_at))

unfoldable pub earlier : SnapshotRoot → Option SnapshotRoot → Option SnapshotRoot
unfolding before
earlier r none = some r
earlier r (some q) = if before q r then some q else some r

-- LIMIT 1
unfoldable pub first_row : List SnapshotRoot → Option SnapshotRoot
unfolding earlier
first_row [] = none
first_row (r ∷ rs) = earlier r (first_row rs)

-- `selectLatestSnapshotSQL`
unfoldable pub latest_row : Text → Text → Tables → Option SnapshotRoot
unfolding select_where in_scope first_row
latest_row session_id repo_root t =
    first_row (select_where (in_scope session_id repo_root) t.snapshots)

abbrev pub node_of_row : NodeRow → MerkleNode
node_of_row r = record {
  id = r.id;
  snapshot_id = r.snapshot_id;
  path = r.path;
  parent_path = string_from_ptr r.parent_path;
  node_type = r.node_type;
  node_hash = r.node_hash;
  parent_hash = string_from_ptr r.parent_hash;
  content_hash = string_from_ptr r.content_hash;
  size_bytes = r.size_bytes;
  mtime_ns = r.mtime_ns;
  status = r.status;
  created_at = r.created_at;
}

-- the rows of `loadSnapshotNodes`
unfoldable pub load_nodes : Env → Tables → ℕ → List MerkleNode
unfolding select_where sort
load_nodes env t snapshot_id = map node_of_row (
    sort (λ a b. env.collation a.path b.path)
      (select_where (λ r. r.snapshot_id == snapshot_id) t.nodes))

abbrev pub state_of_row : FileRow → FileState
state_of_row r = record {
  id = r.id;
  session_id = r.session_id;
  repo_root = r.repo_root;
  rel_path = r.rel_path;
  last_snapshot_id = r.last_snapshot_id;
  content_hash = string_from_ptr r.content_hash;
  node_hash = string_from_ptr r.node_hash;
  parent_hash = string_from_ptr r.parent_hash;
  chunk_set_hash = string_from_ptr r.chunk_set_hash;
  size_bytes = r.size_bytes;
  mtime_ns = r.mtime_ns;
  status = r.status;
  deleted_at = r.deleted_at;
  updated_at = r.updated_at;
}

-- the rows of `loadFileStates`
unfoldable pub load_file_states : Env → Tables → Text → Text → List FileState
unfolding select_where sort file_in
load_file_states env t session_id repo_root = map state_of_row (
    sort (λ a b. env.collation a.rel_path b.rel_path)
      (select_where (file_in session_id repo_root) t.files))

-- a query, numbered, before what its rows are for
abbrev pub query : {A : Type 0} → Text → Env → ℕ → Result A → Result A
query label env n next = elim (env.fails n) [ none ↦ next | some m ↦ err (statement label m) ]

unfoldable pub load_state :
    Env → Tables → Text → Text → Option SnapshotRoot → Result (Option SnapshotState)
unfolding load_nodes load_file_states
load_state env t session_id repo_root none = ok none
load_state env t session_id repo_root (some root) = query (text "query snapshot nodes") env 1 (
    query (text "query file state") env 2 (
      ok (
        some (record {
          root = root;
          nodes = load_nodes env t root.id;
          file_states = load_file_states env t session_id repo_root;
        }))))

unfoldable pub load_valid :
    Env → Tables → Text → Text → Result (Unit {0}) → Result (Option SnapshotState)
unfolding load_state latest_row
load_valid env t session_id repo_root (err e) = err e
load_valid env t session_id repo_root (ok u) =
    query (text "select latest snapshot") env 0
      (load_state env t session_id repo_root (latest_row session_id repo_root t))

-- `LoadLatestSnapshot`
unfoldable pub load_latest_snapshot : Env → Tables → Text → Text → Result (Option SnapshotState)
unfolding validate_scope load_valid
load_latest_snapshot env t session_id repo_root =
    load_valid env t session_id repo_root (validate_scope session_id repo_root)
