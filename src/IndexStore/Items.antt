-- ===== src/IndexStore/Items.antt =====
-- The statements of internal/indexstore/sync_store.go on the rows of `index_nodes` and
-- `index_file_state`, and the conversions between empty texts and NULL.
use deep_agent_cli.Base.{
  ℕ, suc, Bool, false, not, ◌&&◌, ◌||◌, Option, none, some, List, [], ◌∷◌, ◌==◌, if◌then◌else◌,
}
use deep_agent_cli.Text.{Text, eq, member}
use deep_agent_cli.Text.Trim.{trim}
use deep_agent_cli.IndexSync.{Time, FileStatus, SnapshotRoot, MerkleNode, FileState}
use deep_agent_cli.IndexStore.Tables.{Tables, NodeRow, FileRow, Env}
use deep_agent_cli.IndexStore.Rows.{in_scope, delete_where}

-- `emptyToNil`
unfoldable pub empty_to_nil : Text → Option Text
empty_to_nil value = if eq (trim value) [] then none else some value

-- `stringFromPtr`
abbrev pub string_from_ptr : Option Text → Text
string_from_ptr none = []
string_from_ptr (some value) = value

abbrev pub node_row : ℕ → MerkleNode → ℕ → Time → NodeRow
node_row snapshot_id n id created = record {
  id = id;
  snapshot_id = snapshot_id;
  path = n.path;
  parent_path = empty_to_nil n.parent_path;
  node_type = n.node_type;
  node_hash = n.node_hash;
  parent_hash = empty_to_nil n.parent_hash;
  content_hash = empty_to_nil n.content_hash;
  size_bytes = n.size_bytes;
  mtime_ns = n.mtime_ns;
  status = n.status;
  created_at = created;
}

-- the rows after `INSERT ... ON CONFLICT DO UPDATE`: `same` tells the row of the key, and an update
-- keeps some columns
unfoldable pub put : {A : Type 0} → (A → Bool) → (A → A) → A → List A → List A
put same change new [] = new ∷ []
put same change new (r ∷ rs) =
    let later = put same change new rs in if same r then change r ∷ rs else r ∷ later

unfoldable pub is_node : ℕ → Text → NodeRow → Bool
is_node snapshot_id path r = r.snapshot_id == snapshot_id && eq r.path path

-- `upsertSnapshotNodeSQL`
unfoldable pub upsert_node : ℕ → MerkleNode → Env → Tables → Tables
unfolding empty_to_nil put is_node
upsert_node snapshot_id n env t = record t {
  next_node = suc t.next_node;
  nodes =
      put (is_node snapshot_id n.path) (λ r. node_row snapshot_id n r.id r.created_at)
        (node_row snapshot_id n t.next_node env.started) t.nodes;
}

-- `deleteSnapshotNodesOutsideSetSQL`
unfoldable pub delete_nodes_outside : ℕ → List Text → Tables → Tables
unfolding delete_where member
delete_nodes_outside snapshot_id paths t = record t {
  nodes = delete_where (λ r. r.snapshot_id == snapshot_id && not (member r.path paths)) t.nodes;
}

-- `deleteAllSnapshotNodesSQL`
unfoldable pub delete_all_nodes : ℕ → Tables → Tables
unfolding delete_where
delete_all_nodes snapshot_id t = record t {
  nodes = delete_where (λ r. r.snapshot_id == snapshot_id) t.nodes;
}

-- some row of the scope, other than the saved one, has the id
unfoldable pub is_superseded_id : SnapshotRoot → List SnapshotRoot → ℕ → Bool
unfolding in_scope
is_superseded_id saved [] id = false
is_superseded_id saved (r ∷ rs) id =
    (r.id == id && (in_scope saved.session_id saved.repo_root r && not (r.id == saved.id)))
    || is_superseded_id saved rs id

-- `deleteSupersededScopeNodesSQL`
unfoldable pub delete_superseded_nodes : SnapshotRoot → Tables → Tables
unfolding delete_where is_superseded_id
delete_superseded_nodes saved t = record t {
  nodes = delete_where (λ r. is_superseded_id saved t.snapshots r.snapshot_id) t.nodes;
}

-- the time of the deletion that `bulkUpsertFileState` writes, at a time
unfoldable pub deleted_time : FileStatus → Option Time → Time → Option Time
deleted_time FileStatus.active given now = none
deleted_time FileStatus.deleted none now = some now
deleted_time FileStatus.deleted (some t) now = some t
deleted_time (FileStatus.other s) given now = given

abbrev pub or_snapshot : Option ℕ → ℕ → Option ℕ
or_snapshot none id = some id
or_snapshot (some i) id = some i

abbrev pub file_row : SnapshotRoot → FileState → Option Time → ℕ → Time → FileRow
file_row saved f deleted id updated = record {
  id = id;
  session_id = saved.session_id;
  repo_root = saved.repo_root;
  rel_path = f.rel_path;
  last_snapshot_id = or_snapshot f.last_snapshot_id saved.id;
  content_hash = empty_to_nil f.content_hash;
  node_hash = empty_to_nil f.node_hash;
  parent_hash = empty_to_nil f.parent_hash;
  chunk_set_hash = empty_to_nil f.chunk_set_hash;
  size_bytes = f.size_bytes;
  mtime_ns = f.mtime_ns;
  status = f.status;
  deleted_at = deleted;
  updated_at = updated;
}

unfoldable pub file_in : Text → Text → FileRow → Bool
file_in session_id repo_root r = eq r.session_id session_id && eq r.repo_root repo_root

-- `upsertFileStateSQL`
unfoldable pub upsert_file : SnapshotRoot → FileState → Option Time → Env → Tables → Tables
unfolding empty_to_nil put file_in
upsert_file saved f deleted env t = record t {
  next_file = suc t.next_file;
  files =
      put (λ r. file_in saved.session_id saved.repo_root r && eq r.rel_path f.rel_path)
        (λ r. file_row saved f deleted r.id env.started)
        (file_row saved f deleted t.next_file env.started) t.files;
}

-- `deleteFileStateOutsideSetSQL`
unfoldable pub delete_files_outside : Text → Text → List Text → Tables → Tables
unfolding delete_where member file_in
delete_files_outside session_id repo_root paths t = record t {
  files =
      delete_where (λ r. file_in session_id repo_root r && not (member r.rel_path paths)) t.files;
}

-- `deleteAllFileStateSQL`
unfoldable pub delete_all_files : Text → Text → Tables → Tables
unfolding delete_where file_in
delete_all_files session_id repo_root t = record t {
  files = delete_where (file_in session_id repo_root) t.files;
}
