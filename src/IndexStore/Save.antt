-- ===== src/IndexStore/Save.antt =====
-- `SaveSnapshotState` of internal/indexstore/sync_store.go.
pub mod Saved
pub mod Loaded
use deep_agent_cli.Base.{
  ℕ, Bool, true, false, Option, none, some, List, [], ◌∷◌, map, if◌then◌else◌,
}
use deep_agent_cli.Text.{Text, text}
use deep_agent_cli.IndexSync.{Time, SnapshotRoot, MerkleNode, FileState}
use deep_agent_cli.IndexStore.Tables.{
  Tables, also, StoreError, item, statement, Result, ok, err, Env,
}
use deep_agent_cli.IndexStore.Tx.{Tx, pure, time_now, exec, query_row, each, transact, ◌>>=◌, ◌>>◌}
use deep_agent_cli.IndexStore.Rows.{upsert_snapshot, update_activation, deactivate_others}
use deep_agent_cli.IndexStore.Items.{
  upsert_node, delete_nodes_outside, delete_all_nodes, delete_superseded_nodes, deleted_time,
  upsert_file, delete_files_outside, delete_all_files,
}
use deep_agent_cli.IndexStore.Checks.{
  validate_snapshot_root, validate_snapshot_nodes, validate_file_states, or_pending,
  normalize_snapshot_root,
}

abbrev pub indexed : Text → ℕ → Text → StoreError
indexed label i m = item label i (statement label m)

-- `bulkUpsertSnapshotNodes`
unfoldable pub bulk_upsert_nodes : ℕ → List MerkleNode → Tx (Unit {0})
unfolding each exec upsert_node
bulk_upsert_nodes snapshot_id nodes =
    each (λ i n. exec (indexed (text "upsert snapshot node") i) (upsert_node snapshot_id n)) 0 nodes

-- `clearStaleSnapshotNodes`
unfoldable pub clear_stale_nodes : ℕ → List MerkleNode → Tx (Unit {0})
unfolding exec delete_all_nodes delete_nodes_outside
clear_stale_nodes snapshot_id [] =
    exec (statement (text "delete all snapshot nodes")) (λ env. delete_all_nodes snapshot_id)
clear_stale_nodes snapshot_id (n ∷ ns) =
    exec (statement (text "delete stale snapshot nodes"))
      (λ env. delete_nodes_outside snapshot_id (map (λ n. n.path) (n ∷ ns)))

-- a round of `bulkUpsertFileState`
unfoldable pub put_file : SnapshotRoot → ℕ → FileState → Tx (Unit {0})
unfolding exec deleted_time upsert_file
put_file saved i f = time_now >>= λ now.
    exec (indexed (text "upsert file state") i)
      (upsert_file saved f (deleted_time f.status f.deleted_at now))

-- `bulkUpsertFileState`
unfoldable pub bulk_upsert_files : SnapshotRoot → List FileState → Tx (Unit {0})
unfolding each put_file
bulk_upsert_files saved files = each (put_file saved) 0 files

-- `clearStaleFileState`
unfoldable pub clear_stale_files : SnapshotRoot → List FileState → Tx (Unit {0})
unfolding exec delete_all_files delete_files_outside
clear_stale_files saved [] =
    exec (statement (text "delete all file state rows"))
      (λ env. delete_all_files saved.session_id saved.repo_root)
clear_stale_files saved (f ∷ fs) =
    exec (statement (text "delete stale file state rows")) (λ env.
      delete_files_outside saved.session_id saved.repo_root (map (λ f. f.rel_path) (f ∷ fs)))

-- `snapshotCompletion`, and the completion of an active root in `finalizeSnapshotRoot`
abbrev pub completion : Option Time → Time → Time
completion none now = now
completion (some t) now = t

abbrev pub completion_if : Bool → Option Time → Time → Option Time
completion_if false completed now = completed
completion_if true completed now = some (completion completed now)

-- `finalizeSnapshotRoot`
unfoldable pub finalize_snapshot_root : SnapshotRoot → SnapshotRoot → Tx SnapshotRoot
unfolding query_row update_activation or_pending
finalize_snapshot_root saved requested = time_now >>= λ now.
    query_row (statement (text "update snapshot activation")) (λ env.
      update_activation saved (or_pending requested.status) requested.is_active
        (completion_if requested.is_active requested.completed_at now) requested.parent_snapshot_id)

abbrev pub exec_if : Bool → Tx (Unit {0}) → Tx (Unit {0})
exec_if c m env n t = if c then m env n t else pure tt env n t

-- `if root.IsActive { ... deactivateScopeSnapshotsSQL ... }`
unfoldable pub deactivate_superseded : SnapshotRoot → SnapshotRoot → Tx (Unit {0})
unfolding exec deactivate_others
deactivate_superseded root saved = exec_if root.is_active (do
  now ← time_now
  exec (statement (text "deactivate superseded snapshots"))
      (λ env. deactivate_others saved (completion root.completed_at now)))

-- `if saved.IsActive { ... deleteSupersededScopeNodesSQL ... }`
unfoldable pub delete_superseded : SnapshotRoot → Tx (Unit {0})
unfolding exec delete_superseded_nodes
delete_superseded saved =
    exec_if saved.is_active (
      exec (statement (text "delete superseded scope nodes"))
        (λ env. delete_superseded_nodes saved))

unfoldable pub upsert_snapshot_root : SnapshotRoot → Tx SnapshotRoot
unfolding query_row upsert_snapshot
upsert_snapshot_root root =
    query_row (statement (text "upsert snapshot root")) (upsert_snapshot root)

-- the transaction, in three parts: the nodes and the file states of a saved root
unfoldable pub save_items : SnapshotRoot → List MerkleNode → List FileState → Tx (Unit {0})
unfolding bulk_upsert_nodes clear_stale_nodes bulk_upsert_files clear_stale_files
save_items saved nodes files = do
  bulk_upsert_nodes saved.id nodes
  clear_stale_nodes saved.id nodes
  bulk_upsert_files saved files
  clear_stale_files saved files

-- its activation
unfoldable pub activate : SnapshotRoot → SnapshotRoot → Tx SnapshotRoot
unfolding finalize_snapshot_root deactivate_superseded delete_superseded
activate root saved = do
  deactivate_superseded root saved
  final ← finalize_snapshot_root saved root
  delete_superseded final
  pure final

-- and the whole, for a root that is normalized
unfoldable pub save_body : SnapshotRoot → List MerkleNode → List FileState → Tx SnapshotRoot
unfolding upsert_snapshot_root save_items activate
save_body root nodes files = do
  saved ← upsert_snapshot_root root
  save_items saved nodes files
  activate root saved

-- the tests of `SaveSnapshotState`
unfoldable pub validate_save : SnapshotRoot → List MerkleNode → List FileState → Result (Unit {0})
unfolding validate_snapshot_root validate_snapshot_nodes validate_file_states
validate_save root nodes files = also (validate_snapshot_root root) (
    also (validate_snapshot_nodes 0 nodes)
      (validate_file_states root.session_id root.repo_root 0 files))

unfoldable pub save_valid :
    Env
    → Tables
    → SnapshotRoot
    → List MerkleNode
    → List FileState
    → Result (Unit {0})
    → Tables × Result SnapshotRoot
unfolding transact save_body
save_valid env t root nodes files (err e) = (t, err e)
save_valid env t root nodes files (ok u) =
    transact (text "begin save snapshot state tx") (text "commit save snapshot state tx") env t
      (save_body root nodes files)

-- `SaveSnapshotState`
unfoldable pub save_snapshot_state :
    Env → Tables → SnapshotRoot → List MerkleNode → List FileState → Tables × Result SnapshotRoot
unfolding normalize_snapshot_root save_valid validate_save
save_snapshot_state env t root nodes files =
    save_valid env t (normalize_snapshot_root root) nodes files
      (validate_save (normalize_snapshot_root root) nodes files)
