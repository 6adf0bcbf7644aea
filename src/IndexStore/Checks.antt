-- ===== src/IndexStore/Checks.antt =====
-- The tests of internal/indexstore/sync_store.go before a transaction begins, and `validateScope` of
-- store.go.
use deep_agent_cli.Base.{ℕ, suc, Bool, false, not, List, [], ◌∷◌, if◌then◌else◌}
use deep_agent_cli.Text.{Text, text, eq}
use deep_agent_cli.Text.Trim.{trim}
use deep_agent_cli.IndexSync.{
  NodeType, FileStatus, SnapshotStatus, SnapshotRoot, MerkleNode, FileState,
}
use deep_agent_cli.IndexStore.Tables.{
  session_id_required, repo_root_required, root_hash_required, node_path_required,
  node_hash_required, node_type_required, node_status_required, rel_path_required, status_required,
  session_mismatch, repo_root_mismatch, item, Result, ok, err, also,
}

abbrev pub is_blank : Text → Bool
is_blank s = eq (trim s) []

-- `validateScope`
unfoldable pub validate_scope : Text → Text → Result (Unit {0})
validate_scope session_id repo_root =
    if is_blank session_id
    then err session_id_required
    else if is_blank repo_root
    then err repo_root_required
    else ok tt

-- `validateSnapshotRoot`
unfoldable pub validate_snapshot_root : SnapshotRoot → Result (Unit {0})
unfolding validate_scope
validate_snapshot_root root =
    also (validate_scope root.session_id root.repo_root)
      (if is_blank root.root_hash then err root_hash_required else ok tt)

-- `status == ""`
unfoldable pub no_status : FileStatus → Bool
no_status (FileStatus.other s) = eq s []
no_status _ = false

unfoldable pub no_type : NodeType → Bool
no_type (NodeType.other s) = eq s []
no_type _ = false

unfoldable pub validate_node : MerkleNode → Result (Unit {0})
unfolding no_status no_type
validate_node n =
    if is_blank n.path
    then err node_path_required
    else if is_blank n.node_hash
    then err node_hash_required
    else if no_type n.node_type
    then err node_type_required
    else if no_status n.status
    then err node_status_required
    else ok tt

at_item : Text → ℕ → Result (Unit {0}) → Result (Unit {0})
at_item label i (ok u) = ok u
at_item label i (err e) = err (item label i e)

-- `validateSnapshotNodes`, from an index on
unfoldable pub validate_snapshot_nodes : ℕ → List MerkleNode → Result (Unit {0})
unfolding validate_node at_item
validate_snapshot_nodes i [] = ok tt
validate_snapshot_nodes i (n ∷ ns) =
    also (at_item (text "node") i (validate_node n)) (validate_snapshot_nodes (suc i) ns)

unfoldable pub validate_file : Text → Text → FileState → Result (Unit {0})
unfolding validate_scope no_status
validate_file session_id repo_root f = also (validate_scope f.session_id f.repo_root) (
    if not (eq f.session_id session_id)
    then err session_mismatch
    else if not (eq f.repo_root repo_root)
    then err repo_root_mismatch
    else if is_blank f.rel_path
    then err rel_path_required
    else if no_status f.status
    then err status_required
    else ok tt)

-- `validateFileStates`, from an index on
unfoldable pub validate_file_states : Text → Text → ℕ → List FileState → Result (Unit {0})
unfolding validate_file at_item
validate_file_states session_id repo_root i [] = ok tt
validate_file_states session_id repo_root i (f ∷ fs) =
    also (at_item (text "file state") i (validate_file session_id repo_root f))
      (validate_file_states session_id repo_root (suc i) fs)

unfoldable pub or_pending : SnapshotStatus → SnapshotStatus
or_pending (SnapshotStatus.other s) =
    if eq s [] then SnapshotStatus.pending else SnapshotStatus.other s
or_pending s = s

-- `normalizeSnapshotRoot`
unfoldable pub normalize_snapshot_root : SnapshotRoot → SnapshotRoot
unfolding or_pending
normalize_snapshot_root root = record root { status = or_pending root.status }
