-- ===== src/Jobs/Sync.antt =====
-- internal/jobs/river/sync_worker.go: the worker that compares a repository with its latest snapshot,
-- saves the new one and queues the job that applies the difference to the index. Identifiers and
-- times that the database assigns are 0 in what the worker builds.
pub mod Run
pub mod Compared
pub mod Did
pub mod Lost
pub mod Database
use deep_agent_cli.Base.{
  ℕ, Bool, true, false, Option, none, some, List, [], ◌∷◌, map, if◌then◌else◌,
}
use deep_agent_cli.Text.{Text, text, eq}
use deep_agent_cli.Text.Trim.{trim}
use deep_agent_cli.Reply.{Reply, value, fault}
use deep_agent_cli.IndexSync.{
  Time, NodeType, file, dir, same_type, active, add, modify, delete, DeltaAction, SnapshotRoot,
  MerkleNode, FileState, DeltaRecord, SyncDelta,
}
use deep_agent_cli.IndexSync
use deep_agent_cli.IndexStore.{SnapshotState}
use deep_agent_cli.Snapshot.{Entry, Node, Snapshot}
use deep_agent_cli.Snapshot.Build.{BuildError, built, failed, build_node_tree}
use deep_agent_cli.Snapshot.Build
use deep_agent_cli.Diff
use deep_agent_cli.Diff.{DeltaOp, FileDelta, SyncDeltaSet, diff_snapshots}
use deep_agent_cli.Jobs.{
  SyncJobPayload, IndexJobPayload, job_purpose_sync_scan, job_purpose_index_apply_delta,
  normalize_repo_root, first_non_empty, requested_or, JobOutcome, JobError, configuration,
  session_id_required, repo_root_required, prepare_previous, build_snapshot, load_latest,
  save_state, enqueue, JobRow, new_job_outcome, Verdict, conclude,
}

abbrev pub kind_sync_job : Text
kind_sync_job = text "index_sync"

-- `EnqueueResult` of client.go
pub record EnqueueResult : Type 0 where
  pub job_id : ℕ
  pub duplicate : Bool
  pub kind : Text
  pub queue : Text
  pub scheduled_at : Time

-- `syncSnapshotStore` over the states `S` of the world
pub record SnapshotStore (S : Type 0) : Type 0 where
  pub load : S → Text → Text → Reply (Option SnapshotState)
  pub save : S → SnapshotRoot → List MerkleNode → List FileState → S × Reply SnapshotRoot

-- `SyncWorker`; `none` stands for nil.
pub record SyncWorker (S : Type 0) : Type 0 where
  pub store : Option (SnapshotStore S)
  pub enqueuer : Option (IndexJobPayload → S → S × Reply EnqueueResult)
  pub builder : Option (S → Text → Reply Snapshot)

pub data Normalized (A : Type 0) : Type 0 where
  valid : A → Normalized A
  invalid : JobError → Normalized A

-- the payload that `normalizeSyncPayload` makes at a time
unfoldable pub normalized_payload : Time → SyncJobPayload → SyncJobPayload
unfolding normalize_repo_root first_non_empty
normalized_payload now p = record {
  session_id = trim p.session_id;
  repo_root = normalize_repo_root p.repo_root;
  purpose = first_non_empty p.purpose job_purpose_sync_scan;
  trigger = trim p.trigger;
  requested_at = requested_or now p.requested_at;
}

-- `normalizeSyncPayload`
unfoldable pub normalize_sync_payload : Time → SyncJobPayload → Normalized SyncJobPayload
unfolding normalized_payload
normalize_sync_payload now p =
    if eq (normalized_payload now p).session_id []
    then invalid session_id_required
    else if eq (normalized_payload now p).repo_root []
    then invalid repo_root_required
    else valid (normalized_payload now p)

abbrev pub entry_of_node : MerkleNode → Entry
entry_of_node n = record {
  path = n.path;
  parent_path = n.parent_path;
  node_type = n.node_type;
  node_hash = n.node_hash;
  parent_hash = n.parent_hash;
  content_hash = n.content_hash;
  size_bytes = n.size_bytes;
  mtime_ns = n.mtime_ns;
}

-- `snapshotEntriesToMerkleNodes`
abbrev pub node_of_entry : Entry → MerkleNode
node_of_entry e = record {
  id = 0;
  snapshot_id = 0;
  path = e.path;
  parent_path = e.parent_path;
  node_type = e.node_type;
  node_hash = e.node_hash;
  parent_hash = e.parent_hash;
  content_hash = e.content_hash;
  size_bytes = e.size_bytes;
  mtime_ns = e.mtime_ns;
  status = active;
  created_at = 0;
}

unfoldable pub snapshot_entries_to_merkle_nodes : List Entry → List MerkleNode
snapshot_entries_to_merkle_nodes entries = map node_of_entry entries

abbrev pub state_of_entry : Text → Text → Entry → FileState
state_of_entry session_id repo_root e = record {
  id = 0;
  session_id = session_id;
  repo_root = repo_root;
  rel_path = e.path;
  last_snapshot_id = none;
  content_hash = e.content_hash;
  node_hash = e.node_hash;
  parent_hash = e.parent_hash;
  chunk_set_hash = [];
  size_bytes = e.size_bytes;
  mtime_ns = e.mtime_ns;
  status = active;
  deleted_at = none;
  updated_at = 0;
}

-- `snapshotEntriesToFileStates`
unfoldable pub snapshot_entries_to_file_states : Text → Text → List Entry → List FileState
unfolding same_type
snapshot_entries_to_file_states session_id repo_root [] = []
snapshot_entries_to_file_states session_id repo_root (e ∷ es) =
    let rest = snapshot_entries_to_file_states session_id repo_root es in
    if same_type e.node_type file then state_of_entry session_id repo_root e ∷ rest else rest

-- `snapshotFromMerkleNodes`
unfoldable pub snapshot_from_merkle_nodes : Text → List MerkleNode → Text → Build.Result Snapshot
unfolding build_node_tree
snapshot_from_merkle_nodes repo_root nodes root_hash =
    elim (build_node_tree (map entry_of_node nodes)) [
      | failed e ↦ failed e
      | built root ↦ built (record {
        repo_root = repo_root;
        entries = map entry_of_node nodes;
        root = some root;
        root_hash = root_hash;
      })
    ]

-- what `latestSnapshotForDiff` makes of a state: the snapshot and the id of its parent
pub data Previous : Type 0 where
  prepared : Option Snapshot → Option ℕ → Previous
  unprepared : Option BuildError → Previous

abbrev pub previous_of : ℕ → Build.Result Snapshot → Previous
previous_of id (built s) = prepared (some s) (some id)
previous_of id (failed e) = unprepared (some e)

-- `latestSnapshotForDiff`
unfoldable pub latest_snapshot_for_diff : Option SnapshotState → Previous
unfolding snapshot_from_merkle_nodes
latest_snapshot_for_diff none = prepared none none
latest_snapshot_for_diff (some state) =
    if eq (trim state.root.root_hash) []
    then unprepared none
    else previous_of state.root.id
        (snapshot_from_merkle_nodes state.root.repo_root state.nodes state.root.root_hash)

-- `deltaActionFromOp`
abbrev pub delta_action_from_op : DeltaOp → DeltaAction
delta_action_from_op DeltaOp.add = add
delta_action_from_op DeltaOp.delete = delete
delta_action_from_op _ = modify

abbrev pub record_of_change : FileDelta → DeltaRecord
record_of_change c = record {
  path = c.path;
  action = delta_action_from_op c.op;
  node_type = file;
  previous_node_hash = c.previous_node_hash;
  current_node_hash = c.current_node_hash;
  previous_content_hash = c.previous_content_hash;
  current_content_hash = c.current_content_hash;
}

-- `syncDeltaFromSet`
unfoldable pub sync_delta_from_set : Text → Text → Option ℕ → ℕ → SyncDeltaSet → SyncDelta
sync_delta_from_set session_id repo_root previous_snapshot_id current_snapshot_id set = record {
  session_id = session_id;
  repo_root = repo_root;
  previous_snapshot_id = previous_snapshot_id;
  current_snapshot_id = some current_snapshot_id;
  previous_root_hash = set.previous_root_hash;
  current_root_hash = set.current_root_hash;
  changes = map record_of_change set.changes;
}

-- the root that `run` saves, and the payload of the job that it queues for the saved root
abbrev pub active_root : SyncJobPayload → Text → Option ℕ → Time → SnapshotRoot
active_root p root_hash parent saved_at = record {
  id = 0;
  session_id = p.session_id;
  repo_root = p.repo_root;
  root_hash = root_hash;
  parent_snapshot_id = parent;
  status = IndexSync.SnapshotStatus.active;
  is_active = true;
  created_at = 0;
  completed_at = some saved_at;
}

unfoldable pub index_job : SyncJobPayload → SnapshotRoot → Option ℕ → SyncDeltaSet → IndexJobPayload
unfolding sync_delta_from_set
index_job p saved parent set = record {
  session_id = p.session_id;
  repo_root = p.repo_root;
  purpose = job_purpose_index_apply_delta;
  snapshot_id = saved.id;
  root_hash = saved.root_hash;
  delta = sync_delta_from_set p.session_id p.repo_root parent saved.id set;
  requested_at = p.requested_at;
}

abbrev pub no_changes : List FileDelta → Bool
no_changes [] = true
no_changes (c ∷ cs) = false

abbrev pub is_current : Text → Option SnapshotState → Bool
is_current hash none = false
is_current hash (some state) = eq (trim state.root.root_hash) hash

abbrev pub with_message : JobOutcome → Text → JobOutcome
with_message o m = record o { message = m }

abbrev pub enqueued : JobOutcome → EnqueueResult → JobOutcome
enqueued o r = record o {
  enqueued_job_id = r.job_id;
  duplicate = r.duplicate;
  message = if r.duplicate then text "index job already queued" else text "index job enqueued";
}
