-- ===== src/Jobs/Sync/Run.antt =====
-- `run` and `Work` of internal/jobs/river/sync_worker.go. Each step stops with the error of its call,
-- and hands its result to the next one.
use deep_agent_cli.Base.{ℕ, Bool, Option, none, some, if◌then◌else◌, length}
use deep_agent_cli.Text.{Text, text}
use deep_agent_cli.Reply.{Reply, value, fault}
use deep_agent_cli.IndexSync.{Time, SnapshotRoot}
use deep_agent_cli.IndexStore.{SnapshotState}
use deep_agent_cli.Snapshot.{Snapshot}
use deep_agent_cli.Diff
use deep_agent_cli.Diff.{SyncDeltaSet, diff_snapshots}
use deep_agent_cli.Jobs.{
  SyncJobPayload, IndexJobPayload, JobOutcome, JobError, configuration, prepare_previous,
  build_snapshot, load_latest, save_state, enqueue, JobRow, new_job_outcome, Verdict, conclude,
}
use deep_agent_cli.Jobs
use deep_agent_cli.Jobs.Sync.{
  kind_sync_job, EnqueueResult, SnapshotStore, SyncWorker, Normalized, valid, invalid,
  normalize_sync_payload, snapshot_entries_to_merkle_nodes, snapshot_entries_to_file_states,
  Previous, prepared, unprepared, latest_snapshot_for_diff, active_root, index_job, no_changes,
  is_current, with_message, enqueued,
}

abbrev pub Ran : Type 0 → Type 0
Ran S = (JobOutcome × Option JobError) × S

module _ {S : Type 0} (enqueuer : IndexJobPayload → S → S × Reply EnqueueResult) where
  abbrev pub after_enqueue : JobOutcome → S × Reply EnqueueResult → Ran S
  after_enqueue o (s, fault m) = ((o, some (enqueue m)), s)
  after_enqueue o (s, value r) = ((enqueued o r, none), s)

  unfoldable pub after_save :
      JobOutcome → SyncJobPayload → Option ℕ → SyncDeltaSet → S × Reply SnapshotRoot → Ran S
  unfolding index_job
  after_save o p parent set (s, fault m) = ((o, some (save_state m)), s)
  after_save o p parent set (s, value saved) =
      if no_changes set.changes
      then (
        (
          record o { snapshot_id = saved.id; message = text "snapshot saved with no file deltas" },
          none,
        ),
        s,
      )
      else after_enqueue (record o { snapshot_id = saved.id })
          (enqueuer (index_job p saved parent set) s)

module _ {S : Type 0} (store : SnapshotStore S)
    (enqueuer : IndexJobPayload → S → S × Reply EnqueueResult) (saved_at : Time) where
  -- `SaveSnapshotState` of the current snapshot
  abbrev pub save_current : SyncJobPayload → Snapshot → Option ℕ → S → S × Reply SnapshotRoot
  save_current p current parent s =
      store.save s (active_root p current.root_hash parent saved_at)
        (snapshot_entries_to_merkle_nodes current.entries)
        (snapshot_entries_to_file_states p.session_id p.repo_root current.entries)

  unfoldable pub after_diff :
      JobOutcome → SyncJobPayload → Snapshot → Option ℕ → S → Diff.Result SyncDeltaSet → Ran S
  unfolding after_save snapshot_entries_to_merkle_nodes snapshot_entries_to_file_states
  after_diff o p current parent s (Diff.err e) = ((o, some (Jobs.diff_snapshots e)), s)
  after_diff o p current parent s (Diff.ok set) =
      after_save enqueuer (record o { changed_count = length set.changes }) p parent set
        (save_current p current parent s)

  unfoldable pub after_previous : JobOutcome → SyncJobPayload → Snapshot → S → Previous → Ran S
  unfolding after_diff diff_snapshots
  after_previous o p current s (unprepared e) = ((o, some (prepare_previous e)), s)
  after_previous o p current s (prepared previous parent) =
      after_diff o p current parent s (diff_snapshots previous (some current))

  unfoldable pub after_load :
      JobOutcome → SyncJobPayload → Snapshot → S → Reply (Option SnapshotState) → Ran S
  unfolding after_previous latest_snapshot_for_diff
  after_load o p current s (fault m) = ((o, some (load_latest m)), s)
  after_load o p current s (value latest) =
      if is_current current.root_hash latest
      then ((with_message o (text "snapshot already current"), none), s)
      else after_previous o p current s (latest_snapshot_for_diff latest)

  unfoldable pub after_build : JobOutcome → SyncJobPayload → S → Reply Snapshot → Ran S
  unfolding after_load
  after_build o p s (fault m) = ((o, some (build_snapshot m)), s)
  after_build o p s (value current) =
      after_load (record o { root_hash = current.root_hash }) p current s
        (store.load s p.session_id p.repo_root)

  unfoldable pub run_payload :
      (S → Text → Reply Snapshot) → JobOutcome → S → Normalized SyncJobPayload → Ran S
  unfolding after_build
  run_payload builder o s (invalid e) = ((o, some e), s)
  run_payload builder o s (valid p) =
      after_build (record o { session_id = p.session_id; repo_root = p.repo_root }) p s
        (builder s p.repo_root)

abbrev pub required : {S : Type 0} → Text → JobOutcome → S → Ran S
required m o s = ((o, some (configuration m)), s)

-- the tests of `run` on the worker
unfoldable pub run_worker :
    {S : Type 0} → SyncWorker S → Time → JobOutcome → S → Normalized SyncJobPayload → Ran S
unfolding run_payload
run_worker w saved_at o s p = elim w.store [
  | none ↦ required (text "sync worker store is required") o s
  | some store ↦ elim w.enqueuer [
    | none ↦ required (text "sync worker enqueuer is required") o s
    | some enqueuer ↦ elim w.builder [
      | none ↦ required (text "sync worker snapshot builder is required") o s
      | some builder ↦ run_payload store enqueuer saved_at builder o s p
    ]
  ]
]

-- `run`, which reads the clock at `now` for a payload without a time and at `saved_at` for the root
unfoldable pub run :
    {S : Type 0} → SyncWorker S → Time → Time → Option JobRow → SyncJobPayload → S → Ran S
unfolding run_worker new_job_outcome normalize_sync_payload
run w now saved_at row p s =
    run_worker w saved_at (new_job_outcome kind_sync_job p.session_id p.repo_root row) s
      (normalize_sync_payload now p)

-- `Work`; `is_cancellation` tells the errors of a context that is cancelled or past its deadline and
-- of a job that is cancelled remotely.
unfoldable pub work :
    {S : Type 0}
    → (JobError → Bool)
    → SyncWorker S
    → Time
    → Time
    → Option JobRow
    → SyncJobPayload
    → S
    → (JobOutcome × Verdict) × S
unfolding run conclude
work is_cancellation w now saved_at row p s =
    let ((o, e), s') = run w now saved_at row p s in (conclude is_cancellation o e, s')

-- `NewSyncWorker`, over a snapshot builder
abbrev pub new_sync_worker :
    {S : Type 0}
    → SnapshotStore S
    → (IndexJobPayload → S → S × Reply EnqueueResult)
    → (S → Text → Reply Snapshot)
    → SyncWorker S
new_sync_worker store enqueuer builder = record {
  store = some store;
  enqueuer = some enqueuer;
  builder = some builder;
}
