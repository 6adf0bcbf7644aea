-- ===== src/Jobs/Sync/Compared.antt =====
-- What a run of internal/jobs/river/sync_worker.go compared, and why it stops before it saves.
use deep_agent_cli.Base.{ℕ, ◌≡◌, refl, Bool, true, false, Option, some, []}
use deep_agent_cli.Text.{Text, eq}
use deep_agent_cli.Reply.{Reply, value, fault}
use deep_agent_cli.IndexSync.{Time}
use deep_agent_cli.IndexStore.{SnapshotState}
use deep_agent_cli.Snapshot.{Snapshot}
use deep_agent_cli.Snapshot.Build.{BuildError}
use deep_agent_cli.Diff
use deep_agent_cli.Diff.{SyncDeltaSet, diff_snapshots}
use deep_agent_cli.Jobs.{
  SyncJobPayload, IndexJobPayload, JobOutcome, JobError, session_id_required, repo_root_required,
  prepare_previous, build_snapshot, load_latest, save_state, enqueue, JobRow, new_job_outcome,
}
use deep_agent_cli.Jobs
use deep_agent_cli.Jobs.Sync.{
  SnapshotStore, normalized_payload, prepared, unprepared, latest_snapshot_for_diff, is_current,
}

-- an error that `run` returns before it saves
abbrev pub is_early : JobError → Bool
is_early (save_state m) = false
is_early (enqueue m) = false
is_early _ = true

module _ {S : Type 0} (store : SnapshotStore S) (builder : S → Text → Reply Snapshot) (now : Time)
    (p : SyncJobPayload) (s : S) where
  -- The run compared the repository with a latest snapshot that is not its current one.
  pub record Compared : Type 0 where
    pub current : Snapshot
    pub latest : Option SnapshotState
    pub previous : Option Snapshot
    pub parent : Option ℕ
    pub set : SyncDeltaSet
    pub has_session : eq (normalized_payload now p).session_id [] ≡ false
    pub has_repo : eq (normalized_payload now p).repo_root [] ≡ false
    pub is_built : builder s (normalized_payload now p).repo_root ≡ value current
    pub is_loaded :
        store.load s (normalized_payload now p).session_id (normalized_payload now p).repo_root
        ≡ value latest
    pub is_new : is_current current.root_hash latest ≡ false
    pub is_prepared : latest_snapshot_for_diff latest ≡ prepared previous parent
    pub is_compared : diff_snapshots previous (some current) ≡ Diff.ok set

  -- The run built the snapshot of the repository, and loaded the latest one.
  pub record Loaded (current : Snapshot) (latest : Option SnapshotState) : Type 0 where
    pub has_session : eq (normalized_payload now p).session_id [] ≡ false
    pub has_repo : eq (normalized_payload now p).repo_root [] ≡ false
    pub is_built : builder s (normalized_payload now p).repo_root ≡ value current
    pub is_loaded :
        store.load s (normalized_payload now p).session_id (normalized_payload now p).repo_root
        ≡ value latest

  -- Why a run stops before it saves: each error is that of a step that failed, behind steps that
  -- succeeded.
  pub data Stops : JobError → Type 0 where
    no_session : eq (normalized_payload now p).session_id [] ≡ true → Stops session_id_required
    no_repo :
        eq (normalized_payload now p).session_id [] ≡ false
        → eq (normalized_payload now p).repo_root [] ≡ true
        → Stops repo_root_required
    unbuilt :
        (m : Text)
        → eq (normalized_payload now p).session_id [] ≡ false
        → eq (normalized_payload now p).repo_root [] ≡ false
        → builder s (normalized_payload now p).repo_root ≡ fault m
        → Stops (build_snapshot m)
    unloaded :
        (current : Snapshot) (m : Text)
        → eq (normalized_payload now p).session_id [] ≡ false
        → eq (normalized_payload now p).repo_root [] ≡ false
        → builder s (normalized_payload now p).repo_root ≡ value current
        → store.load s (normalized_payload now p).session_id (normalized_payload now p).repo_root
          ≡ fault m
        → Stops (load_latest m)
    unpreparable :
        (current : Snapshot) (latest : Option SnapshotState) (e : Option BuildError)
        → Loaded current latest
        → is_current current.root_hash latest ≡ false
        → latest_snapshot_for_diff latest ≡ unprepared e
        → Stops (prepare_previous e)
    incomparable :
        (current : Snapshot) (latest : Option SnapshotState) (previous : Option Snapshot)
        (parent : Option ℕ) (e : Diff.DiffError)
        → Loaded current latest
        → is_current current.root_hash latest ≡ false
        → latest_snapshot_for_diff latest ≡ prepared previous parent
        → diff_snapshots previous (some current) ≡ Diff.err e
        → Stops (Jobs.diff_snapshots e)

  pub Stops-early : (e : JobError) → Stops e → is_early e ≡ true
  Stops-early _ (no_session h) = refl
  Stops-early _ (no_repo h k) = refl
  Stops-early _ (unbuilt m h k b) = refl
  Stops-early _ (unloaded c m h k b l) = refl
  Stops-early _ (unpreparable c latest e l n h) = refl
  Stops-early _ (incomparable c latest previous parent e l n h d) = refl
