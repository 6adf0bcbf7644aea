-- ===== src/Jobs/Sync/Did.antt =====
-- What a run of the worker of internal/jobs/river/sync_worker.go did.
use deep_agent_cli.Base.{
  ℕ, ◌≡◌, refl, inl, inr, Bool, true, false, false≢true, Option, none, some, [], if◌then◌else◌,
  Bool-cases, length,
}
use deep_agent_cli.Text.{Text, eq}
use deep_agent_cli.Text.Trim.{trim}
use deep_agent_cli.Reply.{Reply, value, fault}
use deep_agent_cli.IndexSync.{Time, SnapshotRoot}
use deep_agent_cli.IndexStore.{SnapshotState}
use deep_agent_cli.Snapshot.{Snapshot}
use deep_agent_cli.Diff
use deep_agent_cli.Diff.{SyncDeltaSet, diff_snapshots}
use deep_agent_cli.Jobs.{
  SyncJobPayload, IndexJobPayload, JobOutcome, JobError, session_id_required, repo_root_required,
  prepare_previous, build_snapshot, load_latest, save_state, enqueue, JobRow, new_job_outcome,
}
use deep_agent_cli.Jobs
use deep_agent_cli.Jobs.Sync.{
  kind_sync_job, EnqueueResult, SnapshotStore, valid, invalid, normalized_payload,
  normalize_sync_payload, Previous, prepared, unprepared, latest_snapshot_for_diff, index_job,
  no_changes, is_current,
}
use deep_agent_cli.Jobs.Sync.Run.{
  Ran, save_current, after_enqueue, after_save, after_diff, after_previous, after_load, after_build,
  run_payload, run_worker, run, new_sync_worker,
}
use deep_agent_cli.Jobs.Sync.Compared.{
  Compared, Loaded, Stops, no_session, no_repo, unbuilt, unloaded, unpreparable, incomparable,
}

module _ {S : Type 0} (store : SnapshotStore S)
    (enqueuer : IndexJobPayload → S → S × Reply EnqueueResult) (builder : S → Text → Reply Snapshot)
    (now saved_at : Time) (p : SyncJobPayload) (s : S) where
  abbrev pub saving : Compared store builder now p s → S × Reply SnapshotRoot
  saving c = save_current store enqueuer saved_at (normalized_payload now p) c.current c.parent s

  abbrev pub job_of : Compared store builder now p s → SnapshotRoot → IndexJobPayload
  job_of c saved = index_job (normalized_payload now p) saved c.parent c.set

  pub data Did : Option JobError → S → Type 0 where
    stopped : (e : JobError) → Stops store builder now p s e → Did (some e) s
    kept :
        (current : Snapshot) (state : SnapshotState)
        → Loaded store builder now p s current (some state)
        → eq (trim state.root.root_hash) current.root_hash ≡ true
        → Did none s
    unsaved :
        (c : Compared store builder now p s) (s' : S) (m : Text)
        → saving c ≡ (s', fault m)
        → Did (some (save_state m)) s'
    saved :
        (c : Compared store builder now p s) (s' : S) (root : SnapshotRoot)
        → saving c ≡ (s', value root)
        → no_changes c.set.changes ≡ true
        → Did none s'
    queued :
        (c : Compared store builder now p s) (s' s'' : S) (root : SnapshotRoot) (r : EnqueueResult)
        → saving c ≡ (s', value root)
        → no_changes c.set.changes ≡ false
        → enqueuer (job_of c root) s' ≡ (s'', value r)
        → Did none s''
    unqueued :
        (c : Compared store builder now p s) (s' s'' : S) (root : SnapshotRoot) (m : Text)
        → saving c ≡ (s', value root)
        → no_changes c.set.changes ≡ false
        → enqueuer (job_of c root) s' ≡ (s'', fault m)
        → Did (some (enqueue m)) s''

  unfoldable pub Ended : Ran S → Type 0
  Ended ((o, e), s') = Did e s'

  queue-Did :
      (o : JobOutcome) (c : Compared store builder now p s) (s' : S) (root : SnapshotRoot)
      → saving c ≡ (s', value root)
      → no_changes c.set.changes ≡ false
      → (r : S × Reply EnqueueResult) → enqueuer (job_of c root) s' ≡ r
      → Ended (after_enqueue enqueuer o r)
  unfolding Ended
  queue-Did o c s' root h n (s'', fault m) e = unqueued c s' s'' root m h n e
  queue-Did o c s' root h n (s'', value r) e = queued c s' s'' root r h n e

  save-Did :
      (o : JobOutcome) (c : Compared store builder now p s) (r : S × Reply SnapshotRoot)
      → saving c ≡ r
      → Ended (after_save enqueuer o (normalized_payload now p) c.parent c.set r)
  unfolding after_save Ended
  save-Did o c (s', fault m) h = unsaved c s' m h
  save-Did o c (s', value root) h = elim (Bool-cases (no_changes c.set.changes)) [
    | inl e ↦ rw e (saved c s' root h e)
    | inr e ↦ rw e (
        queue-Did (record o { snapshot_id = root.id }) c s' root h e (enqueuer (job_of c root) s')
          refl)
  ]

  module _ (has_session : eq (normalized_payload now p).session_id [] ≡ false)
      (has_repo : eq (normalized_payload now p).repo_root [] ≡ false) (current : Snapshot)
      (latest : Option SnapshotState)
      (is_built : builder s (normalized_payload now p).repo_root ≡ value current)
      (is_loaded : store.load s
          (normalized_payload now p).session_id
          (normalized_payload now p).repo_root
        ≡ value latest) where
    loaded : Loaded store builder now p s current latest
    loaded = record {
      has_session = has_session;
      has_repo = has_repo;
      is_built = is_built;
      is_loaded = is_loaded;
    }

    diff-Did :
        (o : JobOutcome) (previous : Option Snapshot) (parent : Option ℕ)
        → is_current current.root_hash latest ≡ false
        → latest_snapshot_for_diff latest ≡ prepared previous parent
        → (d : Diff.Result SyncDeltaSet) → diff_snapshots previous (some current) ≡ d
        → Ended (after_diff store enqueuer saved_at o (normalized_payload now p) current parent s d)
    unfolding after_diff Ended
    diff-Did o previous parent n h (Diff.err e) d =
        stopped (Jobs.diff_snapshots e) (incomparable current latest previous parent e loaded n h d)
    diff-Did o previous parent n h (Diff.ok set) d =
        save-Did (record o { changed_count = length set.changes })
          (record {
            current = current;
            latest = latest;
            previous = previous;
            parent = parent;
            set = set;
            has_session = has_session;
            has_repo = has_repo;
            is_built = is_built;
            is_loaded = is_loaded;
            is_new = n;
            is_prepared = h;
            is_compared = d;
          })
          (save_current store enqueuer saved_at (normalized_payload now p) current parent s) refl

    previous-Did :
        (o : JobOutcome)
        → is_current current.root_hash latest ≡ false
        → (h : Previous) → latest_snapshot_for_diff latest ≡ h
        → Ended (after_previous store enqueuer saved_at o (normalized_payload now p) current s h)
    unfolding after_previous Ended
    previous-Did o n (unprepared e) h =
        stopped (prepare_previous e) (unpreparable current latest e loaded n h)
    previous-Did o n (prepared previous parent) h =
        diff-Did o previous parent n h (diff_snapshots previous (some current)) refl

  kept-Did :
      (o : JobOutcome) (current : Snapshot) (latest : Option SnapshotState)
      → Loaded store builder now p s current latest
      → is_current current.root_hash latest ≡ true
      → Ended ((o, none), s)
  unfolding Ended
  kept-Did o current none l h = absurd (false≢true h)
  kept-Did o current (some state) l h = kept current state l h

  load-Did :
      (has_session : eq (normalized_payload now p).session_id [] ≡ false)
      (has_repo : eq (normalized_payload now p).repo_root [] ≡ false) (o : JobOutcome)
      (current : Snapshot)
      → builder s (normalized_payload now p).repo_root ≡ value current
      → (l : Reply (Option SnapshotState))
      → store.load s (normalized_payload now p).session_id (normalized_payload now p).repo_root ≡ l
      → Ended (after_load store enqueuer saved_at o (normalized_payload now p) current s l)
  unfolding after_load Ended
  load-Did a r o current b (fault m) h = stopped (load_latest m) (unloaded current m a r b h)
  load-Did a r o current b (value latest) h =
      elim (Bool-cases (is_current current.root_hash latest)) [
        | inl e ↦ rw e (kept-Did o current latest (loaded a r current latest b h) e)
        | inr e ↦
            rw e (previous-Did a r current latest b h o e (latest_snapshot_for_diff latest) refl)
      ]

  build-Did :
      (has_session : eq (normalized_payload now p).session_id [] ≡ false)
      (has_repo : eq (normalized_payload now p).repo_root [] ≡ false) (o : JobOutcome)
      (b : Reply Snapshot)
      → builder s (normalized_payload now p).repo_root ≡ b
      → Ended (after_build store enqueuer saved_at o (normalized_payload now p) s b)
  unfolding after_build Ended
  build-Did a r o (fault m) h = stopped (build_snapshot m) (unbuilt m a r h)
  build-Did a r o (value current) h =
      load-Did a r (record o { root_hash = current.root_hash }) current h
        (store.load s (normalized_payload now p).session_id (normalized_payload now p).repo_root)
        refl

  payload-Did :
      (o : JobOutcome) (a b : Bool)
      → eq (normalized_payload now p).session_id [] ≡ a
      → eq (normalized_payload now p).repo_root [] ≡ b
      → Ended (
          run_payload store enqueuer saved_at builder o s (
            if a
            then invalid session_id_required
            else if b
            then invalid repo_root_required
            else valid (normalized_payload now p)))
  unfolding run_payload Ended
  payload-Did o true b h k = stopped session_id_required (no_session h)
  payload-Did o false true h k = stopped repo_root_required (no_repo h k)
  payload-Did o false false h k =
      build-Did h k
        (record o {
          session_id = (normalized_payload now p).session_id;
          repo_root = (normalized_payload now p).repo_root;
        })
        (builder s (normalized_payload now p).repo_root) refl

  -- A run of the sync worker, over any store, queue and snapshot builder: it fails before it saves and
  -- changes nothing; or the latest snapshot has the root hash of the repository and it changes nothing;
  -- or it saves the snapshot, the only thing it saves, and then queues one job, for the saved root and
  -- the difference of the two snapshots, exactly when that has changes. Its error is that of the step
  -- that failed.
  pub run-Did :
      (row : Option JobRow)
      → Ended (run (new_sync_worker store enqueuer builder) now saved_at row p s)
  unfolding run run_worker normalize_sync_payload
  run-Did row =
      payload-Did (new_job_outcome kind_sync_job p.session_id p.repo_root row)
        (eq (normalized_payload now p).session_id []) (eq (normalized_payload now p).repo_root [])
        refl refl
