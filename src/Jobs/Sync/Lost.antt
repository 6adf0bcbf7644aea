-- ===== src/Jobs/Sync/Lost.antt =====
-- What a failure to queue the job of a snapshot means in internal/jobs/river/sync_worker.go.
use deep_agent_cli.Base.{
  ◌≡◌, refl, sym, ◌∙◌, subst, true, false, Option, none, some, List, [], arith,
}
use deep_agent_cli.Text.{Text, eq, eq_refl}
use deep_agent_cli.Text.Trim.{trim}
use deep_agent_cli.Reply.{Reply, value, fault}
use deep_agent_cli.IndexSync.{Time, SnapshotRoot, MerkleNode, FileState}
use deep_agent_cli.IndexStore.{SnapshotState}
use deep_agent_cli.Snapshot.{Snapshot}
use deep_agent_cli.Jobs.{SyncJobPayload, IndexJobPayload, JobError, enqueue, JobRow}
use deep_agent_cli.Jobs.Sync.{
  EnqueueResult, SnapshotStore, normalized_payload, normalize_sync_payload,
}
use deep_agent_cli.Jobs.Sync.Run.{
  Ran, save_current, run, run_worker, run_payload, after_build, after_load, new_sync_worker,
}
use deep_agent_cli.Jobs.Sync.Compared.{Compared, Stops-early, is_early}
use deep_agent_cli.Jobs.Sync.Did.{
  Did, stopped, kept, unsaved, saved, queued, unqueued, Ended, run-Did,
}

-- What the worker relies on: an active root that is saved is the latest snapshot of its scope; to save
-- does not touch the files of the repository; a root hash, in hexadecimal, has no space around it.
pub record Laws {S : Type 0} (store : SnapshotStore S) (builder : S → Text → Reply Snapshot)
    : Type 0 where
  pub saves :
      (s s' : S) (root root' : SnapshotRoot) (nodes : List MerkleNode) (files : List FileState)
      → root.is_active ≡ true
      → store.save s root nodes files ≡ (s', value root')
      → ((state : SnapshotState) × ((store.load s' root.session_id root.repo_root
              ≡ value (some state))
            × (state.root.root_hash ≡ root.root_hash)))
  pub keeps_files :
      (s s' : S) (root root' : SnapshotRoot) (nodes : List MerkleNode) (files : List FileState)
      (r : Text)
      → store.save s root nodes files ≡ (s', value root')
      → builder s' r ≡ builder s r
  pub trims :
      (s : S) (r : Text) (c : Snapshot) → builder s r ≡ value c → trim c.root_hash ≡ c.root_hash

not_early : (m : Text) (e : JobError) → is_early e ≡ true → ¬ (some e ≡ some (enqueue m))
not_early m e k h = ground arith

module _ {S : Type 0} (store : SnapshotStore S) (builder : S → Text → Reply Snapshot) where
  -- A repository whose latest snapshot is current: the run succeeds and changes nothing.
  run-kept :
      (enqueuer : IndexJobPayload → S → S × Reply EnqueueResult) (now saved_at : Time)
      (row : Option JobRow) (p : SyncJobPayload) (s : S) (c : Snapshot) (state : SnapshotState)
      → eq (normalized_payload now p).session_id [] ≡ false
      → eq (normalized_payload now p).repo_root [] ≡ false
      → builder s (normalized_payload now p).repo_root ≡ value c
      → store.load s (normalized_payload now p).session_id (normalized_payload now p).repo_root
        ≡ value (some state)
      → eq (trim state.root.root_hash) c.root_hash ≡ true
      → ((run (new_sync_worker store enqueuer builder) now saved_at row p s).0.1 ≡ none)
        × ((run (new_sync_worker store enqueuer builder) now saved_at row p s).1 ≡ s)
  unfolding run run_worker normalize_sync_payload run_payload after_build after_load
  run-kept enqueuer now saved_at row p s c state a r b l e = rw (a, r, b, l, e) (refl, refl)

  module _ (laws : Laws store builder) (enqueuer : IndexJobPayload → S → S × Reply EnqueueResult)
      (keeps : (j : IndexJobPayload) (s s' : S) (m : Text) → enqueuer j s ≡ (s', fault m) → s' ≡ s)
      (retry_enqueuer : IndexJobPayload → S → S × Reply EnqueueResult)
      (now saved_at later saved_later : Time) (row retry_row : Option JobRow) (p : SyncJobPayload)
      (s : S) where
    abbrev pub retried : S → Ran S
    retried s' = run (new_sync_worker store retry_enqueuer builder) later saved_later retry_row p s'

    saved-kept :
        (c : Compared store builder now p s) (s' : S) (root : SnapshotRoot)
        → save_current store enqueuer saved_at (normalized_payload now p) c.current c.parent s
          ≡ (s', value root)
        → ((retried s').0.1 ≡ none) × ((retried s').1 ≡ s')
    unfolding normalized_payload
    saved-kept c s' root h =
        let (state, (l, e)) = laws.saves s s' _ root _ _ refl h in
        run-kept retry_enqueuer later saved_later retry_row p s' c.current state c.has_session
          c.has_repo (laws.keeps_files s s' _ root _ _ _ h ∙ c.is_built) l
          (rw (e, laws.trims s _ c.current c.is_built) (eq_refl c.current.root_hash))

    did-lost :
        (e : Option JobError) (s' : S) (m : Text)
        → Did store enqueuer builder now saved_at p s e s'
        → e ≡ some (enqueue m)
        → ((retried s').0.1 ≡ none) × ((retried s').1 ≡ s')
    did-lost e s' m (stopped e' k) h =
        absurd (not_early m e' (Stops-early store builder now p s e' k) h)
    did-lost e s' m (kept c state l k) h = absurd (ground arith)
    did-lost e s' m (unsaved c _ m' k) h = absurd (ground arith)
    did-lost e s' m (saved c _ root k n) h = absurd (ground arith)
    did-lost e s' m (queued c _ _ root r k n q) h = absurd (ground arith)
    did-lost e s' m (unqueued c s1 _ root m' k n q) h =
        subst (λ x. ((retried x).0.1 ≡ none) × ((retried x).1 ≡ x)) (sym (keeps _ s1 s' m' q))
          (saved-kept c s1 root k)

    -- A delta whose job could not be queued is lost. Over a store and a builder that keep their laws
    -- and a queue whose failed insertions leave no trace: when a run fails to queue the job of the
    -- snapshot that it saved, then a retry of it, at any time and with any queue, even one that works,
    -- succeeds and changes nothing, so it queues no job.
    pub run-lost :
        (m : Text)
        → (run (new_sync_worker store enqueuer builder) now saved_at row p s).0.1 ≡ some (enqueue m)
        → ((retried (run (new_sync_worker store enqueuer builder) now saved_at row p s).1).0.1
            ≡ none)
          × ((retried (run (new_sync_worker store enqueuer builder) now saved_at row p s).1).1
              ≡ (run (new_sync_worker store enqueuer builder) now saved_at row p s).1)
    unfolding Ended
    run-lost m h =
        let r = run (new_sync_worker store enqueuer builder) now saved_at row p s in
        did-lost r.0.1 r.1 m (run-Did store enqueuer builder now saved_at p s row) h
