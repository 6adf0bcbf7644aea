-- ===== src/Jobs/Index.antt =====
-- internal/jobs/river/index_worker.go: the worker that applies the delta of a job to the index, once.
pub mod Settled
pub mod Once
use deep_agent_cli.Base.{
  ℕ, Bool, true, false, ◌&&◌, Option, none, some, List, [], ◌∷◌, ◌++◌, ◌==◌, if◌then◌else◌, length,
}
use deep_agent_cli.Text.{Text, text, eq}
use deep_agent_cli.Text.Trim.{trim}
use deep_agent_cli.Reply.{Reply, value, fault}
use deep_agent_cli.IndexSync.{Time, DeltaRecord}
use deep_agent_cli.Indexing.Apply.{DeltaApplyResult}
use deep_agent_cli.Indexing.Records.{itoa}
use deep_agent_cli.Jobs.{
  IndexJobPayload, job_purpose_index_apply_delta, normalize_repo_root, job_identity_key,
  first_non_empty, requested_or, JobOutcome, JobError, configuration, session_id_required,
  repo_root_required, check_applied, run_apply, mark_applied, finalize_apply, JobRow,
  new_job_outcome, Verdict, conclude,
}

abbrev pub kind_index_job : Text
kind_index_job = text "index_apply_delta"

-- `indexCheckpointRecord`
pub record CheckpointRecord : Type 0 where
  pub snapshot_id : ℕ
  pub root_hash : Text

unfoldable pub same_record : CheckpointRecord → CheckpointRecord → Bool
same_record a b = a.snapshot_id == b.snapshot_id && eq a.root_hash b.root_hash

-- the record of `checkpointRecordForPayload`, and the test that a payload has none
unfoldable pub checkpoint_record : IndexJobPayload → CheckpointRecord
checkpoint_record p = record { snapshot_id = p.snapshot_id; root_hash = trim p.root_hash }

unfoldable pub has_no_record : IndexJobPayload → Bool
has_no_record p = p.snapshot_id == 0 && eq (trim p.root_hash) []

unfoldable pub checkpoint_key : IndexJobPayload → Text
unfolding job_identity_key
checkpoint_key p = job_identity_key p.purpose p.session_id p.repo_root

-- the map of `memoryIndexApplyCheckpoint`; its mutex makes each operation one step
abbrev pub Checkpoints : Type 0
Checkpoints = List (Text × CheckpointRecord)

unfoldable pub stored : Text → Checkpoints → Option CheckpointRecord
stored key [] = none
stored key ((k, r) ∷ rest) = if eq key k then some r else stored key rest

unfoldable pub is_stored : CheckpointRecord → Option CheckpointRecord → Bool
unfolding same_record
is_stored r none = false
is_stored r (some q) = same_record q r

-- `IsApplied`
unfoldable pub is_applied : Checkpoints → IndexJobPayload → Bool
unfolding checkpoint_record checkpoint_key has_no_record stored is_stored
is_applied records p =
    if has_no_record p
    then false
    else is_stored (checkpoint_record p) (stored (checkpoint_key p) records)

-- `MarkApplied`: the record takes the place of that of an earlier payload with the same key
unfoldable pub mark : Checkpoints → IndexJobPayload → Checkpoints
unfolding checkpoint_record checkpoint_key has_no_record
mark records p =
    if has_no_record p then records else (checkpoint_key p, checkpoint_record p) ∷ records

-- `indexApplyCheckpoint` over the states `S` of the world
pub record Checkpoint (S : Type 0) : Type 0 where
  pub is_applied : S → IndexJobPayload → Reply Bool
  pub mark_applied : S → IndexJobPayload → S × Reply (Unit {0})

-- `newMemoryIndexApplyCheckpoint`, beside a world of its own
unfoldable pub memory_checkpoint : (W : Type 0) → Checkpoint (Checkpoints × W)
unfolding is_applied mark
memory_checkpoint W = record {
  is_applied = λ s p. value (is_applied s.0 p);
  mark_applied = λ s p. ((mark s.0 p, s.1), value tt);
}

-- `IndexWorker`; `none` stands for nil.
pub record IndexWorker (S : Type 0) : Type 0 where
  pub run : Option (IndexJobPayload → S → S × Reply DeltaApplyResult)
  pub checkpoint : Option (Checkpoint S)
  pub after_apply : Option (IndexJobPayload → DeltaApplyResult → S → S × Reply (Unit {0}))

pub data Normalized (A : Type 0) : Type 0 where
  valid : A → Normalized A
  invalid : JobError → Normalized A

-- the payload that `normalizeIndexPayload` makes at a time
unfoldable pub normalized_payload : Time → IndexJobPayload → IndexJobPayload
unfolding normalize_repo_root first_non_empty
normalized_payload now p = record p {
  session_id = trim p.session_id;
  repo_root = normalize_repo_root p.repo_root;
  purpose = first_non_empty p.purpose job_purpose_index_apply_delta;
  root_hash = trim p.root_hash;
  requested_at = requested_or now p.requested_at;
}

-- `normalizeIndexPayload`
unfoldable pub normalize_index_payload : Time → IndexJobPayload → Normalized IndexJobPayload
unfolding normalized_payload
normalize_index_payload now p =
    if eq (normalized_payload now p).session_id []
    then invalid session_id_required
    else if eq (normalized_payload now p).repo_root []
    then invalid repo_root_required
    else valid (normalized_payload now p)

-- the outcome once the payload is normalized
abbrev pub with_payload : JobOutcome → IndexJobPayload → JobOutcome
with_payload o p = record o {
  session_id = p.session_id;
  repo_root = p.repo_root;
  snapshot_id = p.snapshot_id;
  root_hash = p.root_hash;
  changed_count = length p.delta.changes;
}

abbrev pub with_message : JobOutcome → Text → JobOutcome
with_message o m = record o { message = m }

abbrev pub no_changes : List DeltaRecord → Bool
no_changes [] = true
no_changes (c ∷ cs) = false

unfoldable pub applied_message : DeltaApplyResult → Text
unfolding itoa
applied_message r =
    text "applied delta for "
    ++ (itoa r.files_touched ++ (text " files and " ++ (itoa r.chunks_replaced ++ text " chunks")))

module _ {S : Type 0} (worker : IndexWorker S) where
  abbrev pub Ran : Type 0
  Ran = (JobOutcome × Option JobError) × S

  unfoldable pub after_hook : JobOutcome → DeltaApplyResult → S × Reply (Unit {0}) → Ran
  unfolding applied_message
  after_hook o r (s, fault m) = ((o, some (finalize_apply m)), s)
  after_hook o r (s, value u) = ((with_message o (applied_message r), none), s)

  abbrev pub run_hook : IndexJobPayload → DeltaApplyResult → S → S × Reply (Unit {0})
  run_hook p r s = elim worker.after_apply [ none ↦ (s, value tt) | some hook ↦ hook p r s ]

  unfoldable pub after_mark :
      JobOutcome → IndexJobPayload → DeltaApplyResult → S × Reply (Unit {0}) → Ran
  unfolding after_hook
  after_mark o p r (s, fault m) = ((o, some (mark_applied m)), s)
  after_mark o p r (s, value u) = after_hook o r (run_hook p r s)

  unfoldable pub after_run :
      Checkpoint S → JobOutcome → IndexJobPayload → S × Reply DeltaApplyResult → Ran
  unfolding after_mark
  after_run c o p (s, fault m) = ((o, some (run_apply m)), s)
  after_run c o p (s, value r) = after_mark o p r (c.mark_applied s p)

  unfoldable pub after_check :
      Checkpoint S
      → (IndexJobPayload → S → S × Reply DeltaApplyResult)
      → JobOutcome
      → IndexJobPayload
      → S
      → Reply Bool
      → Ran
  unfolding after_run
  after_check c run o p s (fault m) = ((o, some (check_applied m)), s)
  after_check c run o p s (value true) = ((with_message o (text "delta already applied"), none), s)
  after_check c run o p s (value false) = after_run c o p (run p s)

  -- `runJob` from the normalized payload on
  unfoldable pub run_payload :
      Checkpoint S
      → (IndexJobPayload → S → S × Reply DeltaApplyResult)
      → JobOutcome
      → S
      → Normalized IndexJobPayload
      → Ran
  unfolding after_check
  run_payload c run o s (invalid e) = ((o, some e), s)
  run_payload c run o s (valid p) =
      if no_changes p.delta.changes
      then ((with_message (with_payload o p) (text "delta is empty; skipping apply"), none), s)
      else after_check c run (with_payload o p) p s (c.is_applied s p)

  unfoldable pub run_parts :
      Option (Checkpoint S)
      → Option (IndexJobPayload → S → S × Reply DeltaApplyResult)
      → JobOutcome
      → S
      → Normalized IndexJobPayload
      → Ran
  unfolding run_payload
  run_parts c none o s p = ((o, some (configuration (text "index worker runner is required"))), s)
  run_parts none (some run) o s p =
      ((o, some (configuration (text "index worker checkpoint is required"))), s)
  run_parts (some c) (some run) o s p = run_payload c run o s p

  -- `runJob`, at a time
  unfoldable pub run_job : Time → Option JobRow → IndexJobPayload → S → Ran
  unfolding run_parts new_job_outcome normalize_index_payload
  run_job now row p s =
      run_parts worker.checkpoint worker.run
        (new_job_outcome kind_index_job p.session_id p.repo_root row) s
        (normalize_index_payload now p)

  -- `Work`, which never snoozes
  unfoldable pub work : Time → Option JobRow → IndexJobPayload → S → (JobOutcome × Verdict) × S
  unfolding run_job conclude
  work now row p s = let ((o, e), s') = run_job now row p s in (conclude (λ x. false) o e, s')

-- a runner that works on the world and leaves the memory of the checkpoints alone
abbrev pub in_world :
    {W : Type 0}
    → (IndexJobPayload → W → W × Reply DeltaApplyResult)
    → IndexJobPayload
    → Checkpoints × W
    → (Checkpoints × W) × Reply DeltaApplyResult
in_world run p (records, w) = let (w', reply) = run p w in ((records, w'), reply)

-- `NewIndexWorker`
unfoldable pub new_index_worker :
    {W : Type 0}
    → (IndexJobPayload → W → W × Reply DeltaApplyResult)
    → IndexWorker (Checkpoints × W)
unfolding memory_checkpoint
new_index_worker {W} run = record {
  run = some (in_world run);
  checkpoint = some (memory_checkpoint W);
  after_apply = none;
}
