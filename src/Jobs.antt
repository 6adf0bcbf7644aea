-- ===== src/Jobs.antt =====
-- The jobs of the index: internal/jobs/contracts/index_sync_job.go, and what the workers and the
-- client of internal/jobs/river share. A time of `none` is the zero time; logs, metrics and what
-- only they report of an outcome, its error text and its durations, are left out.
pub mod Index
pub mod Sync
use deep_agent_cli.Base.{
  ℕ, Bool, true, false, not, Option, none, some, [], ◌++◌, ◌==◌, if◌then◌else◌,
}
use deep_agent_cli.Text.{Text, text, eq, to_lower}
use deep_agent_cli.Text.Trim.{trim}
use deep_agent_cli.FilePath.{clean}
use deep_agent_cli.IndexSync.{Time, SyncDelta}
use deep_agent_cli.Snapshot.Build.{BuildError}
use deep_agent_cli.Diff.{DiffError}

pub record SyncJobPayload : Type 0 where
  pub session_id : Text
  pub repo_root : Text
  pub purpose : Text
  pub trigger : Text
  pub requested_at : Option Time

-- A snapshot id of 0 stands for none.
pub record IndexJobPayload : Type 0 where
  pub session_id : Text
  pub repo_root : Text
  pub purpose : Text
  pub snapshot_id : ℕ
  pub root_hash : Text
  pub delta : SyncDelta
  pub requested_at : Option Time

abbrev pub job_purpose_sync_scan : Text
job_purpose_sync_scan = text "sync.scan"

abbrev pub job_purpose_index_apply_delta : Text
job_purpose_index_apply_delta = text "index.apply_delta"

-- `normalizePart`
unfoldable pub normalize_part : Text → Text
unfolding to_lower
normalize_part value = to_lower (trim value)

-- `normalizeRepoRoot`, which contracts and river both declare
unfoldable pub normalize_repo_root : Text → Text
normalize_repo_root repo_root = if eq (trim repo_root) [] then [] else clean (trim repo_root)

abbrev pub separator : Text
separator = text "::"

-- `JobIdentityKey`
unfoldable pub job_identity_key : Text → Text → Text → Text
unfolding normalize_part normalize_repo_root
job_identity_key purpose session_id repo_root =
    normalize_part purpose
    ++ (separator ++ (normalize_part session_id ++ (separator ++ normalize_repo_root repo_root)))

-- `firstNonEmpty`
unfoldable pub first_non_empty : Text → Text → Text
first_non_empty value fallback = if not (eq (trim value) []) then trim value else fallback

-- `if requestedAt.IsZero() { requestedAt = time.Now() }`
abbrev pub requested_or : Time → Option Time → Option Time
requested_or now none = some now
requested_or now (some t) = some t

pub data OutcomeStatus : Type 0 where
  success retry failure : OutcomeStatus

pub record JobOutcome : Type 0 where
  pub status : OutcomeStatus
  pub kind : Text
  pub job_id : ℕ
  pub session_id : Text
  pub repo_root : Text
  pub attempt : ℕ
  pub snapshot_id : ℕ
  pub root_hash : Text
  pub enqueued_job_id : ℕ
  pub duplicate : Bool
  pub changed_count : ℕ
  pub message : Text

-- What `run` and `runJob` may fail with; a dependency's error is its message. `prepare_previous none`
-- says that the latest snapshot has no root hash.
pub data JobError : Type 0 where
  configuration : Text → JobError
  session_id_required repo_root_required : JobError
  prepare_previous : Option BuildError → JobError
  diff_snapshots : DiffError → JobError
  build_snapshot load_latest save_state enqueue : Text → JobError
  check_applied run_apply mark_applied finalize_apply : Text → JobError

-- `isRetryableWorkerError` of an error
unfoldable pub is_retryable : JobError → Bool
is_retryable (configuration m) = false
is_retryable _ = true

-- The queue's row of a job; the code takes a job without one.
pub record JobRow : Type 0 where
  pub id : ℕ
  pub attempt : ℕ

abbrev pub row_id : Option JobRow → ℕ
row_id none = 0
row_id (some r) = r.id

abbrev pub row_attempt : Option JobRow → ℕ
row_attempt none = 0
row_attempt (some r) = r.attempt

-- `newJobOutcome`
unfoldable pub new_job_outcome : Text → Text → Text → Option JobRow → JobOutcome
unfolding normalize_repo_root
new_job_outcome kind session_id repo_root row = record {
  status = success;
  kind = kind;
  job_id = row_id row;
  session_id = trim session_id;
  repo_root = normalize_repo_root repo_root;
  attempt = row_attempt row;
  snapshot_id = 0;
  root_hash = [];
  enqueued_job_id = 0;
  duplicate = false;
  changed_count = 0;
  message = [];
}

-- `finishOutcome`: a job without an id is known by its attempt
unfoldable pub finish_outcome : JobOutcome → JobOutcome
finish_outcome o = record o { job_id = if o.job_id == 0 then o.attempt else o.job_id }

-- What `Work` returns to the queue.
pub data Verdict : Type 0 where
  completed snoozed : Verdict
  retried cancelled : JobError → Verdict

-- what a worker makes of the result of a run: the reported outcome, and the answer to the queue
unfoldable pub conclude : (JobError → Bool) → JobOutcome → Option JobError → JobOutcome × Verdict
unfolding finish_outcome is_retryable
conclude is_snoozed outcome none = (finish_outcome outcome, completed)
conclude is_snoozed outcome (some e) =
    if is_retryable e
    then (
      record (finish_outcome outcome) { status = retry },
      if is_snoozed e then snoozed else retried e,
    )
    else (record (finish_outcome outcome) { status = failure }, cancelled e)
