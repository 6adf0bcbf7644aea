-- ===== src/Examples/Jobs.antt =====
-- A queue of three jobs of internal/indexsync/status: one done, one failed for good, one waiting.
use deep_agent_cli.Base.{ℕ, ◌≡◌, refl, ◌⊎◌, inl, inr, none, some, List, [], ◌∷◌, In}
use deep_agent_cli.Text.{Text, text, eq}
use deep_agent_cli.Text.Trim.{trim}
use deep_agent_cli.Status.{
  JobKind, sync, index, JobState, pending, succeeded, failed, JobRecord, Status, empty_status,
  record_jobs, effective_job_time, assign_latest_error, assign_success, increment_pending,
}
use deep_agent_cli.Status.Counts.{Counts, record_jobs-Counts}
use deep_agent_cli.Status.Latest.{
  Reaches, occurred, record_jobs-index_latest, record_jobs-index_from, record_jobs-error_latest,
}

abbrev job : ℕ → JobKind → JobState → ℕ → Text → JobRecord
job id kind state finished error = record {
  job_id = id;
  kind = kind;
  state = state;
  attempt = 1;
  enqueued_at = some 1;
  started_at = some 2;
  finished_at = some finished;
  snapshot_id = none;
  root_hash = [];
  delta_size = 7;
  error = error;
}

abbrev indexed : JobRecord
indexed = job 1 index succeeded 5 []

abbrev broken : JobRecord
broken = job 2 sync failed 6 (text "no disk")

abbrev waiting : JobRecord
waiting = job 3 sync pending 4 []

abbrev queue : List JobRecord
queue = indexed ∷ broken ∷ waiting ∷ []

abbrev start : Status
start = empty_status (text "s") (text "r")

queue_test : (record_jobs start queue).queue.pending_sync_jobs ≡ 1
unfolding record_jobs increment_pending assign_latest_error assign_success trim eq
queue_test = refl

record_jobs-Counts_example : Counts start (record_jobs start queue) queue
record_jobs-Counts_example = record_jobs-Counts start queue

record_jobs-index_latest_example : Reaches 5 (record_jobs start queue).last_successful_index_at
unfolding effective_job_time
record_jobs-index_latest_example =
    record_jobs-index_latest start queue indexed 5 (inl refl) (refl, refl, refl)

record_jobs-index_from_example :
    (((record_jobs start queue).last_successful_index_at ≡ none)
      × ((record_jobs start queue).last_delta_size ≡ 0))
    ⊎ ((j : JobRecord) × In j queue
        × (j.state ≡ succeeded)
        × (j.kind ≡ index)
        × ((record_jobs start queue).last_successful_index_at ≡ effective_job_time j)
        × ((record_jobs start queue).last_delta_size ≡ j.delta_size))
record_jobs-index_from_example = record_jobs-index_from start queue

record_jobs-error_latest_example : Reaches 6 (occurred (record_jobs start queue).latest_error)
unfolding effective_job_time trim eq
record_jobs-error_latest_example =
    record_jobs-error_latest start queue broken 6 (inr (inl refl)) (inl refl, refl) refl
