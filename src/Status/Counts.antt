-- ===== src/Status/Counts.antt =====
-- The queue counts of a status are the numbers of jobs in each state, of each kind.
use deep_agent_cli.Base.{ℕ, ◌+◌, ◌≡◌, Bool, true, false, ◌&&◌, List, [], ◌∷◌, arith, if◌then◌else◌}
use deep_agent_cli.Status.{
  JobKind, sync, index, JobState, pending, running, retryable, JobRecord, Status, record_job_in,
  record_jobs, assign_latest_error, assign_success, increment_pending, increment_running,
}

pub tally : (JobRecord → Bool) → List JobRecord → ℕ
tally test [] = 0
tally test (j ∷ js) = (if test j then 1 else 0) + tally test js

-- A job that waits: pending, or failed and to be tried again.
abbrev pub is_waiting : JobState → Bool
is_waiting pending = true
is_waiting retryable = true
is_waiting _ = false

abbrev pub is_running : JobState → Bool
is_running running = true
is_running _ = false

abbrev pub is_sync : JobKind → Bool
is_sync sync = true
is_sync _ = false

abbrev pub is_index : JobKind → Bool
is_index index = true
is_index _ = false

abbrev one_if : Bool → ℕ
one_if b = if b then 1 else 0

-- One job counts once, and only where it belongs.
record CountsOne (s s' : Status) (j : JobRecord) : Type 0 where
  pending_sync :
      s'.queue.pending_sync_jobs
      ≡ s.queue.pending_sync_jobs + one_if (is_waiting j.state && is_sync j.kind)
  pending_index :
      s'.queue.pending_index_jobs
      ≡ s.queue.pending_index_jobs + one_if (is_waiting j.state && is_index j.kind)
  running_sync :
      s'.queue.running_sync_jobs
      ≡ s.queue.running_sync_jobs + one_if (is_running j.state && is_sync j.kind)
  running_index :
      s'.queue.running_index_jobs
      ≡ s.queue.running_index_jobs + one_if (is_running j.state && is_index j.kind)

queue-assign_latest_error : (s : Status) (j : JobRecord) → (assign_latest_error s j).queue ≡ s.queue
unfolding assign_latest_error
queue-assign_latest_error s j = ground arith

queue-assign_success : (s : Status) (j : JobRecord) → (assign_success s j).queue ≡ s.queue
unfolding assign_success
queue-assign_success s j = ground arith

record_job_in-CountsOne : (s : Status) (j : JobRecord) → CountsOne s (record_job_in j.state s j) j
unfolding increment_pending increment_running
record_job_in-CountsOne s j = ground (
  arith,
  queue-assign_latest_error s j,
  queue-assign_latest_error (record s { queue = increment_pending s.queue j.kind }) j,
  queue-assign_success s j,
)

abbrev pub waiting_sync : JobRecord → Bool
waiting_sync j = is_waiting j.state && is_sync j.kind

abbrev pub waiting_index : JobRecord → Bool
waiting_index j = is_waiting j.state && is_index j.kind

abbrev pub running_sync : JobRecord → Bool
running_sync j = is_running j.state && is_sync j.kind

abbrev pub running_index : JobRecord → Bool
running_index j = is_running j.state && is_index j.kind

pub record Counts (s s' : Status) (js : List JobRecord) : Type 0 where
  pub pending_sync_jobs :
      s'.queue.pending_sync_jobs ≡ s.queue.pending_sync_jobs + tally waiting_sync js
  pub pending_index_jobs :
      s'.queue.pending_index_jobs ≡ s.queue.pending_index_jobs + tally waiting_index js
  pub running_sync_jobs :
      s'.queue.running_sync_jobs ≡ s.queue.running_sync_jobs + tally running_sync js
  pub running_index_jobs :
      s'.queue.running_index_jobs ≡ s.queue.running_index_jobs + tally running_index js

-- The loop over the jobs adds to each queue count the number of jobs that it counts: a pending or a
-- retryable job of the kind for the pending counts, a running job of the kind for the running ones.
pub record_jobs-Counts : (s : Status) (js : List JobRecord) → Counts s (record_jobs s js) js
unfolding record_jobs tally
record_jobs-Counts s [] = omega arith
record_jobs-Counts s (j ∷ js) =
    let one = record_job_in-CountsOne s j in
    let rest = record_jobs-Counts (record_job_in j.state s j) js in
    record {
      pending_sync_jobs = omega (arith, one.pending_sync, rest.pending_sync_jobs);
      pending_index_jobs = omega (arith, one.pending_index, rest.pending_index_jobs);
      running_sync_jobs = omega (arith, one.running_sync, rest.running_sync_jobs);
      running_index_jobs = omega (arith, one.running_index, rest.running_index_jobs);
    }
