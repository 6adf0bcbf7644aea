-- ===== src/Status.antt =====
-- internal/indexsync/status: the status of background work (model.go, service.go).
-- Times are nanoseconds since the zero time of Go. The snapshot store and the job queue are
-- arguments, and `none` is a nil one; an error of theirs is its message.
pub mod Counts
pub mod Latest
use deep_agent_cli.Base.{
  ℕ, ◌+◌, Bool, true, false, Option, none, some, List, [], ◌∷◌, ltb, if◌then◌else◌,
}
use deep_agent_cli.Reply.{Reply, value, fault}
use deep_agent_cli.Text.{Text, eq}
use deep_agent_cli.Text.Trim.{trim}
use deep_agent_cli.IndexSync.{Time, SnapshotRoot, SnapshotStatus}
use deep_agent_cli.IndexStore.{SnapshotState}

pub data JobKind : Type 0 where
  sync index : JobKind
  other : Text → JobKind

pub data JobState : Type 0 where
  pending running succeeded failed retryable : JobState
  other : Text → JobState

pub record SnapshotInfo : Type 0 where
  pub id : ℕ
  pub root_hash : Text
  pub status : Option SnapshotStatus
  pub completed_at : Option Time

pub record QueueCounts : Type 0 where
  pub pending_sync_jobs : ℕ
  pub pending_index_jobs : ℕ
  pub running_sync_jobs : ℕ
  pub running_index_jobs : ℕ

pub record JobSummary : Type 0 where
  pub job_id : ℕ
  pub kind : JobKind
  pub state : JobState
  pub attempt : ℕ
  pub enqueued_at : Option Time
  pub started_at : Option Time
  pub snapshot_id : Option ℕ
  pub root_hash : Text
  pub delta_size : ℕ

pub record RunningJobs : Type 0 where
  pub sync_job : Option JobSummary
  pub index_job : Option JobSummary

pub record ErrorSummary : Type 0 where
  pub job_id : ℕ
  pub kind : JobKind
  pub state : JobState
  pub message : Text
  pub occurred_at : Option Time
  pub attempt : ℕ
  pub snapshot_id : Option ℕ
  pub root_hash : Text

pub record JobRecord : Type 0 where
  pub job_id : ℕ
  pub kind : JobKind
  pub state : JobState
  pub attempt : ℕ
  pub enqueued_at : Option Time
  pub started_at : Option Time
  pub finished_at : Option Time
  pub snapshot_id : Option ℕ
  pub root_hash : Text
  pub delta_size : ℕ
  pub error : Text

pub record Status : Type 0 where
  pub session_id : Text
  pub repo_root : Text
  pub latest_snapshot : SnapshotInfo
  pub last_successful_sync_at : Option Time
  pub last_successful_index_at : Option Time
  pub last_delta_size : ℕ
  pub queue : QueueCounts
  pub running_jobs : RunningJobs
  pub latest_error : Option ErrorSummary

-- `finishedAt.After(*current)`, true of a missing current time
abbrev pub after : Time → Option Time → Bool
after t none = true
after t (some u) = ltb u t

unfoldable pub increment_pending : QueueCounts → JobKind → QueueCounts
increment_pending q sync = record q { pending_sync_jobs = q.pending_sync_jobs + 1 }
increment_pending q index = record q { pending_index_jobs = q.pending_index_jobs + 1 }
increment_pending q (JobKind.other t) = q

unfoldable pub increment_running : QueueCounts → JobKind → QueueCounts
increment_running q sync = record q { running_sync_jobs = q.running_sync_jobs + 1 }
increment_running q index = record q { running_index_jobs = q.running_index_jobs + 1 }
increment_running q (JobKind.other t) = q

unfoldable pub job_summary : JobRecord → JobSummary
job_summary j = record {
  job_id = j.job_id;
  kind = j.kind;
  state = j.state;
  attempt = j.attempt;
  enqueued_at = j.enqueued_at;
  started_at = j.started_at;
  snapshot_id = j.snapshot_id;
  root_hash = trim j.root_hash;
  delta_size = j.delta_size;
}

abbrev pub job_time_or_zero : Option Time → Option Time → Time
job_time_or_zero (some t) u = t
job_time_or_zero none (some u) = u
job_time_or_zero none none = 0

unfoldable pub later_job : JobRecord → JobSummary → Bool
later_job j s =
    ltb (job_time_or_zero s.started_at s.enqueued_at) (job_time_or_zero j.started_at j.enqueued_at)

abbrev pub first_time : Option Time → Option Time → Option Time
first_time (some t) u = some t
first_time none u = u

unfoldable pub effective_job_time : JobRecord → Option Time
effective_job_time j = first_time j.finished_at (first_time j.started_at j.enqueued_at)

-- `running.Sync == nil || laterJob(job, running.Sync)`
later_running : JobRecord → Option JobSummary → Option JobSummary
unfolding later_job job_summary
later_running j none = some (job_summary j)
later_running j (some s) = if later_job j s then some (job_summary j) else some s

unfoldable pub assign_running : RunningJobs → JobKind → JobRecord → RunningJobs
unfolding later_running
assign_running r sync j = record r { sync_job = later_running j r.sync_job }
assign_running r index j = record r { index_job = later_running j r.index_job }
assign_running r (JobKind.other t) j = r

assign_success_at : Status → JobKind → JobRecord → Time → Status
assign_success_at s sync j t =
    if after t s.last_successful_sync_at then record s { last_successful_sync_at = some t } else s
assign_success_at s index j t =
    if after t s.last_successful_index_at
    then record s { last_successful_index_at = some t; last_delta_size = j.delta_size }
    else s
assign_success_at s (JobKind.other k) j t = s

unfoldable pub assign_success : Status → JobRecord → Status
unfolding assign_success_at effective_job_time
assign_success s j = elim (effective_job_time j) [
  | none ↦ s
  | some t ↦ assign_success_at s j.kind j t
]

pub error_summary : JobRecord → ErrorSummary
error_summary j = record {
  job_id = j.job_id;
  kind = j.kind;
  state = j.state;
  message = trim j.error;
  occurred_at = effective_job_time j;
  attempt = j.attempt;
  snapshot_id = j.snapshot_id;
  root_hash = trim j.root_hash;
}

-- whether the error of a job replaces the latest one
abbrev replaces : Option Time → Option ErrorSummary → Bool
replaces candidate none = true
replaces none (some e) = false
replaces (some t) (some e) = after t e.occurred_at

unfoldable pub assign_latest_error : Status → JobRecord → Status
unfolding error_summary effective_job_time
assign_latest_error s j =
    if eq (trim j.error) []
    then s
    else if replaces (effective_job_time j) s.latest_error
    then record s { latest_error = some (error_summary j) }
    else s

-- the `switch` on the state of a job, and the test for a retryable one below it
abbrev pub record_job_in : JobState → Status → JobRecord → Status
record_job_in pending s j = record s { queue = increment_pending s.queue j.kind }
record_job_in retryable s j =
    assign_latest_error (record s { queue = increment_pending s.queue j.kind }) j
record_job_in running s j = record s {
  queue = increment_running s.queue j.kind;
  running_jobs = assign_running s.running_jobs j.kind j;
}
record_job_in succeeded s j = assign_success s j
record_job_in failed s j = assign_latest_error s j
record_job_in (JobState.other t) s j = s

-- the loop over the jobs
unfoldable pub record_jobs : Status → List JobRecord → Status
unfolding increment_pending increment_running assign_running assign_success assign_latest_error
record_jobs s [] = s
record_jobs s (j ∷ js) = record_jobs (record_job_in j.state s j) js

pub data StatusError : Type 0 where
  session_id_required repo_root_required : StatusError
  load_latest_snapshot load_job_status : Text → StatusError

pub data Result (A : Type 0) : Type 0 where
  ok : A → Result A
  err : StatusError → Result A

abbrev pub SnapshotReader : Type 0
SnapshotReader = Text → Text → Reply (Option SnapshotState)

abbrev pub JobReader : Type 0
JobReader = Text → Text → Reply (List JobRecord)

abbrev pub no_snapshot : SnapshotInfo
no_snapshot = record { id = 0; root_hash = []; status = none; completed_at = none }

abbrev pub empty_status : Text → Text → Status
empty_status session_id repo_root = record {
  session_id = session_id;
  repo_root = repo_root;
  latest_snapshot = no_snapshot;
  last_successful_sync_at = none;
  last_successful_index_at = none;
  last_delta_size = 0;
  queue = record {
    pending_sync_jobs = 0;
    pending_index_jobs = 0;
    running_sync_jobs = 0;
    running_index_jobs = 0;
  };
  running_jobs = record { sync_job = none; index_job = none };
  latest_error = none;
}

unfoldable pub with_snapshot : Status → SnapshotRoot → Status
with_snapshot s r = record s {
  latest_snapshot = record {
    id = r.id;
    root_hash = r.root_hash;
    status = some r.status;
    completed_at = r.completed_at;
  };
  last_successful_sync_at = elim r.completed_at [
    | none ↦ s.last_successful_sync_at
    | some t ↦ if r.is_active then some t else s.last_successful_sync_at
  ];
}

read_snapshot : Option SnapshotReader → Status → Result Status
unfolding with_snapshot
read_snapshot none s = ok s
read_snapshot (some load) s = elim (load s.session_id s.repo_root) [
  | fault m ↦ err (load_latest_snapshot m)
  | value none ↦ ok s
  | value (some state) ↦ ok (with_snapshot s state.root)
]

read_jobs : Option JobReader → Status → Result Status
unfolding record_jobs
read_jobs none s = ok s
read_jobs (some list) s = elim (list s.session_id s.repo_root) [
  | fault m ↦ err (load_job_status m)
  | value js ↦ ok (record_jobs s js)
]

infixl 5 ◌>>=◌
abbrev ◌>>=◌ : {A B : Type 0} → Result A → (A → Result B) → Result B
ok a >>= f = f a
err e >>= f = err e

-- `GetIndexSyncStatus`
unfoldable pub get_index_sync_status :
    Option SnapshotReader → Option JobReader → Text → Text → Result Status
unfolding read_snapshot read_jobs
get_index_sync_status snapshots jobs session_id repo_root =
    if eq (trim session_id) []
    then err session_id_required
    else if eq (trim repo_root) []
    then err repo_root_required
    else (read_snapshot snapshots (empty_status (trim session_id) (trim repo_root))
        >>= read_jobs jobs)
