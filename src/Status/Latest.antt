-- ===== src/Status/Latest.antt =====
-- The latest success and the latest error of a status.
use deep_agent_cli.Base.{
  ◌≤◌, ◌≡◌, refl, ◌∙◌, subst, ◌⊎◌, inl, inr, false, Option, none, some, List, [], ◌∷◌, arith, In,
}
use deep_agent_cli.Text.{eq}
use deep_agent_cli.Text.Trim.{trim}
use deep_agent_cli.IndexSync.{Time}
use deep_agent_cli.Status.{
  JobKind, index, succeeded, failed, retryable, JobRecord, Status, ErrorSummary, record_job_in,
  record_jobs, assign_latest_error, assign_success, effective_job_time, error_summary,
  increment_pending,
}

-- The time is there, and is not before `t`.
abbrev pub Reaches : Time → Option Time → Type 0
Reaches t none = ⊥
Reaches t (some u) = t ≤ u

abbrev pub occurred : Option ErrorSummary → Option Time
occurred none = none
occurred (some e) = e.occurred_at

-- A job that ended well, of the kind given, at the time given.
abbrev pub Succeeded : JobKind → JobRecord → Time → Type 0
Succeeded kind j t = (j.state ≡ succeeded) × (j.kind ≡ kind) × (effective_job_time j ≡ some t)

-- A job with an error to report: failed or to be tried again, with a message that is not blank.
abbrev pub Failing : JobRecord → Type 0
Failing j = ((j.state ≡ failed) ⊎ (j.state ≡ retryable)) × (eq (trim j.error) [] ≡ false)

module _ (s : Status) (j : JobRecord) where
  index_at-assign_latest_error :
      (assign_latest_error s j).last_successful_index_at ≡ s.last_successful_index_at
  unfolding assign_latest_error
  index_at-assign_latest_error = ground arith

  delta_size-assign_latest_error : (assign_latest_error s j).last_delta_size ≡ s.last_delta_size
  unfolding assign_latest_error
  delta_size-assign_latest_error = ground arith

  latest_error-assign_success : (assign_success s j).latest_error ≡ s.latest_error
  unfolding assign_success
  latest_error-assign_success = ground arith

-- One job never takes a reached time back.
index_mono :
    (s : Status) (j : JobRecord) (t : Time)
    → Reaches t s.last_successful_index_at
    → Reaches t (record_job_in j.state s j).last_successful_index_at
unfolding assign_success
index_mono s j t h = ground (
  arith,
  index_at-assign_latest_error s j,
  index_at-assign_latest_error (record s { queue = increment_pending s.queue j.kind }) j,
)

index-reach :
    (s : Status) (j : JobRecord) (t : Time)
    → Succeeded index j t
    → Reaches t (record_job_in j.state s j).last_successful_index_at
unfolding assign_success
index-reach s j t h = ground arith

-- The time and the size after one job are those before it, or that job's.
index-from :
    (s : Status) (j : JobRecord)
    → (((record_job_in j.state s j).last_successful_index_at ≡ s.last_successful_index_at)
        × ((record_job_in j.state s j).last_delta_size ≡ s.last_delta_size))
      ⊎ ((j.state ≡ succeeded)
          × (j.kind ≡ index)
          × ((record_job_in j.state s j).last_successful_index_at ≡ effective_job_time j)
          × ((record_job_in j.state s j).last_delta_size ≡ j.delta_size))
unfolding assign_success
index-from s j = ground (
  arith,
  index_at-assign_latest_error s j,
  delta_size-assign_latest_error s j,
  index_at-assign_latest_error (record s { queue = increment_pending s.queue j.kind }) j,
  delta_size-assign_latest_error (record s { queue = increment_pending s.queue j.kind }) j,
)

record_jobs-index_mono :
    (s : Status) (js : List JobRecord) (t : Time)
    → Reaches t s.last_successful_index_at
    → Reaches t (record_jobs s js).last_successful_index_at
unfolding record_jobs
record_jobs-index_mono s [] t h = h
record_jobs-index_mono s (j ∷ js) t h =
    record_jobs-index_mono (record_job_in j.state s j) js t (index_mono s j t h)

-- No successful index job of the list ended after the time that the loop reports.
pub record_jobs-index_latest :
    (s : Status) (js : List JobRecord) (j : JobRecord) (t : Time)
    → In j js
    → Succeeded index j t
    → Reaches t (record_jobs s js).last_successful_index_at
unfolding record_jobs
record_jobs-index_latest s [] j t i h = absurd i
record_jobs-index_latest s (k ∷ js) j t (inl e) h =
    record_jobs-index_mono (record_job_in k.state s k) js t (
      subst (λ x. Reaches t (record_job_in x.state s x).last_successful_index_at) e
        (index-reach s j t h))
record_jobs-index_latest s (k ∷ js) j t (inr i) h =
    record_jobs-index_latest (record_job_in k.state s k) js j t i h

-- The time and the delta size that the loop reports are those it began with, or both are those of
-- one successful index job of the list.
pub record_jobs-index_from :
    (s : Status) (js : List JobRecord)
    → (((record_jobs s js).last_successful_index_at ≡ s.last_successful_index_at)
        × ((record_jobs s js).last_delta_size ≡ s.last_delta_size))
      ⊎ ((j : JobRecord) × In j js
          × (j.state ≡ succeeded)
          × (j.kind ≡ index)
          × ((record_jobs s js).last_successful_index_at ≡ effective_job_time j)
          × ((record_jobs s js).last_delta_size ≡ j.delta_size))
unfolding record_jobs
record_jobs-index_from s [] = inl (refl, refl)
record_jobs-index_from s (k ∷ js) = elim (record_jobs-index_from (record_job_in k.state s k) js) [
  | inr (j, i, a, b, c, d) ↦ inr (j, inr i, a, b, c, d)
  | inl (p, q) ↦ elim (index-from s k) [
    | inl (u, v) ↦ inl (p ∙ u, q ∙ v)
    | inr (a, b, u, v) ↦ inr (k, inl refl, a, b, p ∙ u, q ∙ v)
  ]
]

error_mono :
    (s : Status) (j : JobRecord) (t : Time)
    → Reaches t (occurred s.latest_error)
    → Reaches t (occurred (record_job_in j.state s j).latest_error)
unfolding assign_latest_error
error_mono s j t h = ground (arith, latest_error-assign_success s j)

error-reach :
    (s : Status) (j : JobRecord) (t : Time)
    → Failing j
    → effective_job_time j ≡ some t
    → Reaches t (occurred (record_job_in j.state s j).latest_error)
unfolding assign_latest_error
error-reach s j t h e = ground arith

record_jobs-error_mono :
    (s : Status) (js : List JobRecord) (t : Time)
    → Reaches t (occurred s.latest_error)
    → Reaches t (occurred (record_jobs s js).latest_error)
unfolding record_jobs
record_jobs-error_mono s [] t h = h
record_jobs-error_mono s (j ∷ js) t h =
    record_jobs-error_mono (record_job_in j.state s j) js t (error_mono s j t h)

-- No job of the list with an error to report ended after the error that the loop reports.
pub record_jobs-error_latest :
    (s : Status) (js : List JobRecord) (j : JobRecord) (t : Time)
    → In j js
    → Failing j
    → effective_job_time j ≡ some t
    → Reaches t (occurred (record_jobs s js).latest_error)
unfolding record_jobs
record_jobs-error_latest s [] j t i h e = absurd i
record_jobs-error_latest s (k ∷ js) j t (inl q) h e =
    record_jobs-error_mono (record_job_in k.state s k) js t (
      subst (λ x. Reaches t (occurred (record_job_in x.state s x).latest_error)) q
        (error-reach s j t h e))
record_jobs-error_latest s (k ∷ js) j t (inr i) h e =
    record_jobs-error_latest (record_job_in k.state s k) js j t i h e

error-from :
    (s : Status) (j : JobRecord)
    → ((record_job_in j.state s j).latest_error ≡ s.latest_error)
      ⊎ (Failing j × ((record_job_in j.state s j).latest_error ≡ some (error_summary j)))
unfolding assign_latest_error
error-from s j = ground (arith, latest_error-assign_success s j)

-- The error that the loop reports is the one it began with, or that of a job of the list with an
-- error to report.
pub record_jobs-error_from :
    (s : Status) (js : List JobRecord)
    → ((record_jobs s js).latest_error ≡ s.latest_error)
      ⊎ ((j : JobRecord) × In j js
          × Failing j
          × ((record_jobs s js).latest_error ≡ some (error_summary j)))
unfolding record_jobs
record_jobs-error_from s [] = inl refl
record_jobs-error_from s (k ∷ js) = elim (record_jobs-error_from (record_job_in k.state s k) js) [
  | inr (j, i, f, e) ↦ inr (j, inr i, f, e)
  | inl p ↦ elim (error-from s k) [ inl u ↦ inl (p ∙ u) | inr (f, u) ↦ inr (k, inl refl, f, p ∙ u) ]
]
