-- ===== src/Jobs/Index/Once.antt =====
-- A worker of internal/jobs/river/index_worker.go applies the delta of a job once.
use deep_agent_cli.Base.{
  ◌≡◌, refl, sym, subst, ◌≢◌, inl, inr, Bool, true, false, Option, none, some, List, [], ◌∷◌, arith,
  if◌then◌else◌, All,
}
use deep_agent_cli.Text.{Text, text, eq}
use deep_agent_cli.Reply.{Reply, value, fault}
use deep_agent_cli.IndexSync.{Time}
use deep_agent_cli.Indexing.Apply.{DeltaApplyResult}
use deep_agent_cli.Jobs.{
  IndexJobPayload, JobOutcome, JobError, JobRow, run_apply, new_job_outcome, session_id_required,
  repo_root_required,
}
use deep_agent_cli.Jobs.Index.{
  Checkpoints, kind_index_job, checkpoint_key, has_no_record, is_applied, mark, memory_checkpoint,
  no_changes, valid, invalid, normalized_payload, normalize_index_payload, with_payload,
  with_message, run_job, run_parts, run_payload, after_check, after_run, after_mark, after_hook,
  new_index_worker, in_world,
}
use deep_agent_cli.Jobs.Index.Settled.{
  is_applied-mark, IsSettled, IsSettled-cases, IsSettled-mark, IsSettled-later,
}

module _ {W : Type 0} (run : IndexJobPayload → W → W × Reply DeltaApplyResult) where
  -- What a run of a job did: it was refused or skipped and changed nothing, or the runner was called
  -- once: it failed and nothing was recorded, or it succeeded and the payload was recorded.
  pub data Did (now : Time) (p : IndexJobPayload) (rs : Checkpoints) (w : W) (rs' : Checkpoints)
      (w' : W) : Option JobError → Type 0 where
    refused : (e : JobError) → rs' ≡ rs → w' ≡ w → Did now p rs w rs' w' (some e)
    skipped :
        rs' ≡ rs → w' ≡ w → IsSettled rs (normalized_payload now p) → Did now p rs w rs' w' none
    failed :
        (m : Text)
        → ¬ (IsSettled rs (normalized_payload now p))
        → run (normalized_payload now p) w ≡ (w', fault m)
        → rs' ≡ rs
        → Did now p rs w rs' w' (some (run_apply m))
    applied :
        (r : DeltaApplyResult)
        → ¬ (IsSettled rs (normalized_payload now p))
        → run (normalized_payload now p) w ≡ (w', value r)
        → rs' ≡ mark rs (normalized_payload now p)
        → Did now p rs w rs' w' none

  pub HasRun :
      (r : (JobOutcome × Option JobError) × (Checkpoints × W))
      → Time
      → IndexJobPayload
      → Checkpoints
      → W
      → Type 0
  HasRun ((o, e), (rs', w')) now p rs w = Did now p rs w rs' w' e

  module _ (now : Time) (p : IndexJobPayload) (rs : Checkpoints) (w : W) where
    apply-Did :
        (o : JobOutcome)
        → ¬ (IsSettled rs (normalized_payload now p))
        → (r : W × Reply DeltaApplyResult) → run (normalized_payload now p) w ≡ r
        → HasRun
            (after_run
              (new_index_worker run)
              (memory_checkpoint W)
              o
              (normalized_payload now p)
              (let (w', reply) = r in ((rs, w'), reply)))
            now
            p
            rs
            w
    unfolding after_run after_mark after_hook memory_checkpoint new_index_worker HasRun
    apply-Did o n (w', fault m) e = failed m n e refl
    apply-Did o n (w', value r) e = applied r n e refl

    check-Did :
        (o : JobOutcome)
        → no_changes p.delta.changes ≡ false
        → (b : Bool) → is_applied rs (normalized_payload now p) ≡ b
        → HasRun
            (after_check
              (new_index_worker run)
              (memory_checkpoint W)
              (in_world run)
              o
              (normalized_payload now p)
              (rs, w)
              (value b))
            now
            p
            rs
            w
    unfolding after_check HasRun IsSettled normalized_payload
    check-Did o c true e = skipped refl refl (inr e)
    check-Did o c false e =
        apply-Did o (IsSettled-cases rs (normalized_payload now p) c e)
          (run (normalized_payload now p) w) refl

    payload-Did :
        (o : JobOutcome) (c : Bool)
        → no_changes p.delta.changes ≡ c
        → HasRun
            (if c
              then (
                (
                  with_message
                      (with_payload o (normalized_payload now p))
                      (text "delta is empty; skipping apply"),
                  none,
                ),
                (rs, w),
              )
              else after_check
                  (new_index_worker run)
                  (memory_checkpoint W)
                  (in_world run)
                  (with_payload o (normalized_payload now p))
                  (normalized_payload now p)
                  (rs, w)
                  (value (is_applied rs (normalized_payload now p))))
            now
            p
            rs
            w
    unfolding HasRun IsSettled normalized_payload
    payload-Did o true e = skipped refl refl (inl e)
    payload-Did o false e =
        check-Did (with_payload o (normalized_payload now p)) e
          (is_applied rs (normalized_payload now p)) refl

    normalized-Did :
        (o : JobOutcome) (a b : Bool)
        → HasRun
            (run_payload
              (new_index_worker run)
              (memory_checkpoint W)
              (in_world run)
              o
              (rs, w)
              (if a
                then invalid session_id_required
                else if b
                then invalid repo_root_required
                else valid (normalized_payload now p)))
            now
            p
            rs
            w
    unfolding run_payload HasRun memory_checkpoint normalized_payload
    normalized-Did o true b = refused session_id_required refl refl
    normalized-Did o false true = refused repo_root_required refl refl
    normalized-Did o false false = payload-Did o (no_changes p.delta.changes) refl

  -- A run of a worker with the memory of the applied deltas, over any runner: it fails before it
  -- calls the runner and changes nothing; or it succeeds and changes nothing, because the delta is
  -- empty or recorded as applied; or neither holds of the delta, the runner is called once on the
  -- normalized payload, and the payload is recorded exactly when the runner succeeds, which is also
  -- when the run does.
  pub run_job-Did :
      (now : Time) (row : Option JobRow) (p : IndexJobPayload) (rs : Checkpoints) (w : W)
      → HasRun (run_job (new_index_worker run) now row p (rs, w)) now p rs w
  unfolding run_job run_parts new_index_worker normalize_index_payload
  run_job-Did now row p rs w =
      normalized-Did now p rs w (new_job_outcome kind_index_job p.session_id p.repo_root row)
        (eq (normalized_payload now p).session_id []) (eq (normalized_payload now p).repo_root [])

  settled-HasRun :
      (now : Time) (p : IndexJobPayload) (rs : Checkpoints) (w : W)
      (r : (JobOutcome × Option JobError) × (Checkpoints × W))
      → HasRun r now p rs w
      → IsSettled rs (normalized_payload now p)
      → r.1 ≡ (rs, w)
  unfolding HasRun
  settled-HasRun now p rs w ((o, e), (rs', w')) (refused _ h k) n = λ i. (h i, k i)
  settled-HasRun now p rs w ((o, e), (rs', w')) (skipped h k _) n = λ i. (h i, k i)
  settled-HasRun now p rs w ((o, e), (rs', w')) (failed m c _ _) n = absurd (c n)
  settled-HasRun now p rs w ((o, e), (rs', w')) (applied r c _ _) n = absurd (c n)

  HasRun-IsSettled :
      (now : Time) (p : IndexJobPayload) (rs : Checkpoints) (w : W)
      (r : (JobOutcome × Option JobError) × (Checkpoints × W))
      → HasRun r now p rs w
      → has_no_record (normalized_payload now p) ≡ false
      → r.0.1 ≡ none
      → IsSettled r.1.0 (normalized_payload now p)
  unfolding HasRun IsSettled
  HasRun-IsSettled now p rs w ((o, e), (rs', w')) (refused _ h k) n z = ground arith
  HasRun-IsSettled now p rs w ((o, e), (rs', w')) (skipped h k s) n z =
      subst (λ g. IsSettled g (normalized_payload now p)) (sym h) s
  HasRun-IsSettled now p rs w ((o, e), (rs', w')) (failed m c _ _) n z = ground arith
  HasRun-IsSettled now p rs w ((o, e), (rs', w')) (applied r c _ h) n z =
      subst (λ g. IsSettled g (normalized_payload now p)) (sym h)
        (inr (is_applied-mark rs (normalized_payload now p) n))

  -- To run jobs one behind the other, each at its time and as its row.
  abbrev pub run_jobs :
      List (Time × (Option JobRow × IndexJobPayload)) → Checkpoints × W → Checkpoints × W
  run_jobs [] s = s
  run_jobs ((now, (row, p)) ∷ jobs) s = run_jobs jobs (run_job (new_index_worker run) now row p s).1

  -- The job has another checkpoint key than the payload: its purpose, session or repository differs.
  abbrev pub IsElsewhere :
      Time → IndexJobPayload → Time × (Option JobRow × IndexJobPayload) → Type 0
  IsElsewhere later p (now, (row, q)) =
      checkpoint_key (normalized_payload later p) ≢ checkpoint_key (normalized_payload now q)

  HasRun-keeps :
      (now later : Time) (p q : IndexJobPayload) (rs : Checkpoints) (w : W)
      (r : (JobOutcome × Option JobError) × (Checkpoints × W))
      → checkpoint_key (normalized_payload later p) ≢ checkpoint_key (normalized_payload now q)
      → HasRun r now q rs w
      → IsSettled rs (normalized_payload later p)
      → IsSettled r.1.0 (normalized_payload later p)
  unfolding HasRun
  HasRun-keeps now later p q rs w ((o, e), (rs', w')) d (refused _ h k) s =
      subst (λ g. IsSettled g (normalized_payload later p)) (sym h) s
  HasRun-keeps now later p q rs w ((o, e), (rs', w')) d (skipped h k _) s =
      subst (λ g. IsSettled g (normalized_payload later p)) (sym h) s
  HasRun-keeps now later p q rs w ((o, e), (rs', w')) d (failed m _ _ h) s =
      subst (λ g. IsSettled g (normalized_payload later p)) (sym h) s
  HasRun-keeps now later p q rs w ((o, e), (rs', w')) d (applied r _ _ h) s =
      subst (λ g. IsSettled g (normalized_payload later p)) (sym h)
        (IsSettled-mark rs (normalized_payload later p) (normalized_payload now q) d s)

  run_jobs-IsSettled :
      (jobs : List (Time × (Option JobRow × IndexJobPayload))) (later : Time) (p : IndexJobPayload)
      (s : Checkpoints × W)
      → All (IsElsewhere later p) jobs
      → IsSettled s.0 (normalized_payload later p)
      → IsSettled (run_jobs jobs s).0 (normalized_payload later p)
  run_jobs-IsSettled [] later p s h k = k
  run_jobs-IsSettled ((now, (row, q)) ∷ jobs) later p (rs, w) h k =
      let r = run_job (new_index_worker run) now row q (rs, w) in
      run_jobs-IsSettled jobs later p r.1 h.1
        (HasRun-keeps now later p q rs w r h.0 (run_job-Did now row q rs w) k)

  -- Within a process, a delta that was applied is not applied again by a redelivery: when a run of a
  -- payload that names a snapshot or a root hash has succeeded, and then any jobs have run that have
  -- another checkpoint key, which is made of the purpose, the session and the repository, then to run
  -- the same payload again, at any time and as any job, leaves the records and the world as they are.
  pub run_job-again :
      (now later : Time) (row row' : Option JobRow) (p : IndexJobPayload)
      (jobs : List (Time × (Option JobRow × IndexJobPayload))) (rs : Checkpoints) (w : W)
      → has_no_record (normalized_payload now p) ≡ false
      → (run_job (new_index_worker run) now row p (rs, w)).0.1 ≡ none
      → All (IsElsewhere later p) jobs
      → (run_job
          (new_index_worker run)
          later
          row'
          p
          (run_jobs jobs (run_job (new_index_worker run) now row p (rs, w)).1)).1
        ≡ run_jobs jobs (run_job (new_index_worker run) now row p (rs, w)).1
  run_job-again now later row row' p jobs rs w n ok elsewhere =
      let first = run_job (new_index_worker run) now row p (rs, w) in
      let s = run_jobs jobs first.1 in
      settled-HasRun later p s.0 s.1 (run_job (new_index_worker run) later row' p s)
        (run_job-Did later row' p s.0 s.1)
        (run_jobs-IsSettled jobs later p first.1 elsewhere (
          IsSettled-later now later p first.1.0
            (HasRun-IsSettled now p rs w first (run_job-Did now row p rs w) n ok)))
