-- ===== src/Jobs/Index/Settled.antt =====
-- The payloads for which internal/jobs/river/index_worker.go has nothing to do.
use deep_agent_cli.Base.{
  ◌≡◌, sym, ◌∙◌, ◌≢◌, ◌⊎◌, inl, inr, true, false, false≢true, arith, Bool-cases,
}
use deep_agent_cli.Text.{eq, eq_iff, eq_refl}
use deep_agent_cli.IndexSync.{Time}
use deep_agent_cli.Jobs.{IndexJobPayload}
use deep_agent_cli.Jobs.Index.{
  Checkpoints, same_record, checkpoint_record, checkpoint_key, has_no_record, stored, is_stored,
  is_applied, mark, no_changes, normalized_payload,
}

-- What is marked as applied is applied, unless it bears neither snapshot nor hash.
pub is_applied-mark :
    (records : Checkpoints) (p : IndexJobPayload)
    → has_no_record p ≡ false
    → is_applied (mark records p) p ≡ true
unfolding is_applied mark stored is_stored same_record
is_applied-mark records p h =
    rw (h, eq_refl (checkpoint_key p)) (ground (arith, eq_refl (checkpoint_record p).root_hash))

-- There is nothing to do: the delta is empty, or is recorded as applied.
unfoldable pub IsSettled : Checkpoints → IndexJobPayload → Type 0
IsSettled rs q = (no_changes q.delta.changes ≡ true) ⊎ (is_applied rs q ≡ true)

pub IsSettled-cases :
    (rs : Checkpoints) (q : IndexJobPayload)
    → no_changes q.delta.changes ≡ false
    → is_applied rs q ≡ false
    → IsSettled rs q
    → ⊥
unfolding IsSettled
IsSettled-cases rs q c a (inl e) = false≢true (sym c ∙ e)
IsSettled-cases rs q c a (inr e) = false≢true (sym a ∙ e)

-- A record of another scope does not matter.
pub IsSettled-mark :
    (rs : Checkpoints) (p q : IndexJobPayload)
    → checkpoint_key p ≢ checkpoint_key q
    → IsSettled rs p
    → IsSettled (mark rs q) p
unfolding IsSettled is_applied mark stored
IsSettled-mark rs p q d (inl e) = inl e
IsSettled-mark rs p q d (inr e) = inr (elim (Bool-cases (has_no_record q)) [
  | inl n ↦ rw n e
  | inr n ↦
      let other : eq (checkpoint_key p) (checkpoint_key q) ≡ false =
        elim (Bool-cases (eq (checkpoint_key p) (checkpoint_key q))) [
          | inl k ↦ absurd (d ((eq_iff (checkpoint_key p) (checkpoint_key q)).0 k))
          | inr k ↦ k
        ] in
      rw (n, other) e
])

-- The time of a payload does not matter.
pub IsSettled-later :
    (now later : Time) (p : IndexJobPayload) (rs : Checkpoints)
    → IsSettled rs (normalized_payload now p)
    → IsSettled rs (normalized_payload later p)
unfolding IsSettled normalized_payload is_applied has_no_record checkpoint_record checkpoint_key
IsSettled-later now later p rs s = s
