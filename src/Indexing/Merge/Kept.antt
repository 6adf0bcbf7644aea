-- ===== src/Indexing/Merge/Kept.antt =====
-- The order of the index, and the existing records that a merge keeps.
use deep_agent_cli.Base.{
  ◌≡◌, refl, sym, ap, ◌∙◌, subst, ◌↔◌, inl, inr, true, false, false≢true, List, [], ◌∷◌, arith,
  Bool-cases, All, In,
}
use deep_agent_cli.Base.Sort.{IsOrder}
use deep_agent_cli.Text.{Text, eq, eq_iff, le-IsOrder, le_antisym, member}
use deep_agent_cli.IndexStore.{ChunkRecord, ChunkRecordInput}
use deep_agent_cli.Indexing.{Result, done, failed, ◌>>=◌, prepend}
use deep_agent_cli.Indexing.Merge.{kept_record, in_scope, keep_existing, record_le}

record_total : (a b : ChunkRecordInput) → record_le a b ≡ false → record_le b a ≡ true
unfolding record_le
record_total a b h = elim (Bool-cases (eq a.rel_path b.rel_path)) [
  | inl e ↦ ground (arith, eq_iff a.rel_path b.rel_path, eq_iff b.rel_path a.rel_path)
  | inr e ↦ ground (
    arith,
    eq_iff a.rel_path b.rel_path,
    eq_iff b.rel_path a.rel_path,
    le-IsOrder.total a.rel_path b.rel_path,
  )
]

record_trans :
    (a b c : ChunkRecordInput) → record_le a b ≡ true → record_le b c ≡ true → record_le a c ≡ true
unfolding record_le
record_trans a b c h k = ground (
  arith,
  eq_iff a.rel_path b.rel_path,
  eq_iff b.rel_path c.rel_path,
  eq_iff a.rel_path c.rel_path,
  le-IsOrder.trans a.rel_path b.rel_path c.rel_path,
  le_antisym a.rel_path b.rel_path,
)

pub record_le-IsOrder : IsOrder record_le
record_le-IsOrder = record { total = record_total; trans = record_trans }

-- The record stays: it is an existing one whose path is not removed.
pub record IsKept (existing : List ChunkRecord) (removed : List Text) (r : ChunkRecordInput)
    : Type 0 where
  pub source : ChunkRecord
  pub present : In source existing
  pub same : r ≡ kept_record source
  pub stays : member source.rel_path removed ≡ false

prepend-done :
    {A : Type 0} (a : A) (m : Result (List A)) (out : List A)
    → prepend a m ≡ done out
    → (more : List A) × (m ≡ done more) × (out ≡ a ∷ more)
unfolding prepend ◌>>=◌
prepend-done a (done more) out h = (more, refl, ground arith)
prepend-done a (failed e) out h = absurd (ground arith)

later :
    {x : ChunkRecord} {existing : List ChunkRecord} {removed : List Text} {r : ChunkRecordInput}
    → IsKept existing removed r
    → IsKept (x ∷ existing) removed r
later k = record { source = k.source; present = inr k.present; same = k.same; stays = k.stays }

done_nil : (kept : List ChunkRecordInput) → done [] ≡ done kept → kept ≡ []
done_nil kept h = ground arith

earlier :
    {x : ChunkRecord} {existing : List ChunkRecord} {removed : List Text} {r : ChunkRecordInput}
    (k : IsKept (x ∷ existing) removed r)
    → (¬ (k.source ≡ x))
    → IsKept existing removed r
earlier k n = record {
  source = k.source;
  present = elim k.present [ inl e ↦ absurd (n e) | inr j ↦ j ];
  same = k.same;
  stays = k.stays;
}

newer :
    {x : ChunkRecord} {existing : List ChunkRecord} {removed : List Text} {r : ChunkRecordInput}
    (more : List ChunkRecordInput)
    → member x.rel_path removed ≡ false
    → (In r more ↔ IsKept existing removed r)
    → In r (kept_record x ∷ more)
    → IsKept (x ∷ existing) removed r
newer {x} more stay exact (inl e) = record {
  source = x;
  present = inl refl;
  same = e;
  stays = stay;
}
newer more stay exact (inr i) = later (exact.0 i)

present_or :
    {x : ChunkRecord} {existing : List ChunkRecord} {removed : List Text} {r : ChunkRecordInput}
    (more : List ChunkRecordInput)
    → IsKept (x ∷ existing) removed r
    → (In r more ↔ IsKept existing removed r)
    → In r (kept_record x ∷ more)
present_or more k exact = elim k.present [
  | inl e ↦ inl (k.same ∙ ap kept_record e)
  | inr j ↦ inr (exact.1 record { source = k.source; present = j; same = k.same; stays = k.stays })
]

module _ (session_id root : Text) (removed : List Text) where
  -- The loop over the existing records returns those that stay, and all of them were in scope.
  pub keep_existing-IsKept :
      (existing : List ChunkRecord) (kept : List ChunkRecordInput)
      → keep_existing session_id root removed existing ≡ done kept
      → All (λ x. in_scope session_id root x ≡ true) existing
        × ((r : ChunkRecordInput) → In r kept ↔ IsKept existing removed r)
  unfolding keep_existing
  keep_existing-IsKept [] kept h =
      (tt, λ r. (λ i. absurd (subst (λ l. In r l) (done_nil kept h) i), λ k. absurd k.present))
  keep_existing-IsKept (x ∷ existing) kept h = elim (Bool-cases (in_scope session_id root x)) [
    | inr e ↦ absurd (ground arith)
    | inl scope ↦ elim (Bool-cases (member x.rel_path removed)) [
      | inl gone ↦
          let (all, exact) = keep_existing-IsKept existing kept (ground arith) in
          (
            (scope, all),
            λ r. (
              λ i. later ((exact r).0 i),
              λ k. (exact r).1 (
                  earlier k
                    (λ e. false≢true (sym k.stays ∙ ap (λ y. member y.rel_path removed) e ∙ gone))),
            ),
          )
      | inr stay ↦
          let (more, e, q) =
            prepend-done (kept_record x) (keep_existing session_id root removed existing) kept
              (ground arith) in
          let (all, exact) = keep_existing-IsKept existing more e in
          (
            (scope, all),
            λ r. (
              λ i. newer more stay (exact r) (subst (λ l. In r l) q i),
              λ k. subst (λ l. In r l) (sym q) (present_or more k (exact r)),
            ),
          )
    ]
  ]
