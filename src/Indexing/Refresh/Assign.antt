-- ===== src/Indexing/Refresh/Assign.antt =====
-- The loops that set the embeddings: reused ones, and new ones in order.
use deep_agent_cli.Base.{
  ℕ, ◌≡◌, refl, sym, ap, ◌∙◌, subst, ◌⊎◌, inl, inr, true, none, some, List, [], ◌∷◌, arith, ◌==◌,
  Bool-cases, Option-cases, length, All,
}
use deep_agent_cli.Text.{Text}
use deep_agent_cli.IndexStore.{ChunkRecord, ChunkRecordInput, Embedding}
use deep_agent_cli.Indexing.{
  IndexError, Result, done, failed, ◌>>=◌, prepend, done_injective, count_mismatch, dims_mismatch,
}
use deep_agent_cli.Indexing.Refresh.{reusable, with_embedding, pending_texts, assign}
use deep_agent_cli.Indexing.Refresh.Lookup.{
  IsReused, IsEmbedded, reusable-IsReused, reusable-changed,
}

abbrev pub IsRefreshed : List ChunkRecord → Text → ℕ → ChunkRecordInput → ChunkRecordInput → Type 0
IsRefreshed existing model dims r out =
    IsReused existing r out ⊎ IsEmbedded existing model dims r out

-- The lists have the same length and correspond element by element.
abbrev pub Pairwise :
    (ChunkRecordInput → ChunkRecordInput → Type 0)
    → List ChunkRecordInput
    → List ChunkRecordInput
    → Type 0
Pairwise R [] [] = Unit
Pairwise R [] (y ∷ ys) = ⊥
Pairwise R (x ∷ xs) [] = ⊥
Pairwise R (x ∷ xs) (y ∷ ys) = R x y × Pairwise R xs ys

prepend-Pairwise :
    (R : ChunkRecordInput → ChunkRecordInput → Type 0) (r x : ChunkRecordInput)
    (rs : List ChunkRecordInput) (m : Result (List ChunkRecordInput)) (out : List ChunkRecordInput)
    → prepend x m ≡ done out
    → R r x
    → ((more : List ChunkRecordInput) → m ≡ done more → Pairwise R rs more)
    → Pairwise R (r ∷ rs) out
unfolding prepend ◌>>=◌
prepend-Pairwise R r x rs (done more) out h p ih =
    subst (λ l. Pairwise R (r ∷ rs) l) (done_injective (x ∷ more) out h) (p, ih more refl)
prepend-Pairwise R r x rs (failed e) out h p ih = absurd (ground arith)

failed-done : {A : Type 0} (e : IndexError) (a : A) → ¬ (failed e ≡ done a)
failed-done e a h = ground arith

pub equal : (m n : ℕ) → (m == n) ≡ true → m ≡ n
equal m n h = ground arith

pub equal_true : (m n : ℕ) → m ≡ n → (m == n) ≡ true
equal_true m n h = ground arith

nothing_left : (t : Text) (ts : List Text) → ¬ (0 ≡ length (t ∷ ts))
nothing_left t ts h = omega (arith, h)

pub pending-reused :
    (existing : List ChunkRecord) (r : ChunkRecordInput) (rs : List ChunkRecordInput)
    (e : ChunkRecord)
    → reusable existing r ≡ some e
    → pending_texts existing (r ∷ rs) ≡ pending_texts existing rs
unfolding pending_texts
pending-reused existing r rs e q = rw (q, pending_texts) refl

pub pending-new :
    (existing : List ChunkRecord) (r : ChunkRecordInput) (rs : List ChunkRecordInput)
    → reusable existing r ≡ none
    → pending_texts existing (r ∷ rs) ≡ r.content ∷ pending_texts existing rs
unfolding pending_texts
pending-new existing r rs q = rw (q, pending_texts) refl

module _ (existing : List ChunkRecord) (model : Text) (dims : ℕ) where
  assign-reused :
      (vectors : List Embedding) (r : ChunkRecordInput) (rs : List ChunkRecordInput)
      (e : ChunkRecord)
      → reusable existing r ≡ some e
      → assign existing model dims vectors (r ∷ rs)
        ≡ prepend
            (with_embedding e.model e.embedding_dims e.embedding r)
            (assign existing model dims vectors rs)
  unfolding assign
  assign-reused vectors r rs e q = rw (q, assign) refl

  assign-new :
      (v : Embedding) (vs : List Embedding) (r : ChunkRecordInput) (rs : List ChunkRecordInput)
      → reusable existing r ≡ none
      → (length v == dims) ≡ true
      → assign existing model dims (v ∷ vs) (r ∷ rs)
        ≡ prepend (with_embedding model dims v r) (assign existing model dims vs rs)
  unfolding assign
  assign-new v vs r rs q b = rw (q, b, assign) refl

  reused :
      (vectors : List Embedding) (r : ChunkRecordInput) (rs out : List ChunkRecordInput)
      (e : ChunkRecord)
      → reusable existing r ≡ some e
      → assign existing model dims vectors (r ∷ rs) ≡ done out
      → ((more : List ChunkRecordInput)
          → assign existing model dims vectors rs ≡ done more
          → Pairwise (IsRefreshed existing model dims) rs more)
      → Pairwise (IsRefreshed existing model dims) (r ∷ rs) out
  unfolding assign
  reused vectors r rs out e q h ih =
      prepend-Pairwise (IsRefreshed existing model dims) r
        (with_embedding e.model e.embedding_dims e.embedding r) rs
        (assign existing model dims vectors rs) out (sym (assign-reused vectors r rs e q) ∙ h)
        (inl (reusable-IsReused existing r e q)) ih

  pub assign-Pairwise :
      (vectors : List Embedding) (records out : List ChunkRecordInput)
      → assign existing model dims vectors records ≡ done out
      → Pairwise (IsRefreshed existing model dims) records out
  unfolding assign with_embedding
  assign-Pairwise vectors [] out h =
      subst (λ l. Pairwise (IsRefreshed existing model dims) [] l) (done_injective [] out h) tt
  assign-Pairwise [] (r ∷ rs) out h = elim (Option-cases (reusable existing r)) [
    | inr (e, q) ↦ reused [] r rs out e q h (λ more g. assign-Pairwise [] rs more g)
    | inl q ↦ absurd (failed-done count_mismatch out (sym (rw (q, assign) refl) ∙ h))
  ]
  assign-Pairwise (v ∷ vs) (r ∷ rs) out h = elim (Option-cases (reusable existing r)) [
    | inr (e, q) ↦ reused (v ∷ vs) r rs out e q h (λ more g. assign-Pairwise (v ∷ vs) rs more g)
    | inl q ↦ elim (Bool-cases (length v == dims)) [
      | inr b ↦ absurd (failed-done dims_mismatch out (sym (rw (q, b, assign) refl) ∙ h))
      | inl b ↦
          prepend-Pairwise (IsRefreshed existing model dims) r (with_embedding model dims v r) rs
            (assign existing model dims vs rs) out (sym (assign-new v vs r rs q b) ∙ h)
            (inr record {
              vector = v;
              sized = equal (length v) dims b;
              changed = reusable-changed existing r q;
              taken = refl;
            })
            (λ more g. assign-Pairwise vs rs more g)
    ]
  ]

  -- With enough vectors of the promised length each record gets one.
  pub assign-done :
      (vectors : List Embedding) (records : List ChunkRecordInput)
      → length vectors ≡ length (pending_texts existing records)
      → All (λ v. length v ≡ dims) vectors
      → (out : List ChunkRecordInput) × (assign existing model dims vectors records ≡ done out)
  unfolding assign pending_texts prepend ◌>>=◌
  assign-done vectors [] n a = ([], refl)
  assign-done [] (r ∷ rs) n a = elim (Option-cases (reusable existing r)) [
    | inr (e, q) ↦
        let (out, k) = assign-done [] rs (n ∙ ap length (pending-reused existing r rs e q)) a in
        (
          with_embedding e.model e.embedding_dims e.embedding r ∷ out,
          assign-reused [] r rs e q
              ∙ ap (prepend (with_embedding e.model e.embedding_dims e.embedding r)) k,
        )
    | inl q ↦ absurd (
        nothing_left r.content (pending_texts existing rs)
          (n ∙ ap length (pending-new existing r rs q)))
  ]
  assign-done (v ∷ vs) (r ∷ rs) n a = elim (Option-cases (reusable existing r)) [
    | inr (e, q) ↦
        let (out, k) =
          assign-done (v ∷ vs) rs (n ∙ ap length (pending-reused existing r rs e q)) a in
        (
          with_embedding e.model e.embedding_dims e.embedding r ∷ out,
          assign-reused (v ∷ vs) r rs e q
              ∙ ap (prepend (with_embedding e.model e.embedding_dims e.embedding r)) k,
        )
    | inl q ↦
        let (out, k) =
          assign-done vs rs (omega (arith, n, ap length (pending-new existing r rs q))) a.1 in
        (
          with_embedding model dims v r ∷ out,
          assign-new v vs r rs q (equal_true (length v) dims a.0)
              ∙ ap (prepend (with_embedding model dims v r)) k,
        )
  ]
