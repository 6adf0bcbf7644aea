-- ===== src/Indexing/Refresh/Sound.antt =====
-- What a refresh keeps and sets.
use deep_agent_cli.Base.{
  ℕ, ◌≡◌, refl, sym, ap, ◌∙◌, ◌≢◌, ◌⊎◌, inl, inr, Option, none, some, List, [], ◌∷◌, arith,
  Option-cases, length, In,
}
use deep_agent_cli.Text.{Text}
use deep_agent_cli.IndexStore.{ChunkRecord, ChunkRecordInput}
use deep_agent_cli.Indexing.{done, failed, embedder_required}
use deep_agent_cli.Indexing.Refresh.{
  reusable, chunk_record_key, Embedder, pending_texts, assign, embed_pending, refresh_embeddings,
}
use deep_agent_cli.Indexing.Refresh.Lookup.{IsLast, IsReused, reusable-IsReused, reusable-changed}
use deep_agent_cli.Indexing.Refresh.Assign.{
  IsRefreshed, Pairwise, pending-new, pending-reused, assign-Pairwise, assign-done,
}

pending-cases : (ts : List Text) → (ts ≡ []) ⊎ ((t : Text) × (rest : List Text) × (ts ≡ t ∷ rest))
pending-cases [] = inl refl
pending-cases (t ∷ ts) = inr (t, ts, refl)

refresh-none :
    (existing : List ChunkRecord) (records : List ChunkRecordInput) (embedder : Option Embedder)
    → pending_texts existing records ≡ []
    → refresh_embeddings existing records embedder ≡ assign existing [] 0 [] records
unfolding refresh_embeddings
refresh-none existing records embedder q = rw (q, refresh_embeddings) refl

refresh-some :
    (existing : List ChunkRecord) (records : List ChunkRecordInput) (embedder : Option Embedder)
    (t : Text) (ts : List Text)
    → pending_texts existing records ≡ t ∷ ts
    → refresh_embeddings existing records embedder ≡ embed_pending existing records embedder
unfolding refresh_embeddings
refresh-some existing records embedder t ts q = rw (q, refresh_embeddings) refl

-- A record that cannot reuse an embedding: the last existing record under its key, if there is one, has
-- another content hash.
abbrev pub IsNew : List ChunkRecord → ChunkRecordInput → Type 0
IsNew existing r =
    (e : ChunkRecord)
    → IsLast existing (chunk_record_key r.rel_path r.chunk_index) e
    → e.content_hash ≢ r.content_hash

not_empty : (t : Text) (ts : List Text) → ¬ (t ∷ ts ≡ [])
not_empty t ts h = ground arith

IsRefreshed-IsReused :
    (existing : List ChunkRecord) (model : Text) (dims : ℕ) (r x : ChunkRecordInput)
    (e : ChunkRecord)
    → reusable existing r ≡ some e
    → IsRefreshed existing model dims r x
    → IsReused existing r x
IsRefreshed-IsReused existing model dims r x e k (inl u) = u
IsRefreshed-IsReused existing model dims r x e k (inr u) =
    let found = reusable-IsReused existing r e k in
    absurd (u.changed found.source found.is_last found.hash)

all-IsReused :
    (existing : List ChunkRecord) (model : Text) (dims : ℕ) (records out : List ChunkRecordInput)
    → pending_texts existing records ≡ []
    → Pairwise (IsRefreshed existing model dims) records out
    → Pairwise (IsReused existing) records out
unfolding pending_texts
all-IsReused existing model dims [] [] q h = tt
all-IsReused existing model dims [] (x ∷ xs) q h = h
all-IsReused existing model dims (r ∷ rs) [] q h = h
all-IsReused existing model dims (r ∷ rs) (x ∷ xs) q h = elim (Option-cases (reusable existing r)) [
  | inl k ↦ absurd (not_empty r.content _ (sym (pending-new existing r rs k) ∙ q))
  | inr (e, k) ↦ (
    IsRefreshed-IsReused existing model dims r x e k h.0,
    all-IsReused existing model dims rs xs (sym (pending-reused existing r rs e k) ∙ q) h.1,
  )
]

pending-IsNew :
    (existing : List ChunkRecord) (records : List ChunkRecordInput) (t : Text) (ts : List Text)
    → pending_texts existing records ≡ t ∷ ts
    → (r : ChunkRecordInput) × In r records × IsNew existing r
unfolding pending_texts
pending-IsNew existing [] t ts q = absurd (ground arith)
pending-IsNew existing (r ∷ rs) t ts q = elim (Option-cases (reusable existing r)) [
  | inl k ↦ (r, inl refl, reusable-changed existing r k)
  | inr (e, k) ↦
      let (x, i, n) = pending-IsNew existing rs t ts (sym (pending-reused existing r rs e k) ∙ q) in
      (x, inr i, n)
]

-- A refresh without an embedder, as `NewDeltaApplier` leaves it: either it succeeds, and every record
-- gets the embedding of the existing record that is listed last under its key, which has its content
-- hash; or it fails with `embedder_required`, and one of the records is new, in that the last existing
-- record under its key, if there is one, has another content hash.
pub refresh_embeddings-no_embedder :
    (existing : List ChunkRecord) (records : List ChunkRecordInput)
    → ((out : List ChunkRecordInput) × (refresh_embeddings existing records none ≡ done out)
        × Pairwise (IsReused existing) records out)
      ⊎ ((refresh_embeddings existing records none ≡ failed embedder_required)
          × ((r : ChunkRecordInput) × In r records × IsNew existing r))
unfolding embed_pending
refresh_embeddings-no_embedder existing records =
    elim (pending-cases (pending_texts existing records)) [
      | inl q ↦
          let (out, k) = assign-done existing [] 0 [] records (sym (ap length q)) tt in
          inl (
            out,
            refresh-none existing records none q ∙ k,
            all-IsReused existing [] 0 records out q
                (assign-Pairwise existing [] 0 [] records out k),
          )
      | inr (t, ts, q) ↦
          inr (refresh-some existing records none t ts q, pending-IsNew existing records t ts q)
    ]
