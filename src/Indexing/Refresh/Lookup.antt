-- ===== src/Indexing/Refresh/Lookup.antt =====
-- The lookup of `existingByChunk` and the record whose embedding is reused.
use deep_agent_cli.Base.{
  ℕ, ◌≡◌, refl, sym, ap, ◌∙◌, subst, ◌≢◌, inl, inr, Bool, true, false, false≢true, Option, none,
  some, List, [], ◌∷◌, ◌++◌, arith, if◌then◌else◌, Bool-cases, Option-cases, length, All,
}
use deep_agent_cli.Text.{Text, eq, eq_iff}
use deep_agent_cli.IndexStore.{ChunkRecord, ChunkRecordInput, Embedding}
use deep_agent_cli.Indexing.Refresh.{
  chunk_record_key, with_hash, or_else, existing_by_chunk, reusable, with_embedding,
}

-- The existing record that is listed last under a key.
pub record IsLast (existing : List ChunkRecord) (key : Text) (e : ChunkRecord) : Type 0 where
  pub before : List ChunkRecord
  pub after : List ChunkRecord
  pub split : existing ≡ before ++ (e ∷ after)
  pub same_key : chunk_record_key e.rel_path e.chunk_index ≡ key
  pub last : All (λ a. chunk_record_key a.rel_path a.chunk_index ≢ key) after

-- The embedding of the last existing record with the same key, which has the same content hash.
pub record IsReused (existing : List ChunkRecord) (r out : ChunkRecordInput) : Type 0 where
  pub source : ChunkRecord
  pub is_last : IsLast existing (chunk_record_key r.rel_path r.chunk_index) source
  pub hash : source.content_hash ≡ r.content_hash
  pub taken : out ≡ record r {
    model = source.model;
    embedding_dims = source.embedding_dims;
    embedding = source.embedding;
  }

-- A new embedding of the promised length: the last existing record with the same key, if there is one,
-- has another content hash.
pub record IsEmbedded (existing : List ChunkRecord) (model : Text) (dims : ℕ)
    (r out : ChunkRecordInput) : Type 0 where
  pub vector : Embedding
  pub sized : length vector ≡ dims
  pub changed :
      (e : ChunkRecord)
      → IsLast existing (chunk_record_key r.rel_path r.chunk_index) e
      → e.content_hash ≢ r.content_hash
  pub taken : out ≡ record r { model = model; embedding_dims = dims; embedding = vector }

some_injective : (a b : ChunkRecord) → some a ≡ some b → a ≡ b
some_injective a b h = ground arith

none≢some : (e : ChunkRecord) → ¬ (none ≡ some e)
none≢some e h = ground arith

if-some :
    (b : Bool) (r e : ChunkRecord) → (if b then some r else none) ≡ some e → (b ≡ true) × (r ≡ e)
if-some true r e h = (refl, some_injective r e h)
if-some false r e h = absurd (ground arith)

or_else-none : (o o' : Option ChunkRecord) → or_else o o' ≡ none → (o ≡ none) × (o' ≡ none)
unfolding or_else
or_else-none (some x) o' h = absurd (ground arith)
or_else-none none o' h = (refl, h)

keyed-none : (b : Bool) (r : ChunkRecord) → (if b then some r else none) ≡ none → b ≡ false
keyed-none true r h = absurd (ground arith)
keyed-none false r h = refl

differs : (a b : Text) → a ≢ b → eq a b ≡ false
differs a b h = elim (Bool-cases (eq a b)) [ inl e ↦ absurd (h ((eq_iff a b).0 e)) | inr e ↦ e ]

existing_by_chunk-none :
    (existing : List ChunkRecord) (key : Text)
    → existing_by_chunk existing key ≡ none
    → All (λ a. chunk_record_key a.rel_path a.chunk_index ≢ key) existing
unfolding existing_by_chunk
existing_by_chunk-none [] key h = tt
existing_by_chunk-none (r ∷ rs) key h =
    let (later, here) = or_else-none (existing_by_chunk rs key) _ h in
    (
      λ e. false≢true (
          sym (keyed-none (eq (chunk_record_key r.rel_path r.chunk_index) key) r here)
          ∙ (eq_iff (chunk_record_key r.rel_path r.chunk_index) key).1 e),
      existing_by_chunk-none rs key later,
    )

existing_by_chunk-IsLast :
    (existing : List ChunkRecord) (key : Text) (e : ChunkRecord)
    → existing_by_chunk existing key ≡ some e
    → IsLast existing key e
unfolding existing_by_chunk or_else
existing_by_chunk-IsLast [] key e h = absurd (ground arith)
existing_by_chunk-IsLast (r ∷ rs) key e h = elim (Option-cases (existing_by_chunk rs key)) [
  | inr (x, q) ↦
      let k = existing_by_chunk-IsLast rs key e (q ∙ (rw (q, or_else) at h)) in
      record {
        before = r ∷ k.before;
        after = k.after;
        split = ap (λ l. r ∷ l) k.split;
        same_key = k.same_key;
        last = k.last;
      }
  | inl q ↦
      let (t, same) =
        if-some (eq (chunk_record_key r.rel_path r.chunk_index) key) r e (rw (q, or_else) at h) in
      record {
        before = [];
        after = rs;
        split = ap (λ x. x ∷ rs) same;
        same_key =
            subst (λ y. chunk_record_key y.rel_path y.chunk_index ≡ key) same
              ((eq_iff (chunk_record_key r.rel_path r.chunk_index) key).0 t);
        last = existing_by_chunk-none rs key q;
      }
]

-- The lookup finds the last record under the key.
none-existing_by_chunk :
    (after : List ChunkRecord) (key : Text)
    → All (λ a. chunk_record_key a.rel_path a.chunk_index ≢ key) after
    → existing_by_chunk after key ≡ none
unfolding existing_by_chunk or_else
none-existing_by_chunk [] key h = refl
none-existing_by_chunk (a ∷ as') key h =
    rw (none-existing_by_chunk as' key h.1, differs _ key h.0) refl

IsLast-existing_by_chunk :
    (before after : List ChunkRecord) (key : Text) (e : ChunkRecord)
    → chunk_record_key e.rel_path e.chunk_index ≡ key
    → All (λ a. chunk_record_key a.rel_path a.chunk_index ≢ key) after
    → existing_by_chunk (before ++ (e ∷ after)) key ≡ some e
unfolding existing_by_chunk or_else
IsLast-existing_by_chunk [] after key e k h =
    rw
      (
        none-existing_by_chunk after key h,
        (eq_iff (chunk_record_key e.rel_path e.chunk_index) key).1 k,
      )
      refl
IsLast-existing_by_chunk (b ∷ before) after key e k h =
    rw (IsLast-existing_by_chunk before after key e k h, or_else) refl

with_hash-some :
    (hash : Text) (o : Option ChunkRecord) (e : ChunkRecord)
    → with_hash hash o ≡ some e
    → (o ≡ some e) × (e.content_hash ≡ hash)
unfolding with_hash
with_hash-some hash none e h = absurd (ground arith)
with_hash-some hash (some x) e h =
    let (t, same) = if-some (eq x.content_hash hash) x e h in
    (ap some same, subst (λ y. y.content_hash ≡ hash) same ((eq_iff x.content_hash hash).0 t))

pub reusable-IsReused :
    (existing : List ChunkRecord) (r : ChunkRecordInput) (e : ChunkRecord)
    → reusable existing r ≡ some e
    → IsReused existing r (with_embedding e.model e.embedding_dims e.embedding r)
unfolding reusable with_embedding
reusable-IsReused existing r e h =
    let key = chunk_record_key r.rel_path r.chunk_index in
    let (q, hash) = with_hash-some r.content_hash (existing_by_chunk existing key) e h in
    record {
      source = e;
      is_last = existing_by_chunk-IsLast existing key e q;
      hash = hash;
      taken = refl;
    }

with_hash-same :
    (e : ChunkRecord) (hash : Text) → e.content_hash ≡ hash → with_hash hash (some e) ≡ some e
unfolding with_hash
with_hash-same e hash h = rw ((eq_iff e.content_hash hash).1 h) refl

pub reusable-changed :
    (existing : List ChunkRecord) (r : ChunkRecordInput)
    → reusable existing r ≡ none
    → (e : ChunkRecord) → IsLast existing (chunk_record_key r.rel_path r.chunk_index) e
    → e.content_hash ≢ r.content_hash
unfolding reusable
reusable-changed existing r h e l same =
    let key = chunk_record_key r.rel_path r.chunk_index in
    let found : existing_by_chunk existing key ≡ some e =
      ap (λ x. existing_by_chunk x key) l.split
      ∙ IsLast-existing_by_chunk l.before l.after key e l.same_key l.last in
    none≢some e (sym h ∙ ap (with_hash r.content_hash) found ∙ with_hash-same e r.content_hash same)
