-- ===== src/Indexing/Refresh.antt =====
-- `RefreshEmbeddingsForChangedChunks` of internal/indexing/embedding_refresh.go. The embedder is a
-- function, or `none` for nil.
use deep_agent_cli.Base.{
  ℕ, not, Option, none, some, List, [], ◌∷◌, ◌++◌, ◌==◌, if◌then◌else◌, length,
}
use deep_agent_cli.Text.{Text, text, eq}
use deep_agent_cli.Reply.{Reply}
use deep_agent_cli.IndexStore.{ChunkRecord, ChunkRecordInput, Embedding}
use deep_agent_cli.Indexing.{
  Result, done, failed, ◌>>=◌, prepend, of_reply, IndexError, embedder_required, dims_not_positive,
  dims_mismatch, count_mismatch,
}
use deep_agent_cli.Indexing.Records.{itoa}
pub mod Lookup
pub mod Assign
pub mod Sound

-- `embeddings.Result`, whose dimensions are no negative number here
pub record Embeddings : Type 0 where
  pub model : Text
  pub dimensions : ℕ
  pub vectors : List Embedding

abbrev pub Embedder : Type 0
Embedder = List Text → Reply Embeddings

-- `chunkRecordKey`
unfoldable pub chunk_record_key : Text → ℕ → Text
unfolding itoa
chunk_record_key rel_path chunk_index = rel_path ++ (58 ∷ itoa chunk_index)

unfoldable pub or_else : Option ChunkRecord → Option ChunkRecord → Option ChunkRecord
or_else (some r) o = some r
or_else none o = o

-- `existingByChunk[key]`: a later record overwrites an earlier one
unfoldable pub existing_by_chunk : List ChunkRecord → Text → Option ChunkRecord
unfolding or_else chunk_record_key
existing_by_chunk [] key = none
existing_by_chunk (r ∷ records) key =
    or_else (existing_by_chunk records key)
      (if eq (chunk_record_key r.rel_path r.chunk_index) key then some r else none)

unfoldable pub with_hash : Text → Option ChunkRecord → Option ChunkRecord
with_hash hash none = none
with_hash hash (some e) = if eq e.content_hash hash then some e else none

-- the existing record whose embedding is reused: same key and same content hash
unfoldable pub reusable : List ChunkRecord → ChunkRecordInput → Option ChunkRecord
unfolding existing_by_chunk chunk_record_key with_hash
reusable existing r =
    with_hash r.content_hash
      (existing_by_chunk existing (chunk_record_key r.rel_path r.chunk_index))

-- `refreshed[i]` with its embedding set
unfoldable pub with_embedding : Text → ℕ → Embedding → ChunkRecordInput → ChunkRecordInput
with_embedding model dims vector r = record {
  session_id = r.session_id;
  repo_root = r.repo_root;
  rel_path = r.rel_path;
  chunk_index = r.chunk_index;
  content = r.content;
  content_hash = r.content_hash;
  model = model;
  embedding_dims = dims;
  embedding = vector;
}

-- the first loop: `pendingTexts`
unfoldable pub pending_texts : List ChunkRecord → List ChunkRecordInput → List Text
unfolding reusable
pending_texts existing [] = []
pending_texts existing (r ∷ rs) = elim (reusable existing r) [
  | some e ↦ pending_texts existing rs
  | none ↦ r.content ∷ pending_texts existing rs
]

-- both loops on `refreshed`: reused embeddings, and the vectors in order for the pending records
unfoldable pub assign :
    List ChunkRecord
    → Text
    → ℕ
    → List Embedding
    → List ChunkRecordInput
    → Result (List ChunkRecordInput)
unfolding reusable with_embedding prepend
assign existing model dims vectors [] = done []
assign existing model dims vectors (r ∷ rs) = elim (reusable existing r) [
  | some e ↦
      prepend (with_embedding e.model e.embedding_dims e.embedding r)
        (assign existing model dims vectors rs)
  | none ↦ elim vectors [
    | [] ↦ failed count_mismatch
    | v ∷ vs ↦
        let more = assign existing model dims vs rs in
        if length v == dims
        then prepend (with_embedding model dims v r) more
        else failed dims_mismatch
  ]
]

-- the checks on what the embedder returned, and the second loop
unfoldable pub assign_result :
    List ChunkRecord → List ChunkRecordInput → Embeddings → Result (List ChunkRecordInput)
unfolding assign pending_texts
assign_result existing records result =
    if result.dimensions == 0
    then failed dims_not_positive
    else if not (length result.vectors == length (pending_texts existing records))
    then failed count_mismatch
    else assign existing result.model result.dimensions result.vectors records

-- the call of the embedder, if it is there
unfoldable pub embed_pending :
    List ChunkRecord → List ChunkRecordInput → Option Embedder → Result (List ChunkRecordInput)
unfolding assign_result pending_texts ◌>>=◌ of_reply
embed_pending existing records none = failed embedder_required
embed_pending existing records (some embed) =
    of_reply (embed (pending_texts existing records)) >>= assign_result existing records

-- `RefreshEmbeddingsForChangedChunks`; without a pending record no embedder is called
unfoldable pub refresh_embeddings :
    List ChunkRecord → List ChunkRecordInput → Option Embedder → Result (List ChunkRecordInput)
unfolding embed_pending assign pending_texts
refresh_embeddings existing records embedder = elim (pending_texts existing records) [
  | [] ↦ assign existing [] 0 [] records
  | t ∷ ts ↦ embed_pending existing records embedder
]
