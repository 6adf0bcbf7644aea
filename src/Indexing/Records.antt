-- ===== src/Indexing/Records.antt =====
-- `BuildChunkRecords` of internal/indexing/records.go.
use deep_agent_cli.Base.{
  ℕ, zero, suc, ◌+◌, ◌/◌, ◌%◌, not, List, [], ◌∷◌, ◌++◌, ltb, ◌==◌, if◌then◌else◌,
}
use deep_agent_cli.Text.{Text, text, eq}
use deep_agent_cli.Text.Trim.{trim}
use deep_agent_cli.Chunker.{Chunk}
use deep_agent_cli.IndexStore.{ChunkRecordInput}
use deep_agent_cli.Indexing.{
  Host, Result, done, failed, ◌>>=◌, prepend, IndexError, session_id_required, chunk_gap,
  chunk_empty, relative, canonicalize_repo_root,
}
pub mod Built

pub record ChunkedDocument : Type 0 where
  pub rel_path : Text
  pub chunks : List Chunk

digits : ℕ → ℕ → Text
digits zero n = []
digits (suc fuel) n =
    let higher = digits fuel (n / 10) in
    if ltb n 10 then (48 + n) ∷ [] else higher ++ ((48 + n % 10) ∷ [])

-- `strconv.Itoa` of a number that is not negative; the number bounds its digits
unfoldable pub itoa : ℕ → Text
unfolding digits
itoa n = digits (suc n) n

abbrev pub newline : Text
newline = 10 ∷ []

-- `chunkContentHash`
unfoldable pub chunk_content_hash : Host → Text → ℕ → Text → Text
unfolding itoa
chunk_content_hash host rel_path chunk_index content =
    host.sha256_hex (rel_path ++ newline ++ itoa chunk_index ++ newline ++ content)

-- the record that the loop appends for a chunk
unfoldable pub chunk_record : Host → Text → Text → Text → Chunk → ChunkRecordInput
unfolding chunk_content_hash
chunk_record host session_id root rel_path chunk = record {
  session_id = session_id;
  repo_root = root;
  rel_path = rel_path;
  chunk_index = chunk.index;
  content = chunk.content;
  content_hash = chunk_content_hash host rel_path chunk.index chunk.content;
  model = [];
  embedding_dims = 0;
  embedding = [];
}

-- the loop over `document.Chunks` from a position on
unfoldable pub records_of_chunks :
    Host → Text → Text → Text → ℕ → List Chunk → Result (List ChunkRecordInput)
unfolding chunk_record prepend
records_of_chunks host session_id root rel_path i [] = done []
records_of_chunks host session_id root rel_path i (chunk ∷ chunks) =
    let rest = records_of_chunks host session_id root rel_path (suc i) chunks in
    if not (chunk.index == i)
    then failed (chunk_gap rel_path chunk.index)
    else if eq (trim chunk.content) []
    then failed (chunk_empty rel_path chunk.index)
    else prepend (chunk_record host session_id root rel_path chunk) rest

-- the loop over the documents
unfoldable pub records_of_documents :
    Host → Text → Text → List ChunkedDocument → Result (List ChunkRecordInput)
unfolding records_of_chunks ◌>>=◌
records_of_documents host session_id root [] = done []
records_of_documents host session_id root (document ∷ documents) = do
  rel_path ← relative document.rel_path
  records ← records_of_chunks host session_id root rel_path 0 document.chunks
  more ← records_of_documents host session_id root documents
  done (records ++ more)

-- `BuildChunkRecords`
unfoldable pub build_chunk_records :
    Host → Text → Text → List ChunkedDocument → Result (List ChunkRecordInput)
unfolding records_of_documents canonicalize_repo_root ◌>>=◌
build_chunk_records host session_id repo_root documents =
    if eq (trim session_id) [] then failed session_id_required else do
      root ← canonicalize_repo_root host repo_root
      records_of_documents host session_id root documents
