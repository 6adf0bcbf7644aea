-- ===== src/Indexing/Merge.antt =====
-- `BuildChunkDelta`, `DeleteChunksForFile` (internal/indexing/chunk_delta.go) and
-- `mergeChunkRecords` (internal/indexing/embedding_refresh.go).
pub mod Kept
pub mod Ordered
pub mod Exact
pub mod Deleted
use deep_agent_cli.Base.{Bool, not, ◌&&◌, List, [], ◌∷◌, ◌++◌, leb, if◌then◌else◌}
use deep_agent_cli.Base.Sort.{sort}
use deep_agent_cli.Text.{Text, text, eq, le, member}
use deep_agent_cli.Text.Trim.{trim}
use deep_agent_cli.IndexStore.{ChunkRecord, ChunkRecordInput}
use deep_agent_cli.Indexing.{
  Host, Result, done, failed, ◌>>=◌, prepend, IndexError, session_id_required, repo_root_required,
  scope_mismatch, relative,
}
use deep_agent_cli.Indexing.Records.{ChunkedDocument, build_chunk_records}

-- the copy of an existing record that stays in the index
unfoldable pub kept_record : ChunkRecord → ChunkRecordInput
kept_record r = record {
  session_id = r.session_id;
  repo_root = r.repo_root;
  rel_path = r.rel_path;
  chunk_index = r.chunk_index;
  content = r.content;
  content_hash = r.content_hash;
  model = r.model;
  embedding_dims = r.embedding_dims;
  embedding = r.embedding;
}

-- `validateExistingChunkScope` finds no error
unfoldable pub in_scope : Text → Text → ChunkRecord → Bool
in_scope session_id repo_root r = eq r.session_id session_id && eq r.repo_root repo_root

-- A loop that normalizes paths and adds them to `removed`
unfoldable pub normalize_all : List Text → Result (List Text)
unfolding ◌>>=◌
normalize_all [] = done []
normalize_all (path ∷ paths) = do
  normalized ← relative path
  more ← normalize_all paths
  done (normalized ∷ more)

-- the loop over the existing records
unfoldable pub keep_existing :
    Text → Text → List Text → List ChunkRecord → Result (List ChunkRecordInput)
unfolding kept_record in_scope prepend
keep_existing session_id repo_root removed [] = done []
keep_existing session_id repo_root removed (r ∷ records) =
    let rest = keep_existing session_id repo_root removed records in
    if not (in_scope session_id repo_root r)
    then failed scope_mismatch
    else if member r.rel_path removed
    then rest
    else prepend (kept_record r) rest

-- the comparison of both sorts is not positive
unfoldable pub record_le : ChunkRecordInput → ChunkRecordInput → Bool
record_le a b =
    if eq a.rel_path b.rel_path then leb a.chunk_index b.chunk_index else le a.rel_path b.rel_path

abbrev pub document_paths : List ChunkedDocument → List Text
document_paths [] = []
document_paths (d ∷ ds) = d.rel_path ∷ document_paths ds

abbrev pub record_paths : List ChunkRecordInput → List Text
record_paths [] = []
record_paths (r ∷ rs) = r.rel_path ∷ record_paths rs

-- `BuildChunkDelta`
unfoldable pub build_chunk_delta :
    Host
    → Text
    → Text
    → List ChunkRecord
    → List ChunkedDocument
    → List Text
    → Result (List ChunkRecordInput)
unfolding build_chunk_records normalize_all keep_existing record_le sort ◌>>=◌
build_chunk_delta host session_id repo_root existing documents delete_paths =
    if eq (trim session_id) []
    then failed session_id_required
    else if eq (trim repo_root) []
    then failed repo_root_required
    else do
      deleted ← normalize_all delete_paths
      replaced ← normalize_all (document_paths documents)
      kept ← keep_existing session_id repo_root (deleted ++ replaced) existing
      created ← build_chunk_records host session_id repo_root documents
      done (sort record_le (kept ++ created))

-- the loop of `DeleteChunksForFile`
unfoldable pub without_path : Text → List ChunkRecord → List ChunkRecord
without_path path [] = []
without_path path (r ∷ records) =
    let rest = without_path path records in if eq r.rel_path path then rest else r ∷ rest

-- `DeleteChunksForFile`
unfoldable pub delete_chunks_for_file : List ChunkRecord → Text → Result (List ChunkRecord)
unfolding without_path ◌>>=◌
delete_chunks_for_file existing rel_path = do
  normalized ← relative rel_path
  done (without_path normalized existing)

-- `mergeChunkRecords`
unfoldable pub merge_chunk_records :
    Text
    → Text
    → List ChunkRecord
    → List ChunkRecordInput
    → List Text
    → Result (List ChunkRecordInput)
unfolding normalize_all keep_existing record_le sort ◌>>=◌
merge_chunk_records session_id repo_root existing refreshed delete_paths = do
  deleted ← normalize_all delete_paths
  replaced ← normalize_all (record_paths refreshed)
  kept ← keep_existing session_id repo_root (deleted ++ replaced) existing
  done (sort record_le (kept ++ refreshed))
