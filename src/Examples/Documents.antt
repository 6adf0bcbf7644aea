-- ===== src/Examples/Documents.antt =====
-- A document of four lines, cut by internal/indexing/chunker.go and made into records.
use deep_agent_cli.Base.{ℕ, ◌≡◌, refl, ◌⊎◌, true, some, List, [], ◌∷◌, take}
use deep_agent_cli.Base.Int.{pos}
use deep_agent_cli.Text.{Text, text, eq}
use deep_agent_cli.Text.Trim.{trim}
use deep_agent_cli.Reply.{value}
use deep_agent_cli.Chunker.{
  ChunkPolicy, Chunk, with_defaults, replace_crlf, chunk_document, chunk_document_with_policy,
}
use deep_agent_cli.Chunker.Cover.{IsChunked, chunk_document_with_policy-IsChunked}
use deep_agent_cli.FilePath.{split, normalize_relative_path}
use deep_agent_cli.IndexStore.{ChunkRecordInput}
use deep_agent_cli.Indexing.{Host, done, relative, canonicalize_repo_root}
use deep_agent_cli.Indexing.Records.{ChunkedDocument, build_chunk_records}
use deep_agent_cli.Indexing.Records.Built.{
  RecordsOf, IsDocument, chunk_document-IsProper, build_chunk_records-RecordsOf,
}

abbrev lines : Text
lines = 97 ∷ 10 ∷ 98 ∷ 10 ∷ 99 ∷ 10 ∷ 100 ∷ []

abbrev policy : ChunkPolicy
policy = record { max_chars = pos 100; max_lines = pos 2; overlap_lines = pos 1 }

abbrev chunk : ℕ → Text → Chunk
chunk i content = record { index = i; content = content }

chunks_test :
    chunk_document_with_policy lines policy
    ≡ some (
        chunk 0 (97 ∷ 10 ∷ 98 ∷ [])
        ∷ chunk 1 (98 ∷ 10 ∷ 99 ∷ [])
        ∷ chunk 2 (99 ∷ 10 ∷ 100 ∷ [])
        ∷ [])
unfolding chunk_document_with_policy trim eq
chunks_test = refl

chunk_document_with_policy-IsChunked_example :
    (cs : List Chunk) × (chunk_document_with_policy lines policy ≡ some cs)
    × (((trim (replace_crlf lines) ≡ []) × (cs ≡ []))
        ⊎ IsChunked (with_defaults policy) (replace_crlf lines) cs)
chunk_document_with_policy-IsChunked_example = chunk_document_with_policy-IsChunked lines policy

abbrev pub host : Host
host = record {
  abs = value;
  eval_symlinks = value;
  is_dir = λ p. value true;
  read_file = λ p. value lines;
  sha256_hex = λ t. take 8 t;
}

abbrev whole : List Chunk
whole = chunk 0 lines ∷ []

whole_test : chunk_document lines ≡ some whole
unfolding chunk_document chunk_document_with_policy trim eq
whole_test = refl

abbrev document : ChunkedDocument
document = record { rel_path = text "./a/b"; chunks = whole }

relative_test : relative (text "./a/b") ≡ done (text "a/b")
unfolding relative trim eq split normalize_relative_path
relative_test = refl

abbrev document-IsDocument : IsDocument document
document-IsDocument = record {
  path = text "a/b";
  normalizes = relative_test;
  proper = chunk_document-IsProper lines whole whole_test;
}

build_chunk_records-RecordsOf_example :
    (records : List ChunkRecordInput) × (build_chunk_records host
        (text "s")
        (text "/r")
        (document ∷ [])
      ≡ done records)
    × RecordsOf host (text "s") (text "/r") (document ∷ []) records
unfolding canonicalize_repo_root trim eq
build_chunk_records-RecordsOf_example =
    build_chunk_records-RecordsOf host (text "s") (text "/r") (text "/r") (document ∷ []) refl refl
      (document-IsDocument, tt)
