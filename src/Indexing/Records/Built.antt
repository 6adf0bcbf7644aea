-- ===== src/Indexing/Records/Built.antt =====
-- What `BuildChunkRecords` returns.
use deep_agent_cli.Base.{
  ℕ, suc, ◌≡◌, refl, sym, ap, ◌∙◌, subst, ◌≢◌, inl, inr, true, false, false≢true, some, List, [],
  ◌∷◌, ◌++◌, map, arith, ◌==◌, Bool-cases, All, All-map,
}
use deep_agent_cli.Text.{Text, eq, eq_iff}
use deep_agent_cli.Text.Trim.{trim, trim-trim}
use deep_agent_cli.Chunker.{Chunk, Limits, chunk_document, default_chunk_policy, slice, join}
use deep_agent_cli.IndexStore.{ChunkRecordInput}
use deep_agent_cli.Indexing.{canonicalize_repo_root, relative, Host, done, ◌>>=◌, prepend}
use deep_agent_cli.Indexing.Records.{
  newline, itoa, chunk_content_hash, ChunkedDocument, chunk_record, records_of_chunks,
  records_of_documents, build_chunk_records,
}
use deep_agent_cli.Chunker.Cover.{Numbered, IsCut, chunk_document_with_policy-IsChunked}

-- the chunks that the loop takes: numbered without a gap, none of them blank
pub record IsProper (i : ℕ) (chunks : List Chunk) : Type 0 where
  pub numbered : Numbered i chunks
  pub full : All (λ c. trim c.content ≢ []) chunks

same_index : (m n : ℕ) → m ≡ n → (m == n) ≡ true
same_index m n h = ground arith

not_blank : (s : Text) → s ≢ [] → eq s [] ≡ false
not_blank s h = elim (Bool-cases (eq s [])) [ inl e ↦ absurd (h ((eq_iff s []).0 e)) | inr e ↦ e ]

some_injective : (a b : List Chunk) → some a ≡ some b → a ≡ b
some_injective a b h = ground arith

cut_full : {p : Limits} {lines : List Text} (c : Chunk) → IsCut p lines c → trim c.content ≢ []
cut_full {p} {lines} c (start, end, w, e, full) blank =
    let q : trim c.content ≡ c.content =
      ap trim e ∙ trim-trim (join (slice start end lines)) ∙ sym e in
    false≢true (sym full ∙ (eq_iff c.content []).1 (sym q ∙ blank))

module _ (host : Host) (session_id root rel_path : Text) where
  -- Proper chunks give a record each, in order.
  pub records_of_chunks-map :
      (i : ℕ) (chunks : List Chunk)
      → IsProper i chunks
      → records_of_chunks host session_id root rel_path i chunks
        ≡ done (map (chunk_record host session_id root rel_path) chunks)
  unfolding records_of_chunks prepend ◌>>=◌
  records_of_chunks-map i [] h = refl
  records_of_chunks-map i (c ∷ cs) h =
      rw
        (
          same_index c.index i h.numbered.0,
          not_blank (trim c.content) h.full.0,
          records_of_chunks-map (suc i) cs record { numbered = h.numbered.1; full = h.full.1 },
        )
        refl

-- The chunks that `ChunkDocument` cuts are proper.
pub chunk_document-IsProper :
    (content : Text) (cs : List Chunk) → chunk_document content ≡ some cs → IsProper 0 cs
unfolding chunk_document
chunk_document-IsProper content cs h =
    let (found, e, result) = chunk_document_with_policy-IsChunked content default_chunk_policy in
    subst (λ l. IsProper 0 l) (some_injective found cs (sym e ∙ h))
      (elim result [
        | inl blank ↦ subst (λ l. IsProper 0 l) (sym blank.1) record { numbered = tt; full = tt }
        | inr good ↦ record { numbered = good.numbered; full = All-map cut_full found good.cut }
      ])

-- A document whose path normalizes and whose chunks are proper.
pub record IsDocument (d : ChunkedDocument) : Type 0 where
  pub path : Text
  pub normalizes : relative d.rel_path ≡ done path
  pub proper : IsProper 0 d.chunks

module _ (host : Host) (session_id root : Text) where
  -- The record of a chunk of a document with the normalized path.
  pub record IsRecordOf (path : Text) (c : Chunk) (r : ChunkRecordInput) : Type 0 where
    pub session : r.session_id ≡ session_id
    pub repo : r.repo_root ≡ root
    pub at_path : r.rel_path ≡ path
    pub at_index : r.chunk_index ≡ c.index
    pub text : r.content ≡ c.content
    pub hash :
        r.content_hash ≡ host.sha256_hex (path ++ newline ++ itoa c.index ++ newline ++ c.content)

  -- One record for each chunk, in order.
  abbrev pub RecordsOfChunks : Text → List Chunk → List ChunkRecordInput → Type 0
  RecordsOfChunks path [] [] = Unit
  RecordsOfChunks path [] (r ∷ rs) = ⊥
  RecordsOfChunks path (c ∷ cs) [] = ⊥
  RecordsOfChunks path (c ∷ cs) (r ∷ rs) = IsRecordOf path c r × RecordsOfChunks path cs rs

  -- The records of the documents, one document behind the other.
  abbrev pub RecordsOf : List ChunkedDocument → List ChunkRecordInput → Type 0
  RecordsOf [] rs = rs ≡ []
  RecordsOf (d ∷ ds) rs =
      (path : Text) × (own : List ChunkRecordInput) × (later : List ChunkRecordInput) × (relative
          d.rel_path
        ≡ done path)
      × (rs ≡ own ++ later)
      × RecordsOfChunks path d.chunks own
      × RecordsOf ds later

  map-RecordsOfChunks :
      (path : Text) (cs : List Chunk)
      → RecordsOfChunks path cs (map (chunk_record host session_id root path) cs)
  unfolding chunk_record chunk_content_hash
  map-RecordsOfChunks path [] = tt
  map-RecordsOfChunks path (c ∷ cs) = (
    record {
      session = refl;
      repo = refl;
      at_path = refl;
      at_index = refl;
      text = refl;
      hash = refl;
    },
    map-RecordsOfChunks path cs,
  )

  records_of_documents-RecordsOf :
      (documents : List ChunkedDocument)
      → All IsDocument documents
      → (records : List ChunkRecordInput) × (records_of_documents host session_id root documents
          ≡ done records)
        × RecordsOf documents records
  unfolding records_of_documents ◌>>=◌
  records_of_documents-RecordsOf [] h = ([], refl, refl)
  records_of_documents-RecordsOf (d ∷ ds) h =
      let doc = h.0 in
      let (more, e, all) = records_of_documents-RecordsOf ds h.1 in
      let new = map (chunk_record host session_id root doc.path) d.chunks in
      (
        new ++ more,
        rw
            (
              doc.normalizes,
              records_of_chunks-map host session_id root doc.path 0 d.chunks doc.proper,
              e,
            )
            refl,
        (doc.path, new, more, doc.normalizes, refl, map-RecordsOfChunks doc.path d.chunks, all),
      )

-- In a session with an id and a canonical root, documents whose paths normalize and whose chunks
-- are numbered without a gap and not blank, as `ChunkDocument` cuts them, give one record for each
-- chunk, in the order of the documents and of their chunks: with the session, the canonical root, the
-- normalized path, the chunk's index and content, and the hash of the path, the index and the content.
pub build_chunk_records-RecordsOf :
    (host : Host) (session_id repo_root root : Text) (documents : List ChunkedDocument)
    → eq (trim session_id) [] ≡ false
    → canonicalize_repo_root host repo_root ≡ done root
    → All IsDocument documents
    → (records : List ChunkRecordInput) × (build_chunk_records host session_id repo_root documents
        ≡ done records)
      × RecordsOf host session_id root documents records
unfolding build_chunk_records ◌>>=◌
build_chunk_records-RecordsOf host session_id repo_root root documents s c h =
    let (records, e, all) = records_of_documents-RecordsOf host session_id root documents h in
    (records, rw (s, c, e) refl, all)
