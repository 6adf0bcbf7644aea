-- ===== src/Indexing/Merge/Exact.antt =====
-- What the merged index holds.
use deep_agent_cli.Base.{
  ◌≡◌, subst, ◌↔◌, ◌⊎◌, inl, inr, true, List, [], ◌++◌, All, In, In-append_left, In-append_right,
  In-append_cases,
}
use deep_agent_cli.Base.Sort.{sort, In-sort, InOrder, IsSorted-InOrder, sort-IsSorted}
use deep_agent_cli.Text.{Text, eq}
use deep_agent_cli.IndexStore.{ChunkRecord, ChunkRecordInput}
use deep_agent_cli.Indexing.{
  Host, done, done-bind, else-done, done_injective, session_id_required, repo_root_required,
}
use deep_agent_cli.Indexing.Records.{ChunkedDocument, build_chunk_records}
use deep_agent_cli.Indexing.Merge.{
  in_scope, normalize_all, keep_existing, record_le, document_paths, record_paths,
  merge_chunk_records, build_chunk_delta,
}
use deep_agent_cli.Text.Trim.{trim}
use deep_agent_cli.Indexing.Merge.Ordered.{Precedes, record_le-Precedes}
use deep_agent_cli.Indexing.Merge.Kept.{IsKept, keep_existing-IsKept, record_le-IsOrder}

-- What a merge leaves: the new records and those that stay, in the order of the index.
pub record IsMerged (session_id root : Text) (existing : List ChunkRecord)
    (fresh : List ChunkRecordInput) (removed : List Text) (merged : List ChunkRecordInput)
    : Type 0 where
  pub in_order : InOrder Precedes merged
  pub exact : (r : ChunkRecordInput) → In r merged ↔ (IsKept existing removed r ⊎ In r fresh)
  pub scoped : All (λ x. in_scope session_id root x ≡ true) existing

sorted-IsMerged :
    (session_id root : Text) (existing : List ChunkRecord) (fresh : List ChunkRecordInput)
    (removed : List Text) (kept : List ChunkRecordInput)
    → keep_existing session_id root removed existing ≡ done kept
    → IsMerged session_id root existing fresh removed (sort record_le (kept ++ fresh))
sorted-IsMerged session_id root existing fresh removed kept h =
    let (all, exact) = keep_existing-IsKept session_id root removed existing kept h in
    record {
      in_order =
          IsSorted-InOrder record_le Precedes record_le-Precedes (sort record_le (kept ++ fresh))
            (sort-IsSorted record_le record_le-IsOrder (kept ++ fresh));
      exact = λ r. (
        λ i. elim (In-append_cases r kept fresh ((In-sort record_le r (kept ++ fresh)).0 i)) [
          | inl a ↦ inl ((exact r).0 a)
          | inr b ↦ inr b
        ],
        λ k. (In-sort record_le r (kept ++ fresh)).1 (elim k [
          | inl a ↦ In-append_left r kept fresh ((exact r).1 a)
          | inr b ↦ In-append_right r kept fresh b
        ]),
      );
      scoped = all;
    }

-- A merge that succeeds returns, sorted by path and chunk index, exactly the refreshed records and
-- the existing ones whose path is neither deleted nor the path of a refreshed record; all
-- existing records are then in scope. So an existing chunk stays if its file has no refreshed
-- record and is not deleted.
pub merge_chunk_records-IsMerged :
    (session_id root : Text) (existing : List ChunkRecord) (refreshed : List ChunkRecordInput)
    (delete_paths : List Text) (merged : List ChunkRecordInput)
    → merge_chunk_records session_id root existing refreshed delete_paths ≡ done merged
    → (deleted : List Text) × (normalize_all delete_paths ≡ done deleted)
      × (replaced : List Text) × (normalize_all (record_paths refreshed) ≡ done replaced)
      × IsMerged session_id root existing refreshed (deleted ++ replaced) merged
unfolding merge_chunk_records
merge_chunk_records-IsMerged session_id root existing refreshed delete_paths merged h =
    let (deleted, d, h1) = done-bind (normalize_all delete_paths) _ merged h in
    let (replaced, p, h2) = done-bind (normalize_all (record_paths refreshed)) _ merged h1 in
    let (kept, k, h3) =
      done-bind (keep_existing session_id root (deleted ++ replaced) existing) _ merged h2 in
    (
      deleted,
      d,
      replaced,
      p,
      subst (λ m. IsMerged session_id root existing refreshed (deleted ++ replaced) m)
          (done_injective _ merged h3)
          (sorted-IsMerged session_id root existing refreshed (deleted ++ replaced) kept k),
    )

-- A chunk delta that succeeds returns, sorted by path and chunk index, exactly the records that
-- `BuildChunkRecords` makes of the documents and the existing records whose path is neither
-- deleted nor the path of a document, with or without chunks.
pub build_chunk_delta-IsMerged :
    (host : Host) (session_id root : Text) (existing : List ChunkRecord)
    (documents : List ChunkedDocument) (delete_paths : List Text) (merged : List ChunkRecordInput)
    → build_chunk_delta host session_id root existing documents delete_paths ≡ done merged
    → (deleted : List Text) × (normalize_all delete_paths ≡ done deleted)
      × (replaced : List Text) × (normalize_all (document_paths documents) ≡ done replaced)
      × (created : List ChunkRecordInput) × (build_chunk_records host session_id root documents
          ≡ done created)
      × IsMerged session_id root existing created (deleted ++ replaced) merged
unfolding build_chunk_delta
build_chunk_delta-IsMerged host session_id root existing documents delete_paths merged h =
    let (_, g) = else-done (eq (trim session_id) []) session_id_required _ merged h in
    let (_, h0) = else-done (eq (trim root) []) repo_root_required _ merged g in
    let (deleted, d, h1) = done-bind (normalize_all delete_paths) _ merged h0 in
    let (replaced, p, h2) = done-bind (normalize_all (document_paths documents)) _ merged h1 in
    let (kept, k, h3) =
      done-bind (keep_existing session_id root (deleted ++ replaced) existing) _ merged h2 in
    let (created, c, h4) =
      done-bind (build_chunk_records host session_id root documents) _ merged h3 in
    (
      deleted,
      d,
      replaced,
      p,
      created,
      c,
      subst (λ m. IsMerged session_id root existing created (deleted ++ replaced) m)
          (done_injective _ merged h4)
          (sorted-IsMerged session_id root existing created (deleted ++ replaced) kept k),
    )
