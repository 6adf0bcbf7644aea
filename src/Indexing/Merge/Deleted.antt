-- ===== src/Indexing/Merge/Deleted.antt =====
-- What `DeleteChunksForFile` of internal/indexing/chunk_delta.go leaves.
use deep_agent_cli.Base.{
  ◌≡◌, sym, ap, ◌∙◌, subst, ◌↔◌, inl, inr, false, false≢true, List, [], ◌∷◌, Bool-cases, In,
}
use deep_agent_cli.Text.{Text, eq}
use deep_agent_cli.IndexStore.{ChunkRecord}
use deep_agent_cli.Indexing.{done, done-bind, done_injective, relative}
use deep_agent_cli.Indexing.Merge.{without_path, delete_chunks_for_file}

In-without_path :
    (path : Text) (records : List ChunkRecord) (r : ChunkRecord)
    → In r (without_path path records) ↔ (In r records × (eq r.rel_path path ≡ false))
unfolding without_path
In-without_path path [] r = (λ h. absurd h, λ h. absurd h.0)
In-without_path path (x ∷ xs) r = elim (Bool-cases (eq x.rel_path path)) [
  | inl e ↦ rw e (
    λ i. let (m, q) = (In-without_path path xs r).0 i in (inr m, q),
    λ h. elim h.0 [
      | inl same ↦ absurd (false≢true (sym h.1 ∙ ap (λ t. eq t.rel_path path) same ∙ e))
      | inr m ↦ (In-without_path path xs r).1 (m, h.1)
    ],
  )
  | inr e ↦ rw e (
    λ i. elim i [
      | inl same ↦ (inl same, ap (λ t. eq t.rel_path path) same ∙ e)
      | inr m ↦ let (k, q) = (In-without_path path xs r).0 m in (inr k, q)
    ],
    λ h. elim h.0 [ inl same ↦ inl same | inr m ↦ inr ((In-without_path path xs r).1 (m, h.1)) ],
  )
]

-- Deleting the chunks of a file whose path normalizes leaves exactly the records of other paths.
pub delete_chunks_for_file-In :
    (existing : List ChunkRecord) (rel_path : Text) (left : List ChunkRecord)
    → delete_chunks_for_file existing rel_path ≡ done left
    → (path : Text) × (relative rel_path ≡ done path)
      × ((r : ChunkRecord) → In r left ↔ (In r existing × (eq r.rel_path path ≡ false)))
unfolding delete_chunks_for_file
delete_chunks_for_file-In existing rel_path left h =
    let (path, e, h1) = done-bind (relative rel_path) _ left h in
    (
      path,
      e,
      subst (λ l. (r : ChunkRecord) → In r l ↔ (In r existing × (eq r.rel_path path ≡ false)))
          (done_injective _ left h1) (In-without_path path existing),
    )
