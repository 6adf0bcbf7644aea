-- ===== src/Examples/Deltas.antt =====
-- A delta of internal/indexing/delta_apply.go that changes one file and deletes another, applied to
-- an index that holds a chunk of each and one of a third file.
use deep_agent_cli.Base.{
  ◌≡◌, refl, ◌⊎◌, true, none, some, List, [], ◌∷◌, ◌++◌, map, if◌then◌else◌, In,
}
use deep_agent_cli.Base.Sort.{sort}
use deep_agent_cli.Text.{Text, text, eq, le, member}
use deep_agent_cli.Text.Trim.{trim}
use deep_agent_cli.Reply.{value, fault}
use deep_agent_cli.IndexSync.{file, DeltaAction, modify, delete, DeltaRecord, SyncDelta, same_type}
use deep_agent_cli.IndexStore.{ChunkRecord, ChunkRecordInput}
use deep_agent_cli.FilePath.{split, normalize_relative_path}
use deep_agent_cli.Indexing.{
  Host, done, failed, dependency, embedder_required, relative, canonicalize_repo_root,
}
use deep_agent_cli.Indexing.Records.{build_chunk_records, ChunkedDocument}
use deep_agent_cli.Indexing.Refresh.{Embedder, refresh_embeddings}
use deep_agent_cli.Indexing.Refresh.Assign.{Pairwise}
use deep_agent_cli.Indexing.Refresh.Lookup.{IsReused}
use deep_agent_cli.Indexing.Refresh.Sound.{refresh_embeddings-no_embedder, IsNew}
use deep_agent_cli.Indexing.Merge.{
  normalize_all, record_paths, document_paths, merge_chunk_records, build_chunk_delta, kept_record,
}
use deep_agent_cli.Indexing.Merge.Exact.{
  IsMerged, merge_chunk_records-IsMerged, build_chunk_delta-IsMerged,
}
use deep_agent_cli.Chunker.{chunk_document, chunk_document_with_policy}
use deep_agent_cli.Indexing.Apply.{
  read_documents, IndexAccess, DeltaApplyResult, PathSets, collect_delta_paths,
  apply_delta_to_index,
}
use deep_agent_cli.Indexing.Apply.Paths.{IsCollected, collect_delta_paths-IsCollected}
use deep_agent_cli.Indexing.Apply.Applied.{
  IsApplied, apply_delta_to_index-IsApplied, apply_delta_to_index-failed,
}

-- No file is blank but `b`.
abbrev content_at : Text → Text
content_at path = if eq path (text "/r/b") then text " " else text "new"

abbrev host : Host
host = record {
  abs = value;
  eval_symlinks = value;
  is_dir = λ p. value true;
  read_file = λ p. value (content_at p);
  sha256_hex = λ t. t;
}

abbrev stored : Text → ChunkRecord
stored path = record {
  id = 1;
  session_id = text "s";
  repo_root = text "/r";
  rel_path = path;
  chunk_index = 0;
  content = text "old";
  content_hash = text "h";
  model = text "m";
  embedding_dims = 1;
  embedding = 5 ∷ [];
  created_at = 0;
}

abbrev existing : List ChunkRecord
existing = stored (text "a") ∷ stored (text "b") ∷ stored (text "c") ∷ []

abbrev change : Text → DeltaAction → DeltaRecord
change path action = record {
  path = path;
  action = action;
  node_type = file;
  previous_node_hash = [];
  current_node_hash = [];
  previous_content_hash = [];
  current_content_hash = [];
}

abbrev delta_of : List DeltaRecord → SyncDelta
delta_of changes = record {
  session_id = text "s";
  repo_root = [];
  previous_snapshot_id = none;
  current_snapshot_id = none;
  previous_root_hash = [];
  current_root_hash = [];
  changes = changes;
}

abbrev delta : SyncDelta
delta = delta_of (change (text "c") delete ∷ change (text "a") modify ∷ [])

abbrev embed : Embedder
embed texts = value record { model = text "m"; dimensions = 1; vectors = map (λ t. 7 ∷ []) texts }

-- The state of the store is the list of the records last written.
abbrev access : IndexAccess (List ChunkRecordInput)
access = record {
  list_repo_index = λ s session root. value existing;
  replace_repo_index = λ s session root records. (records, value tt);
}

abbrev broken : IndexAccess (List ChunkRecordInput)
broken = record {
  list_repo_index = λ s session root. value existing;
  replace_repo_index = λ s session root records. (s, fault (text "closed"));
}

abbrev paths : PathSets
paths = record { upserts = text "a" ∷ []; deletes = text "c" ∷ [] }

paths_test : collect_delta_paths delta ≡ done paths
unfolding collect_delta_paths relative normalize_relative_path trim eq split same_type sort member
    le
paths_test = refl

collect_delta_paths-IsCollected_example : IsCollected delta paths
collect_delta_paths-IsCollected_example = collect_delta_paths-IsCollected delta paths paths_test

abbrev fresh : ChunkRecordInput
fresh = record (kept_record (stored (text "a"))) { content_hash = text "n"; content = text "new" }

abbrev embedded : ChunkRecordInput
embedded = record fresh { embedding = 7 ∷ [] }

-- `b` has become blank: it has no record, it is not deleted, and its old chunk stays.
abbrev merged : List ChunkRecordInput
merged = embedded ∷ kept_record (stored (text "b")) ∷ []

merge_test :
    merge_chunk_records (text "s") (text "/r") existing (embedded ∷ []) (text "c" ∷ [])
    ≡ done merged
unfolding merge_chunk_records relative normalize_relative_path trim eq split sort member le
merge_test = refl

merge_chunk_records-IsMerged_example :
    (deleted : List Text) × (normalize_all (text "c" ∷ []) ≡ done deleted)
    × (replaced : List Text) × (normalize_all (record_paths (embedded ∷ [])) ≡ done replaced)
    × IsMerged (text "s") (text "/r") existing (embedded ∷ []) (deleted ++ replaced) merged
merge_chunk_records-IsMerged_example =
    merge_chunk_records-IsMerged (text "s") (text "/r") existing (embedded ∷ []) (text "c" ∷ [])
      merged merge_test

abbrev emptied : ChunkedDocument
emptied = record { rel_path = text "b"; chunks = [] }

abbrev remaining : List ChunkRecordInput
remaining = kept_record (stored (text "a")) ∷ []

delta_test :
    build_chunk_delta host (text "s") (text "/r") existing (emptied ∷ []) (text "c" ∷ [])
    ≡ done remaining
unfolding build_chunk_delta canonicalize_repo_root relative normalize_relative_path trim eq split
    sort member le
delta_test = refl

build_chunk_delta-IsMerged_example :
    (deleted : List Text) × (normalize_all (text "c" ∷ []) ≡ done deleted)
    × (replaced : List Text) × (normalize_all (document_paths (emptied ∷ [])) ≡ done replaced)
    × (created : List ChunkRecordInput) × (build_chunk_records host
          (text "s")
          (text "/r")
          (emptied ∷ [])
        ≡ done created)
    × IsMerged (text "s") (text "/r") existing created (deleted ++ replaced) remaining
build_chunk_delta-IsMerged_example =
    build_chunk_delta-IsMerged host (text "s") (text "/r") existing (emptied ∷ []) (text "c" ∷ [])
      remaining delta_test

abbrev after : List ChunkRecordInput
after = (apply_delta_to_index host access (some embed) (text "s") (text "/r") delta []).0

abbrev applied : DeltaApplyResult
applied = record {
  upserted_paths = text "a" ∷ [];
  deleted_paths = text "c" ∷ [];
  files_touched = 2;
  chunks_replaced = 2;
}

apply_test :
    apply_delta_to_index host access (some embed) (text "s") (text "/r") delta []
    ≡ (after, done applied)
unfolding apply_delta_to_index relative normalize_relative_path trim eq split same_type sort member
    le read_documents chunk_document chunk_document_with_policy refresh_embeddings
    build_chunk_records merge_chunk_records
apply_test = refl

apply_delta_to_index-IsApplied_example :
    IsApplied host access (some embed) (text "s") (text "/r") delta [] after applied
apply_delta_to_index-IsApplied_example =
    apply_delta_to_index-IsApplied host access (some embed) (text "s") (text "/r") delta [] after
      applied apply_test

failure_test :
    apply_delta_to_index host broken (some embed) (text "s") (text "/r") delta []
    ≡ ([], failed (dependency (text "closed")))
unfolding apply_delta_to_index relative normalize_relative_path trim eq split same_type sort member
    le read_documents chunk_document chunk_document_with_policy refresh_embeddings
    build_chunk_records merge_chunk_records
failure_test = refl

apply_delta_to_index-failed_example :
    (◌≡◌ {A = List ChunkRecordInput} [] [])
    ⊎ ((root : Text) × (written : List ChunkRecordInput) × (m : Text) × (broken.replace_repo_index
            []
            (text "s")
            root
            written
          ≡ ([], fault m))
        × (dependency (text "closed") ≡ dependency m))
apply_delta_to_index-failed_example =
    apply_delta_to_index-failed host broken (some embed) (text "s") (text "/r") delta [] []
      (dependency (text "closed")) failure_test

refresh_embeddings-no_embedder_example :
    ((out : List ChunkRecordInput) × (refresh_embeddings existing (fresh ∷ []) none ≡ done out)
      × Pairwise (IsReused existing) (fresh ∷ []) out)
    ⊎ ((refresh_embeddings existing (fresh ∷ []) none ≡ failed embedder_required)
        × ((r : ChunkRecordInput) × In r (fresh ∷ []) × IsNew existing r))
refresh_embeddings-no_embedder_example = refresh_embeddings-no_embedder existing (fresh ∷ [])
