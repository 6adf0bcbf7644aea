-- ===== src/Indexing/Apply.antt =====
-- internal/indexing/delta_apply.go: applying a delta to the stored index. The store is a state
-- with its two operations; the applier, its store and its file reader are never nil here.
use deep_agent_cli.Base.{
  ℕ, ◌+◌, Bool, true, false, not, ◌&&◌, Option, none, some, List, [], ◌∷◌, ◌++◌, if◌then◌else◌,
  length,
}
use deep_agent_cli.Base.Sort.{sort}
use deep_agent_cli.Text.{Text, text, eq, le, member}
use deep_agent_cli.Text.Trim.{trim}
use deep_agent_cli.Reply.{Reply}
use deep_agent_cli.FilePath.{slash, clean}
use deep_agent_cli.IndexSync.{
  DeltaAction, add, modify, delete, DeltaRecord, SyncDelta, NodeType, same_type, NodeType.file,
  NodeType.other,
}
use deep_agent_cli.IndexStore.{ChunkRecord, ChunkRecordInput}
use deep_agent_cli.Chunker.{Chunk, chunk_document}
use deep_agent_cli.Indexing.{
  Host, Result, done, failed, ◌>>=◌, of_reply, IndexError, session_id_required, scope_mismatch,
  unsupported_action, chunker_stopped, relative, canonicalize_repo_root,
}
use deep_agent_cli.Indexing.Records.{ChunkedDocument, build_chunk_records}
use deep_agent_cli.Indexing.Refresh.{Embedder, refresh_embeddings}
use deep_agent_cli.Indexing.Merge.{merge_chunk_records}
pub mod Paths
pub mod Applied

pub record DeltaApplyResult : Type 0 where
  pub upserted_paths : List Text
  pub deleted_paths : List Text
  pub files_touched : ℕ
  pub chunks_replaced : ℕ

-- `deltaApplyStore` over the states `S` of the database
pub record IndexAccess (S : Type 0) : Type 0 where
  pub list_repo_index : S → Text → Text → Reply (List ChunkRecord)
  pub replace_repo_index : S → Text → Text → List ChunkRecordInput → S × Reply (Unit {0})

-- `validateDeltaScope`
unfoldable pub validate_delta_scope : Host → Text → Text → SyncDelta → Result (Unit {0})
unfolding canonicalize_repo_root ◌>>=◌
validate_delta_scope host session_id root delta =
    if not (eq delta.session_id []) && not (eq (trim delta.session_id) session_id)
    then failed scope_mismatch
    else if eq delta.repo_root []
    then done tt
    else do
      delta_root ← canonicalize_repo_root host delta.repo_root
      if eq delta_root root then done tt else failed scope_mismatch

-- `delete(set, key)`
unfoldable pub remove : Text → List Text → List Text
remove a [] = []
remove a (x ∷ xs) = let rest = remove a xs in if eq a x then rest else x ∷ rest

-- `set[key] = struct{}{}`
unfoldable pub include : Text → List Text → List Text
unfolding member
include a xs = if member a xs then xs else a ∷ xs

-- the two sets of `collectDeltaPaths`
pub record PathSets : Type 0 where
  pub upserts : List Text
  pub deletes : List Text

-- the `switch` on a change's action
unfoldable pub record_action : DeltaAction → Text → PathSets → Result PathSets
unfolding include remove
record_action add path s =
    done record { upserts = include path s.upserts; deletes = remove path s.deletes }
record_action modify path s =
    done record { upserts = include path s.upserts; deletes = remove path s.deletes }
record_action delete path s =
    done record { upserts = remove path s.upserts; deletes = include path s.deletes }
record_action (DeltaAction.other a) path s = failed unsupported_action

-- the test that skips a change
unfoldable pub is_skipped : NodeType → Bool
unfolding same_type
is_skipped t = not (same_type t (NodeType.other [])) && not (same_type t NodeType.file)

-- the loop over the changes
unfoldable pub collect_from : List DeltaRecord → PathSets → Result PathSets
unfolding record_action is_skipped ◌>>=◌
collect_from [] s = done s
collect_from (c ∷ cs) s = elim (is_skipped c.node_type) [
  | true ↦ collect_from cs s
  | false ↦ do path ← relative c.path; s' ← record_action c.action path s; collect_from cs s'
]

-- `collectDeltaPaths`
unfoldable pub collect_delta_paths : SyncDelta → Result PathSets
unfolding collect_from sort ◌>>=◌
collect_delta_paths delta = do
  s ← collect_from delta.changes record { upserts = []; deletes = [] }
  done record { upserts = sort le s.upserts; deletes = sort le s.deletes }

-- `filepath.Join(root, path)` of two names that are not empty
unfoldable pub join_paths : Text → Text → Text
unfolding clean
join_paths root path = clean (root ++ (slash ∷ path))

-- `readRepoFile`
unfoldable pub read_repo_file : Host → Text → Text → Result Text
unfolding join_paths ◌>>=◌ of_reply
read_repo_file host root rel_path = do
  path ← relative rel_path
  of_reply (host.read_file (join_paths root path))

unfoldable pub of_chunks : Option (List Chunk) → Result (List Chunk)
of_chunks none = failed chunker_stopped
of_chunks (some chunks) = done chunks

-- the loop that reads and cuts the changed files
unfoldable pub read_documents : Host → Text → List Text → Result (List ChunkedDocument)
unfolding read_repo_file of_chunks ◌>>=◌
read_documents host root [] = done []
read_documents host root (path ∷ paths) = do
  content ← read_repo_file host root path
  chunks ← of_chunks (chunk_document content)
  more ← read_documents host root paths
  done (record { rel_path = path; chunks = chunks } ∷ more)

-- what is computed before the store is written: the paths and the merged records
unfoldable pub merged_records :
    Host
    → Option Embedder
    → Text
    → Text
    → List ChunkRecord
    → PathSets
    → Result (List ChunkRecordInput)
unfolding read_documents ◌>>=◌
merged_records host embedder session_id root existing paths = do
  documents ← read_documents host root paths.upserts
  built ← build_chunk_records host session_id root documents
  refreshed ← refresh_embeddings existing built embedder
  merge_chunk_records session_id root existing refreshed paths.deletes

unfoldable pub apply_result : PathSets → List ChunkRecordInput → DeltaApplyResult
apply_result paths merged = record {
  upserted_paths = paths.upserts;
  deleted_paths = paths.deletes;
  files_touched = length paths.upserts + length paths.deletes;
  chunks_replaced = length merged;
}

-- The plan of a run: the canonical root, the paths and the merged records.
pub record Plan : Type 0 where
  pub root : Text
  pub paths : PathSets
  pub merged : List ChunkRecordInput

module _ {S : Type 0} (host : Host) (access : IndexAccess S) (embedder : Option Embedder) where
  -- `ApplyDeltaToIndex` up to the call of `ReplaceRepoIndex`, which only reads the store
  unfoldable pub plan_delta : Text → Text → SyncDelta → S → Result Plan
  unfolding validate_delta_scope collect_delta_paths merged_records canonicalize_repo_root ◌>>=◌
  plan_delta session_id repo_root delta s =
      if eq (trim session_id) [] then failed session_id_required else do
        root ← canonicalize_repo_root host repo_root
        _ ← validate_delta_scope host session_id root delta
        existing ← of_reply (access.list_repo_index s session_id root)
        paths ← collect_delta_paths delta
        merged ← merged_records host embedder session_id root existing paths
        done record { root = root; paths = paths; merged = merged }

  unfoldable pub replaced : Plan → S × Reply (Unit {0}) → S × Result DeltaApplyResult
  unfolding apply_result ◌>>=◌ of_reply
  replaced plan (s, reply) = (s, of_reply reply >>= λ _. done (apply_result plan.paths plan.merged))

  -- the rest of `ApplyDeltaToIndex`
  unfoldable pub run_plan : Text → Result Plan → S → S × Result DeltaApplyResult
  unfolding replaced
  run_plan session_id (failed e) s = (s, failed e)
  run_plan session_id (done plan) s =
      replaced plan (access.replace_repo_index s session_id plan.root plan.merged)

  -- `ApplyDeltaToIndex`
  unfoldable pub apply_delta_to_index : Text → Text → SyncDelta → S → S × Result DeltaApplyResult
  unfolding plan_delta run_plan
  apply_delta_to_index session_id repo_root delta s =
      run_plan session_id (plan_delta session_id repo_root delta s) s
