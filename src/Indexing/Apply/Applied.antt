-- ===== src/Indexing/Apply/Applied.antt =====
-- What `ApplyDeltaToIndex` of internal/indexing/delta_apply.go writes and returns.
use deep_agent_cli.Base.{◌≡◌, sym, ap, ◌∙◌, subst, ◌⊎◌, inl, inr, Option, List, [], ◌++◌, arith}
use deep_agent_cli.Text.{Text, eq}
use deep_agent_cli.Text.Trim.{trim}
use deep_agent_cli.Reply.{Reply, value, fault}
use deep_agent_cli.IndexSync.{SyncDelta}
use deep_agent_cli.IndexStore.{ChunkRecord, ChunkRecordInput}
use deep_agent_cli.Indexing.{
  Host, IndexError, Result, done, failed, session_id_required, dependency, ◌>>=◌, of_reply,
  done-bind, else-done, done_injective, Result-cases, canonicalize_repo_root,
}
use deep_agent_cli.Indexing.Records.{ChunkedDocument, build_chunk_records}
use deep_agent_cli.Indexing.Refresh.{Embedder, refresh_embeddings}
use deep_agent_cli.Indexing.Merge.{normalize_all, record_paths}
use deep_agent_cli.Indexing.Merge.Exact.{IsMerged, merge_chunk_records-IsMerged}
use deep_agent_cli.Indexing.Apply.{
  IndexAccess, DeltaApplyResult, PathSets, Plan, validate_delta_scope, collect_delta_paths,
  read_documents, merged_records, apply_result, plan_delta, replaced, run_plan,
  apply_delta_to_index,
}
use deep_agent_cli.Indexing.Apply.Paths.{IsCollected, collect_delta_paths-IsCollected}

-- The records that are written: the merge of the existing ones with those of the upserted files.
pub record IsMergeOf (host : Host) (embedder : Option Embedder) (session_id root : Text)
    (existing : List ChunkRecord) (paths : PathSets) (merged : List ChunkRecordInput) : Type 0 where
  pub documents : List ChunkedDocument
  pub read : read_documents host root paths.upserts ≡ done documents
  pub built : List ChunkRecordInput
  pub made : build_chunk_records host session_id root documents ≡ done built
  pub refreshed : List ChunkRecordInput
  pub embedded : refresh_embeddings existing built embedder ≡ done refreshed
  pub deleted : List Text
  pub normalized : normalize_all paths.deletes ≡ done deleted
  pub replacing : List Text
  pub replacing_normalized : normalize_all (record_paths refreshed) ≡ done replacing
  pub merge : IsMerged session_id root existing refreshed (deleted ++ replacing) merged

merged_records-IsMergeOf :
    (host : Host) (embedder : Option Embedder) (session_id root : Text)
    (existing : List ChunkRecord) (paths : PathSets) (merged : List ChunkRecordInput)
    → merged_records host embedder session_id root existing paths ≡ done merged
    → IsMergeOf host embedder session_id root existing paths merged
unfolding merged_records
merged_records-IsMergeOf host embedder session_id root existing paths merged h =
    let (documents, a, h1) = done-bind (read_documents host root paths.upserts) _ merged h in
    let (built, b, h2) =
      done-bind (build_chunk_records host session_id root documents) _ merged h1 in
    let (refreshed, c, h3) = done-bind (refresh_embeddings existing built embedder) _ merged h2 in
    let (deleted, d, replacing, e, m) =
      merge_chunk_records-IsMerged session_id root existing refreshed paths.deletes merged h3 in
    record {
      documents = documents;
      read = a;
      built = built;
      made = b;
      refreshed = refreshed;
      embedded = c;
      deleted = deleted;
      normalized = d;
      replacing = replacing;
      replacing_normalized = e;
      merge = m;
    }

-- A run that succeeded, from `s` to `s'`.
pub record IsApplied {S : Type 0} (host : Host) (access : IndexAccess S)
    (embedder : Option Embedder) (session_id repo_root : Text) (delta : SyncDelta) (s s' : S)
    (result : DeltaApplyResult) : Type 0 where
  pub root : Text
  pub canonical : canonicalize_repo_root host repo_root ≡ done root
  pub scoped : validate_delta_scope host session_id root delta ≡ done tt
  pub existing : List ChunkRecord
  pub listed : access.list_repo_index s session_id root ≡ value existing
  pub paths : PathSets
  pub collected : IsCollected delta paths
  pub merged : List ChunkRecordInput
  pub merge : IsMergeOf host embedder session_id root existing paths merged
  pub written : access.replace_repo_index s session_id root merged ≡ (s', value tt)
  pub returned : result ≡ apply_result paths merged

of_reply-value : {A : Type 0} (r : Reply A) (a : A) → of_reply r ≡ done a → r ≡ value a
unfolding of_reply
of_reply-value (value x) a h = ap value (done_injective x a h)
of_reply-value (fault m) a h = absurd (ground arith)

failed-done : {A : Type 0} (e : IndexError) (a : A) → ¬ (failed e ≡ done a)
failed-done e a h = ground arith

failed_injective :
    (e e' : IndexError) → ◌≡◌ {A = Result DeltaApplyResult} (failed e) (failed e') → e ≡ e'
failed_injective e e' h = ground arith

module _ {S : Type 0} (host : Host) (access : IndexAccess S) (embedder : Option Embedder) where
  replaced-done :
      (plan : Plan) (p : S × Reply (Unit {0})) (s' : S) (r : DeltaApplyResult)
      → replaced host access embedder plan p ≡ (s', done r)
      → (p ≡ (s', value tt)) × (r ≡ apply_result plan.paths plan.merged)
  unfolding replaced of_reply ◌>>=◌
  replaced-done plan (t, value u) s' r h =
      (ap (λ x. (x, value tt)) (ap (λ x. x.0) h), sym (done_injective _ r (ap (λ x. x.1) h)))
  replaced-done plan (t, fault m) s' r h = absurd (failed-done (dependency m) r (ap (λ x. x.1) h))

  replaced-failed :
      (plan : Plan) (p : S × Reply (Unit {0})) (s' : S) (e : IndexError)
      → replaced host access embedder plan p ≡ (s', failed e)
      → (m : Text) × (p ≡ (s', fault m)) × (e ≡ dependency m)
  unfolding replaced of_reply ◌>>=◌
  replaced-failed plan (t, value u) s' e h =
      absurd (failed-done e (apply_result plan.paths plan.merged) (sym (ap (λ x. x.1) h)))
  replaced-failed plan (t, fault m) s' e h = (
    m,
    ap (λ x. (x, fault m)) (ap (λ x. x.0) h),
    failed_injective e (dependency m) (sym (ap (λ x. x.1) h)),
  )

  abbrev Written : Text → S → S → DeltaApplyResult → Plan → Type 0
  Written session_id s s' result plan =
      (access.replace_repo_index s session_id plan.root plan.merged ≡ (s', value tt))
      × (result ≡ apply_result plan.paths plan.merged)

  planned :
      (session_id repo_root : Text) (delta : SyncDelta) (s s' : S) (result : DeltaApplyResult)
      (plan : Plan)
      → plan_delta host access embedder session_id repo_root delta s ≡ done plan
      → Written session_id s s' result plan
      → IsApplied host access embedder session_id repo_root delta s s' result
  unfolding plan_delta
  planned session_id repo_root delta s s' result plan h w =
      let (_, h0) = else-done (eq (trim session_id) []) session_id_required _ plan h in
      let (root, a, h1) = done-bind (canonicalize_repo_root host repo_root) _ plan h0 in
      let (u, b, h2) = done-bind (validate_delta_scope host session_id root delta) _ plan h1 in
      let (existing, c, h3) =
        done-bind (of_reply (access.list_repo_index s session_id root)) _ plan h2 in
      let (paths, d, h4) = done-bind (collect_delta_paths delta) _ plan h3 in
      let (merged, e, h5) =
        done-bind (merged_records host embedder session_id root existing paths) _ plan h4 in
      let (x, y) = subst (Written session_id s s' result) (sym (done_injective _ plan h5)) w in
      record {
        root = root;
        canonical = a;
        scoped = b;
        existing = existing;
        listed = of_reply-value (access.list_repo_index s session_id root) existing c;
        paths = paths;
        collected = collect_delta_paths-IsCollected delta paths d;
        merged = merged;
        merge = merged_records-IsMergeOf host embedder session_id root existing paths merged e;
        written = x;
        returned = y;
      }

  -- A run that succeeds has a canonical root and a delta in scope; it collects the paths of the
  -- delta, merges the records of the files read at the upserted paths into the existing records,
  -- hands the result to the store in one replacement, and reports the paths and their numbers.
  pub apply_delta_to_index-IsApplied :
      (session_id repo_root : Text) (delta : SyncDelta) (s s' : S) (result : DeltaApplyResult)
      → apply_delta_to_index host access embedder session_id repo_root delta s ≡ (s', done result)
      → IsApplied host access embedder session_id repo_root delta s s' result
  unfolding apply_delta_to_index run_plan
  apply_delta_to_index-IsApplied session_id repo_root delta s s' result h =
      elim (Result-cases (plan_delta host access embedder session_id repo_root delta s)) [
        | inr (e, q) ↦ absurd (
            failed-done e result
              (ap (λ x. x.1) (sym (ap (λ m. run_plan host access embedder session_id m s) q) ∙ h)))
        | inl (plan, q) ↦
            let w =
              replaced-done plan (access.replace_repo_index s session_id plan.root plan.merged) s'
                result (sym (ap (λ m. run_plan host access embedder session_id m s) q) ∙ h) in
            planned session_id repo_root delta s s' result plan q w
      ]

  -- A run that fails leaves the state as it was, or as the store's own failed replacement left it.
  pub apply_delta_to_index-failed :
      (session_id repo_root : Text) (delta : SyncDelta) (s s' : S) (e : IndexError)
      → apply_delta_to_index host access embedder session_id repo_root delta s ≡ (s', failed e)
      → (s' ≡ s)
        ⊎ ((root : Text) × (merged : List ChunkRecordInput) × (m : Text)
            × (access.replace_repo_index s session_id root merged ≡ (s', fault m))
            × (e ≡ dependency m))
  unfolding apply_delta_to_index run_plan
  apply_delta_to_index-failed session_id repo_root delta s s' e h =
      elim (Result-cases (plan_delta host access embedder session_id repo_root delta s)) [
        | inr (e', q) ↦ inl (
            sym
              (ap (λ x. x.0) (sym (ap (λ m. run_plan host access embedder session_id m s) q) ∙ h)))
        | inl (plan, q) ↦
            let (m, w, k) =
              replaced-failed plan (access.replace_repo_index s session_id plan.root plan.merged) s'
                e (sym (ap (λ m. run_plan host access embedder session_id m s) q) ∙ h) in
            inr (plan.root, plan.merged, m, w, k)
      ]
