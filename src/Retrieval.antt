-- ===== src/Retrieval.antt =====
-- internal/retrieval: model.go, rank.go, embed_query.go and service.go, the semantic query of the
-- index. A score is a number that is ordered as the finite floats of the code are; a time is a
-- number of nanoseconds. The index, the embedder and the store are arguments, `none` for nil.
pub mod Ranked
pub mod Answered
use deep_agent_cli.Base.{
  ℕ, suc, ◌+◌, Bool, false, not, Option, none, some, List, [], ◌∷◌, ltb, leb, ◌==◌, if◌then◌else◌,
  length, take,
}
use deep_agent_cli.Base.Int.{ℤ, pos, negsuc}
use deep_agent_cli.Base.Sort.{sort}
use deep_agent_cli.Text.{Text, text, eq, le}
use deep_agent_cli.Text.Trim.{trim}
use deep_agent_cli.Reply.{Reply, value, fault}
use deep_agent_cli.IndexSync.{Time}
use deep_agent_cli.IndexStore.{Embedding}
use deep_agent_cli.Indexing.Refresh.{Embeddings, Embedder}

abbrev pub max_snippet_length : ℕ
max_snippet_length = 400

abbrev pub index_status_unknown : Text
index_status_unknown = text "unknown"

pub record SemanticQueryRequest : Type 0 where
  pub session_id : Text
  pub repo_root : Text
  pub query : Text
  pub top_k : ℤ

pub record SemanticIndexReadiness : Type 0 where
  pub ready : Bool
  pub status : Text
  pub snapshot_id : Option ℕ
  pub updated_at : Option Time

pub record SemanticQueryResult : Type 0 where
  pub rank : ℕ
  pub file_path : Text
  pub chunk_id : Text
  pub score : ℕ
  pub snippet : Text

pub record SemanticQueryResponse : Type 0 where
  pub session_id : Text
  pub repo_root : Text
  pub query : Text
  pub top_k : ℤ
  pub index : SemanticIndexReadiness
  pub results : List SemanticQueryResult

pub data QueryError : Type 0 where
  session_id_required repo_root_required query_required top_k_not_positive : QueryError
  not_configured count_mismatch dims_not_positive dims_mismatch : QueryError
  dependency : Text → QueryError

pub data Result (A : Type 0) : Type 0 where
  answer : A → Result A
  refused : QueryError → Result A

-- `NormalizeSemanticQueryRequest`
unfoldable pub normalize_request : SemanticQueryRequest → SemanticQueryRequest
normalize_request r = record r {
  session_id = trim r.session_id;
  repo_root = trim r.repo_root;
  query = trim r.query;
}

abbrev pub is_positive : ℤ → Bool
is_positive (pos n) = ltb 0 n
is_positive (negsuc n) = false

-- the `switch` of `ValidateSemanticQueryRequest`
unfoldable pub request_error : SemanticQueryRequest → Option QueryError
request_error r =
    if eq r.session_id []
    then some session_id_required
    else if eq r.repo_root []
    then some repo_root_required
    else if eq r.query []
    then some query_required
    else if is_positive r.top_k
    then none
    else some top_k_not_positive

-- `ValidateSemanticQueryRequest`
unfoldable pub validate_request : SemanticQueryRequest → Option QueryError
unfolding normalize_request request_error
validate_request r = request_error (normalize_request r)

-- `BoundSnippet`
unfoldable pub bound_snippet : Text → Text
bound_snippet s = if leb (length s) max_snippet_length then s else take max_snippet_length s

-- the comparison of `ApplyStableRanks` does not put the second before the first
unfoldable pub rank_le : SemanticQueryResult → SemanticQueryResult → Bool
rank_le a b =
    if a.score == b.score
    then (if eq a.file_path b.file_path
        then le a.chunk_id b.chunk_id
        else le a.file_path b.file_path)
    else ltb b.score a.score

-- the loop that sets the ranks
unfoldable pub set_ranks : ℕ → List SemanticQueryResult → List SemanticQueryResult
set_ranks i [] = []
set_ranks i (r ∷ rs) = record r { rank = i + 1 } ∷ set_ranks (suc i) rs

-- `ApplyStableRanks`
unfoldable pub apply_stable_ranks : List SemanticQueryResult → List SemanticQueryResult
unfolding rank_le set_ranks sort
apply_stable_ranks results = set_ranks 0 (sort rank_le results)

-- the checks of `EmbedQuery` on what the embedder returned
unfoldable pub checked_vector : ℕ → List Embedding → Result Embedding
checked_vector dims [] = refused count_mismatch
checked_vector dims (v ∷ []) =
    if dims == 0
    then refused dims_not_positive
    else if length v == dims
    then answer v
    else refused dims_mismatch
checked_vector dims (v ∷ w ∷ vs) = refused count_mismatch

unfoldable pub embedded : Reply Embeddings → Result Embedding
unfolding checked_vector
embedded (fault m) = refused (dependency m)
embedded (value e) = checked_vector e.dimensions e.vectors

-- `EmbedQuery`
unfoldable pub embed_query : Option Embedder → Text → Result Embedding
unfolding embedded
embed_query none query = refused not_configured
embed_query (some embed) query =
    if eq (trim query) [] then refused query_required else embedded (embed (trim query ∷ []))

-- What a service queries: a function, or an index, an embedder and a store.
pub record Service : Type 0 where
  pub query_fn : Option (SemanticQueryRequest → Reply SemanticQueryResponse)
  pub readiness : Option (Text → Text → Reply SemanticIndexReadiness)
  pub embedder : Option Embedder
  pub store : Option (SemanticQueryRequest → Embedding → Reply (List SemanticQueryResult))

-- the loop of `finalizeSemanticQueryResponse`
unfoldable pub bound_all : List SemanticQueryResult → List SemanticQueryResult
unfolding bound_snippet
bound_all [] = []
bound_all (r ∷ rs) = record r { snippet = bound_snippet r.snippet } ∷ bound_all rs

abbrev pub status_or : Text → Text → Text
status_or fallback status = if eq status [] then fallback else status

-- `finalizeSemanticQueryResponse`
unfoldable pub finalize : SemanticQueryResponse → SemanticQueryResponse
unfolding bound_all
finalize r = record r {
  index = record r.index { status = status_or index_status_unknown r.index.status };
  results = bound_all r.results;
}

-- the response before a dependency is asked
abbrev pub empty_response : SemanticQueryRequest → SemanticQueryResponse
empty_response r = record {
  session_id = r.session_id;
  repo_root = r.repo_root;
  query = r.query;
  top_k = r.top_k;
  index = record { ready = false; status = []; snapshot_id = none; updated_at = none };
  results = [];
}

abbrev pub with_readiness : SemanticIndexReadiness → SemanticQueryResponse → SemanticQueryResponse
with_readiness i r = record r {
  index = record i {
    status = status_or (if i.ready then index_status_unknown else text "index_not_ready") i.status;
  };
}

unfoldable pub found :
    SemanticQueryResponse → Reply (List SemanticQueryResult) → Result SemanticQueryResponse
unfolding finalize apply_stable_ranks
found r (fault m) = refused (dependency m)
found r (value results) = answer (finalize (record r { results = apply_stable_ranks results }))

unfoldable pub search :
    (SemanticQueryRequest → Embedding → Reply (List SemanticQueryResult))
    → SemanticQueryRequest
    → SemanticQueryResponse
    → Result Embedding
    → Result SemanticQueryResponse
unfolding found
search store req r (refused e) = refused e
search store req r (answer vector) = found r (store req vector)

unfoldable pub if_ready :
    Embedder
    → (SemanticQueryRequest → Embedding → Reply (List SemanticQueryResult))
    → SemanticQueryRequest
    → Reply SemanticIndexReadiness
    → Result SemanticQueryResponse
unfolding search finalize embed_query
if_ready embedder store req (fault m) = refused (dependency m)
if_ready embedder store req (value i) =
    let r = with_readiness i (empty_response req) in
    if not i.ready
    then answer (finalize r)
    else search store req r (embed_query (some embedder) req.query)

unfoldable pub from_function :
    SemanticQueryRequest → Reply SemanticQueryResponse → Result SemanticQueryResponse
unfolding finalize
from_function req (fault m) = refused (dependency m)
from_function req (value q) =
    answer (finalize (record (empty_response req) { index = q.index; results = q.results }))

-- the cases of `Query` without a query function
unfoldable pub query_parts :
    Option (Text → Text → Reply SemanticIndexReadiness)
    → Option Embedder
    → Option (SemanticQueryRequest → Embedding → Reply (List SemanticQueryResult))
    → SemanticQueryRequest
    → Result SemanticQueryResponse
unfolding if_ready
query_parts (some ready) (some embedder) (some store) req =
    if_ready embedder store req (ready req.session_id req.repo_root)
query_parts _ _ _ req = refused not_configured

unfoldable pub query_service : Option Service → SemanticQueryRequest → Result SemanticQueryResponse
unfolding query_parts from_function
query_service none req = refused not_configured
query_service (some s) req = elim s.query_fn [
  | some f ↦ from_function req (f req)
  | none ↦ query_parts s.readiness s.embedder s.store req
]

unfoldable pub if_valid :
    Option QueryError → Option Service → SemanticQueryRequest → Result SemanticQueryResponse
unfolding query_service
if_valid (some e) s req = refused e
if_valid none s req = query_service s req

-- `Query`
unfoldable pub query : Option Service → SemanticQueryRequest → Result SemanticQueryResponse
unfolding if_valid validate_request normalize_request
query s req = if_valid (validate_request (normalize_request req)) s (normalize_request req)
