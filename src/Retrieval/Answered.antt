-- ===== src/Retrieval/Answered.antt =====
-- What a query of internal/retrieval/service.go answers.
use deep_agent_cli.Base.{
  ℕ, ◌≤◌, ◌≡◌, refl, sym, ap, ◌∙◌, subst, inl, inr, Bool, true, false, not, Option, none, some,
  List, [], ◌∷◌, arith, leb, if◌then◌else◌, leb→le, Bool-cases, Option-cases, length, take, All,
  length-take,
}
use deep_agent_cli.Text.{Text, eq}
use deep_agent_cli.Reply.{Reply, value, fault}
use deep_agent_cli.IndexStore.{Embedding}
use deep_agent_cli.Indexing.Refresh.{Embedder}
use deep_agent_cli.Retrieval.{
  SemanticQueryRequest, SemanticIndexReadiness, SemanticQueryResult, SemanticQueryResponse,
  QueryError, Result, answer, refused, max_snippet_length, normalize_request, validate_request,
  bound_snippet, bound_all, finalize, found, search, if_ready, from_function, query_parts,
  query_service, if_valid, query, Service, embed_query, with_readiness, empty_response,
}

abbrev pub Bounded : SemanticQueryResult → Type 0
Bounded r = length r.snippet ≤ max_snippet_length

-- A response to a normalized request: the request's own fields, a status, and short snippets.
pub record IsResponse (req : SemanticQueryRequest) (r : SemanticQueryResponse) : Type 0 where
  pub session_id : r.session_id ≡ req.session_id
  pub repo_root : r.repo_root ≡ req.repo_root
  pub asked : r.query ≡ req.query
  pub top_k : r.top_k ≡ req.top_k
  pub status : eq r.index.status [] ≡ false
  pub snippets : All Bounded r.results

-- A response, if there is one, is of that kind.
abbrev Responds : SemanticQueryRequest → Result SemanticQueryResponse → Type 0
Responds req (answer r) = IsResponse req r
Responds req (refused e) = Unit

cut_short : (m : ℕ) (s : Text) → length (if leb (length s) m then s else take m s) ≤ m
cut_short m s = elim (Bool-cases (leb (length s) m)) [
  | inl e ↦ rw e (leb→le (length s) m e)
  | inr e ↦ rw e (omega (arith, length-take m s))
]

bound_snippet-Bounded : (s : Text) → length (bound_snippet s) ≤ max_snippet_length
unfolding bound_snippet
bound_snippet-Bounded s = cut_short max_snippet_length s

bound_all-Bounded : (rs : List SemanticQueryResult) → All Bounded (bound_all rs)
unfolding bound_all
bound_all-Bounded [] = tt
bound_all-Bounded (r ∷ rs) = (bound_snippet-Bounded r.snippet, bound_all-Bounded rs)

finalize-IsResponse :
    (req : SemanticQueryRequest) (r : SemanticQueryResponse)
    → r.session_id ≡ req.session_id
    → r.repo_root ≡ req.repo_root
    → r.query ≡ req.query
    → r.top_k ≡ req.top_k
    → IsResponse req (finalize r)
unfolding finalize eq
finalize-IsResponse req r a b c d = record {
  session_id = a;
  repo_root = b;
  asked = c;
  top_k = d;
  status = ground arith;
  snippets = bound_all-Bounded r.results;
}

module _ (req : SemanticQueryRequest) where
  found-Responds :
      (i : SemanticIndexReadiness) (f : Reply (List SemanticQueryResult))
      → Responds req (found (with_readiness i (empty_response req)) f)
  unfolding found
  found-Responds i (fault m) = tt
  found-Responds i (value rs) = finalize-IsResponse req _ refl refl refl refl

  search-Responds :
      (store : SemanticQueryRequest → Embedding → Reply (List SemanticQueryResult))
      (i : SemanticIndexReadiness) (v : Result Embedding)
      → Responds req (search store req (with_readiness i (empty_response req)) v)
  unfolding search
  search-Responds store i (refused e) = tt
  search-Responds store i (answer v) = found-Responds i (store req v)

  either :
      (b : Bool) (x y : Result SemanticQueryResponse)
      → Responds req x
      → Responds req y
      → Responds req (if not b then x else y)
  either true x y h k = k
  either false x y h k = h

  if_ready-Responds :
      (embedder : Embedder)
      (store : SemanticQueryRequest → Embedding → Reply (List SemanticQueryResult))
      (reply : Reply SemanticIndexReadiness)
      → Responds req (if_ready embedder store req reply)
  unfolding if_ready
  if_ready-Responds embedder store (fault m) = tt
  if_ready-Responds embedder store (value i) =
      either i.ready (answer (finalize (with_readiness i (empty_response req)))) _
        (finalize-IsResponse req (with_readiness i (empty_response req)) refl refl refl refl)
        (search-Responds store i (embed_query (some embedder) req.query))

  query_parts-Responds :
      (ready : Option (Text → Text → Reply SemanticIndexReadiness)) (embedder : Option Embedder)
      (store : Option (SemanticQueryRequest → Embedding → Reply (List SemanticQueryResult)))
      → Responds req (query_parts ready embedder store req)
  unfolding query_parts
  query_parts-Responds (some ready) (some embedder) (some store) =
      if_ready-Responds embedder store (ready req.session_id req.repo_root)
  query_parts-Responds none embedder store = tt
  query_parts-Responds (some ready) none store = tt
  query_parts-Responds (some ready) (some embedder) none = tt

  from_function-Responds : (q : Reply SemanticQueryResponse) → Responds req (from_function req q)
  unfolding from_function
  from_function-Responds (fault m) = tt
  from_function-Responds (value q) = finalize-IsResponse req _ refl refl refl refl

  query_service-Responds : (s : Option Service) → Responds req (query_service s req)
  unfolding query_service
  query_service-Responds none = tt
  query_service-Responds (some s) = elim (Option-cases s.query_fn) [
    | inl e ↦
        subst (Responds req) (sym (rw (e, query_service) refl))
          (query_parts-Responds s.readiness s.embedder s.store)
    | inr (f, e) ↦
        subst (Responds req) (sym (rw (e, query_service) refl)) (from_function-Responds (f req))
  ]

refused-answer : (e : QueryError) (r : SemanticQueryResponse) → ¬ (refused e ≡ answer r)
refused-answer e r h = ground arith

-- A query that is answered was valid once trimmed, and the response carries the trimmed request, a
-- status of the index that is never empty, and results whose snippets have at most 400 bytes.
pub query-IsResponse :
    (s : Option Service) (req : SemanticQueryRequest) (r : SemanticQueryResponse)
    → query s req ≡ answer r
    → (validate_request (normalize_request req) ≡ none) × IsResponse (normalize_request req) r
unfolding query if_valid
query-IsResponse s req r h = elim (Option-cases (validate_request (normalize_request req))) [
  | inr (e, q) ↦
      absurd (refused-answer e r (sym (ap (λ v. if_valid v s (normalize_request req)) q) ∙ h))
  | inl q ↦ (
    q,
    subst (Responds (normalize_request req))
        (sym (ap (λ v. if_valid v s (normalize_request req)) q) ∙ h)
        (query_service-Responds (normalize_request req) s),
  )
]
