-- ===== src/Examples/Queries.antt =====
-- A query of internal/retrieval over an index that finds two chunks.
use deep_agent_cli.Base.{ℕ, ◌≡◌, refl, true, none, some, List, [], ◌∷◌}
use deep_agent_cli.Base.Int.{pos}
use deep_agent_cli.Base.Sort.{sort}
use deep_agent_cli.Text.{Text, text, eq, le}
use deep_agent_cli.Text.Trim.{trim}
use deep_agent_cli.Reply.{value}
use deep_agent_cli.Retrieval.{
  SemanticQueryRequest, SemanticQueryResult, SemanticQueryResponse, answer, Service,
  normalize_request, validate_request, apply_stable_ranks, finalize, query, embed_query,
}
use deep_agent_cli.Retrieval.Ranked.{IsRanked, apply_stable_ranks-IsRanked}
use deep_agent_cli.Retrieval.Answered.{IsResponse, query-IsResponse}

abbrev result : ℕ → Text → ℕ → SemanticQueryResult
result rank path score = record {
  rank = rank;
  file_path = path;
  chunk_id = text "0";
  score = score;
  snippet = text "x";
}

abbrev results : List SemanticQueryResult
results = result 0 (text "b") 3 ∷ result 0 (text "a") 3 ∷ result 0 (text "c") 8 ∷ []

ranks_test :
    apply_stable_ranks results
    ≡ result 1 (text "c") 8 ∷ result 2 (text "a") 3 ∷ result 3 (text "b") 3 ∷ []
unfolding apply_stable_ranks sort eq le
ranks_test = refl

apply_stable_ranks-IsRanked_example : IsRanked results (apply_stable_ranks results)
apply_stable_ranks-IsRanked_example = apply_stable_ranks-IsRanked results

abbrev request : SemanticQueryRequest
request = record { session_id = text " s"; repo_root = text "/r"; query = text "q "; top_k = pos 2 }

abbrev service : Service
service = record {
  query_fn = none;
  readiness =
      some
        (λ s r. value record { ready = true; status = []; snapshot_id = none; updated_at = none });
  embedder = some (λ ts. value record { model = []; dimensions = 1; vectors = (1 ∷ []) ∷ [] });
  store = some (λ r v. value results);
}

abbrev response : SemanticQueryResponse
response = record {
  session_id = text "s";
  repo_root = text "/r";
  query = text "q";
  top_k = pos 2;
  index = record { ready = true; status = text "unknown"; snapshot_id = none; updated_at = none };
  results = result 1 (text "c") 8 ∷ result 2 (text "a") 3 ∷ result 3 (text "b") 3 ∷ [];
}

query_test : query (some service) request ≡ answer response
unfolding query apply_stable_ranks sort eq le trim embed_query finalize
query_test = refl

query-IsResponse_example :
    (validate_request (normalize_request request) ≡ none)
    × IsResponse (normalize_request request) response
query-IsResponse_example = query-IsResponse (some service) request response query_test
