-- ===== src/Retrieval/Tool.antt =====
-- agents/tools/rag_search_tool.py, the class `RagSearchTool`, with infrastructure/rerank/
-- cross_encoder_reranker.py. The embedder and the cross-encoder are arguments.
pub mod Allowed
use mathlib.Core.List.{zip_with}
use bank_rag_bot.Prelude.{
  ℕ, String, Bool, false, Option, none, some, List, [], ◌∷◌, map, take, if◌then◌else◌, ◌==◌,
}
use bank_rag_bot.Prelude.Text.{slice_to, ◌<>◌}
use bank_rag_bot.Prelude.Exec.{
  Exec, Result, ok, raised, Error, type_error, pure, raise, attempt, ◌>>=◌, ◌>>◌,
}
use bank_rag_bot.Prelude.Sorting.{sort_desc}
use bank_rag_bot.Domain.{
  Json, arr, obj, str, number, nil, cons, end, field, Items, Arguments, Audience, Chunk, Citation,
}
use bank_rag_bot.Python.{Python}
use bank_rag_bot.Agents.Tool.{Tool}
use bank_rag_bot.Retrieval.Qdrant
use bank_rag_bot.Retrieval.OpenSearch
use bank_rag_bot.Retrieval.Fusion.{Floats, reciprocal_rank_fusion}

pub record Ports (Vector Score S : Type 0) : Type 0 where
  pub embed_query : String → Exec S Vector
  pub qdrant : Qdrant.Client Vector Score S
  pub opensearch : OpenSearch.Client Vector S
  -- the cross-encoder's score of a text for a query
  pub predict : String → String → Score
  pub floats : Floats Score
  -- `str(exc)`
  pub explain : Error → String

pub record RagSearchTool (Score : Type 0) : Type 0 where
  pub allowed_audiences : List Audience
  pub top_k : ℕ
  pub candidate_pool : ℕ
  pub score_threshold : Option Score

-- The keyword arguments of a `run` that has one parameter: other names are a `TypeError`.
unfoldable pub one_argument : String → Arguments → Option Json
one_argument name [] = none
one_argument name (a ∷ []) = if a.0 == name then some a.1 else none
one_argument name (a ∷ b ∷ rest) = none

unfoldable pub to_citation : {Vector : Type 0} → Chunk Vector → Citation
to_citation c = record {
  document_id = c.document_id;
  title = c.metadata.title;
  snippet = slice_to 300 c.text;
  score = "1.0";
}

-- `asdict(c)`
unfoldable pub citation_json : Citation → Json
citation_json c = obj (
    field "document_id" (str c.document_id) (
      field "title" (str c.title)
        (field "snippet" (str c.snippet) (field "score" (number c.score) end))))

unfoldable pub results_json : List Citation → Items
unfolding citation_json
results_json [] = nil
results_json (c ∷ cs) = cons (citation_json c) (results_json cs)

-- what `run` returns of the citations
unfoldable pub found_json : List Citation → Json
unfolding results_json
found_json [] =
    obj (field "results" (arr nil) (field "note" (str "no relevant documents found") end))
found_json (c ∷ cs) = obj (field "results" (arr (results_json (c ∷ cs))) end)

unfoldable pub error_json : String → Json
error_json message = obj (field "error" (str message) end)

module _ {Vector Score S : Type 0} (ports : Ports Vector Score S) where
  unfoldable pub rerank : String → List (Chunk Vector) → ℕ → List (Chunk Vector)
  rerank query chunks top_k =
      take top_k (sort_desc ports.floats.less (λ c. ports.predict query c.text) chunks)

  module _ (tool : RagSearchTool Score) where
    unfoldable pub gather : String → Vector → Exec S (List (Chunk Vector) × List (Chunk Vector))
    gather query query_embedding = do
      vector_hits ←
          Qdrant.search ports.qdrant query_embedding tool.candidate_pool tool.allowed_audiences
            tool.score_threshold
      keyword_hits ←
          OpenSearch.search ports.opensearch query tool.candidate_pool tool.allowed_audiences
      pure (vector_hits, keyword_hits)

    unfoldable pub search : String → Exec S (List Citation)
    unfolding gather rerank to_citation reciprocal_rank_fusion
    search query = do
      query_embedding ← ports.embed_query query
      hits ← gather query query_embedding
      let fused = take tool.candidate_pool (reciprocal_rank_fusion ports.floats hits.0 hits.1)
      pure (map to_citation (rerank query fused tool.top_k))

    -- `except Exception`: a failure is a result too
    unfoldable pub report : Python → Result (List Citation) → Exec S String
    unfolding found_json error_json
    report py (ok citations) = pure (py.dumps (found_json citations))
    report py (raised e) = pure (py.dumps (error_json ("retrieval_failed: " <> ports.explain e)))

    -- A query that is no text fails in the embedder's client.
    unfoldable pub run_query : Python → Option Json → Exec S String
    unfolding search report
    run_query py (some (str query)) = attempt (search query) (report py)
    run_query py (some other) = report py (raised type_error)
    run_query py none = raise type_error

    unfoldable pub rag_search_tool : Python → String → Tool S
    unfolding run_query one_argument
    rag_search_tool py description = record {
      name = "search_knowledge_base";
      description = description;
      requires_authentication = false;
      requires_confirmation = false;
      run = λ arguments. run_query py (one_argument "query" arguments);
    }
