-- ===== src/Retrieval/OpenSearch.antt =====
-- infrastructure/keyword_index/opensearch_index.py. `AsyncOpenSearch` is the argument `Client`;
-- its vectors are not stored.
use bank_rag_bot.Prelude.{ℕ, String, ◌/◌, Option, none, some, List, [], ◌∷◌, map, length}
use bank_rag_bot.Prelude.Exec.{Exec, pure, lift, ◌>>=◌}
use bank_rag_bot.Domain.{Audience, Chunk}
use bank_rag_bot.Indexes.{Index}
use bank_rag_bot.Retrieval.Payload.{Payload, Point, payload_of}
use bank_rag_bot.Retrieval.Filters.{Condition, document_id_is, search_filter, locator_filter}
use bank_rag_bot.Retrieval.Qdrant.{read_points, matching_ids}

-- The calls of the client on the one index, and the index. `search` has the text to match, if
-- there is one, the filter and the size.
pub record Client (Vector S : Type 0) : Type 0 where
  pub hits : S → List (Point Vector)
  pub index : String → Payload → Exec S Unit
  pub delete_by_query : List Condition → Exec S Unit
  pub delete : String → Exec S Unit
  pub search : Option String → List Condition → ℕ → Exec S (List (Point Vector))
  pub now : S → ℕ

module _ {Vector S : Type 0} (client : Client Vector S) where
  -- one request for each chunk
  unfoldable pub index_chunks : List (Chunk Vector) → Exec S Unit
  unfolding payload_of
  index_chunks [] = pure tt
  index_chunks (c ∷ cs) = do _ ← client.index c.id (payload_of c); index_chunks cs

  unfoldable pub delete_by_document : String → Exec S Unit
  delete_by_document document = client.delete_by_query (document_id_is document ∷ [])

  unfoldable pub delete_each : List String → Exec S Unit
  delete_each [] = pure tt
  delete_each (id ∷ ids) = do _ ← client.delete id; delete_each ids

  unfoldable pub delete_by_locator : String → String → String → Exec S ℕ
  unfolding matching_ids locator_filter delete_each
  delete_by_locator document kind pattern = do
    candidates ← client.search none (locator_filter document kind) 10000
    let ids = matching_ids pattern candidates
    _ ← delete_each ids
    pure (length ids)

  unfoldable pub search_at : String → ℕ → List Audience → ℕ → Exec S (List (Chunk Vector))
  unfolding read_points search_filter
  search_at query_text top_k allowed now = do
    hits ← client.search (some query_text) (search_filter allowed (now / 1000000)) top_k
    lift (read_points now hits)

  unfoldable pub search : String → ℕ → List Audience → Exec S (List (Chunk Vector))
  unfolding search_at
  search query_text top_k allowed s = search_at query_text top_k allowed (client.now s) s

  -- the index as the use cases take it
  unfoldable pub keyword_index : Index Vector S
  unfolding index_chunks delete_by_document delete_by_locator
  keyword_index = record {
    contents = λ s. map (λ p. p.payload) (client.hits s);
    insert = index_chunks;
    delete_by_document = delete_by_document;
    delete_by_locator = delete_by_locator;
  }
