-- ===== src/Retrieval/Qdrant.antt =====
-- infrastructure/vector_stores/qdrant_store.py. `AsyncQdrantClient` is the argument `Client`.
pub mod Locators
use bank_rag_bot.Prelude.{
  ℕ, String, ◌/◌, Option, none, some, List, [], ◌∷◌, map, keep, length, if◌then◌else◌, is_empty,
}
use bank_rag_bot.Prelude.Exec.{
  Exec, Result, ok, pure, lift, raised, value_error, bind_result, ◌>>=◌,
}
use bank_rag_bot.Domain.{Audience, Chunk}
use bank_rag_bot.Documents.{audience_of}
use bank_rag_bot.Indexes.{Index}
use bank_rag_bot.NoIndex.Glob.{fnmatch}
use bank_rag_bot.Retrieval.Payload.{Point, to_point, to_chunk}
use bank_rag_bot.Retrieval.Filters.{Condition, document_id_is, search_filter, locator_filter}

-- The calls of the client on the one collection, and the collection. `Score` is a float.
pub record Client (Vector Score S : Type 0) : Type 0 where
  pub points : S → List (Point Vector)
  pub upsert : List (Point Vector) → Exec S Unit
  pub delete_where : List Condition → Exec S Unit
  pub delete_ids : List String → Exec S Unit
  pub scroll : List Condition → ℕ → Exec S (List (Point Vector))
  pub query_points : Vector → ℕ → Option Score → List Condition → Exec S (List (Point Vector))
  pub now : S → ℕ

-- `Audience(payload["audience"])`, for each point in order
unfoldable pub chunk_for :
    {Vector : Type 0} → ℕ → Point Vector → Option Audience → Result (Chunk Vector)
unfolding to_chunk
chunk_for now p none = raised (value_error p.payload.audience)
chunk_for now p (some audience) = ok (to_chunk now audience p)

unfoldable pub read_point : {Vector : Type 0} → ℕ → Point Vector → Result (Chunk Vector)
unfolding chunk_for
read_point now p = chunk_for now p (audience_of p.payload.audience)

unfoldable pub read_points :
    {Vector : Type 0} → ℕ → List (Point Vector) → Result (List (Chunk Vector))
unfolding read_point
read_points now [] = ok []
read_points now (p ∷ ps) =
    bind_result (read_point now p) (λ c. bind_result (read_points now ps) (λ cs. ok (c ∷ cs)))

-- ids of the candidates that the pattern matches
unfoldable pub matching_ids : {Vector : Type 0} → String → List (Point Vector) → List String
matching_ids pattern candidates =
    map (λ p. p.id) (keep (λ p. fnmatch p.payload.locator_value pattern) candidates)

module _ {Vector Score S : Type 0} (client : Client Vector Score S) where
  unfoldable pub upsert : List (Chunk Vector) → Exec S Unit
  unfolding to_point
  upsert chunks = client.upsert (map to_point chunks)

  unfoldable pub delete_by_document : String → Exec S Unit
  delete_by_document document = client.delete_where (document_id_is document ∷ [])

  -- `if matching_ids:`
  unfoldable pub delete_matching : List String → Exec S Unit
  delete_matching ids = if is_empty ids then pure tt else client.delete_ids ids

  unfoldable pub delete_by_locator : String → String → String → Exec S ℕ
  unfolding matching_ids locator_filter delete_matching
  delete_by_locator document kind pattern = do
    candidates ← client.scroll (locator_filter document kind) 10000
    let ids = matching_ids pattern candidates
    _ ← delete_matching ids
    pure (length ids)

  unfoldable pub search_at :
      Vector → ℕ → List Audience → Option Score → ℕ → Exec S (List (Chunk Vector))
  unfolding read_points search_filter
  search_at query_embedding top_k allowed threshold now = do
    points ←
        client.query_points query_embedding top_k threshold (search_filter allowed (now / 1000000))
    lift (read_points now points)

  unfoldable pub search : Vector → ℕ → List Audience → Option Score → Exec S (List (Chunk Vector))
  unfolding search_at
  search query_embedding top_k allowed threshold s =
      search_at query_embedding top_k allowed threshold (client.now s) s

  -- the store as the use cases take it
  unfoldable pub vector_store : Index Vector S
  unfolding upsert delete_by_document delete_by_locator
  vector_store = record {
    contents = λ s. map (λ p. p.payload) (client.points s);
    insert = upsert;
    delete_by_document = delete_by_document;
    delete_by_locator = delete_by_locator;
  }
