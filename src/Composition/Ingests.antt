-- ===== src/Composition/Ingests.antt =====
-- The composed program keeps what the use case of the upload promises.
use bank_rag_bot.Prelude.{ℕ, suc, String, false, ◌≡◌, refl, ap, ◌∙◌, some, List, [], ◌∷◌, map, All}
use bank_rag_bot.Prelude.Exec.{Exec, Result, ok, raised, proceed, pure, ◌>>=◌}
use bank_rag_bot.Domain.{Chunk}
use bank_rag_bot.Documents.{get_latest_version}
use bank_rag_bot.NoIndex.Manage.{Archive}
use bank_rag_bot.NoIndex.Registry.{is_excluded}
use bank_rag_bot.Retrieval.Payload.{Payload, locator_of, payload_of}
use bank_rag_bot.Retrieval.Filters.{Condition}
use bank_rag_bot.Retrieval.Qdrant
use bank_rag_bot.Retrieval.OpenSearch
use bank_rag_bot.Retrieval.Stores.{QdrantWrites, vector_store-IsIndex}
use bank_rag_bot.Ingestion.{Upload, execute}
use bank_rag_bot.Ingestion.Quiet.{IsQuiet}
use bank_rag_bot.Ingestion.Current.{IsCurrent, execute-Uploaded}
use bank_rag_bot.Adapters.Embedder.{embed_documents}
use bank_rag_bot.Composition.{Clients, ingest_ports}

-- The other services do not touch Qdrant's collection.
pub record IsApart {Response Vector Score W : Type 0} (clients : Clients Response Vector Score W)
    : Type 0 where
  pub indexed :
      (id : String) (payload : Payload) (s : W)
      → clients.qdrant.points (clients.opensearch.index id payload s).1 ≡ clients.qdrant.points s
  pub deleted :
      (conditions : List Condition) (s : W)
      → clients.qdrant.points (clients.opensearch.delete_by_query conditions s).1
        ≡ clients.qdrant.points s
  pub embedded :
      (texts : List String) (s : W)
      → clients.qdrant.points (clients.create_embeddings texts s).1 ≡ clients.qdrant.points s
  pub clock : (s : W) → clients.qdrant.points (clients.now s).1 ≡ clients.qdrant.points s
  pub ids : (s : W) → clients.qdrant.points (clients.uuid4 s).1 ≡ clients.qdrant.points s

module _ {V W A B : Type 0} (view : W → V) where
  -- what neither a call nor what follows it changes
  proceed-view :
      (r : Result A) (f : A → Exec W B) (s t : W)
      → view s ≡ view t
      → ((a : A) (u : W) → view (f a u).1 ≡ view u)
      → view (proceed r f s).1 ≡ view t
  proceed-view (ok a) f s t same h = h a s ∙ same
  proceed-view (raised e) f s t same h = same

module _ {Response Vector Score W : Type 0} (clients : Clients Response Vector Score W)
    (apart : IsApart clients) where
  points-index_chunks :
      (chunks : List (Chunk Vector)) (s : W)
      → clients.qdrant.points (OpenSearch.index_chunks clients.opensearch chunks s).1
        ≡ clients.qdrant.points s
  unfolding OpenSearch.index_chunks ◌>>=◌ pure
  points-index_chunks [] s = refl
  points-index_chunks (c ∷ cs) s =
      proceed-view clients.qdrant.points _ _ _ s (apart.indexed c.id (payload_of c) s)
        (λ a u. points-index_chunks cs u)

  ingest_ports-IsQuiet : IsQuiet (ingest_ports clients)
  unfolding ingest_ports Qdrant.vector_store OpenSearch.keyword_index OpenSearch.delete_by_document
      embed_documents
  ingest_ports-IsQuiet = record {
    after_keywords_insert = λ chunks s. ap (map (λ p. p.payload)) (points-index_chunks chunks s);
    after_keywords_delete = λ document s. ap (map (λ p. p.payload)) (apart.deleted _ s);
    after_embed = λ texts s. ap (map (λ p. p.payload)) (apart.embedded texts s);
    after_now = λ s. ap (map (λ p. p.payload)) (apart.clock s);
    after_uuid4 = λ s. ap (map (λ p. p.payload)) (apart.ids s);
  }

  abbrev pub stored : W → List Payload
  stored s = map (λ p. p.payload) (clients.qdrant.points s)

  -- The composed program, over Qdrant that does what its client says and services that leave the
  -- collection alone: if every stored point is of the latest version of its document, then an
  -- upload that returns raises the document's version by one, leaves only points of the latest
  -- versions, and none of the document from a place that a rule excludes.
  pub execute-ingest_ports :
      QdrantWrites clients.qdrant
      → (u : Upload) (s : Archive W) (n : ℕ) → IsCurrent s.documents (stored s.indexes)
      → (execute (ingest_ports clients) u s).0 ≡ ok n
      → let t = (execute (ingest_ports clients) u s).1 in
        (get_latest_version u.source_id t.documents
          ≡ suc (get_latest_version u.source_id s.documents))
        × IsCurrent t.documents (stored t.indexes)
        × All
            (λ c.
              c.document_id ≡ u.source_id
              → is_excluded s.rules u.source_id (some (locator_of c)) ≡ false)
            (stored t.indexes)
  unfolding ingest_ports Qdrant.vector_store
  execute-ingest_ports law u s n current h =
      execute-Uploaded (ingest_ports clients) (vector_store-IsIndex clients.qdrant law)
        ingest_ports-IsQuiet u s n current h
