-- ===== src/Ingestion.antt =====
-- ingestion/ and application/use_cases/ingest_document.py: a document's text in chunks, and the
-- chunks in the two indexes. The embedder, the sanitizer, the clock and `uuid4` are arguments.
pub mod Chunker
pub mod Segments
pub mod Lines
pub mod Markdown
pub mod Html
pub mod Pdf
pub mod Loader
pub mod Web
pub mod Frame
pub mod Quiet
pub mod Current
pub mod Permitted
pub mod Reachable
use bank_rag_bot.Prelude.{
  ℕ, zero, suc, String, Bool, true, false, not, ◌+◌, Option, none, some, List, [], ◌∷◌, map, keep,
  length, if◌then◌else◌, is_empty, eqb,
}
use bank_rag_bot.Prelude.Text.{◌<>◌}
use bank_rag_bot.Prelude.Exec.{
  Exec, pure, raise, gets, modify, lift, calling, ◌>>=◌, ◌>>◌, document_excluded, ok,
}
use bank_rag_bot.Domain.{
  Audience, Chunk, ChunkLocator, DocumentMetadata, DocumentSegment, NoIndexRule,
}
use bank_rag_bot.Documents.{save_metadata, get_latest_version}
use bank_rag_bot.Indexes.{Index}
use bank_rag_bot.NoIndex.Registry.{is_excluded}
use bank_rag_bot.NoIndex.Manage.{Archive, in_indexes}
use bank_rag_bot.Ingestion.Chunker.{SemanticChunker, split_segments}

pub record Upload : Type 0 where
  pub source_id : String
  pub title : String
  pub segments : List DocumentSegment
  pub audience : Audience
  pub uploaded_by : String
  pub valid_until : Option ℕ

pub record Ports (Vector I : Type 0) : Type 0 where
  pub chunker : SemanticChunker
  pub vectors : Index Vector I
  pub keywords : Index Vector I
  pub embed_documents : List String → Exec I (List Vector)
  pub sanitize : String → String
  pub now : I → ℕ × I
  pub uuid4 : I → String × I

unfoldable pub included_segments :
    (String → String) → List NoIndexRule → String → List DocumentSegment → List DocumentSegment
included_segments sanitize rules source_id segments =
    map (λ segment. record { text = sanitize segment.text; locator = segment.locator })
      (keep (λ segment. not (is_excluded rules source_id (some segment.locator))) segments)

unfoldable pub new_metadata : Upload → ℕ → ℕ → DocumentMetadata
new_metadata u previous_version now = record {
  source_id = u.source_id;
  title = u.title;
  audience = u.audience;
  uploaded_by = some u.uploaded_by;
  version = suc previous_version;
  updated_at = now;
  valid_until = u.valid_until;
}

module _ {Vector I : Type 0} (ports : Ports Vector I) where
  -- `zip(chunk_pairs, embeddings)`, each pair with a fresh id
  unfoldable pub chunks_of :
      DocumentMetadata → List (String × ChunkLocator) → List Vector → Exec I (List (Chunk Vector))
  unfolding calling
  chunks_of metadata [] vectors = pure []
  chunks_of metadata (p ∷ ps) [] = pure []
  chunks_of metadata (p ∷ ps) (v ∷ vs) = do
    id ← calling ports.uuid4
    rest ← chunks_of metadata ps vs
    let chunk : Chunk Vector = record {
      id = id;
      document_id = metadata.source_id;
      text = p.0;
      metadata = metadata;
      locator = p.1;
      embedding = some v;
    }
    pure (chunk ∷ rest)

  -- what is written of the previous version goes first
  unfoldable pub delete_previous : ℕ → String → Exec I Unit
  delete_previous zero source_id = pure tt
  delete_previous (suc n) source_id = do
    _ ← ports.vectors.delete_by_document source_id
    ports.keywords.delete_by_document source_id

  unfoldable pub embed : List (String × ChunkLocator) → Exec I (List Vector)
  embed [] = pure []
  embed (p ∷ ps) = ports.embed_documents (map (λ q. q.0) (p ∷ ps))

  unfoldable pub insert_all : List (Chunk Vector) → Exec I Unit
  insert_all [] = pure tt
  insert_all (c ∷ cs) = do _ ← ports.vectors.insert (c ∷ cs); ports.keywords.insert (c ∷ cs)

  -- after the check of the whole document
  unfoldable pub replace : Upload → List NoIndexRule → ℕ → Exec I (DocumentMetadata × ℕ)
  unfolding calling chunks_of delete_previous embed insert_all included_segments new_metadata
  replace u rules previous_version = do
    _ ← delete_previous previous_version u.source_id
    now ← calling ports.now
    let metadata = new_metadata u previous_version now
    let pairs =
        split_segments ports.chunker (included_segments ports.sanitize rules u.source_id u.segments)
          u.title
    embeddings ← embed pairs
    chunks ← chunks_of metadata pairs embeddings
    _ ← insert_all chunks
    pure (metadata, length chunks)

  unfoldable pub refusal : String → String
  refusal source_id =
      "'" <> source_id <> "' è escluso dall'indicizzazione da una regola no-index attiva"

  unfoldable pub admit : Upload → List NoIndexRule → ℕ → Exec (Archive I) ℕ
  unfolding replace in_indexes
  admit u rules previous_version = do
    done ← in_indexes (replace u rules previous_version)
    _ ← modify {S = Archive I} (λ s. record s { documents = save_metadata done.0 s.documents })
    pure done.1

  unfoldable pub upload_unless : Bool → Upload → List NoIndexRule → Exec (Archive I) ℕ
  unfolding admit refusal get_latest_version
  upload_unless true u rules = raise (document_excluded (refusal u.source_id))
  upload_unless false u rules = do
    previous_version ← gets (λ s. get_latest_version u.source_id s.documents)
    admit u rules previous_version

  unfoldable pub execute : Upload → Exec (Archive I) ℕ
  unfolding upload_unless is_excluded
  execute u = do
    rules ← gets (λ s. s.rules)
    upload_unless (is_excluded rules u.source_id none) u rules
