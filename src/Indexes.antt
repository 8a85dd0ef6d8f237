-- ===== src/Indexes.antt =====
-- application/ports/vector_store.py and keyword_index.py: what both indexes offer a use case.
-- `Vector` is `list[float]`, `S` the state of the index with what it writes to. The use cases
-- take an index as an argument; its laws are named hypotheses of their theorems.
use bank_rag_bot.Prelude.{ℕ, String, Bool, not, ◌&&◌, ◌==◌, List, ◌≡◌, ◌⊎◌, keep, map, Elem}
use bank_rag_bot.Prelude.Exec.{Exec, ok}
use bank_rag_bot.Domain.{Chunk}
use bank_rag_bot.Retrieval.Payload.{Payload, payload_of}
use bank_rag_bot.NoIndex.Glob.{fnmatch}

pub record Index (Vector S : Type 0) : Type 0 where
  -- the payloads of what is stored
  pub contents : S → List Payload
  -- `VectorStore.upsert` and `KeywordIndex.index`
  pub insert : List (Chunk Vector) → Exec S Unit
  pub delete_by_document : String → Exec S Unit
  pub delete_by_locator : String → String → String → Exec S ℕ

-- of another document
abbrev pub is_elsewhere : String → Payload → Bool
is_elsewhere document p = not (p.document_id == document)

-- of the document, at a locator that the pattern matches
abbrev pub is_at : String → String → String → Payload → Bool
is_at document kind pattern p =
    p.document_id == document && p.locator_kind == kind && fnmatch p.locator_value pattern

-- What a call that returns has done to the contents. An insert adds the chunks given, and may
-- replace others.
pub record IsIndex {Vector S : Type 0} (index : Index Vector S) : Type 0 where
  pub inserted :
      (chunks : List (Chunk Vector)) (s : S) (p : Payload)
      → (index.insert chunks s).0 ≡ ok tt
      → Elem p (index.contents (index.insert chunks s).1)
      → Elem p (map payload_of chunks) ⊎ Elem p (index.contents s)
  pub deleted :
      (document : String) (s : S)
      → (index.delete_by_document document s).0 ≡ ok tt
      → index.contents (index.delete_by_document document s).1
        ≡ keep (is_elsewhere document) (index.contents s)

-- What a call has done however it ended: an insert adds no other chunks than those given, and a
-- delete adds none.
pub record AddsOnlyGiven {Vector S : Type 0} (index : Index Vector S) : Type 0 where
  pub inserted :
      (chunks : List (Chunk Vector)) (s : S) (p : Payload)
      → Elem p (index.contents (index.insert chunks s).1)
      → Elem p (map payload_of chunks) ⊎ Elem p (index.contents s)
  pub deleted :
      (document : String) (s : S) (p : Payload)
      → Elem p (index.contents (index.delete_by_document document s).1)
      → Elem p (index.contents s)
