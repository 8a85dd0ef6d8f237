-- ===== src/Adapters/Collection.antt =====
-- infrastructure/vector_stores/qdrant_bootstrap.py. `AsyncQdrantClient` is the argument `Admin`, of
-- the one collection that is given; its vector parameters are fixed but for their size.
pub mod Ensured
use bank_rag_bot.Prelude.{ℕ, String, Bool, List, [], ◌∷◌, if◌then◌else◌}
use bank_rag_bot.Prelude.Exec.{Exec, pure, ◌>>=◌, ◌>>◌}

pub data PayloadSchema : Type 0 where
  keyword integer : PayloadSchema

pub record Admin (W : Type 0) : Type 0 where
  pub collection_exists : Exec W Bool
  pub create_collection : ℕ → Exec W Unit
  pub create_payload_index : String → PayloadSchema → Exec W Unit

abbrev pub embedding_dimensions : ℕ
embedding_dimensions = 1536

abbrev pub payload_indexes : List (String × PayloadSchema)
payload_indexes = ("audience", keyword) ∷ ("document_id", keyword) ∷ ("version", integer) ∷ []

module _ {W : Type 0} (admin : Admin W) where
  unfoldable pub create_indexes : List (String × PayloadSchema) → Exec W Unit
  create_indexes [] = pure tt
  create_indexes (f ∷ fs) = do _ ← admin.create_payload_index f.0 f.1; create_indexes fs

  unfoldable pub create_unless : Bool → Exec W Unit
  unfolding create_indexes
  create_unless exists =
      if exists
      then pure tt
      else do _ ← admin.create_collection embedding_dimensions; create_indexes payload_indexes

  unfoldable pub ensure_collection : Exec W Unit
  unfolding create_unless
  ensure_collection = do exists ← admin.collection_exists; create_unless exists
