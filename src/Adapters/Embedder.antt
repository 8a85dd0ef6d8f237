-- ===== src/Adapters/Embedder.antt =====
-- infrastructure/embeddings/openai_embedder.py. `create` is the client's call for the one model,
-- the embeddings of the response's data in order.
use bank_rag_bot.Prelude.{String, List, [], ◌∷◌}
use bank_rag_bot.Prelude.Exec.{Exec, Result, ok, raised, value_error, lift, ◌>>=◌}

-- `(result,) = …`
unfoldable pub only : {A : Type 0} → List A → Result A
only [] = raised (value_error "not enough values to unpack (expected 1, got 0)")
only (x ∷ []) = ok x
only (x ∷ y ∷ ys) = raised (value_error "too many values to unpack (expected 1)")

module _ {Vector W : Type 0} (create : List String → Exec W (List Vector)) where
  unfoldable pub embed_documents : List String → Exec W (List Vector)
  embed_documents texts = create texts

  unfoldable pub embed_query : String → Exec W Vector
  unfolding embed_documents only
  embed_query text = do results ← embed_documents (text ∷ []); lift (only results)
