-- ===== src/Retrieval/Stores.antt =====
-- The vector store is an index as the use cases take it, if Qdrant does what its client says.
use mathlib.Core.Path.{subst}
use bank_rag_bot.Prelude.{
  String, not, Bool, ◌≡◌, refl, sym, ap, ◌∙◌, ◌⊎◌, inl, inr, List, [], ◌∷◌, map, keep, Elem,
  Elem-map, map-Elem, arith,
}
use bank_rag_bot.Prelude.Exec.{ok}
use bank_rag_bot.Domain.{Chunk}
use bank_rag_bot.Indexes.{IsIndex, is_elsewhere}
use bank_rag_bot.Retrieval.Payload.{Payload, Point, payload_of, to_point}
use bank_rag_bot.Retrieval.Filters.{Condition, satisfies_all, document_id_is}
use bank_rag_bot.Retrieval.Qdrant

-- `p` does not satisfy all the conditions
abbrev pub is_spared : {Vector : Type 0} → List Condition → Point Vector → Bool
is_spared conditions p = not (satisfies_all conditions p.payload)

-- What Qdrant does with the writes that return: an upsert adds the given points and may replace
-- others, and a delete by filter takes away those that satisfy it.
pub record QdrantWrites {Vector Score S : Type 0} (client : Qdrant.Client Vector Score S)
    : Type 0 where
  pub upserted :
      (ps : List (Point Vector)) (s : S) (p : Point Vector)
      → (client.upsert ps s).0 ≡ ok tt
      → Elem p (client.points (client.upsert ps s).1)
      → Elem p ps ⊎ Elem p (client.points s)
  pub deleted_where :
      (conditions : List Condition) (s : S)
      → (client.delete_where conditions s).0 ≡ ok tt
      → client.points (client.delete_where conditions s).1
        ≡ keep (is_spared conditions) (client.points s)

module _ {Vector : Type 0} where
  abbrev payloads : List (Point Vector) → List Payload
  payloads ps = map (λ p. p.payload) ps

  -- one point is deleted by the filter when its document is the one given
  spared-document :
      (document : String) (ps : List (Point Vector))
      → payloads (keep (is_spared (document_id_is document ∷ [])) ps)
        ≡ keep (is_elsewhere document) (payloads ps)
  unfolding satisfies_all
  spared-document document [] = refl
  spared-document document (p ∷ ps) = ground (arith, spared-document document ps)

  Elem-points :
      (chunks : List (Chunk Vector)) (p : Payload)
      → Elem p (payloads (map to_point chunks))
      → Elem p (map payload_of chunks)
  unfolding to_point
  Elem-points [] p m = m
  Elem-points (c ∷ cs) p (inl e) = inl e
  Elem-points (c ∷ cs) p (inr m) = inr (Elem-points cs p m)

-- If Qdrant does what its client says, then the vector store is an index.
pub vector_store-IsIndex :
    {Vector Score S : Type 0} (client : Qdrant.Client Vector Score S)
    → QdrantWrites client
    → IsIndex (Qdrant.vector_store client)
unfolding Qdrant.vector_store
vector_store-IsIndex client law = record {
  inserted = λ chunks s p e m.
      let (point, inside, same) = Elem-map (λ x. x.payload) p _ m in
      elim (law.upserted (map to_point chunks) s point e inside) [
        | inl given ↦ inl (
            Elem-points chunks p (
              subst (λ x. Elem x (payloads (map to_point chunks))) (sym same)
                (map-Elem (λ x. x.payload) point _ given)))
        | inr there ↦ inr (
            subst (λ x. Elem x (payloads (client.points s))) (sym same)
              (map-Elem (λ x. x.payload) point _ there))
      ];
  deleted = λ document s e.
      ap payloads (law.deleted_where (document_id_is document ∷ []) s e)
      ∙ spared-document document (client.points s);
}
