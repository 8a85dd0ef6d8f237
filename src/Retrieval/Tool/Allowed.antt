-- ===== src/Retrieval/Tool/Allowed.antt =====
-- What the citations of a search are of.
use bank_rag_bot.Prelude.{
  ℕ, String, ◌≤◌, ◌≡◌, refl, inl, inr, List, [], ◌∷◌, map, take, length, arith, All, All-weaken,
  All-at, Elem-All, Elem, Elem-take, length-take-le,
}
use bank_rag_bot.Prelude.Exec.{ok}
use bank_rag_bot.Prelude.Triple.{Triple, Triple-returned, Triple-bind, Triple-pure, Outcome-ok}
use bank_rag_bot.Prelude.Sorting.{Elem-sort_desc, sort_desc}
use bank_rag_bot.Domain.{Chunk, Citation}
use bank_rag_bot.Retrieval.Fusion.{reciprocal_rank_fusion, Elem-reciprocal_rank_fusion}
use bank_rag_bot.Retrieval.Audiences.{
  IsServable, QdrantAnswers, OpenSearchAnswers, qdrant-IsServable, opensearch-IsServable,
}
use bank_rag_bot.Retrieval.Tool.{Ports, RagSearchTool, to_citation, rerank, gather, search}

module _ {Vector Score S : Type 0} (ports : Ports Vector Score S) (tool : RagSearchTool Score) where
  abbrev IsAllowed : Chunk Vector → Type 0
  IsAllowed c = Elem c.metadata.audience tool.allowed_audiences

  -- A citation of a chunk of an allowed audience.
  abbrev pub IsAllowedCitation : Citation → Type 0
  IsAllowedCitation x =
      (c : Chunk Vector) × (x ≡ to_citation c) × Elem c.metadata.audience tool.allowed_audiences

  Triple-gather :
      QdrantAnswers ports.qdrant
      → OpenSearchAnswers ports.opensearch
      → (query : String) (query_embedding : Vector)
      → Triple
          (λ (s : S). Unit {0})
          (gather ports tool query query_embedding)
          (λ hits s. All IsAllowed hits.0 × All IsAllowed hits.1)
          (λ (s : S). Unit {0})
  unfolding gather
  Triple-gather vectors keywords query query_embedding =
      Triple-bind {Q = λ cs s. All IsAllowed cs} _ _
        (Triple-returned _ (λ s cs p e.
          All-weaken (IsServable tool.allowed_audiences _) IsAllowed (λ c h. h.0) cs
            (qdrant-IsServable ports.qdrant vectors query_embedding _ _ _ s cs e).0))
        (λ cs.
          Triple-bind {Q = λ ds s. All IsAllowed cs × All IsAllowed ds} _ _
            (Triple-returned _ (λ s ds p e. (
              p,
              All-weaken (IsServable tool.allowed_audiences _) IsAllowed (λ c h. h.0) ds
                  (opensearch-IsServable ports.opensearch keywords query _ _ s ds e).0,
            )))
            (λ ds. Triple-pure (cs, ds) (λ s h. h)))

  Elem-reranked :
      (query : String) (first second : List (Chunk Vector)) (pool top_k : ℕ) (c : Chunk Vector)
      → All IsAllowed first
      → All IsAllowed second
      → Elem c
          (rerank ports query (take pool (reciprocal_rank_fusion ports.floats first second)) top_k)
      → IsAllowed c
  unfolding rerank
  Elem-reranked query first second pool top_k c h k m =
      elim (Elem-reciprocal_rank_fusion ports.floats first second c
        (Elem-take pool c _ (Elem-sort_desc _ _ c _ (Elem-take top_k c _ m)))) [
          | inl a ↦ All-at IsAllowed first c h a
          | inr b ↦ All-at IsAllowed second c k b
        ]

  cited : (cs : List (Chunk Vector)) → All IsAllowed cs → All IsAllowedCitation (map to_citation cs)
  cited [] h = tt
  cited (c ∷ cs) (h, hs) = ((c, refl, h), cited cs hs)

  length-map : (cs : List (Chunk Vector)) → length (map to_citation cs) ≡ length cs
  length-map [] = refl
  length-map (c ∷ cs) = omega (arith, length-map cs)

  Triple-search :
      QdrantAnswers ports.qdrant
      → OpenSearchAnswers ports.opensearch
      → (query : String)
      → Triple
          (λ (s : S). Unit {0})
          (search ports tool query)
          (λ xs s. All IsAllowedCitation xs × (length xs ≤ tool.top_k))
          (λ (s : S). Unit {0})
  unfolding search rerank
  Triple-search vectors keywords query =
      Triple-bind {Q = λ v s. Unit {0}} _ _ (Triple-returned _ (λ s v p e. tt)) (λ v.
        Triple-bind _ _ (Triple-gather vectors keywords query v) (λ hits. Triple-pure _ (λ s h. (
          cited _ (
              Elem-All IsAllowed _
                (λ c m. Elem-reranked query hits.0 hits.1 _ _ c h.0 h.1 (unfold rerank in m))),
          omega (
            arith,
            length-map (
                rerank ports query
                  (take tool.candidate_pool (reciprocal_rank_fusion ports.floats hits.0 hits.1))
                  tool.top_k),
            length-take-le tool.top_k (
                sort_desc ports.floats.less (λ c. ports.predict query c.text)
                  (take tool.candidate_pool (reciprocal_rank_fusion ports.floats hits.0 hits.1))),
          ),
        ))))

  -- If both stores answer as they promise, a search that returns has at most `top_k` citations,
  -- and each is of a chunk of an audience that the tool is allowed to show.
  pub search-IsAllowedCitation :
      QdrantAnswers ports.qdrant
      → OpenSearchAnswers ports.opensearch
      → (query : String) (s : S) (xs : List Citation) → (search ports tool query s).0 ≡ ok xs
      → All IsAllowedCitation xs × (length xs ≤ tool.top_k)
  search-IsAllowedCitation vectors keywords query s xs h =
      Outcome-ok (λ xs s. All IsAllowedCitation xs × (length xs ≤ tool.top_k)) (λ (s : S). Unit {0})
        _ _ xs h ((Triple-search vectors keywords query).at s tt)
