-- ===== src/Retrieval/Fusion.antt =====
-- agents/tools/rag_search_tool.py, `_reciprocal_rank_fusion`. The scores are floats, an argument.
use mathlib.Core.Path.{subst}
use bank_rag_bot.Prelude.{
  ℕ, suc, Bool, ◌+◌, ◌==◌, ◌≡◌, refl, ◌⊎◌, inl, inr, List, [], ◌∷◌, map, if◌then◌else◌, Elem, arith,
}
use bank_rag_bot.Prelude.Sorting.{sort_desc, Elem-sort_desc}
use bank_rag_bot.Domain.{Chunk}

pub record Floats (Score : Type 0) : Type 0 where
  pub zero_score : Score
  pub plus_score : Score → Score → Score
  -- `1.0 / n`
  pub reciprocal : ℕ → Score
  pub less : Score → Score → Bool

-- the value in both dicts of one key, `scores[key]` and `by_id[key]`
pub record Scored (Vector Score : Type 0) : Type 0 where
  pub score : Score
  pub chunk : Chunk Vector

module _ {Vector Score : Type 0} (floats : Floats Score) where
  -- The dicts are in the order of each key's first assignment.
  unfoldable pub bump :
      Score → Chunk Vector → List (Scored Vector Score) → List (Scored Vector Score)
  bump amount c [] = (record { score = floats.plus_score floats.zero_score amount; chunk = c }) ∷ []
  bump amount c (e ∷ es) =
      if e.chunk.id == c.id
      then (record { score = floats.plus_score e.score amount; chunk = c }) ∷ es
      else e ∷ bump amount c es

  -- one ranked list, from the rank given
  unfoldable pub add_ranked :
      ℕ → List (Chunk Vector) → List (Scored Vector Score) → List (Scored Vector Score)
  unfolding bump
  add_ranked rank [] es = es
  add_ranked rank (c ∷ cs) es =
      add_ranked (suc rank) cs (bump (floats.reciprocal (60 + rank + 1)) c es)

  unfoldable pub reciprocal_rank_fusion :
      List (Chunk Vector) → List (Chunk Vector) → List (Chunk Vector)
  unfolding add_ranked
  reciprocal_rank_fusion first second =
      map (λ e. e.chunk)
        (sort_desc floats.less (λ e. e.score) (add_ranked 0 second (add_ranked 0 first [])))

  Elem-bump :
      (amount : Score) (c : Chunk Vector) (es : List (Scored Vector Score))
      (e : Scored Vector Score)
      → Elem e (bump amount c es)
      → (e.chunk ≡ c) ⊎ Elem e es
  unfolding bump
  Elem-bump amount c [] e m = ground arith
  Elem-bump amount c (d ∷ ds) e m = ground (arith, Elem-bump amount c ds e)

  Elem-add_ranked :
      (rank : ℕ) (cs : List (Chunk Vector)) (es : List (Scored Vector Score))
      (e : Scored Vector Score)
      → Elem e (add_ranked rank cs es)
      → Elem e.chunk cs ⊎ Elem e es
  unfolding add_ranked
  Elem-add_ranked rank [] es e m = inr m
  Elem-add_ranked rank (c ∷ cs) es e m = elim (Elem-add_ranked (suc rank) cs _ e m) [
    | inl here ↦ inl (inr here)
    | inr there ↦ elim (Elem-bump _ c es e there) [ inl same ↦ inl (inl same) | inr old ↦ inr old ]
  ]

  Elem-chunks :
      (c : Chunk Vector) (es : List (Scored Vector Score))
      → Elem c (map (λ e. e.chunk) es)
      → (e : Scored Vector Score) × (e.chunk ≡ c) × Elem e es
  Elem-chunks c [] m = absurd m
  Elem-chunks c (e ∷ es) (inl same) = (e, ground arith, inl refl)
  Elem-chunks c (e ∷ es) (inr m) = let (d, k, there) = Elem-chunks c es m in (d, k, inr there)

  -- A fused chunk is one of a ranked list's.
  pub Elem-reciprocal_rank_fusion :
      (first second : List (Chunk Vector)) (c : Chunk Vector)
      → Elem c (reciprocal_rank_fusion first second)
      → Elem c first ⊎ Elem c second
  unfolding reciprocal_rank_fusion
  Elem-reciprocal_rank_fusion first second c m =
      let (e, same, sorted) = Elem-chunks c _ m in
      let inside = Elem-sort_desc floats.less (λ (x : Scored Vector Score). x.score) e _ sorted in
      elim (Elem-add_ranked 0 second _ e inside) [
        | inl in_second ↦ inr (subst (λ x. Elem x second) same in_second)
        | inr rest ↦ elim (Elem-add_ranked 0 first [] e rest) [
          | inl in_first ↦ inl (subst (λ x. Elem x first) same in_first)
          | inr nothing ↦ absurd nothing
        ]
      ]
