-- ===== src/Retrieval/Qdrant/Locators.antt =====
-- What an exclusion by locator leaves in the vector store.
use mathlib.Core.Path.{subst}
use bank_rag_bot.Prelude.{
  ℕ, String, true, false, ◌<◌, ◌≡◌, refl, ap, ◌∙◌, arith, List, [], ◌∷◌, length, is_empty, Elem,
  All, Elem-All, map-Elem, keep-Elem, Bool-cases, inl, inr,
}
use bank_rag_bot.Prelude.Exec.{ok}
use bank_rag_bot.Prelude.Triple.{
  Triple, Triple-pure, Triple-if, Triple-bind, Triple-returned, Outcome-ok,
}
use bank_rag_bot.Indexes.{is_at}
use bank_rag_bot.NoIndex.Glob.{fnmatch}
use bank_rag_bot.Retrieval.Payload.{Payload, Point}
use bank_rag_bot.Retrieval.Filters.{Condition, satisfies_all, locator_filter}
use bank_rag_bot.Retrieval.Qdrant.{Client, delete_by_locator, delete_matching, matching_ids}

-- What Qdrant promises: a scroll that returns fewer points than its limit has all that satisfy the
-- filter, and changes nothing; a delete by ids takes away the points of those ids.
pub record QdrantScrolls {Vector Score S : Type 0} (client : Client Vector Score S) : Type 0 where
  pub scrolled :
      (conditions : List Condition) (limit : ℕ) (s : S) (ps : List (Point Vector))
      → (client.scroll conditions limit s).0 ≡ ok ps
      → length ps < limit
      → (p : Point Vector) → Elem p (client.points s)
      → satisfies_all conditions p.payload ≡ true
      → Elem p ps
  pub scroll_keeps :
      (conditions : List Condition) (limit : ℕ) (s : S)
      → client.points (client.scroll conditions limit s).1 ≡ client.points s
  pub deleted_ids :
      (ids : List String) (s : S) (p : Point Vector)
      → (client.delete_ids ids s).0 ≡ ok tt
      → Elem p (client.points (client.delete_ids ids s).1)
      → Elem p (client.points s) × (¬ Elem p.id ids)

at_locator :
    (document kind pattern : String) (p : Payload)
    → is_at document kind pattern p ≡ true
    → (satisfies_all (locator_filter document kind) p ≡ true)
      × (fnmatch p.locator_value pattern ≡ true)
unfolding satisfies_all locator_filter
at_locator document kind pattern p h = ground arith

module _ {Vector Score S : Type 0} (client : Client Vector Score S) (law : QdrantScrolls client)
    (document kind pattern : String) (start : List (Point Vector)) where
  -- every point that the filter finds is among the candidates
  abbrev Found : List (Point Vector) → S → Type 0
  Found ps s =
      (client.points s ≡ start)
      × ((p : Point Vector)
          → Elem p start
          → satisfies_all (locator_filter document kind) p.payload ≡ true
          → Elem p ps)

  abbrev IsGone : Point Vector → Type 0
  IsGone p = is_at document kind pattern p.payload ≡ false

  gone :
      (ps : List (Point Vector)) (p : Point Vector)
      → ((q : Point Vector)
          → Elem q start
          → satisfies_all (locator_filter document kind) q.payload ≡ true
          → Elem q ps)
      → Elem p start
      → ¬ Elem p.id (matching_ids pattern ps)
      → IsGone p
  unfolding matching_ids
  gone ps p all_found inside spared = elim (Bool-cases (is_at document kind pattern p.payload)) [
    | inr away ↦ away
    | inl there ↦
        let (satisfied, matched) = at_locator document kind pattern p.payload there in
        absurd (
          spared (
            map-Elem (λ (q : Point Vector). q.id) p _
              (keep-Elem (λ (q : Point Vector). fnmatch q.payload.locator_value pattern) p ps
                (all_found p inside satisfied) matched)))
  ]

  Triple-delete_matching :
      (ps : List (Point Vector))
      → Triple
          (Found ps)
          (delete_matching client (matching_ids pattern ps))
          (λ _ s. All IsGone (client.points s))
          (λ (s : S). Unit {0})
  unfolding delete_matching
  Triple-delete_matching ps =
      Triple-if (is_empty (matching_ids pattern ps)) _ _
        (λ none_match. Triple-pure tt (λ s found. Elem-All IsGone _ (λ p m.
          gone ps p found.1 (subst (Elem p) found.0 m)
            (not_in_empty p.id (matching_ids pattern ps) none_match))))
        (λ some_match. Triple-returned _ (λ s a found e. Elem-All IsGone _ (λ p m.
          let (inside, spared) = law.deleted_ids (matching_ids pattern ps) s p e m in
          gone ps p found.1 (subst (Elem p) found.0 inside) spared)))
    where
      not_in_empty : (id : String) (ids : List String) → is_empty ids ≡ true → ¬ Elem id ids
      not_in_empty id [] e m = m
      not_in_empty id (x ∷ xs) e m = absurd (ground arith)

-- If an exclusion by locator returns, and the document has fewer than 10,000 chunks of that kind of
-- locator, then no point of the document is left at a locator of the kind that the pattern matches.
-- Qdrant answers a scroll, and deletes by ids, as it promises.
pub delete_by_locator-IsGone :
    {Vector Score S : Type 0} (client : Client Vector Score S)
    → QdrantScrolls client
    → (document kind pattern : String) (s : S) (n : ℕ)
    → ((ps : List (Point Vector))
        → (client.scroll (locator_filter document kind) 10000 s).0 ≡ ok ps
        → length ps < 10000)
    → (delete_by_locator client document kind pattern s).0 ≡ ok n
    → All
        (λ p. is_at document kind pattern p.payload ≡ false)
        (client.points (delete_by_locator client document kind pattern s).1)
unfolding delete_by_locator
delete_by_locator-IsGone client law document kind pattern s n few h =
    Outcome-ok (λ _ t. All (λ p. is_at document kind pattern p.payload ≡ false) (client.points t))
      (λ t. Unit {0}) _ _ n h
      ((Triple-bind {P = λ t. t ≡ s} _ _
          (Triple-returned _ (λ t ps same e. (
            ap client.points
                  (ap (λ u. (client.scroll (locator_filter document kind) 10000 u).1) same)
                ∙ law.scroll_keeps _ _ s,
            law.scrolled _ 10000 s ps (rw (← same) e) (few ps (rw (← same) e)),
          )))
          (λ ps.
            Triple-bind _ _
              (Triple-delete_matching client law document kind pattern (client.points s) ps)
              (λ _. Triple-pure _ (λ t g. g)))).at
        s refl)
