-- ===== src/Tests/Stores.antt =====
-- Two databases in memory that keep what they are given, and the stores over them.
use mathlib.Core.Path.{subst}
use bank_rag_bot.Prelude.{
  ℕ, suc, ◌<◌, String, true, false, not, ◌==◌, ◌≡◌, refl, arith, eq_refl, inl, inr, zero, sym, some,
  List, [], ◌∷◌, ◌++◌, keep, take, any, length, Elem, Elem-append-cases, Elem-keep, keep-Elem, All,
}
use bank_rag_bot.Prelude.Exec.{ok, ok-inj, ◌>>=◌}
use bank_rag_bot.Indexes.{IsIndex, is_at}
use bank_rag_bot.Retrieval.Payload.{Point}
use bank_rag_bot.Retrieval.Filters.{Condition, satisfies_all, locator_filter}
use bank_rag_bot.Retrieval.Qdrant
use bank_rag_bot.Retrieval.Stores.{QdrantWrites, is_spared, vector_store-IsIndex}
use bank_rag_bot.Retrieval.Qdrant.Locators.{QdrantScrolls, delete_by_locator-IsGone}
use bank_rag_bot.NoIndex.Glob.{fnmatch}
use bank_rag_bot.Tests.Fixtures.{old_payload}

abbrev found : List Condition → List (Point ℕ) → List (Point ℕ)
found conditions s = keep (λ p. satisfies_all conditions p.payload) s

abbrev pub point_store : Qdrant.Client ℕ ℕ (List (Point ℕ))
point_store = record {
  points = λ s. s;
  upsert = λ ps s. (ok tt, ps ++ s);
  delete_where = λ conditions s. (ok tt, keep (is_spared conditions) s);
  delete_ids = λ ids s. (ok tt, keep (λ p. not (any (λ id. id == p.id) ids)) s);
  scroll = λ conditions limit s. (ok (take limit (found conditions s)), s);
  query_points = λ query limit threshold conditions s. (ok (take limit (found conditions s)), s);
  now = λ s. 6000000;
}

pub point_store-QdrantWrites : QdrantWrites point_store
point_store-QdrantWrites = record {
  upserted = λ ps s p e m. Elem-append-cases p ps s m;
  deleted_where = λ conditions s e. refl;
}

vector_store-IsIndex_example : IsIndex (Qdrant.vector_store point_store)
vector_store-IsIndex_example = vector_store-IsIndex point_store point_store-QdrantWrites

-- a prefix that is shorter than it may be is the whole
Elem-short :
    (n : ℕ) (p : Point ℕ) (xs : List (Point ℕ))
    → length (take n xs) < n
    → Elem p xs
    → Elem p (take n xs)
Elem-short (suc n) p (x ∷ xs) h (inl e) = inl e
Elem-short (suc n) p (x ∷ xs) h (inr m) = inr (Elem-short n p xs (omega (arith, h)) m)
Elem-short (suc n) p [] h m = m
Elem-short zero p xs h m = absurd (omega (arith, h))

any-id : (id : String) (ids : List String) → Elem id ids → any (λ i. i == id) ids ≡ true
any-id id [] m = absurd m
any-id id (i ∷ ids) m = ground (arith, eq_refl id, any-id id ids)

point_store-QdrantScrolls : QdrantScrolls point_store
point_store-QdrantScrolls = record {
  scrolled = λ conditions limit s ps e short p inside satisfied.
      let same = ok-inj (take limit (found conditions s)) ps e in
      subst (Elem p) same (
        Elem-short limit p (found conditions s) (subst (λ x. length x < limit) (sym same) short)
          (keep-Elem (λ (q : Point ℕ). satisfies_all conditions q.payload) p s inside satisfied));
  scroll_keeps = λ conditions limit s. refl;
  deleted_ids = λ ids s p e m.
      let (inside, kept) = Elem-keep (λ (q : Point ℕ). not (any (λ id. id == q.id) ids)) p s m in
      (inside, λ k. ground (arith, any-id p.id ids k));
}

abbrev old_points : List (Point ℕ)
old_points = (record { id = "p"; vector = some 1; payload = old_payload }) ∷ []

delete_by_locator-IsGone_example :
    All
      (λ p. is_at "a.txt" "line_range" "1-*" p.payload ≡ false)
      (Qdrant.delete_by_locator point_store "a.txt" "line_range" "1-*" old_points).1
unfolding Qdrant.delete_by_locator locator_filter satisfies_all fnmatch ◌>>=◌
delete_by_locator-IsGone_example =
    delete_by_locator-IsGone point_store point_store-QdrantScrolls "a.txt" "line_range" "1-*"
      old_points 1 (λ ps e. rw (← ok-inj _ _ e) (omega arith)) refl
