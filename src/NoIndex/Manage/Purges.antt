-- ===== src/NoIndex/Manage/Purges.antt =====
-- What the exclusion of whole documents leaves in the vector index.
use mathlib.Core.Path.{subst}
use bank_rag_bot.Prelude.{
  ℕ, String, true, ◌+◌, ◌≡◌, ◌≢◌, sym, ap, arith, eq_iff, Option, none, some, List, [], ◌∷◌, All,
  All-weaken, All-at, Elem-All, Elem-keep, if◌then◌else◌,
}
use bank_rag_bot.Prelude.Exec.{ok, pure, ◌>>=◌, gets, modify}
use bank_rag_bot.Prelude.Triple.{
  Triple, Triple-returned, Triple-bind, Triple-pure, Triple-if, Triple-after, Outcome-ok,
}
use bank_rag_bot.Domain.{NoIndexRule, DocumentMetadata}
use bank_rag_bot.Documents.{list_all}
use bank_rag_bot.Indexes.{Index, IsIndex}
use bank_rag_bot.NoIndex.Glob.{fnmatch}
use bank_rag_bot.NoIndex.Manage.{Archive, in_indexes, purge, purge_document, exclude, scoped}
use bank_rag_bot.Retrieval.Payload.{Payload}

module _ {Vector I : Type 0} (vectors keywords : Index Vector I) (law : IsIndex vectors)
    (quiet : (document : String) (s : I)
      → vectors.contents (keywords.delete_by_document document s).1 ≡ vectors.contents s) where
  abbrev Holds : (Payload → Type 0) → Archive I → Type 0
  Holds P t = All P (vectors.contents t.indexes)

  -- not a chunk of a document that the pattern matches
  abbrev pub IsKept : String → Payload → DocumentMetadata → Type 0
  IsKept pattern p doc = fnmatch doc.source_id pattern ≡ true → p.document_id ≢ doc.source_id

  Triple-purge_document :
      (P : Payload → Type 0) (source_id : String)
      → Triple
          (Holds P)
          (purge_document vectors keywords none source_id)
          (λ n. Holds (λ p. P p × (p.document_id ≢ source_id)))
          (λ (t : Archive I). Unit {0})
  unfolding purge_document in_indexes
  Triple-purge_document P source_id =
      Triple-bind {Q = λ a. Holds (λ p. P p × (p.document_id ≢ source_id))} _ _
        (Triple-returned _ (λ t a h e.
          subst (All (λ p. P p × (p.document_id ≢ source_id)))
            (sym (law.deleted source_id t.indexes e))
            (Elem-All _ _ (λ p m.
              let (inside, kept) = Elem-keep _ p (vectors.contents t.indexes) m in
              (
                All-at P (vectors.contents t.indexes) p h inside,
                λ same. ground (arith, eq_iff p.document_id source_id),
              )))))
        (λ a.
          Triple-bind {Q = λ b. Holds (λ p. P p × (p.document_id ≢ source_id))} _ _
            (Triple-returned _ (λ t b h e.
              subst (All (λ p. P p × (p.document_id ≢ source_id))) (sym (quiet source_id t.indexes))
                h))
            (λ b. Triple-pure 1 (λ t h. h)))

  Triple-visit :
      (P : Payload → Type 0) (pattern : String) (doc : DocumentMetadata)
      → Triple
          (Holds P)
          (if fnmatch doc.source_id pattern
            then purge_document vectors keywords none doc.source_id
            else pure 0)
          (λ n. Holds (λ p. P p × IsKept pattern p doc))
          (λ (t : Archive I). Unit {0})
  Triple-visit P pattern doc =
      Triple-if (fnmatch doc.source_id pattern) _ _
        (λ matched.
          Triple-after _ _ _ (λ n t h. All-weaken _ _ (λ p k. (k.0, λ e. k.1)) _ h) (λ t h. h)
            (Triple-purge_document P doc.source_id))
        (λ other.
          Triple-pure 0 (λ t h. All-weaken P _ (λ p k. (k, λ e. absurd (ground arith))) _ h))

  Triple-purge :
      (P : Payload → Type 0) (pattern : String) (docs : List DocumentMetadata)
      → Triple
          (Holds P)
          (purge vectors keywords pattern none docs)
          (λ n. Holds (λ p. P p × All (IsKept pattern p) docs))
          (λ (t : Archive I). Unit {0})
  unfolding purge
  Triple-purge P pattern [] = Triple-pure 0 (λ t h. All-weaken P _ (λ p k. (k, tt)) _ h)
  Triple-purge P pattern (doc ∷ docs) = Triple-bind _ _ (Triple-visit P pattern doc) (λ n.
      Triple-bind _ _ (Triple-purge (λ p. P p × IsKept pattern p doc) pattern docs)
        (λ m. Triple-pure (n + m) (λ t h. All-weaken _ _ (λ p k. (k.0.0, (k.0.1, k.1))) _ h)))

  purge-IsKept :
      (P : Payload → Type 0) (pattern : String) (scope : Option (String × String))
      (docs : List DocumentMetadata) (t : Archive I) (n : ℕ)
      → scope ≡ none
      → (purge vectors keywords pattern scope docs t).0 ≡ ok n
      → All P (vectors.contents t.indexes)
      → All
          (λ p. P p × All (IsKept pattern p) docs)
          (vectors.contents (purge vectors keywords pattern scope docs t).1.indexes)
  purge-IsKept P pattern none docs t n e h before =
      Outcome-ok (λ m. Holds (λ p. P p × All (IsKept pattern p) docs)) (λ (x : Archive I). Unit {0})
        _ _ n h ((Triple-purge P pattern docs).at t before)
  purge-IsKept P pattern (some x) docs t n e h before = absurd (ground arith)

  -- what held of the chunks is kept with it
  pub exclude-IsKept :
      (P : Payload → Type 0) (rule : NoIndexRule) (s : Archive I) (n : ℕ)
      → rule.locator_kind ≡ none
      → (exclude vectors keywords rule s).0 ≡ ok n
      → All P (vectors.contents s.indexes)
      → All
          (λ p. P p × All (IsKept rule.pattern p) (list_all s.documents))
          (vectors.contents (exclude vectors keywords rule s).1.indexes)
  unfolding exclude ◌>>=◌ gets modify
  exclude-IsKept P rule s n whole h before =
      purge-IsKept P rule.pattern _ (list_all s.documents) _ n
        (ap (λ k. scoped k rule.locator_pattern) whole) h before

  -- If the exclusion of a rule for whole documents returns, then no chunk in the vector index is of
  -- a listed document that the rule's pattern matches. The index deletes what it is told to, and
  -- the keyword index does not change it.
  pub exclude-purges :
      (rule : NoIndexRule) (s : Archive I) (n : ℕ)
      → rule.locator_kind ≡ none
      → (exclude vectors keywords rule s).0 ≡ ok n
      → All
          (λ p.
            All
              (λ doc. fnmatch doc.source_id rule.pattern ≡ true → p.document_id ≢ doc.source_id)
              (list_all s.documents))
          (vectors.contents (exclude vectors keywords rule s).1.indexes)
  exclude-purges rule s n whole h =
      All-weaken (λ p. Unit {0} × All (IsKept rule.pattern p) (list_all s.documents)) _ (λ p k. k.1)
        _ (exclude-IsKept (λ p. Unit {0}) rule s n whole h (Elem-All (λ p. Unit {0}) _ (λ p m. tt)))
