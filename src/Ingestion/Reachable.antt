-- ===== src/Ingestion/Reachable.antt =====
-- The archive over time: uploads, syncs, exclusions and inclusions, one after the other.
use mathlib.Core.Path.{subst}
use bank_rag_bot.Prelude.{
  ℕ, String, true, false, ◌<◌, ◌≡◌, ◌≢◌, inl, inr, refl, sym, ap, ◌∙◌, arith, eq_iff, Option, none,
  some, List, [], ◌∷◌, All, All-weaken, All-at, Elem, Bool-cases, ◌==◌, All-both,
}
use bank_rag_bot.Prelude.Exec.{ok, modify}
use bank_rag_bot.Domain.{ChunkLocator, DocumentMetadata, NoIndexRule}
use bank_rag_bot.Documents.{DocumentMetadataRow, get_latest_version, list_all, to_metadata}
use bank_rag_bot.Indexes.{IsIndex, AddsOnlyGiven}
use bank_rag_bot.NoIndex.Glob.{fnmatch}
use bank_rag_bot.NoIndex.Registry.{is_excluded, add_rule, remove_rule}
use bank_rag_bot.NoIndex.Registry.Scopes.{add_rule-excluded}
use bank_rag_bot.NoIndex.Manage.{Archive, exclude, include}
use bank_rag_bot.NoIndex.Manage.Frame.{exclude-HasTables}
use bank_rag_bot.NoIndex.Manage.Purges.{exclude-IsKept}
use bank_rag_bot.Retrieval.Payload.{Payload, locator_of}
use bank_rag_bot.Ingestion.{Upload, Ports, execute}
use bank_rag_bot.Ingestion.Quiet.{IsQuiet}
use bank_rag_bot.Ingestion.Current.{IsCurrent, execute-Uploaded}
use bank_rag_bot.Ingestion.Permitted.{IsPermitted, execute-IsPermitted}

-- A document with a version is listed.
listed :
    (document : String) (rows : List DocumentMetadataRow)
    → 0 < get_latest_version document rows
    → (m : DocumentMetadata) × Elem m (list_all rows) × (m.source_id ≡ document)
unfolding get_latest_version list_all to_metadata
listed document [] h = absurd (ground arith)
listed document (r ∷ rs) h = elim (Bool-cases (r.source_id == document)) [
  | inl same ↦ (to_metadata r, inl refl, ground (arith, eq_iff r.source_id document))
  | inr other ↦ let (m, inside, named) = listed document rs (ground arith) in (m, inr inside, named)
]

is_excluded-remove_rule-false :
    (pattern : String) (rules : List NoIndexRule) (identifier : String)
    (locator : Option ChunkLocator)
    → is_excluded rules identifier locator ≡ false
    → is_excluded (remove_rule pattern rules) identifier locator ≡ false
unfolding is_excluded remove_rule
is_excluded-remove_rule-false pattern [] identifier locator h = refl
is_excluded-remove_rule-false pattern (r ∷ rs) identifier locator h =
    ground (arith, is_excluded-remove_rule-false pattern rs identifier locator)

is_excluded-add_rule-false :
    (rule : NoIndexRule) (rules : List NoIndexRule) (identifier : String)
    (locator : Option ChunkLocator)
    → (fnmatch identifier rule.pattern ≡ true → ⊥)
    → is_excluded rules identifier locator ≡ false
    → is_excluded (add_rule rule rules) identifier locator ≡ false
is_excluded-add_rule-false rule rules identifier locator apart h =
    elim (Bool-cases (is_excluded (add_rule rule rules) identifier locator)) [
      | inl excluded ↦ elim (add_rule-excluded rule rules identifier locator excluded) [
        | inl applies ↦ absurd (apart applies.0)
        | inr old ↦ absurd (ground arith)
      ]
      | inr free ↦ free
    ]

-- A chunk of a current document that no rule excludes is not excluded by a new rule either, when no
-- listed document that the rule matches is the chunk's.
still-IsPermitted :
    (rule : NoIndexRule) (rules : List NoIndexRule) (rows : List DocumentMetadataRow) (p : Payload)
    → (p.version ≡ get_latest_version p.document_id rows) × (0 < p.version)
    → IsPermitted rules p
    → All
        (λ (doc : DocumentMetadata).
          fnmatch doc.source_id rule.pattern ≡ true → p.document_id ≢ doc.source_id)
        (list_all rows)
    → IsPermitted (add_rule rule rules) p
still-IsPermitted rule rules rows p current permitted kept =
    let (m, inside, named) = listed p.document_id rows (omega (arith, current.0, current.1)) in
    let apart : fnmatch p.document_id rule.pattern ≡ true → ⊥ = λ matched.
      All-at _ (list_all rows) m kept inside (ap (λ x. fnmatch x rule.pattern) named ∙ matched)
        (sym named) in
    (
      is_excluded-add_rule-false rule rules p.document_id none apart permitted.0,
      is_excluded-add_rule-false rule rules p.document_id (some (locator_of p)) apart permitted.1,
    )

module _ {Vector I : Type 0} (ports : Ports Vector I) where
  -- One operation that returns. An exclusion is of whole documents.
  pub data Step : Archive I → Archive I → Type 0 where
    uploaded :
        (u : Upload) (s : Archive I) (n : ℕ)
        → (execute ports u s).0 ≡ ok n
        → Step s (execute ports u s).1
    excluded :
        (rule : NoIndexRule) (s : Archive I) (n : ℕ)
        → rule.locator_kind ≡ none
        → (exclude ports.vectors ports.keywords rule s).0 ≡ ok n
        → Step s (exclude ports.vectors ports.keywords rule s).1
    included : (pattern : String) (s : Archive I) → Step s (include pattern s).1

  pub data Reachable (start : Archive I) : Archive I → Type 0 where
    here : Reachable start start
    after : (s t : Archive I) → Reachable start s → Step s t → Reachable start t

  -- Every chunk is of the latest version of its document, and no rule excludes it.
  abbrev pub IsSound : Archive I → Type 0
  IsSound s =
      IsCurrent s.documents (ports.vectors.contents s.indexes)
      × All (IsPermitted s.rules) (ports.vectors.contents s.indexes)

  module _ (law : IsIndex ports.vectors) (adds : AddsOnlyGiven ports.vectors)
      (quiet : IsQuiet ports) where
    excluded-IsSound :
        (rule : NoIndexRule) (s : Archive I) (n : ℕ)
        → rule.locator_kind ≡ none
        → (exclude ports.vectors ports.keywords rule s).0 ≡ ok n
        → IsSound s
        → IsSound (exclude ports.vectors ports.keywords rule s).1
    excluded-IsSound rule s n whole h (current, permitted) =
        let t = (exclude ports.vectors ports.keywords rule s).1 in
        let (rules, rows) = exclude-HasTables ports.vectors ports.keywords rule s in
        let chunks = ports.vectors.contents t.indexes in
        let left =
          exclude-IsKept ports.vectors ports.keywords law quiet.after_keywords_delete
            (λ p.
              ((p.version ≡ get_latest_version p.document_id s.documents) × (0 < p.version))
              × IsPermitted s.rules p)
            rule s n whole h (All-both _ _ _ current permitted) in
        (
          subst (λ d. IsCurrent d chunks) (sym rows) (All-weaken _ _ (λ p k. k.0.0) chunks left),
          subst (λ r. All (IsPermitted r) chunks) (sym rules)
              (All-weaken _ _ (λ p k. still-IsPermitted rule s.rules s.documents p k.0.0 k.0.1 k.1)
                chunks left),
        )

    Step-IsSound : (s t : Archive I) → Step s t → IsSound s → IsSound t
    unfolding include modify
    Step-IsSound _ _ (uploaded u s n h) (current, permitted) =
        let done = execute-Uploaded ports law quiet u s n current h in
        let (rules, clean) = execute-IsPermitted ports adds quiet u s permitted in
        (
          done.1,
          subst (λ r. All (IsPermitted r) (ports.vectors.contents (execute ports u s).1.indexes))
              (sym rules) clean,
        )
    Step-IsSound _ _ (excluded rule s n whole h) sound = excluded-IsSound rule s n whole h sound
    Step-IsSound _ _ (included pattern s) (current, permitted) = (
      current,
      All-weaken (IsPermitted s.rules) (IsPermitted (remove_rule pattern s.rules))
          (λ p k. (
            is_excluded-remove_rule-false pattern s.rules p.document_id none k.0,
            is_excluded-remove_rule-false pattern s.rules p.document_id (some (locator_of p)) k.1,
          ))
          (ports.vectors.contents s.indexes) permitted,
    )

    -- Along any uploads, exclusions of whole documents and inclusions that return, one after the
    -- other, every chunk in the vector index stays of the latest version of its document, and no
    -- rule of the moment excludes it, if that held at the start. The vector index does what
    -- `IsIndex` says, adds only chunks that it was given, and no other port changes it.
    pub Reachable-IsSound : (s t : Archive I) → Reachable s t → IsSound s → IsSound t
    Reachable-IsSound s _ here sound = sound
    Reachable-IsSound s _ (after r t run step) sound =
        Step-IsSound r t step (Reachable-IsSound s r run sound)
