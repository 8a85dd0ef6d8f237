-- ===== src/Ingestion/Permitted.antt =====
-- No upload puts into the vector index what a rule excludes, however it ends.
use mathlib.Core.Path.{subst}
use bank_rag_bot.Prelude.{
  ℕ, zero, suc, String, Bool, true, false, ◌≡◌, ◌⊎◌, inl, inr, refl, sym, ap, ◌∙◌, none, some, List,
  [], ◌∷◌, map, All, All-weaken, All-at, Elem, Elem-All,
}
use bank_rag_bot.Prelude.Triple.{
  Triple, Triple-pure, Triple-raise, Triple-gets, Triple-modify, Triple-bind, Triple-kept,
  Outcome-state, Outcome,
}
use bank_rag_bot.Domain.{Chunk, DocumentMetadata, NoIndexRule}
use bank_rag_bot.Indexes.{AddsOnlyGiven}
use bank_rag_bot.Retrieval.Payload.{Payload, payload_of, locator_of}
use bank_rag_bot.NoIndex.Registry.{is_excluded}
use bank_rag_bot.NoIndex.Manage.{Archive}
use bank_rag_bot.NoIndex.Manage.Frame.{Triple-in_indexes}
use bank_rag_bot.Ingestion.Quiet.{
  IsQuiet, All-map, split_segments-All, included-All, Holds, Triple-quiet, Triple-embed,
  Triple-calling, Triple-chunks_of,
}
use bank_rag_bot.Ingestion.{
  Upload, Ports, new_metadata, delete_previous, insert_all, replace, admit, upload_unless, execute,
}

-- No rule excludes the chunk: neither its document as a whole nor its place in it.
abbrev pub IsPermitted : List NoIndexRule → Payload → Type 0
IsPermitted rules p =
    (is_excluded rules p.document_id none ≡ false)
    × (is_excluded rules p.document_id (some (locator_of p)) ≡ false)

-- The rules are those given, and no chunk in the vector index is excluded by one of them.
abbrev pub IsClean : {Vector I : Type 0} → Ports Vector I → List NoIndexRule → Archive I → Type 0
IsClean ports rules t = (t.rules ≡ rules) × Holds ports (IsPermitted rules) t.indexes

module _ {Vector I : Type 0} (ports : Ports Vector I) (law : AddsOnlyGiven ports.vectors)
    (quiet : IsQuiet ports) where
  module _ (P : Payload → Type 0) where
    Triple-delete_previous :
        (previous : ℕ) (source_id : String)
        → Triple
            (Holds ports P)
            (delete_previous ports previous source_id)
            (λ _. Holds ports P)
            (Holds ports P)
    unfolding delete_previous
    Triple-delete_previous zero source_id = Triple-pure tt (λ s h. h)
    Triple-delete_previous (suc n) source_id =
        Triple-bind {Q = λ _. Holds ports P} _ _
          (Triple-kept (Holds ports P) _ (λ s h.
            Elem-All P _
              (λ c m. All-at P (ports.vectors.contents s) c h (law.deleted source_id s c m))))
          (λ _. Triple-quiet ports quiet P (λ s h. h) _ (quiet.after_keywords_delete source_id))

    given_or_there :
        (chunks : List (Chunk Vector)) (s : I) (p : Payload)
        → All (λ c. P (payload_of c)) chunks
        → Holds ports P s
        → Elem p (map payload_of chunks) ⊎ Elem p (ports.vectors.contents s)
        → P p
    given_or_there chunks s p new h (inl m) =
        All-at P (map payload_of chunks) p (All-map P payload_of chunks new) m
    given_or_there chunks s p new h (inr m) = All-at P (ports.vectors.contents s) p h m

    Triple-insert_all :
        (chunks : List (Chunk Vector))
        → All (λ c. P (payload_of c)) chunks
        → Triple (Holds ports P) (insert_all ports chunks) (λ _. Holds ports P) (Holds ports P)
    unfolding insert_all
    Triple-insert_all [] new = Triple-pure tt (λ s h. h)
    Triple-insert_all (c ∷ cs) new =
        Triple-bind {Q = λ _. Holds ports P} _ _
          (Triple-kept (Holds ports P) _ (λ s h.
            Elem-All P _ (λ p m. given_or_there (c ∷ cs) s p new h (law.inserted (c ∷ cs) s p m))))
          (λ _. Triple-quiet ports quiet P (λ s h. h) _ (quiet.after_keywords_insert (c ∷ cs)))

  module _ (rules : List NoIndexRule) (u : Upload)
      (admitted : is_excluded rules u.source_id none ≡ false) where
    abbrev P : Payload → Type 0
    P = IsPermitted rules

    abbrev IsMade : DocumentMetadata → Chunk Vector → Type 0
    IsMade m c =
        (c.document_id ≡ m.source_id)
        × (c.metadata ≡ m)
        × (is_excluded rules u.source_id (some c.locator) ≡ false)

    IsPermitted-payload_of :
        (m : DocumentMetadata) (c : Chunk Vector)
        → m.source_id ≡ u.source_id
        → IsMade m c
        → P (payload_of c)
    unfolding payload_of
    IsPermitted-payload_of m c own (d, e, f) =
        let same : c.document_id ≡ u.source_id = d ∙ own in
        (
          ap (λ x. is_excluded rules x none) same ∙ admitted,
          ap (λ x. is_excluded rules x (some c.locator)) same ∙ f,
        )

    Triple-replace :
        (previous : ℕ)
        → Triple
            (Holds ports P)
            (replace ports u rules previous)
            (λ _. Holds ports P)
            (Holds ports P)
    unfolding replace new_metadata
    Triple-replace previous = Triple-bind _ _ (Triple-delete_previous P previous u.source_id) (λ _.
        Triple-bind _ _ (Triple-calling ports quiet P (λ s h. h) ports.now quiet.after_now) (λ now.
          Triple-bind _ _ (Triple-embed ports quiet P (λ s h. h) _) (λ vs.
            Triple-bind _ _
              (Triple-chunks_of ports quiet P (λ s h. h) _
                (λ l. is_excluded rules u.source_id (some l) ≡ false) _ vs
                (split_segments-All _ _ _ _ (included-All _ rules u.source_id u.segments)))
              (λ chunks.
                Triple-bind {Q = λ _. Holds ports P} _ _
                  (record {
                    at = λ s q.
                        (Triple-insert_all P chunks (
                            All-weaken (IsMade (new_metadata u previous now)) _
                              (λ c made.
                                IsPermitted-payload_of (new_metadata u previous now) c refl made)
                              chunks q.0)).at
                          s q.1;
                  })
                  (λ _. Triple-pure _ (λ s q. q))))))

    Triple-admit :
        (previous : ℕ)
        → Triple
            (IsClean ports rules)
            (admit ports u rules previous)
            (λ _. IsClean ports rules)
            (IsClean ports rules)
    unfolding admit
    Triple-admit previous =
        Triple-bind {Q = λ _. IsClean ports rules} _ _
          (Triple-in_indexes (λ r d. r ≡ rules) (λ _. Holds ports P) (Holds ports P) _
            (Triple-replace previous))
          (λ done.
            Triple-bind {Q = λ _. IsClean ports rules} _ _ (Triple-modify _ (λ t q. q))
              (λ _. Triple-pure done.1 (λ t q. q)))

  Triple-upload_unless :
      (rules : List NoIndexRule) (u : Upload) (b : Bool)
      → is_excluded rules u.source_id none ≡ b
      → Triple
          (IsClean ports rules)
          (upload_unless ports b u rules)
          (λ _. IsClean ports rules)
          (IsClean ports rules)
  unfolding upload_unless
  Triple-upload_unless rules u true h = Triple-raise _ (λ t q. q)
  Triple-upload_unless rules u false h =
      Triple-bind _ _ (Triple-gets {Q = λ _. IsClean ports rules} _ (λ t q. q))
        (λ previous. Triple-admit rules u h previous)

  pub Triple-execute :
      (rules : List NoIndexRule) (u : Upload)
      → Triple
          (IsClean ports rules)
          (execute ports u)
          (λ _. IsClean ports rules)
          (IsClean ports rules)
  unfolding execute
  Triple-execute rules u =
      Triple-bind _ _
        (Triple-gets {Q = λ r t. (r ≡ rules) × IsClean ports rules t} _ (λ t q. (q.0, q)))
        (λ read. record {
          at = λ t q.
              subst
                (λ r.
                  Outcome (λ _. IsClean ports rules) (IsClean ports rules)
                    (upload_unless ports (is_excluded r u.source_id none) u r t).0
                    (upload_unless ports (is_excluded r u.source_id none) u r t).1)
                (sym q.0) ((Triple-upload_unless rules u _ refl).at t q.1);
        })

  -- If no chunk in the vector index is excluded by a rule, then none is after an upload either,
  -- however it ends, and the rules are as they were. Whatever a call of a store does, it adds only
  -- chunks that it was given, and no other port changes what is in the vector index.
  pub execute-IsPermitted :
      (u : Upload) (s : Archive I)
      → All (IsPermitted s.rules) (ports.vectors.contents s.indexes)
      → let t = (execute ports u s).1 in
        (t.rules ≡ s.rules) × All (IsPermitted s.rules) (ports.vectors.contents t.indexes)
  execute-IsPermitted u s h =
      Outcome-state (IsClean ports s.rules) (execute ports u s).0 (execute ports u s).1
        ((Triple-execute s.rules u).at s (refl, h))
