-- ===== src/Ingestion/Current.antt =====
-- What an upload leaves in the vector index: only current versions, and no excluded segment.
use mathlib.Core.Path.{subst}
use bank_rag_bot.Prelude.{
  ℕ, zero, suc, Bool, true, false, ◌<◌, ◌≡◌, ◌≢◌, ◌⊎◌, inl, inr, refl, sym, ap, ◌∙◌, arith, eq_iff,
  none, some, List, [], ◌∷◌, map, All, All-weaken, Elem-keep, Elem-All, All-at,
}
use bank_rag_bot.Prelude.Exec.{Exec, ok, ◌>>=◌}
use bank_rag_bot.Prelude.Triple.{
  Triple, Triple-returned, Triple-pure, Triple-bind, Triple-modify, Outcome, Outcome-ok,
  Triple-after,
}
use bank_rag_bot.Domain.{Chunk, DocumentMetadata, NoIndexRule}
use bank_rag_bot.Documents.{
  DocumentMetadataRow, save_metadata, get_latest_version, get_latest_version-save_metadata,
  get_latest_version-save_metadata_other,
}
use bank_rag_bot.Indexes.{IsIndex}
use bank_rag_bot.Retrieval.Payload.{Payload, payload_of, locator_of}
use bank_rag_bot.NoIndex.Registry.{is_excluded}
use bank_rag_bot.NoIndex.Manage.{Archive, in_indexes}
use bank_rag_bot.NoIndex.Manage.Frame.{Triple-in_indexes}
use bank_rag_bot.Ingestion.Quiet.{
  IsQuiet, All-map, split_segments-All, included-All, Holds, Triple-quiet, Triple-embed,
  Triple-calling, Triple-chunks_of,
}
use bank_rag_bot.Ingestion.{
  Upload, Ports, new_metadata, delete_previous, insert_all, replace, admit, upload_unless, execute,
}

-- Every chunk is of the latest version of its document.
abbrev pub IsCurrent : List DocumentMetadataRow → List Payload → Type 0
IsCurrent rows = All (λ p. (p.version ≡ get_latest_version p.document_id rows) × (0 < p.version))

module _ {Vector I : Type 0} (ports : Ports Vector I) (law : IsIndex ports.vectors)
    (quiet : IsQuiet ports) where
  -- what a failure leaves is not said
  abbrev Quietly : I → Type 0
  Quietly s = Unit

  module _ (rows : List DocumentMetadataRow) (rules : List NoIndexRule) (u : Upload) where
    -- a chunk of another document, of its latest version
    abbrev IsOld : Payload → Type 0
    IsOld c =
        (c.document_id ≢ u.source_id)
        × (c.version ≡ get_latest_version c.document_id rows)
        × (0 < c.version)

    abbrev IsNew : DocumentMetadata → Payload → Type 0
    IsNew m c =
        (c.document_id ≡ m.source_id)
        × (c.version ≡ m.version)
        × (is_excluded rules u.source_id (some (locator_of c)) ≡ false)

    abbrev IsNewChunk : DocumentMetadata → Chunk Vector → Type 0
    IsNewChunk m c =
        (c.document_id ≡ m.source_id)
        × (c.metadata ≡ m)
        × (is_excluded rules u.source_id (some c.locator) ≡ false)

    IsNew-payload_of :
        (m : DocumentMetadata) (c : Chunk Vector) → IsNewChunk m c → IsNew m (payload_of c)
    unfolding payload_of
    IsNew-payload_of m c (d, e, f) = (d, ap (λ x. x.version) e, f)

    abbrev IsMine : DocumentMetadata → Type 0
    IsMine m = (m.source_id ≡ u.source_id) × (m.version ≡ suc (get_latest_version u.source_id rows))

    Triple-delete_previous :
        (previous : ℕ)
        → previous ≡ get_latest_version u.source_id rows
        → Triple
            (λ s. IsCurrent rows (ports.vectors.contents s))
            (delete_previous ports previous u.source_id)
            (λ _. Holds ports IsOld)
            (λ (x : I). Unit {0})
    unfolding delete_previous
    Triple-delete_previous zero h = Triple-pure tt (λ s current.
        All-weaken _ IsOld
          (λ c p. (
            λ same. ground (arith, p.0, p.1, h, ap (λ d. get_latest_version d rows) same),
            p.0,
            p.1,
          ))
          _ current)
    Triple-delete_previous (suc n) h =
        Triple-bind {Q = λ _. Holds ports IsOld} _ _
          (Triple-returned _ (λ s a current e.
            subst (All IsOld) (sym (law.deleted u.source_id s e)) (
              Elem-All IsOld _ (λ c member.
                let (inside, kept) = Elem-keep _ c (ports.vectors.contents s) member in
                let at : (c.version ≡ get_latest_version c.document_id rows) × (0 < c.version) =
                  All-at _ (ports.vectors.contents s) c current inside in
                (λ same. ground (arith, eq_iff c.document_id u.source_id), at.0, at.1)))))
          (λ _.
            Triple-quiet ports quiet IsOld {E = Quietly} (λ s h. tt) _
              (quiet.after_keywords_delete u.source_id))

    Triple-insert_all :
        (m : DocumentMetadata) (chunks : List (Chunk Vector))
        → Triple
            (λ s. All (IsNewChunk m) chunks × Holds ports IsOld s)
            (insert_all ports chunks)
            (λ _. Holds ports (λ c. IsNew m c ⊎ IsOld c))
            (λ (x : I). Unit {0})
    unfolding insert_all
    Triple-insert_all m [] = Triple-pure tt (λ s h.
        All-weaken IsOld (λ c. IsNew m c ⊎ IsOld c) (λ c old. inr old) (ports.vectors.contents s)
          h.1)
    Triple-insert_all m (c ∷ cs) =
        Triple-bind {Q = λ _. Holds ports (λ c. IsNew m c ⊎ IsOld c)} _ _
          (Triple-returned {P = λ s. All (IsNewChunk m) (c ∷ cs) × Holds ports IsOld s} _
            (λ s a h e.
              Elem-All (λ c. IsNew m c ⊎ IsOld c) (ports.vectors.contents _)
                (λ d member. elim (law.inserted (c ∷ cs) s d e member) [
                  | inl given ↦ inl (
                      All-at (IsNew m) (map payload_of (c ∷ cs)) d
                        (All-map (IsNew m) payload_of (c ∷ cs)
                          (All-weaken (IsNewChunk m) _ (IsNew-payload_of m) (c ∷ cs) h.0))
                        given)
                  | inr there ↦ inr (All-at IsOld (ports.vectors.contents s) d h.1 there)
                ])))
          (λ _.
            Triple-quiet ports quiet _ {E = Quietly} (λ s h. tt) _
              (quiet.after_keywords_insert (c ∷ cs)))

    Triple-replace :
        (previous : ℕ)
        → previous ≡ get_latest_version u.source_id rows
        → Triple
            (λ s. IsCurrent rows (ports.vectors.contents s))
            (replace ports u rules previous)
            (λ r s. IsMine r.0 × Holds ports (λ c. IsNew r.0 c ⊎ IsOld c) s)
            (λ (x : I). Unit {0})
    unfolding replace new_metadata
    Triple-replace previous h = Triple-bind _ _ (Triple-delete_previous previous h) (λ _.
        Triple-bind _ _
          (Triple-calling ports quiet IsOld {E = Quietly} (λ s h. tt) ports.now quiet.after_now)
          (λ now.
            Triple-bind _ _ (Triple-embed ports quiet IsOld {E = Quietly} (λ s h. tt) _) (λ vs.
              Triple-bind _ _
                (Triple-chunks_of ports quiet IsOld {E = Quietly} (λ s h. tt) _
                  (λ l. is_excluded rules u.source_id (some l) ≡ false) _ vs
                  (split_segments-All _ _ _ _ (included-All _ rules u.source_id u.segments)))
                (λ chunks.
                  Triple-bind _ _ (Triple-insert_all (new_metadata u previous now) chunks)
                    (λ _. Triple-pure _ (λ s q. ((refl, ap suc h), q)))))))

    -- what holds after an upload that returns
    abbrev Uploaded : List DocumentMetadataRow → List Payload → Type 0
    Uploaded after chunks =
        (get_latest_version u.source_id after ≡ suc (get_latest_version u.source_id rows))
        × IsCurrent after chunks
        × All
            (λ c.
              c.document_id ≡ u.source_id
              → is_excluded rules u.source_id (some (locator_of c)) ≡ false)
            chunks

    saved_version :
        (m : DocumentMetadata) (c : Payload)
        → IsMine m
        → IsNew m c ⊎ IsOld c
        → (c.version ≡ get_latest_version c.document_id (save_metadata m rows)) × (0 < c.version)
    saved_version m c mine (inl (d, e, f)) =
        let same : c.version ≡ m.version = e in
        (
          same
              ∙ sym (
                  ap (λ x. get_latest_version x (save_metadata m rows)) d
                  ∙ get_latest_version-save_metadata m rows),
          omega (arith, same, mine.1),
        )
    saved_version m c mine (inr (d, e, f)) = (
      e
          ∙ sym (
              get_latest_version-save_metadata_other m c.document_id rows
                (λ same. d (same ∙ mine.0))),
      f,
    )

    saved_locator :
        (m : DocumentMetadata) (c : Payload)
        → IsNew m c ⊎ IsOld c
        → c.document_id ≡ u.source_id
        → is_excluded rules u.source_id (some (locator_of c)) ≡ false
    saved_locator m c (inl n) same = n.2
    saved_locator m c (inr o) same = absurd (o.0 same)

    saved :
        (m : DocumentMetadata) (chunks : List Payload)
        → IsMine m
        → All (λ c. IsNew m c ⊎ IsOld c) chunks
        → Uploaded (save_metadata m rows) chunks
    saved m chunks mine h = (
      sym (ap (λ x. get_latest_version x (save_metadata m rows)) mine.0)
          ∙ get_latest_version-save_metadata m rows
          ∙ mine.1,
      All-weaken _ _ (λ c k. saved_version m c mine k) chunks h,
      All-weaken _ _ (λ c k. saved_locator m c k) chunks h,
    )

    in_tables :
        {A : Type 0} {P : I → Type 0} {Q : A → I → Type 0} {m : Exec I A}
        → Triple P m Q (λ (x : I). Unit {0})
        → Triple
            (λ (t : Archive I). (t.documents ≡ rows) × P t.indexes)
            (in_indexes m)
            (λ a t. (t.documents ≡ rows) × Q a t.indexes)
            (λ (x : Archive I). Unit {0})
    in_tables {Q = Q} {m = m} h =
        Triple-after _ _ _ (λ a t q. q) (λ t q. tt)
          (Triple-in_indexes (λ r d. d ≡ rows) Q (λ (x : I). Unit {0}) m h)

    Triple-admit :
        Triple
          (λ t. (t.documents ≡ rows) × IsCurrent rows (ports.vectors.contents t.indexes))
          (admit ports u rules (get_latest_version u.source_id rows))
          (λ n t. Uploaded t.documents (ports.vectors.contents t.indexes))
          (λ (x : Archive I). Unit {0})
    unfolding admit
    Triple-admit = Triple-bind _ _ (in_tables (Triple-replace _ refl)) (λ done.
        Triple-bind {Q = λ _ t. Uploaded t.documents (ports.vectors.contents t.indexes)} _ _
          (Triple-modify _ (λ t q.
            subst (λ d. Uploaded (save_metadata done.0 d) (ports.vectors.contents t.indexes))
              (sym q.0) (saved done.0 _ q.1.0 q.1.1)))
          (λ _. Triple-pure done.1 (λ t q. q)))

  upload_unless-Uploaded :
      (b : Bool) (u : Upload) (s : Archive I)
      → IsCurrent s.documents (ports.vectors.contents s.indexes)
      → Outcome
          (λ n t. Uploaded s.documents s.rules u t.documents (ports.vectors.contents t.indexes))
          (λ (x : Archive I). Unit {0})
          (upload_unless ports b u s.rules s).0
          (upload_unless ports b u s.rules s).1
  unfolding upload_unless ◌>>=◌
  upload_unless-Uploaded true u s current = tt
  upload_unless-Uploaded false u s current =
      (Triple-admit s.documents s.rules u).at s (refl, current)

  -- If the vector index has only chunks of the latest versions of their documents, then an upload
  -- that returns makes the document's version one more than it was, leaves only chunks of the
  -- latest versions, and none of the document from a segment that a rule excludes. The indexes
  -- do what `IsIndex` says, and no other port changes what is in the vector index.
  pub execute-Uploaded :
      (u : Upload) (s : Archive I) (n : ℕ)
      → IsCurrent s.documents (ports.vectors.contents s.indexes)
      → (execute ports u s).0 ≡ ok n
      → Uploaded s.documents s.rules u
          (execute ports u s).1.documents
          (ports.vectors.contents (execute ports u s).1.indexes)
  unfolding execute ◌>>=◌
  execute-Uploaded u s n current h =
      Outcome-ok
        (λ n t. Uploaded s.documents s.rules u t.documents (ports.vectors.contents t.indexes))
        (λ (x : Archive I). Unit {0}) _ _ n h
        (upload_unless-Uploaded (is_excluded s.rules u.source_id none) u s current)
