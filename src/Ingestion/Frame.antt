-- ===== src/Ingestion/Frame.antt =====
-- What every call of a port keeps, an upload keeps, however it ends, and the rules too.
use bank_rag_bot.Prelude.{◌≡◌, ℕ, zero, suc, String, Bool, true, false, none, List, [], ◌∷◌}
use bank_rag_bot.Prelude.Exec.{Exec, calling}
use bank_rag_bot.Prelude.Triple.{
  Triple, Triple-pure, Triple-raise, Triple-gets, Triple-modify, Triple-bind, Triple-kept,
}
use bank_rag_bot.Domain.{Chunk, ChunkLocator, DocumentMetadata, NoIndexRule}
use bank_rag_bot.NoIndex.Registry.{is_excluded}
use bank_rag_bot.NoIndex.Manage.{Archive}
use bank_rag_bot.NoIndex.Manage.Frame.{Triple-in_indexes}
use bank_rag_bot.Ingestion.{
  Ports, Upload, chunks_of, delete_previous, embed, insert_all, replace, admit, upload_unless,
  execute,
}

-- The call keeps `P`, however it ends.
abbrev pub Keeps : {I A : Type 0} → (I → Type 0) → (I → A × I) → Type 0
Keeps {I = I} P m = (s : I) → P s → P (m s).1

pub record KeptByPorts {Vector I : Type 0} (P : I → Type 0) (ports : Ports Vector I) : Type 0 where
  pub vectors_insert : (chunks : List (Chunk Vector)) → Keeps P (ports.vectors.insert chunks)
  pub vectors_delete : (document : String) → Keeps P (ports.vectors.delete_by_document document)
  pub keywords_insert : (chunks : List (Chunk Vector)) → Keeps P (ports.keywords.insert chunks)
  pub keywords_delete : (document : String) → Keeps P (ports.keywords.delete_by_document document)
  pub embedding : (texts : List String) → Keeps P (ports.embed_documents texts)
  pub clock : Keeps P ports.now
  pub fresh_id : Keeps P ports.uuid4

module _ {Vector I : Type 0} (ports : Ports Vector I) (P : I → Type 0)
    (kept : KeptByPorts P ports) where
  -- `m` keeps `P`, however it ends
  abbrev Framed : {A : Type 0} → Exec I A → Type 0
  Framed m = Triple P m (λ _. P) P

  Framed-calling : {A : Type 0} (f : I → A × I) → Keeps P f → Framed (calling f)
  unfolding calling
  Framed-calling f h = Triple-kept P _ h

  Framed-delete_previous :
      (previous : ℕ) (source_id : String) → Framed (delete_previous ports previous source_id)
  unfolding delete_previous
  Framed-delete_previous zero source_id = Triple-pure tt (λ s h. h)
  Framed-delete_previous (suc n) source_id =
      Triple-bind {Q = λ _. P} _ _ (Triple-kept P _ (kept.vectors_delete source_id))
        (λ _. Triple-kept P _ (kept.keywords_delete source_id))

  Framed-embed : (pairs : List (String × ChunkLocator)) → Framed (embed ports pairs)
  unfolding embed
  Framed-embed [] = Triple-pure [] (λ s h. h)
  Framed-embed (p ∷ ps) = Triple-kept P _ (kept.embedding _)

  Framed-chunks_of :
      (metadata : DocumentMetadata) (pairs : List (String × ChunkLocator)) (vs : List Vector)
      → Framed (chunks_of ports metadata pairs vs)
  unfolding chunks_of
  Framed-chunks_of metadata [] vs = Triple-pure [] (λ s h. h)
  Framed-chunks_of metadata (p ∷ ps) [] = Triple-pure [] (λ s h. h)
  Framed-chunks_of metadata (p ∷ ps) (v ∷ vs) =
      Triple-bind {Q = λ _. P} _ _ (Framed-calling ports.uuid4 kept.fresh_id) (λ id.
        Triple-bind {Q = λ _. P} _ _ (Framed-chunks_of metadata ps vs)
          (λ rest. Triple-pure _ (λ s h. h)))

  Framed-insert_all : (chunks : List (Chunk Vector)) → Framed (insert_all ports chunks)
  unfolding insert_all
  Framed-insert_all [] = Triple-pure tt (λ s h. h)
  Framed-insert_all (c ∷ cs) =
      Triple-bind {Q = λ _. P} _ _ (Triple-kept P _ (kept.vectors_insert (c ∷ cs)))
        (λ _. Triple-kept P _ (kept.keywords_insert (c ∷ cs)))

  Framed-replace :
      (u : Upload) (rules : List NoIndexRule) (previous : ℕ)
      → Framed (replace ports u rules previous)
  unfolding replace
  Framed-replace u rules previous =
      Triple-bind {Q = λ _. P} _ _ (Framed-delete_previous previous u.source_id) (λ _.
        Triple-bind {Q = λ _. P} _ _ (Framed-calling ports.now kept.clock) (λ now.
          Triple-bind {Q = λ _. P} _ _ (Framed-embed _) (λ vs.
            Triple-bind {Q = λ _. P} _ _ (Framed-chunks_of _ _ vs) (λ chunks.
              Triple-bind {Q = λ _. P} _ _ (Framed-insert_all chunks)
                (λ _. Triple-pure _ (λ s h. h))))))

  module _ (table : List NoIndexRule) where
    -- the rules that are in force, and `P` of the state behind the two tables
    abbrev Inside : Archive I → Type 0
    Inside t = (t.rules ≡ table) × P t.indexes

    Framed-upload_unless :
        (b : Bool) (u : Upload) (rules : List NoIndexRule)
        → Triple Inside (upload_unless ports b u rules) (λ _. Inside) Inside
    unfolding upload_unless admit
    Framed-upload_unless true u rules = Triple-raise _ (λ t h. h)
    Framed-upload_unless false u rules =
        Triple-bind {Q = λ _. Inside} _ _ (Triple-gets _ (λ t h. h)) (λ previous.
          Triple-bind {Q = λ _. Inside} _ _
            (Triple-in_indexes (λ r d. r ≡ table) (λ _. P) P _ (Framed-replace u rules previous))
            (λ done.
              Triple-bind {Q = λ _. Inside} _ _ (Triple-modify _ (λ t h. h))
                (λ _. Triple-pure _ (λ t h. h))))

    pub Framed-execute : (u : Upload) → Triple Inside (execute ports u) (λ _. Inside) Inside
    unfolding execute
    Framed-execute u =
        Triple-bind {Q = λ _. Inside} _ _ (Triple-gets _ (λ t h. h))
          (λ rules. Framed-upload_unless (is_excluded rules u.source_id none) u rules)
