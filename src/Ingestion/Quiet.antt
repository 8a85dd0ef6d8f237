-- ===== src/Ingestion/Quiet.antt =====
-- What an upload does besides the inserts and the deletes: the chunks that it makes, and the calls
-- that leave the vector index alone.
use mathlib.Core.List.{flat_map}
use mathlib.Core.Path.{subst}
use bank_rag_bot.Prelude.{
  String, false, ◌≡◌, refl, sym, arith, some, List, [], ◌∷◌, map, All, All-append, Elem-keep,
  Elem-All,
}
use bank_rag_bot.Prelude.Exec.{calling, Exec}
use bank_rag_bot.Prelude.Triple.{Triple, Triple-pure, Triple-bind, Triple-kept, Triple-after}
use bank_rag_bot.Domain.{Chunk, ChunkLocator, DocumentMetadata, DocumentSegment, NoIndexRule}
use bank_rag_bot.Retrieval.Payload.{Payload}
use bank_rag_bot.NoIndex.Registry.{is_excluded}
use bank_rag_bot.Ingestion.Chunker.{SemanticChunker, split, split_segments, with_context}
use bank_rag_bot.Ingestion.{Ports, included_segments, chunks_of, embed}

-- A property of every locator of the segments is one of every chunk's.
module _ (ch : SemanticChunker) (title : String) (P : ChunkLocator → Type 0) where
  tagged :
      (l : ChunkLocator) (texts : List String)
      → P l
      → All (λ (p : String × ChunkLocator). P p.1) (map (λ t. (with_context t title l, l)) texts)
  tagged l [] h = tt
  tagged l (t ∷ ts) h = (h, tagged l ts h)

  pub split_segments-All :
      (segments : List DocumentSegment)
      → All (λ s. P s.locator) segments
      → All (λ (p : String × ChunkLocator). P p.1) (split_segments ch segments title)
  unfolding split_segments flat_map
  split_segments-All [] h = tt
  split_segments-All (s ∷ ss) (h, hs) =
      All-append _ _ _ (tagged s.locator (split ch s.text) h) (split_segments-All ss hs)

pub All-map :
    {A B : Type 0} (P : B → Type 0) (f : A → B) (xs : List A)
    → All (λ x. P (f x)) xs
    → All P (map f xs)
All-map P f [] h = tt
All-map P f (x ∷ xs) (h, hs) = (h, All-map P f xs hs)

pub included-All :
    (sanitize : String → String) (rules : List NoIndexRule) (source_id : String)
    (segments : List DocumentSegment)
    → All
        (λ s. is_excluded rules source_id (some s.locator) ≡ false)
        (included_segments sanitize rules source_id segments)
unfolding included_segments
included-All sanitize rules source_id segments =
    All-map _ _ _
      (Elem-All _ _ (λ s e. let (inside, kept) = Elem-keep _ s segments e in ground arith))

-- Only inserts and deletes of the vector index change what is in it.
pub record IsQuiet {Vector I : Type 0} (ports : Ports Vector I) : Type 0 where
  pub after_keywords_insert :
      (chunks : List (Chunk Vector)) (s : I)
      → ports.vectors.contents (ports.keywords.insert chunks s).1 ≡ ports.vectors.contents s
  pub after_keywords_delete :
      (document : String) (s : I)
      → ports.vectors.contents (ports.keywords.delete_by_document document s).1
        ≡ ports.vectors.contents s
  pub after_embed :
      (texts : List String) (s : I)
      → ports.vectors.contents (ports.embed_documents texts s).1 ≡ ports.vectors.contents s
  pub after_now : (s : I) → ports.vectors.contents (ports.now s).1 ≡ ports.vectors.contents s
  pub after_uuid4 : (s : I) → ports.vectors.contents (ports.uuid4 s).1 ≡ ports.vectors.contents s

-- every payload in the vector index
abbrev pub Holds : {Vector I : Type 0} → Ports Vector I → (Payload → Type 0) → I → Type 0
Holds ports P s = All P (ports.vectors.contents s)

module _ {Vector I : Type 0} (ports : Ports Vector I) (quiet : IsQuiet ports) where
  module _ (P : Payload → Type 0) {E : I → Type 0}
      (left : (s : I) → All P (ports.vectors.contents s) → E s) where
    pub Triple-quiet :
        {A : Type 0} (m : Exec I A)
        → ((s : I) → ports.vectors.contents (m s).1 ≡ ports.vectors.contents s)
        → Triple (Holds ports P) m (λ _. Holds ports P) E
    Triple-quiet m h =
        Triple-after _ _ m (λ a s p. p) left
          (Triple-kept (Holds ports P) m (λ s p. subst (All P) (sym (h s)) p))

    pub Triple-embed :
        (pairs : List (String × ChunkLocator))
        → Triple (Holds ports P) (embed ports pairs) (λ _. Holds ports P) E
    unfolding embed
    Triple-embed [] = Triple-pure [] (λ s h. h)
    Triple-embed (p ∷ ps) = Triple-quiet _ (quiet.after_embed _)

    pub Triple-calling :
        {A : Type 0} (f : I → A × I)
        → ((s : I) → ports.vectors.contents (f s).1 ≡ ports.vectors.contents s)
        → Triple (Holds ports P) (calling f) (λ _. Holds ports P) E
    unfolding calling
    Triple-calling f h = Triple-quiet _ h

    pub Triple-chunks_of :
        (metadata : DocumentMetadata) (L : ChunkLocator → Type 0)
        (pairs : List (String × ChunkLocator)) (vs : List Vector)
        → All (λ (p : String × ChunkLocator). L p.1) pairs
        → Triple
            (Holds ports P)
            (chunks_of ports metadata pairs vs)
            (λ cs s.
              All
                (λ c. (c.document_id ≡ metadata.source_id) × (c.metadata ≡ metadata) × L c.locator)
                cs
              × Holds ports P s)
            E
    unfolding chunks_of
    Triple-chunks_of metadata L [] vs hs = Triple-pure [] (λ s h. (tt, h))
    Triple-chunks_of metadata L (p ∷ ps) [] hs = Triple-pure [] (λ s h. (tt, h))
    Triple-chunks_of metadata L (p ∷ ps) (v ∷ vs) (h, hs) =
        Triple-bind _ _ (Triple-calling ports.uuid4 quiet.after_uuid4) (λ id.
          Triple-bind _ _ (Triple-chunks_of metadata L ps vs hs)
            (λ rest. Triple-pure _ (λ s q. (((refl, refl, h), q.0), q.1))))
