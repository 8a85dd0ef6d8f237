-- ===== src/Retrieval/Audiences.antt =====
-- What a search of either store may return: only chunks of an allowed audience, whose last day of
-- validity is not over.
use mathlib.Core.Path.{subst}
use bank_rag_bot.Prelude.{
  ℕ, suc, String, true, ◌==◌, ◌/◌, ◌≤◌, ◌≡◌, refl, ap, Option, none, some, List, [], ◌∷◌, map, any,
  length, arith, eq_iff, All, Elem,
}
use bank_rag_bot.Prelude.Exec.{
  Result, ok, raised, ◌>>=◌, Exec, bind_result-ok, ok-inj, lift, proceed,
}
use bank_rag_bot.Domain.{Audience, public, internal, Chunk}
use bank_rag_bot.Documents.{audience_value, audience_of}
use bank_rag_bot.Retrieval.Payload.{Point, to_chunk, expiry_of}
use bank_rag_bot.Retrieval.Filters.{Condition, satisfies_all, search_filter}
use bank_rag_bot.Retrieval.Qdrant
use bank_rag_bot.Retrieval.Qdrant.{read_point, read_points, chunk_for}
use bank_rag_bot.Retrieval.OpenSearch

audience_of_sound :
    (value : String) (a : Audience) → audience_of value ≡ some a → value ≡ audience_value a
audience_of_sound value public h = ground (arith, eq_iff value "public", eq_iff value "internal")
audience_of_sound value internal h = ground (arith, eq_iff value "public", eq_iff value "internal")

audience_value-inj : (a b : Audience) → audience_value a ≡ audience_value b → a ≡ b
audience_value-inj public public h = refl
audience_value-inj public internal h = absurd (ground (arith, eq_iff "public" "internal"))
audience_value-inj internal public h = absurd (ground (arith, eq_iff "internal" "public"))
audience_value-inj internal internal h = refl

any-Elem :
    (a : Audience) (value : String) (audiences : List Audience)
    → value ≡ audience_value a
    → any (λ v. value == v) (map audience_value audiences) ≡ true
    → Elem a audiences
any-Elem a value [] e h = absurd (ground arith)
any-Elem a value (b ∷ bs) e h =
    ground (arith, eq_iff value (audience_value b), audience_value-inj a b, any-Elem a value bs e)

-- A chunk whose stored expiry is not before the moment `now` has a last day that is not over.
expiry-late :
    (now ts day : ℕ) → now / 1000000 ≤ ts → expiry_of ts ≡ some day → now / 1000000 / 86400 ≤ day
unfolding expiry_of
expiry-late now ts day h e = ground arith

module _ {Vector : Type 0} (allowed : List Audience) (now : ℕ) where
  -- of an allowed audience, and of a last day that is not before the day of `now`
  abbrev pub IsServable : Chunk Vector → Type 0
  IsServable c =
      Elem c.metadata.audience allowed
      × ((day : ℕ) → c.metadata.valid_until ≡ some day → now / 1000000 / 86400 ≤ day)

  abbrev IsFound : Point Vector → Type 0
  IsFound p = satisfies_all (search_filter allowed (now / 1000000)) p.payload ≡ true

  found-audience :
      (p : Point Vector)
      → IsFound p
      → (any (λ v. p.payload.audience == v) (map audience_value allowed) ≡ true)
        × (now / 1000000 ≤ p.payload.valid_until_ts)
  unfolding satisfies_all search_filter
  found-audience p h = ground arith

  chunk_for-IsServable :
      (p : Point Vector) (o : Option Audience) (c : Chunk Vector)
      → IsFound p
      → audience_of p.payload.audience ≡ o
      → chunk_for now p o ≡ ok c
      → IsServable c
  unfolding chunk_for to_chunk
  chunk_for-IsServable p none c h e r = absurd (ground arith)
  chunk_for-IsServable p (some a) c h e r =
      let (named, late) = found-audience p h in
      subst IsServable (ok-inj _ _ r) (
        any-Elem a p.payload.audience allowed (audience_of_sound _ a e) named,
        λ day k. expiry-late now p.payload.valid_until_ts day late k,
      )

  pub read_points-IsServable :
      (ps : List (Point Vector)) (cs : List (Chunk Vector))
      → All IsFound ps
      → read_points now ps ≡ ok cs
      → All IsServable cs × (length cs ≡ length ps)
  unfolding read_points read_point
  read_points-IsServable [] cs h e =
      subst (λ x. All IsServable x × (length x ≡ 0)) (ok-inj _ _ e) (tt, refl)
  read_points-IsServable (p ∷ ps) cs (h, hs) e =
      let (c, first, rest) = bind_result-ok (read_point now p) _ cs e in
      let (ds, others, whole) = bind_result-ok (read_points now ps) _ cs rest in
      let (good, same) = read_points-IsServable ps ds hs others in
      subst (λ x. All IsServable x × (length x ≡ length (p ∷ ps))) (ok-inj _ _ whole)
        ((chunk_for-IsServable p _ c h refl first, good), ap suc same)

-- What Qdrant promises of `query_points`: the points satisfy the filter, and are no more than the
-- limit.
pub record QdrantAnswers {Vector Score S : Type 0} (client : Qdrant.Client Vector Score S)
    : Type 0 where
  pub answers :
      (query : Vector) (limit : ℕ) (threshold : Option Score) (conditions : List Condition) (s : S)
      (ps : List (Point Vector))
      → (client.query_points query limit threshold conditions s).0 ≡ ok ps
      → All (λ p. satisfies_all conditions p.payload ≡ true) ps × (length ps ≤ limit)

-- What OpenSearch promises of `search`, in the same way.
pub record OpenSearchAnswers {Vector S : Type 0} (client : OpenSearch.Client Vector S)
    : Type 0 where
  pub answers :
      (text : Option String) (conditions : List Condition) (size : ℕ) (s : S)
      (ps : List (Point Vector))
      → (client.search text conditions size s).0 ≡ ok ps
      → All (λ p. satisfies_all conditions p.payload ≡ true) ps × (length ps ≤ size)

module _ {S A B : Type 0} (f : A → Result B) (b : B) where
  proceeded :
      (r : Result A) (t : S)
      → (proceed r (λ a. lift (f a)) t).0 ≡ ok b
      → (a : A) × (r ≡ ok a) × (f a ≡ ok b)
  unfolding lift
  proceeded (ok a) t k = (a, refl, k)
  proceeded (raised e) t k = absurd (ground arith)

  -- a call, and a fallible reading of what it returned
  lifted :
      (m : Exec S A) (s : S)
      → ((m >>= (λ a. lift (f a))) s).0 ≡ ok b
      → (a : A) × ((m s).0 ≡ ok a) × (f a ≡ ok b)
  unfolding ◌>>=◌
  lifted m s h = proceeded (m s).0 (m s).1 h

-- If Qdrant answers as it promises, a search of the vector store that returns gives at most
-- `top_k` chunks, each of an allowed audience and each with no last day or with one that is
-- not over.
pub qdrant-IsServable :
    {Vector Score S : Type 0} (client : Qdrant.Client Vector Score S)
    → QdrantAnswers client
    → (query : Vector) (top_k : ℕ) (allowed : List Audience) (threshold : Option Score) (s : S)
      (cs : List (Chunk Vector))
    → (Qdrant.search client query top_k allowed threshold s).0 ≡ ok cs
    → All (IsServable allowed (client.now s)) cs × (length cs ≤ top_k)
unfolding Qdrant.search
qdrant-IsServable client law query top_k allowed threshold s cs h =
    let (ps, asked, given) = lifted (read_points (client.now s)) cs _ s h in
    let (found, few) = law.answers query top_k threshold _ s ps asked in
    let (good, same) = read_points-IsServable allowed (client.now s) ps cs found given in
    (good, omega (arith, same, few))

-- The same of the keyword index, if OpenSearch answers as it promises.
pub opensearch-IsServable :
    {Vector S : Type 0} (client : OpenSearch.Client Vector S)
    → OpenSearchAnswers client
    → (text : String) (top_k : ℕ) (allowed : List Audience) (s : S) (cs : List (Chunk Vector))
    → (OpenSearch.search client text top_k allowed s).0 ≡ ok cs
    → All (IsServable allowed (client.now s)) cs × (length cs ≤ top_k)
unfolding OpenSearch.search
opensearch-IsServable client law text top_k allowed s cs h =
    let (ps, asked, given) = lifted (read_points (client.now s)) cs _ s h in
    let (found, few) = law.answers (some text) _ top_k s ps asked in
    let (good, same) = read_points-IsServable allowed (client.now s) ps cs found given in
    (good, omega (arith, same, few))
