-- ===== src/Adapters/Collection/Ensured.antt =====
-- The bootstrap may be run again.
use bank_rag_bot.Prelude.{
  ℕ, String, Bool, true, false, ◌≡◌, refl, sym, ap, ◌∙◌, arith, List, [], ◌∷◌,
}
use bank_rag_bot.Prelude.Exec.{ok, pure, ◌>>=◌, Result}
use bank_rag_bot.Prelude.Triple.{Triple, Triple-pure, Triple-bind, Triple-returned, Outcome-ok}
use bank_rag_bot.Adapters.Collection.{
  Admin, PayloadSchema, payload_indexes, ensure_collection, create_unless, create_indexes,
}

-- What Qdrant promises: asking for the collection changes nothing, a creation that returns makes
-- it, and an index does not take it away.
pub record AdminKeeps {W : Type 0} (admin : Admin W) : Type 0 where
  pub exists : W → Bool
  pub asked : (s : W) → admin.collection_exists s ≡ (ok (exists s), s)
  pub created :
      (size : ℕ) (s : W)
      → (admin.create_collection size s).0 ≡ ok tt
      → exists (admin.create_collection size s).1 ≡ true
  pub indexed :
      (name : String) (schema : PayloadSchema) (s : W)
      → exists s ≡ true
      → exists (admin.create_payload_index name schema s).1 ≡ true

module _ {W : Type 0} (admin : Admin W) (law : AdminKeeps admin) where
  Exists : W → Type 0
  Exists s = law.exists s ≡ true

  Triple-create_indexes :
      (fields : List (String × PayloadSchema))
      → Triple Exists (create_indexes admin fields) (λ _. Exists) (λ (s : W). Unit {0})
  unfolding create_indexes Exists
  Triple-create_indexes [] = Triple-pure tt (λ s e. e)
  Triple-create_indexes (f ∷ fs) =
      Triple-bind {Q = λ _. Exists} _ _ (Triple-returned _ (λ s a e r. law.indexed f.0 f.1 s e))
        (λ _. Triple-create_indexes fs)

  Triple-create_unless :
      (b : Bool)
      → Triple (λ s. law.exists s ≡ b) (create_unless admin b) (λ _. Exists) (λ (s : W). Unit {0})
  unfolding create_unless Exists
  Triple-create_unless true = Triple-pure tt (λ s e. e)
  Triple-create_unless false =
      Triple-bind {Q = λ _. Exists} _ _ (Triple-returned _ (λ s a e r. law.created _ s r))
        (λ _. Triple-create_indexes payload_indexes)

  ensured : (s : W) → ensure_collection admin s ≡ create_unless admin (law.exists s) s
  unfolding ensure_collection ◌>>=◌
  ensured s = rw (law.asked s) refl

  create_unless-exists : (s : W) (b : Bool) → b ≡ true → create_unless admin b s ≡ (ok tt, s)
  unfolding create_unless pure
  create_unless-exists s true e = refl
  create_unless-exists s false e = absurd (ground arith)

  -- A run of the bootstrap after one that returned returns too, and changes nothing, if Qdrant
  -- keeps what it made.
  pub ensure_collection-again :
      (s : W)
      → (ensure_collection admin s).0 ≡ ok tt
      → let t = (ensure_collection admin s).1 in ensure_collection admin t ≡ (ok tt, t)
  unfolding Exists
  ensure_collection-again s h =
      let same = ensured s in
      let there : law.exists (create_unless admin (law.exists s) s).1 ≡ true =
        Outcome-ok (λ (_ : Unit {0}) t. law.exists t ≡ true) (λ (t : W). Unit {0}) _ _ tt
          (ap (λ r. r.0) (sym same) ∙ h) ((Triple-create_unless (law.exists s)).at s refl) in
      let t = (ensure_collection admin s).1 in
      ensured t
      ∙ create_unless-exists t (law.exists t)
          (ap (λ (r : Result (Unit {0}) × W). law.exists r.1) same ∙ there)
