-- ===== src/AccountTools/Wiring.antt =====
-- Which tools a request is given.
use bank_rag_bot.Prelude.{
  String, Bool, true, false, ◌≡◌, ◌≢◌, refl, ap, inl, inr, ◌==◌, Option, none, some, List, [], ◌∷◌,
  arith, eq_iff, Elem, Bool-cases,
}
use bank_rag_bot.Prelude.Exec.{Error}
use bank_rag_bot.Domain.{Audience}
use bank_rag_bot.Python.{Python}
use bank_rag_bot.Agents.Tool.{Tool}
use bank_rag_bot.AccountTools.{Branch, BankApi, build_tools, branch_locator_tool}

module _ {W : Type 0} where
  free_tool :
      (t s : Tool W)
      → t ≡ s
      → s.requires_authentication ≡ false
      → t.requires_authentication ≡ true
      → ⊥
  free_tool t s e free needs = ground (arith, ap (λ x. x.requires_authentication) e)

  two_free :
      (t first second : Tool W)
      → first.requires_authentication ≡ false
      → second.requires_authentication ≡ false
      → Elem t (first ∷ second ∷ [])
      → t.requires_authentication ≡ true
      → ⊥
  two_free t first second f s (inl e) needs = free_tool t first e f needs
  two_free t first second f s (inr (inl e)) needs = free_tool t second e s needs
  two_free t first second f s (inr (inr m)) needs = m

module _ {W : Type 0} (py : Python) (explain : Error → String) where
  -- If the search tool needs no authentication, a request is given a tool that does only when the
  -- request is authenticated and names a customer that is not the empty text.
  pub build_tools-authenticated :
      (search_tool : List Audience → Tool W) (branches : List Branch) (api : BankApi W)
      (is_authenticated : Bool) (customer_id : Option String) (t : Tool W)
      → ((allowed : List Audience) → (search_tool allowed).requires_authentication ≡ false)
      → Elem t (build_tools py explain search_tool branches api is_authenticated customer_id)
      → t.requires_authentication ≡ true
      → (is_authenticated ≡ true) × ((c : String) × (customer_id ≡ some c) × (c ≢ ""))
  unfolding build_tools
  build_tools-authenticated search_tool branches api is_authenticated none t free m needs =
      absurd (two_free t _ (branch_locator_tool py explain branches) (free _) refl m needs)
  build_tools-authenticated search_tool branches api false (some c) t free m needs =
      absurd (two_free t _ (branch_locator_tool py explain branches) (free _) refl m needs)
  build_tools-authenticated search_tool branches api true (some c) t free m needs =
      elim (Bool-cases (c == "")) [
        | inl empty ↦ absurd (
            two_free t _ (branch_locator_tool py explain branches) (free _) refl (rw (empty) at m)
              needs)
        | inr full ↦ (refl, (c, refl, λ e. ground (arith, eq_iff c "")))
      ]
