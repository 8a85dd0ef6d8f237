-- ===== src/Agents/Registry/Access.antt =====
-- What a lookup by name finds.
use bank_rag_bot.Prelude.{String, some, List, [], ◌∷◌, ◌≡◌, arith, eq_iff, Elem}
use bank_rag_bot.Agents.Tool.{Tool}
use bank_rag_bot.Agents.Registry.{get}

module _ {W : Type 0} where
  pub get_sound :
      (tools : List (Tool W)) (name : String) (t : Tool W)
      → get tools name ≡ some t
      → Elem t tools × (t.name ≡ name)
  unfolding get
  get_sound [] name t h = absurd (ground arith)
  get_sound (u ∷ us) name t h = ground (arith, eq_iff u.name name, get_sound us name t)
