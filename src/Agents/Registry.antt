-- ===== src/Agents/Registry.antt =====
-- agents/tool_registry.py: the registry is the dict `{t.name: t for t in tools}`, an association
-- list in the dict's order. A later tool of the same name takes the earlier one's place.
pub mod Access
use bank_rag_bot.Prelude.{
  String, Bool, Option, none, some, List, [], ◌∷◌, ◌==◌, not, ◌||◌, if◌then◌else◌, keep,
}
use mathlib.Core.List.{foldl}
use bank_rag_bot.Agents.Tool.{Tool}

module _ {W : Type 0} where
  -- `d[t.name] = t`, on the values
  unfoldable pub put : List (Tool W) → Tool W → List (Tool W)
  put [] t = t ∷ []
  put (u ∷ us) t = if u.name == t.name then t ∷ us else u ∷ put us t

  unfoldable pub tool_registry : List (Tool W) → List (Tool W)
  unfolding put
  tool_registry = foldl put []

  -- the filter of `for_conversation`
  abbrev pub is_offered : Bool → Tool W → Bool
  is_offered is_authenticated t = is_authenticated || not t.requires_authentication

  unfoldable pub for_conversation : List (Tool W) → Bool → List (Tool W)
  for_conversation tools is_authenticated = keep (is_offered is_authenticated) tools

  unfoldable pub get : List (Tool W) → String → Option (Tool W)
  get [] name = none
  get (t ∷ ts) name = if t.name == name then some t else get ts name
