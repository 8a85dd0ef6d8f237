-- ===== src/Ingestion/Lines.antt =====
-- Python's `str.splitlines` and `str.split()`, which the segmenters use.
use Prim.Native.Char.{code}
use bank_rag_bot.Prelude.{
  ℕ, String, Bool, false, ◌&&◌, ◌||◌, ◌≡◌, refl, List, [], ◌∷◌, keep, not, ◌==◌, if◌then◌else◌, leb,
  eqb,
}
use bank_rag_bot.Prelude.Text.{is_space}
use bank_rag_bot.Ingestion.Chunker.{add_first}

-- a line boundary: LF, VT, FF, CR, FS, GS, RS, NEL, LS, PS
abbrev is_line_break : ℕ → Bool
is_line_break c =
    (leb 10 c && leb c 13) || (leb 28 c && leb c 30) || eqb c 133 || eqb c 8232 || eqb c 8233

-- The flag says that the last code point was a CR, whose LF belongs to it.
lines_from : Bool → String → List String
lines_from after_cr String.[] = []
lines_from after_cr (String.◌∷◌ c s) =
    let rest = lines_from (eqb (code c) 13) s in
    if after_cr && eqb (code c) 10
    then rest
    else if is_line_break (code c)
    then "" ∷ rest
    else add_first (String.◌∷◌ c "") rest

unfoldable pub splitlines : String → List String
unfolding lines_from
splitlines text = lines_from false text

words_from : String → List String
words_from String.[] = "" ∷ []
words_from (String.◌∷◌ c s) =
    let rest = words_from s in
    if is_space (code c) then "" ∷ rest else add_first (String.◌∷◌ c "") rest

-- `text.split()`
unfoldable pub words : String → List String
unfolding words_from is_space
words text = keep (λ w. not (w == "")) (words_from text)

lines_tests : (splitlines "a\n\nb\n" ≡ "a" ∷ "" ∷ "b" ∷ []) × (words " a  bc " ≡ "a" ∷ "bc" ∷ [])
unfolding splitlines words
lines_tests = (refl, refl)
