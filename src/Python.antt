-- ===== src/Python.antt =====
-- What the program takes from outside its sources as tables and codecs: the Unicode database
-- behind `str.lower`, `\w` and `\d`, the JSON codec, `str()` and `repr()` of values, and the hash.
-- Each is a field, so a theorem about the program holds for any of them; the one law that some
-- theorems need is the JSON round trip, a named hypothesis of theirs.
pub mod Regex
use bank_rag_bot.Prelude.{ℕ, String, Bool, Option, some, ◌≡◌}
use bank_rag_bot.Domain.{Json, Citation, PendingAction}

pub record Python : Type 0 where
  pub lower : String → String
  pub is_alnum : ℕ → Bool
  pub is_decimal : ℕ → Bool
  -- `none` is `json.JSONDecodeError`
  pub loads : String → Option Json
  pub dumps : Json → String
  pub format : Json → String
  pub repr_citation : Citation → String
  pub repr_pending : PendingAction → String
  pub sha256_hexdigest : String → String

-- `json.loads(json.dumps(v)) == v`
abbrev pub RoundTrips : Python → Type 0
RoundTrips py = (v : Json) → py.loads (py.dumps v) ≡ some v
