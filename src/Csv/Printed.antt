-- ===== src/Csv/Printed.antt =====
-- CSV as it is written: fields between commas, a line per row; a field with a comma, a quote or a
-- line break stands in quotes, and quotes in it are doubled.
use Prim.Native.String
use Prim.Native.Char.{code}
use open_vibe_host.Base.{
  ℕ, String, Bool, true, not, ◌&&◌, ◌||◌, List, [], ◌∷◌, ◌==◌, nat_eq, if◌then◌else◌,
}

abbrev pub is_special : ℕ → Bool
is_special c = c == b'"' || c == b',' || c == b'\n' || c == b'\r'

unfoldable pub is_plain : String → Bool
is_plain String.[] = true
is_plain (String.◌∷◌ c s) = not (is_special (code c)) && is_plain s

unfoldable pub doubled : String → String
doubled String.[] = ""
doubled (String.◌∷◌ c s) =
    let rest = doubled s in
    if code c == b'"' then String.◌∷◌ c (String.◌∷◌ c rest) else String.◌∷◌ c rest

-- `always` says which fields stand in quotes besides those that must.
module _ (always : String → Bool) where
  unfoldable pub written : String → String
  unfolding doubled is_plain
  written f =
      if always f || not (is_plain f) then String.◌++◌ "\"" (String.◌++◌ (doubled f) "\"") else f

  unfoldable pub written_rest : List String → String
  unfolding written
  written_rest [] = "\n"
  written_rest (f ∷ fs) = String.◌++◌ "," (String.◌++◌ (written f) (written_rest fs))

  unfoldable pub written_row : List String → String
  unfolding written written_rest
  written_row [] = ""
  written_row (f ∷ fs) = String.◌++◌ (written f) (written_rest fs)

  unfoldable pub written_rows : List (List String) → String
  unfolding written_row
  written_rows [] = ""
  written_rows (r ∷ rs) = String.◌++◌ (written_row r) (written_rows rs)
