-- ===== src/Csv.antt =====
-- lib/executor.js: parseCsv, which reads what `psql --csv` prints.
pub mod Printed
pub mod RoundTrip
use Prim.Native.String
use Prim.Native.Char.{Char, code}
use open_vibe_host.Base.{
  String, Bool, true, false, not, ◌&&◌, ◌||◌, Option, none, some, List, [], ◌∷◌, ◌++◌, map, ◌==◌,
  nat_eq, string_eq, if◌then◌else◌, null, keep as filter, ◌≡◌, refl,
}

-- The variables of the loop.
pub record Reading : Type 0 where
  pub rows : List (List String)
  pub row : List String
  pub field : String
  pub quoted : Bool

abbrev add : Char → Reading → Reading
add c r = record r { field = String.◌++◌ r.field (String.◌∷◌ c "") }

abbrev end_field : Reading → List String
end_field r = r.row ++ (r.field ∷ [])

-- One character, where it is not the first of two quotes inside a quoted field.
unfoldable pub feed : Char → Reading → Reading
feed c r =
    if r.quoted
    then (if code c == b'"' then record r { quoted = false } else add c r)
    else if code c == b'"'
    then record r { quoted = true }
    else if code c == b','
    then record r { row = end_field r; field = "" }
    else if code c == b'\n'
    then record r { rows = r.rows ++ (end_field r ∷ []); row = []; field = "" }
    else if code c == b'\r'
    then r
    else add c r

abbrev pub closes : Char → Reading → Bool
closes c r = r.quoted && code c == b'"'

-- The loop: two quotes inside a quoted field are one, and both are passed.
unfoldable pub scan : Reading → String → Reading
unfolding feed
scan r String.[] = r
scan r (String.◌∷◌ c String.[]) = feed c r
scan r (String.◌∷◌ c (String.◌∷◌ d s)) =
    let past = scan (add c r) s in
    let on = scan (feed c r) (String.◌∷◌ d s) in if closes c r && code d == b'"' then past else on

-- The rows behind the loop: a last line need not end with a line break.
unfoldable pub rows_of : Reading → List (List String)
rows_of r = if not (r.field == "") || not (null r.row) then r.rows ++ (end_field r ∷ []) else r.rows

-- `Object.fromEntries`, as entries in the order they were set: a name that comes again takes the later value.
put : String → Option String → List (String × Option String) → List (String × Option String)
put k v [] = (k, v) ∷ []
put k v ((j, w) ∷ es) = if j == k then (j, v) ∷ es else (j, w) ∷ put k v es

-- The entries of one row; a column behind the row's end is null.
columns : List (String × Option String) → List String → List String → List (String × Option String)
unfolding put
columns seen [] r = seen
columns seen (h ∷ hs) [] = columns (put h none seen) hs []
columns seen (h ∷ hs) (v ∷ vs) = columns (put h (some v) seen) hs vs

unfoldable pub to_object : List String → List String → List (String × Option String)
unfolding columns
to_object header r = columns [] header r

-- `r.length > 1 || r[0] !== ''`
unfoldable pub is_filled : List String → Bool
is_filled [] = true
is_filled (v ∷ []) = not (v == "")
is_filled (v ∷ w ∷ vs) = true

abbrev pub objects : List (List String) → List (List (String × Option String))
objects [] = []
objects (header ∷ rs) = map (to_object header) (filter (λ r. is_filled r) rs)

abbrev pub starting : Reading
starting = record { rows = []; row = []; field = ""; quoted = false }

unfoldable pub parse_csv : String → List (List (String × Option String))
unfolding scan rows_of
parse_csv s = objects (rows_of (scan starting s))

parse_csv_tests :
    (parse_csv "a,b\n1,\"x,\"\"y\"\"\"\r\n\n2\n"
      ≡ (("a", some "1") ∷ ("b", some "x,\"y\"") ∷ []) ∷ (("a", some "2") ∷ ("b", none) ∷ []) ∷ [])
    × (parse_csv "" ≡ [])
unfolding parse_csv to_object is_filled
parse_csv_tests = (refl, refl)
