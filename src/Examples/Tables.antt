-- ===== src/Examples/Tables.antt =====
-- Runs of parseCsv.
use open_vibe_host.Base.{String, Bool, false, List, [], ◌∷◌, map, ◌≡◌, refl}
use open_vibe_host.Csv.{parse_csv, to_object, is_filled}
use open_vibe_host.Csv.Printed.{written_rows}
use open_vibe_host.Csv.RoundTrip.{parse_csv-written_rows}

-- No field is quoted that need not be.
abbrev sparing : String → Bool
sparing f = false

abbrev header : List String
header = "name" ∷ "size" ∷ []

abbrev table : List (List String)
table = ("a \"b\", c" ∷ "1" ∷ []) ∷ ("" ∷ "2" ∷ []) ∷ []

parse_csv-written_rows_example :
    parse_csv (written_rows sparing (header ∷ table)) ≡ map (to_object header) table
unfolding is_filled
parse_csv-written_rows_example = parse_csv-written_rows sparing header table refl refl
