-- ===== src/ReleaseOps/Patterns.antt =====
-- The tests on paths and refs of lib/release-ops.js.
use open_vibe_host.Base.{
  ℕ, String, Bool, not, ◌&&◌, ◌||◌, List, [], ◌∷◌, ◌==◌, nat_eq, string_eq, if◌then◌else◌, any, leb,
  contains,
}
use open_vibe_host.Base.Text.{ends_with, starts_with, has_char, slice_from}
use Prim.Native.String
use Prim.Native.Char.{code}

unfoldable pub matches_one : String → String → Bool
unfolding ends_with starts_with has_char slice_from
matches_one file p =
    if ends_with p "/"
    then starts_with file p
    else if starts_with p "*."
    then not (has_char b'/' file) && ends_with file (slice_from 1 p)
    else if starts_with p "**/*."
    then ends_with file (slice_from 4 p)
    else file == p

-- `matchesPath(file, patterns)`
unfoldable pub matches_path : String → List String → Bool
matches_path file patterns = any (matches_one file) patterns

unfoldable pub is_alnum : ℕ → Bool
is_alnum c = (leb b'A' c && leb c b'Z') || (leb b'a' c && leb c b'z') || (leb b'0' c && leb c b'9')

all_ref_chars : String → Bool
unfolding is_alnum contains
all_ref_chars String.[] = Bool.true
all_ref_chars (String.◌∷◌ c s) =
    (is_alnum (code c) || contains (b'.' ∷ b'_' ∷ b'/' ∷ b'-' ∷ []) (code c)) && all_ref_chars s

-- `/^[A-Za-z0-9][A-Za-z0-9._/-]{0,199}$/.test(ref)`
unfoldable pub is_ref : String → Bool
unfolding all_ref_chars is_alnum
is_ref String.[] = Bool.false
is_ref (String.◌∷◌ c s) = is_alnum (code c) && all_ref_chars s && leb (String.count s) 199
