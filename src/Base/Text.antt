-- ===== src/Base/Text.antt =====
-- Text as JavaScript handles it: `split`, `trim`, `endsWith`, and cutting at a character. Positions
-- are by code point; the program only cuts at ASCII characters.
use Prim.Native.Char.{Char, code}
use Prim.Native.Nat.{zero, suc, ℕ}
use Prim.Native.String.{String}
use mathlib.Core.Bool.{Bool, true, false, ◌&&◌, ◌||◌, not}
use mathlib.Core.Option.{Option, none, some}
use mathlib.Core.Path.{◌≡◌, refl}
use mathlib.Core.List.{List, [], ◌∷◌}
use open_vibe_host.Base.Tests.{leb, ◌==◌, nat_eq, string_eq, if◌then◌else◌, contains}
use open_vibe_host.Base.Lists.{keep}

-- `s.endsWith(suffix)`
unfoldable pub ends_with : String → String → Bool
ends_with String.[] suffix = suffix == ""
ends_with (String.◌∷◌ c s) suffix = String.◌∷◌ c s == suffix || ends_with s suffix

-- `s.startsWith(prefix)`
unfoldable pub starts_with : String → String → Bool
starts_with s String.[] = true
starts_with String.[] (String.◌∷◌ d t) = false
starts_with (String.◌∷◌ c s) (String.◌∷◌ d t) = code c == code d && starts_with s t

-- `s.includes(c)`
unfoldable pub has_char : ℕ → String → Bool
has_char k String.[] = false
has_char k (String.◌∷◌ c s) = code c == k || has_char k s

-- `s.slice(0, -suffix.length)` of a text that ends with the suffix
unfoldable pub strip_suffix : String → String → String
strip_suffix suffix String.[] = ""
strip_suffix suffix (String.◌∷◌ c s) =
    if String.◌∷◌ c s == suffix then "" else String.◌∷◌ c (strip_suffix suffix s)

-- `s.slice(n)`
-- `s.slice(0, n)`
unfoldable pub slice_to : ℕ → String → String
slice_to zero s = ""
slice_to (suc n) String.[] = ""
slice_to (suc n) (String.◌∷◌ c s) = String.◌∷◌ c (slice_to n s)

unfoldable pub slice_from : ℕ → String → String
slice_from ℕ.zero s = s
slice_from (ℕ.suc n) String.[] = ""
slice_from (ℕ.suc n) (String.◌∷◌ c s) = slice_from n s

abbrev grow : Char → List String → List String
grow c [] = String.◌∷◌ c "" ∷ []
grow c (w ∷ ws) = String.◌∷◌ c w ∷ ws

-- `s.split(c)`
unfoldable pub split_on : ℕ → String → List String
split_on k String.[] = "" ∷ []
split_on k (String.◌∷◌ c s) =
    let rest = split_on k s in if code c == k then "" ∷ rest else grow c rest

abbrev extend : Char → Option (String × String) → Option (String × String)
extend c none = none
extend c (some (a, b)) = some (String.◌∷◌ c a, b)

-- The text in front of the first `k` and the text behind it.
unfoldable pub cut_at : ℕ → String → Option (String × String)
cut_at k String.[] = none
cut_at k (String.◌∷◌ c s) = if code c == k then some ("", s) else extend c (cut_at k s)

-- The characters that `trim` and `\s` take for white space.
is_space : ℕ → Bool
unfolding contains
is_space c =
    (leb 9 c && leb c 13)
    || (leb 0x2000 c && leb c 0x200a)
    || contains (32 ∷ 0xa0 ∷ 0x1680 ∷ 0x2028 ∷ 0x2029 ∷ 0x202f ∷ 0x205f ∷ 0x3000 ∷ 0xfeff ∷ []) c

trim_start : String → String
unfolding is_space
trim_start String.[] = ""
trim_start (String.◌∷◌ c s) = if is_space (code c) then trim_start s else String.◌∷◌ c s

-- A space stays if a character that is no space follows it.
trim_end : String → String
unfolding is_space
trim_end String.[] = ""
trim_end (String.◌∷◌ c s) =
    let rest = trim_end s in if rest == "" && is_space (code c) then "" else String.◌∷◌ c rest

-- `s.trim()`
unfoldable pub trim : String → String
unfolding trim_start trim_end
trim s = trim_end (trim_start s)

split_spaces : String → List String
unfolding is_space
split_spaces String.[] = "" ∷ []
split_spaces (String.◌∷◌ c s) =
    let rest = split_spaces s in if is_space (code c) then "" ∷ rest else grow c rest

-- `s.split(/\s+/).filter(Boolean)`
unfoldable pub words : String → List String
unfolding split_spaces
words s = keep (λ w. not (w == "")) (split_spaces s)

text_tests :
    (ends_with "openvibe-live.socket" ".socket" ≡ true)
    × (ends_with "openvibe-live.service" ".socket" ≡ false)
    × (split_on b'\n' "a\nb\n" ≡ "a" ∷ "b" ∷ "" ∷ [])
    × (trim "  a b\n" ≡ "a b")
    × (words "  a  b " ≡ "a" ∷ "b" ∷ [])
    × (cut_at b'=' "Id=x=y" ≡ some ("Id", "x=y"))
unfolding ends_with split_on trim words cut_at
text_tests = (refl, refl, refl, refl, refl, refl)
