-- ===== src/Base/Names.antt =====
-- The patterns that service ids and domains match.
use Prim.Native.Nat.{ℕ}
use Prim.Native.String.{String}
use Prim.Native.String
use Prim.Native.Char.{code}
use mathlib.Core.Bool.{Bool, true, false, not, ◌&&◌, ◌||◌}
use mathlib.Core.List.{List, [], ◌∷◌}
use open_vibe_host.Base.Tests.{leb, contains, ◌==◌, nat_eq, string_eq}

is_lower_digit : ℕ → Bool
is_lower_digit c = (leb b'a' c && leb c b'z') || (leb b'0' c && leb c b'9')

all_of : List ℕ → String → Bool
unfolding is_lower_digit contains
all_of extra String.[] = true
all_of extra (String.◌∷◌ c s) =
    (is_lower_digit (code c) || contains extra (code c)) && all_of extra s

starts_lower : String → Bool
starts_lower String.[] = false
starts_lower (String.◌∷◌ c s) = leb b'a' (code c) && leb (code c) b'z'

-- `/^[a-z][a-z0-9-]{1,39}$/`
unfoldable pub is_service_id : String → Bool
unfolding all_of starts_lower
is_service_id s =
    starts_lower s && all_of (b'-' ∷ []) s && leb 2 (String.count s) && leb (String.count s) 40

-- `/^[a-z0-9.-]+$/`
unfoldable pub is_domain : String → Bool
unfolding all_of
is_domain s = not (s == "") && all_of (b'.' ∷ b'-' ∷ []) s
