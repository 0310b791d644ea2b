-- ===== src/Base/Paths.antt =====
-- Paths as the `path` module of Node.js handles them on the host (the POSIX functions).
use Prim.Native.String
use Prim.Native.String.{String}
use mathlib.Core.Bool.{Bool, ◌&&◌, ◌||◌, not}
use mathlib.Core.List.{List, [], ◌∷◌, reverse}
use mathlib.Core.Path.{◌≡◌, refl}
use open_vibe_host.Base.Tests.{◌==◌, string_eq, if◌then◌else◌}
use open_vibe_host.Base.Lists.{keep, null}
use open_vibe_host.Base.Text.{split_on, ends_with, starts_with}

-- `parts.join(sep)`
unfoldable pub join_with : String → List String → String
join_with sep [] = ""
join_with sep (p ∷ []) = p
join_with sep (p ∷ q ∷ ps) = String.◌++◌ p (String.◌++◌ sep (join_with sep (q ∷ ps)))

-- One segment on the resolved ones, the last one first. Above the root `..` is dropped, above a
-- relative path it stays.
put_segment : Bool → String → List String → List String
put_segment root seg done =
    if seg == "" || seg == "." then done else if seg == ".." then up done else seg ∷ done
  where
    up : List String → List String
    up [] = if root then [] else ".." ∷ []
    up (d ∷ ds) = if d == ".." then ".." ∷ d ∷ ds else ds

resolve_segments : Bool → List String → List String → List String
unfolding put_segment
resolve_segments root [] done = reverse done
resolve_segments root (s ∷ ss) done = resolve_segments root ss (put_segment root s done)

-- `path.isAbsolute(p)`
unfoldable pub is_absolute : String → Bool
unfolding starts_with
is_absolute p = starts_with p "/"

-- `path.normalize(p)`
unfoldable pub normalize : String → String
unfolding resolve_segments is_absolute split_on ends_with join_with
normalize p =
    let root = is_absolute p in
    let slash = ends_with p "/" in
    let body = join_with "/" (resolve_segments root (split_on b'/' p) []) in
    let tail =
      if body == ""
      then (if root then "" else if slash && not (p == "") then "./" else ".")
      else if slash
      then String.◌++◌ body "/"
      else body in
    if root then String.◌++◌ "/" tail else tail

-- `path.join(...parts)`
unfoldable pub join : List String → String
unfolding normalize join_with
join parts =
    let given = keep (λ p. not (p == "")) parts in
    if null given then "." else normalize (join_with "/" given)

drop_empty : List String → List String
drop_empty [] = []
drop_empty (s ∷ ss) = if s == "" then drop_empty ss else s ∷ ss

-- The segments without those that trailing slashes leave, the last one first.
segments_back : String → List String
unfolding drop_empty split_on
segments_back p = drop_empty (reverse (split_on b'/' p))

-- `path.basename(p)`
unfoldable pub basename : String → String
unfolding segments_back
basename p = elim (segments_back p) [ [] ↦ "" | s ∷ _ ↦ s ]

parent_of : Bool → List String → String
unfolding join_with
parent_of root [] = if root then "/" else "."
parent_of root (s ∷ []) = if root then "/" else s
parent_of root (s ∷ t ∷ ss) =
    let p = join_with "/" (reverse (s ∷ t ∷ ss)) in if p == "/" then "//" else p

-- `path.dirname(p)`
unfoldable pub dirname : String → String
unfolding segments_back parent_of is_absolute
dirname p = elim (segments_back p) [
  | [] ↦ if is_absolute p then "/" else "."
  | _ ∷ ss ↦ parent_of (is_absolute p) ss
]

path_tests :
    (join ("/srv/live" ∷ "." ∷ "package.json" ∷ []) ≡ "/srv/live/package.json")
    × (join ("a" ∷ "../b" ∷ []) ≡ "b")
    × (normalize "./apps/" ≡ "apps/")
    × (normalize "." ≡ ".")
    × (normalize "/../a" ≡ "/a")
    × (normalize "../../a/.." ≡ "../..")
    × (basename "apps/x/package.json" ≡ "package.json")
    × (dirname "apps/x/package.json" ≡ "apps/x")
    × (dirname "package.json" ≡ ".")
    × (dirname "/a" ≡ "/")
    × (dirname "/" ≡ "/")
unfolding join normalize basename dirname
path_tests = (refl, refl, refl, refl, refl, refl, refl, refl, refl, refl, refl)
