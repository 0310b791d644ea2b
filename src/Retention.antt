-- ===== src/Retention.antt =====
-- lib/retention.js: which dated backups to keep. `Date` is a parameter (`Dates`); a `Set` is a list
-- without repetitions, in the order of insertion.
pub mod Slots
pub mod Kept
pub mod Policy
use Prim.Native.Char.{Char, code}
use open_vibe_host.Base.{
  ℕ, zero, suc, ◌+◌, ◌-◌, ◌*◌, ◌/◌, ◌%◌, String, Bool, true, false, Option, none, some, List, [],
  ◌∷◌, ◌++◌, reverse, ℤ, pos, negsuc, ◌+ℤ◌, ◌-ℤ◌, pos_part, ◌&&◌, ◌||◌, not, ◌==◌, string_eq,
  nat_eq, leb, ltb, if◌then◌else◌, contains, length, is_some, keep as filter, refl, ◌≡◌,
}
use open_vibe_host.Base.Sets.{add, to_set}
use open_vibe_host.Base.Sorting.{sort_by}
use open_vibe_host.Base.Text.{slice_to}

-- `Date.UTC`, and the UTC fields of a time in milliseconds.
pub record Dates : Type 0 where
  -- year, month from 0 and day of the month, which may lie outside their range, hour, minute, second; `none` is not finite
  pub utc : ℕ → ℤ → ℤ → ℕ → ℕ → ℕ → Option ℤ
  pub week_day : ℤ → ℕ
  pub year : ℤ → ℕ
  pub month : ℤ → ℕ
  pub date : ℤ → ℕ
  -- `String(n)`
  pub decimal : ℕ → String

codes : String → List ℕ
codes String.[] = []
codes (String.◌∷◌ c s) = code c ∷ codes s

is_digit : ℕ → Bool
is_digit c = leb b'0' c && leb c b'9'

-- A number of `n` digits in front of a text, and the text behind it.
digits : ℕ → ℕ → List ℕ → Option (ℕ × List ℕ)
digits zero acc cs = some (acc, cs)
digits (suc n) acc [] = none
digits (suc n) acc (c ∷ cs) =
    let rest = digits n (acc * 10 + (c - b'0')) cs in if is_digit c then rest else none

abbrev then_ : {A B : Type 0} → Option A → (A → Option B) → Option B
then_ none f = none
then_ (some a) f = f a

dash : List ℕ → Option (List ℕ)
dash [] = none
dash (c ∷ cs) = if c == b'-' then some cs else none

at_end : List ℕ → Option (Unit {0})
at_end [] = some tt
at_end (c ∷ cs) = none

-- A time that is not there is `null`, which `new Date` and arithmetic take for 0.
time_or_epoch : Option ℤ → ℤ
time_or_epoch none = pos 0
time_or_epoch (some ms) = ms

concat : String → String → String
concat String.[] t = t
concat (String.◌∷◌ c s) t = String.◌∷◌ c (concat s t)

-- `padStart(2, '0')`
pad2 : String → String
pad2 String.[] = "00"
pad2 (String.◌∷◌ c String.[]) = String.◌∷◌ "0" (String.◌∷◌ c "")
pad2 s = s

-- The fields of a stamp, after `STAMP_RE`.
pub record StampFields : Type 0 where
  pub year : ℕ
  pub month : ℕ
  pub day : ℕ
  pub hour : ℕ
  pub minute : ℕ
  pub second : ℕ

-- `STAMP_RE.exec(s)`, YYYYMMDD-HHMMSS
unfoldable pub stamp_fields : String → Option StampFields
unfolding codes is_digit digits dash at_end
stamp_fields s = then_ (digits 4 0 (codes s)) λ y. then_ (digits 2 0 y.1) λ mo.
    then_ (digits 2 0 mo.1) λ d. then_ (dash d.1) λ time. then_ (digits 2 0 time) λ h.
      then_ (digits 2 0 h.1) λ mi. then_ (digits 2 0 mi.1) λ sec. then_ (at_end sec.1) λ _.
        some (record {
          year = y.0;
          month = mo.0;
          day = d.0;
          hour = h.0;
          minute = mi.0;
          second = sec.0;
        })

-- `STAMP_RE.test(s)`
unfoldable pub is_stamp : String → Bool
is_stamp s = is_some (stamp_fields s)

module _ (dates : Dates) where
  unfoldable pub parse_stamp : String → Option ℤ
  parse_stamp s =
      then_ (stamp_fields s)
        λ f. dates.utc f.year (pos f.month -ℤ pos 1) (pos f.day) f.hour f.minute f.second

  -- The key of an ISO-8601 week, such as 2026-W39.
  pub iso_week : ℤ → String
  unfolding time_or_epoch concat pad2
  iso_week ms =
      let day = (dates.week_day ms + 6) % 7 in
      let thursday = time_or_epoch (
        dates.utc (dates.year ms) (pos (dates.month ms)) (pos (dates.date ms) -ℤ pos day +ℤ pos 3) 0
          0 0) in
      let first = time_or_epoch (dates.utc (dates.year thursday) (pos 0) (pos 1) 0 0 0) in
      let week = pos_part (thursday -ℤ first) / 86400000 / 7 + 1 in
      concat (dates.decimal (dates.year thursday)) (concat "-W" (pad2 (dates.decimal week)))

-- The variables of the loop.
pub record Keeping : Type 0 where
  pub kept : List String
  pub days : List String
  pub weeks : List String

-- `!taken.has(key) && taken.size < limit`
unfoldable pub has_room : ℕ → List String → String → Bool
has_room limit taken key = not (contains taken key) && ltb (length taken) limit

module _ (day week : String → String) (daily weekly : ℕ) where
  unfoldable pub keep_day : Keeping → String → Keeping
  keep_day k s =
      if has_room daily k.days (day s)
      then record k { days = add k.days (day s); kept = add k.kept s }
      else k

  unfoldable pub keep_week : Keeping → String → Keeping
  keep_week k s =
      if has_room weekly k.weeks (week s)
      then record k { weeks = add k.weeks (week s); kept = add k.kept s }
      else k

  unfoldable pub keep_each : Keeping → List String → Keeping
  keep_each k [] = k
  keep_each k (s ∷ ss) = keep_each (keep_week (keep_day k s) s) ss

-- `sort()` with no comparator: by code units.
unfoldable pub text_le : String → String → Bool
text_le String.[] t = true
text_le (String.◌∷◌ c s) String.[] = false
text_le (String.◌∷◌ c s) (String.◌∷◌ d t) =
    let rest = text_le s t in if code c == code d then rest else ltb (code c) (code d)

unfoldable pub day_of : String → String
day_of s = slice_to 8 s

module _ (dates : Dates) where
  unfoldable pub week_of : String → String
  unfolding time_or_epoch
  week_of s = iso_week dates (time_or_epoch (parse_stamp dates s))

  -- The stamps that are dates, the newest first.
  unfoldable pub newest_first : List String → List String
  newest_first stamps =
      reverse (sort_by text_le (filter (λ s. is_some (parse_stamp dates s)) (to_set stamps)))

  unfoldable pub keep : List String → ℕ → ℕ → List String
  keep stamps daily weekly =
      (keep_each day_of week_of daily weekly (record { kept = []; days = []; weeks = [] })
        (newest_first stamps)).kept
