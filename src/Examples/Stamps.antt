-- ===== src/Examples/Stamps.antt =====
-- Retention: four backups on three days of two weeks, with a calendar of 1970 in which the week of a
-- time is its seventh day.
use open_vibe_host.Base.{
  ℕ, ◌+◌, ◌*◌, ◌/◌, ◌%◌, ◌≤◌, ◌≡◌, List, [], ◌∷◌, ◌++◌, String, some, pos, pos_part, true, ◌||◌,
  ◌==◌, nat_eq, string_eq, refl, arith, length, ◌-◌, ◌∙◌, contains, is_some, if◌then◌else◌, ◌-ℤ◌,
}
use open_vibe_host.Base.Sorting.{sort_by, insert_sorted}
use open_vibe_host.Base.Sets.{to_set, add_all, add}
use open_vibe_host.Retention.{
  Dates, keep, newest_first, parse_stamp, stamp_fields, text_le, day_of, week_of,
}
use open_vibe_host.Retention.Slots.{is_first}
use open_vibe_host.Retention.Policy.{keep_exact, keep-contains, length-keep, keep_newest}

abbrev ms_per_day : ℕ
ms_per_day = 86400000

-- January only: the days of 1970 from 0.
abbrev pub january : Dates
january = record {
  utc = λ y mo d h mi s. some (pos ((pos_part d + 6) * ms_per_day));
  week_day = λ ms. (pos_part ms / ms_per_day) % 7;
  year = λ ms. 1970;
  month = λ ms. 0;
  date = λ ms. pos_part ms / ms_per_day - 6;
  decimal = λ n. if n == 1970 then "1970" else if n == 1 then "1" else "2";
}

abbrev pub first : String
first = "19700105-030000"

abbrev pub noon : String
noon = "19700105-120000"

abbrev pub second : String
second = "19700106-030000"

abbrev pub third : String
third = "19700113-030000"

abbrev stamps : List String
stamps = noon ∷ third ∷ "latest" ∷ first ∷ second ∷ noon ∷ []

newest_first_run : newest_first january stamps ≡ (third ∷ second ∷ noon ∷ []) ++ first ∷ []
unfolding newest_first sort_by insert_sorted text_le to_set add_all add contains parse_stamp
    stamp_fields ◌-ℤ◌
newest_first_run = refl

keep_exact_example :
    contains (keep january stamps 2 2) second
    ≡ (is_first day_of 2 (third ∷ []) second || is_first (week_of january) 2 (third ∷ []) second)
keep_exact_example =
    keep_exact january 2 2 stamps (third ∷ []) (noon ∷ first ∷ []) second newest_first_run

noon_given : contains stamps noon ≡ true
unfolding contains
noon_given = refl

noon_dated : is_some (parse_stamp january noon) ≡ true
unfolding parse_stamp stamp_fields
noon_dated = refl

keep_newest_example :
    (n : String) × (contains (keep january stamps 2 2) n ≡ true) × (text_le noon n ≡ true)
keep_newest_example = keep_newest january 2 2 stamps noon (omega arith) noon_given noon_dated

length-keep_example : length (keep january stamps 2 2) ≤ 2 + 2
length-keep_example = length-keep january 2 2 stamps

third_kept : contains (keep january stamps 2 2) third ≡ true
third_kept =
    keep_exact january 2 2 stamps [] (second ∷ noon ∷ first ∷ []) third newest_first_run
    ∙ (unfold is_first to_set add_all contains in refl)

keep-contains_example :
    (contains stamps third ≡ true) × (is_some (parse_stamp january third) ≡ true)
keep-contains_example = keep-contains january 2 2 stamps third third_kept
