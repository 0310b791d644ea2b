-- ===== src/Retention/Policy.antt =====
-- The retention policy, as `keep` carries it out.
use open_vibe_host.Base.{
  ℕ, ◌+◌, ◌≤◌, ◌<◌, String, Bool, true, false, List, [], ◌∷◌, ◌++◌, ◌≡◌, refl, sym, ap, ◌∙◌, arith,
  ◌&&◌, ◌||◌, string_eq, nat_eq, contains, length, take_all, lt→ltb, is_some, keep as filter,
}
use open_vibe_host.Base.Sets.{
  to_set, add_all, IsDistinct, contains-add_all, add_all-IsDistinct, contains-keep, keep-IsDistinct,
  contains-reverse, reverse-IsDistinct, contains-sort_by, sort_by-IsDistinct,
}
use open_vibe_host.Base.Sorting.{sort_by}
use open_vibe_host.Base.Sorting.Greatest.{sort_by-IsSorted, reverse-greatest}
use open_vibe_host.Retention.Slots.{is_first}
use open_vibe_host.Retention.Kept.{
  Filled, kept-each, granted_in, granted_in-split, granted_in-contains, each-Counted,
}
use open_vibe_host.Retention.{
  Dates, Keeping, newest_first, keep, day_of, week_of, parse_stamp, text_le,
}

pub text_le_total : (s t : String) → text_le s t ≡ false → text_le t s ≡ true
unfolding text_le
text_le_total String.[] t h = absurd (ground arith)
text_le_total (String.◌∷◌ c s) String.[] h = refl
text_le_total (String.◌∷◌ c s) (String.◌∷◌ d t) h = ground (arith, text_le_total s t)

pub text_le_trans : (s t u : String) → text_le s t ≡ true → text_le t u ≡ true → text_le s u ≡ true
unfolding text_le
text_le_trans String.[] t u h k = refl
text_le_trans (String.◌∷◌ c s) String.[] u h k = absurd (ground arith)
text_le_trans (String.◌∷◌ c s) (String.◌∷◌ d t) String.[] h k = absurd (ground arith)
text_le_trans (String.◌∷◌ c s) (String.◌∷◌ d t) (String.◌∷◌ e u) h k =
    ground (arith, text_le_trans s t u)

module _ (dates : Dates) where
  abbrev dated : String → Bool
  dated s = is_some (parse_stamp dates s)

  contains-sorted :
      (stamps : List String) (s : String)
      → contains (sort_by text_le (filter dated (to_set stamps))) s ≡ (contains stamps s && dated s)
  unfolding to_set contains
  contains-sorted stamps s =
      contains-sort_by text_le (filter dated (to_set stamps)) s
      ∙ contains-keep dated (to_set stamps) s
      ∙ ap (λ (b : Bool). b && dated s) (contains-add_all stamps [] s)

  contains-newest_first :
      (stamps : List String) (s : String)
      → contains (newest_first dates stamps) s ≡ (contains stamps s && dated s)
  unfolding newest_first
  contains-newest_first stamps s =
      contains-reverse (sort_by text_le (filter dated (to_set stamps))) s ∙ contains-sorted stamps s

  newest_first-IsDistinct : (stamps : List String) → IsDistinct (newest_first dates stamps)
  unfolding newest_first to_set
  newest_first-IsDistinct stamps = reverse-IsDistinct _ (
      sort_by-IsDistinct text_le _
        (keep-IsDistinct dated (to_set stamps) (add_all-IsDistinct stamps [] tt)))

  abbrev empty : Keeping
  empty = record { kept = []; days = []; weeks = [] }

  module _ (daily weekly : ℕ) where
    empty-Filled : Filled day_of (week_of dates) daily weekly [] empty
    unfolding to_set add_all
    empty-Filled = record {
      days = sym (take_all daily [] (omega arith));
      weeks = sym (take_all weekly [] (omega arith));
    }

    keep-granted_in :
        (stamps : List String) (s : String)
        → contains (keep dates stamps daily weekly) s
          ≡ granted_in day_of (week_of dates) daily weekly [] (newest_first dates stamps) s
    unfolding keep contains
    keep-granted_in stamps s =
        kept-each day_of (week_of dates) daily weekly (newest_first dates stamps) [] empty s
          empty-Filled

    -- A stamp is kept exactly when, among the dated stamps from the newest on, it is the first of
    -- its day and fewer than `daily` days came before it, or the first of its ISO week and fewer than
    -- `weekly` weeks came before it.
    pub keep_exact :
        (stamps before after : List String) (s : String)
        → newest_first dates stamps ≡ before ++ s ∷ after
        → contains (keep dates stamps daily weekly) s
          ≡ (is_first day_of daily before s || is_first (week_of dates) weekly before s)
    keep_exact stamps before after s e =
        keep-granted_in stamps s
        ∙ ap (λ (l : List String). granted_in day_of (week_of dates) daily weekly [] l s) e
        ∙ granted_in-split day_of (week_of dates) daily weekly before [] after s
            (rw (← e) (newest_first-IsDistinct stamps))

    -- What is kept was given, and is a date.
    pub keep-contains :
        (stamps : List String) (s : String)
        → contains (keep dates stamps daily weekly) s ≡ true
        → (contains stamps s ≡ true) × (dated s ≡ true)
    keep-contains stamps s h = ground (
      arith,
      keep-granted_in stamps s,
      granted_in-contains day_of (week_of dates) daily weekly (newest_first dates stamps) [] s,
      contains-newest_first stamps s,
    )

    -- At most `daily + weekly` backups are kept.
    pub length-keep :
        (stamps : List String) → length (keep dates stamps daily weekly) ≤ daily + weekly
    unfolding keep
    length-keep stamps =
        let c =
          each-Counted day_of (week_of dates) daily weekly (newest_first dates stamps) empty
            (record { kept = omega arith; days = omega arith; weeks = omega arith }) in
        omega (arith, c.kept, c.days, c.weeks)

    first_is_first :
        (n : String)
        → 0 < daily
        → (is_first day_of daily [] n || is_first (week_of dates) weekly [] n) ≡ true
    unfolding is_first to_set add_all contains
    first_is_first n pos = rw (lt→ltb 0 daily pos) refl

    -- Of any dated stamp that is given, one at least as new is kept, if any daily backup is to be
    -- kept: the newest is never dropped.
    pub keep_newest :
        (stamps : List String) (s : String)
        → 0 < daily
        → contains stamps s ≡ true
        → dated s ≡ true
        → (n : String) × (contains (keep dates stamps daily weekly) n ≡ true) × (text_le s n ≡ true)
    unfolding newest_first
    keep_newest stamps s pos given valid =
        let found = filter dated (to_set stamps) in
        let there : contains (sort_by text_le found) s ≡ true =
          contains-sorted stamps s ∙ rw (given, valid) refl in
        let (n, rest, r, g) =
          reverse-greatest text_le text_le_total text_le_trans (sort_by text_le found) s
            (sort_by-IsSorted text_le text_le_total text_le_trans found) there in
        (n, keep_exact stamps [] rest n r ∙ first_is_first n pos, g)
