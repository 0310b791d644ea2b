-- ===== src/Retention/Kept.antt =====
-- What `keep` keeps.
use mathlib.Core.List.{append_assoc, append-nil}
use open_vibe_host.Base.{
  ℕ, ◌+◌, ◌≤◌, String, Bool, false, List, [], ◌∷◌, ◌++◌, ◌≡◌, refl, arith, ◌&&◌, ◌||◌, ◌==◌,
  string_eq, eq_iff, beq_refl, contains, length, length-append,
}
use open_vibe_host.Base.Sets.{add, IsDistinct, contains-add, contains-append}
use open_vibe_host.Retention.Slots.{is_first, slots, has_room_lem, next_slots}
use open_vibe_host.Retention.{Keeping, has_room, keep_day, keep_week, keep_each}

module _ (day week : String → String) (daily weekly : ℕ) where
  -- The policy: a stamp is kept if it is the first with its day among the first `daily` days, or
  -- the first with its week among the first `weekly` weeks.
  abbrev pub granted : List String → String → Bool
  granted before s = is_first day daily before s || is_first week weekly before s

  -- The slots that the loop has filled are those that the stamps before have filled.
  pub record Filled (before : List String) (k : Keeping) : Type 0 where
    pub days : k.days ≡ slots day daily before
    pub weeks : k.weeks ≡ slots week weekly before

  abbrev one : Keeping → String → Keeping
  one k s = keep_week day week daily weekly (keep_day day week daily weekly k s) s

  one-Filled :
      (before : List String) (k : Keeping) (s : String)
      → Filled before k
      → Filled (before ++ s ∷ []) (one k s)
  unfolding keep_day keep_week
  one-Filled before k s f = ground (
    arith,
    has_room_lem day daily before s,
    has_room_lem week weekly before s,
    next_slots day daily before s,
    next_slots week weekly before s,
  )

  kept-one :
      (before : List String) (k : Keeping) (s a : String)
      → Filled before k
      → contains (one k s).kept a ≡ (contains k.kept a || (s == a && granted before s))
  unfolding keep_day keep_week
  kept-one before k s a f = ground (
    arith,
    has_room_lem day daily before s,
    has_room_lem week weekly before s,
    contains-add k.kept s a,
    contains-add (add k.kept s) s a,
  )

  -- The stamps of a list that the policy keeps, as a test.
  abbrev pub granted_in : List String → List String → String → Bool
  granted_in before [] a = false
  granted_in before (s ∷ ss) a = (s == a && granted before s) || granted_in (before ++ s ∷ []) ss a

  pub kept-each :
      (ss before : List String) (k : Keeping) (a : String)
      → Filled before k
      → contains (keep_each day week daily weekly k ss).kept a
        ≡ (contains k.kept a || granted_in before ss a)
  unfolding keep_each
  kept-each [] before k a f = ground arith
  kept-each (s ∷ ss) before k a f = ground (
    arith,
    kept-each ss (before ++ s ∷ []) (one k s) a (one-Filled before k s f),
    kept-one before k s a f,
  )

  -- What is in none of the stamps is not kept.
  pub granted_in-contains :
      (ss before : List String) (a : String)
      → contains ss a ≡ false
      → granted_in before ss a ≡ false
  unfolding contains
  granted_in-contains [] before a h = refl
  granted_in-contains (s ∷ ss) before a h =
      ground (arith, granted_in-contains ss (before ++ s ∷ []) a)

  pub granted_in-split :
      (front before after : List String) (a : String)
      → IsDistinct (front ++ a ∷ after)
      → granted_in before (front ++ a ∷ after) a ≡ granted (before ++ front) a
  unfolding contains
  granted_in-split [] before after a (h, d) =
      rw (append-nil before, beq_refl a, granted_in-contains after (before ++ a ∷ []) a h)
        (ground arith)
  granted_in-split (s ∷ front) before after a (h, d) = ground (
    arith,
    contains-append front (a ∷ after) s,
    beq_refl a,
    eq_iff s a,
    granted_in-split front (before ++ s ∷ []) after a d,
    append_assoc before (s ∷ []) front,
  )

  -- Each stamp that is kept fills a slot.
  pub record Counted (k : Keeping) : Type 0 where
    pub kept : length k.kept ≤ length k.days + length k.weeks
    pub days : length k.days ≤ daily
    pub weeks : length k.weeks ≤ weekly

  length-add : (xs : List String) (x : String) → length (add xs x) ≤ length xs + 1
  unfolding add
  length-add xs x = ground (arith, length-append xs (x ∷ []))

  length-add_new :
      (xs : List String) (x : String) → contains xs x ≡ false → length (add xs x) ≡ length xs + 1
  unfolding add
  length-add_new xs x h = rw h (omega (arith, length-append xs (x ∷ [])))

  one-Counted : (k : Keeping) (s : String) → Counted k → Counted (one k s)
  unfolding keep_day keep_week has_room
  one-Counted k s c = ground (
    arith,
    length-add k.kept s,
    length-add (add k.kept s) s,
    length-add_new k.days (day s),
    length-add_new k.weeks (week s),
  )

  pub each-Counted :
      (ss : List String) (k : Keeping) → Counted k → Counted (keep_each day week daily weekly k ss)
  unfolding keep_each
  each-Counted [] k c = c
  each-Counted (s ∷ ss) k c = each-Counted ss (one k s) (one-Counted k s c)
