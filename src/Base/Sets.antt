-- ===== src/Base/Sets.antt =====
-- A JavaScript `Set` as a list without repetitions, in the order of insertion.
use mathlib.Core.List.{reverse-cons}
use open_vibe_host.Base.Sorting.{insert_sorted, sort_by}
use mathlib.Core.Path.{◌≡◌, refl, ◌∙◌, ap}
use mathlib.Core.Logic.{inl, inr}
use mathlib.Core.Bool.{Bool, false, ◌&&◌, ◌||◌}
use mathlib.Core.List.{List, [], ◌∷◌, ◌++◌, reverse}
use native.Mathlib.Omega.{arith}
use open_vibe_host.Base.Lists.{keep}
use open_vibe_host.Base.Tests.{Eq, ◌==◌, contains, if◌then◌else◌, Bool-cases}

module _ {A : Type 0} ⦃e : Eq A⦄ where
  -- `set.add(x)`
  unfoldable pub add : List A → A → List A
  add xs x = if contains xs x then xs else xs ++ x ∷ []

  unfoldable pub add_all : List A → List A → List A
  add_all taken [] = taken
  add_all taken (x ∷ xs) = add_all (add taken x) xs

  -- `new Set(xs)`
  unfoldable pub to_set : List A → List A
  to_set xs = add_all [] xs

  abbrev pub IsDistinct : List A → Type 0
  IsDistinct [] = Unit
  IsDistinct (x ∷ xs) = (contains xs x ≡ false) × IsDistinct xs

  pub beq_comm : (a b : A) → (a == b) ≡ (b == a)
  beq_comm a b = ground (arith, e.beq_iff a b, e.beq_iff b a)

  pub contains-append :
      (xs ys : List A) (a : A) → contains (xs ++ ys) a ≡ (contains xs a || contains ys a)
  unfolding contains
  contains-append [] ys a = refl
  contains-append (x ∷ xs) ys a = ground (arith, contains-append xs ys a)

  pub IsDistinct-snoc :
      (xs : List A) (x : A) → IsDistinct xs → contains xs x ≡ false → IsDistinct (xs ++ x ∷ [])
  unfolding contains
  IsDistinct-snoc [] x d h = (refl, tt)
  IsDistinct-snoc (y ∷ ys) x (h, d) c = (
    ground (arith, contains-append ys (x ∷ []) y, beq_comm x y),
    IsDistinct-snoc ys x d (ground arith),
  )

  pub add-IsDistinct : (xs : List A) (x : A) → IsDistinct xs → IsDistinct (add xs x)
  unfolding add
  add-IsDistinct xs x d = elim (Bool-cases (contains xs x)) [
    | inl old ↦ rw old d
    | inr new ↦ rw new (IsDistinct-snoc xs x d new)
  ]

  pub contains-add : (xs : List A) (x a : A) → contains (add xs x) a ≡ (contains xs a || x == a)
  unfolding add contains
  contains-add xs x a = ground (arith, contains-append xs (x ∷ []) a, e.beq_iff x a)

  pub add_all-IsDistinct : (xs taken : List A) → IsDistinct taken → IsDistinct (add_all taken xs)
  unfolding add_all
  add_all-IsDistinct [] taken d = d
  add_all-IsDistinct (x ∷ xs) taken d =
      add_all-IsDistinct xs (add taken x) (add-IsDistinct taken x d)

  pub contains-add_all :
      (xs taken : List A) (a : A)
      → contains (add_all taken xs) a ≡ (contains taken a || contains xs a)
  unfolding add_all contains
  contains-add_all [] taken a = ground arith
  contains-add_all (x ∷ xs) taken a =
      ground (arith, contains-add_all xs (add taken x) a, contains-add taken x a)

  pub contains-keep :
      (p : A → Bool) (xs : List A) (a : A) → contains (keep p xs) a ≡ (contains xs a && p a)
  unfolding contains
  contains-keep p [] a = refl
  contains-keep p (x ∷ xs) a = elim (Bool-cases (x == a)) [
    | inl same ↦
        let moved = ap p ((e.beq_iff x a).0 same) in ground (arith, moved, contains-keep p xs a)
    | inr other ↦ ground (arith, contains-keep p xs a)
  ]

  pub keep-IsDistinct : (p : A → Bool) (xs : List A) → IsDistinct xs → IsDistinct (keep p xs)
  keep-IsDistinct p [] d = tt
  keep-IsDistinct p (x ∷ xs) (h, d) = ground (arith, contains-keep p xs x, keep-IsDistinct p xs d)

  pub contains-reverse : (xs : List A) (a : A) → contains (reverse xs) a ≡ contains xs a
  unfolding contains
  contains-reverse [] a = refl
  contains-reverse (x ∷ xs) a =
      rw (reverse-cons x xs)
        (ground (arith, contains-append (reverse xs) (x ∷ []) a, contains-reverse xs a))

  pub reverse-IsDistinct : (xs : List A) → IsDistinct xs → IsDistinct (reverse xs)
  reverse-IsDistinct [] d = tt
  reverse-IsDistinct (x ∷ xs) (h, d) =
      rw (reverse-cons x xs)
        (IsDistinct-snoc (reverse xs) x (reverse-IsDistinct xs d) (contains-reverse xs x ∙ h))

  module _ (le : A → A → Bool) where
    contains-insert_sorted :
        (x : A) (ys : List A) (a : A)
        → contains (insert_sorted le x ys) a ≡ (x == a || contains ys a)
    unfolding contains insert_sorted
    contains-insert_sorted x [] a = refl
    contains-insert_sorted x (y ∷ ys) a = ground (arith, contains-insert_sorted x ys a)

    insert_sorted-IsDistinct :
        (x : A) (ys : List A)
        → contains ys x ≡ false
        → IsDistinct ys
        → IsDistinct (insert_sorted le x ys)
    unfolding contains insert_sorted
    insert_sorted-IsDistinct x [] h d = (refl, tt)
    insert_sorted-IsDistinct x (y ∷ ys) h (c, d) = ground (
      arith,
      contains-insert_sorted x ys y,
      beq_comm x y,
      insert_sorted-IsDistinct x ys (ground arith) d,
    )

    pub contains-sort_by : (xs : List A) (a : A) → contains (sort_by le xs) a ≡ contains xs a
    unfolding contains sort_by
    contains-sort_by [] a = refl
    contains-sort_by (x ∷ xs) a =
        ground (arith, contains-insert_sorted x (sort_by le xs) a, contains-sort_by xs a)

    pub sort_by-IsDistinct : (xs : List A) → IsDistinct xs → IsDistinct (sort_by le xs)
    unfolding sort_by
    sort_by-IsDistinct [] d = tt
    sort_by-IsDistinct (x ∷ xs) (h, d) =
        insert_sorted-IsDistinct x (sort_by le xs) (contains-sort_by xs x ∙ h)
          (sort_by-IsDistinct xs d)
