-- ===== src/Base/Sorting/Greatest.antt =====
-- The last item of a sorted list is the greatest.
use mathlib.Core.List.{reverse-cons}
use open_vibe_host.Base.Lists.{All}
use open_vibe_host.Base.Sorting.{insert_sorted, sort_by}
use open_vibe_host.Base.Tests.{Eq, ◌==◌, beq_refl, contains, Bool-cases}
use mathlib.Core.Bool.{Bool, true, false, false≢true}
use mathlib.Core.Logic.{inl, inr}
use mathlib.Core.List.{List, [], ◌∷◌, ◌++◌, reverse}
use mathlib.Core.Path.{◌≡◌, refl, ◌∙◌, ap, subst}

module _ {A : Type 0} (le : A → A → Bool) where
  abbrev pub IsSorted : List A → Type 0
  IsSorted [] = Unit
  IsSorted (x ∷ xs) = All (λ y. le x y ≡ true) xs × IsSorted xs

  module _ (total : (a b : A) → le a b ≡ false → le b a ≡ true)
      (trans : (a b c : A) → le a b ≡ true → le b c ≡ true → le a c ≡ true) where
    All-trans :
        (x y : A) (ys : List A)
        → le x y ≡ true
        → All (λ z. le y z ≡ true) ys
        → All (λ z. le x z ≡ true) ys
    All-trans x y [] h a = tt
    All-trans x y (z ∷ zs) h (p, a) = (trans x y z h p, All-trans x y zs h a)

    All-insert_sorted :
        (x y : A) (ys : List A)
        → le y x ≡ true
        → All (λ z. le y z ≡ true) ys
        → All (λ z. le y z ≡ true) (insert_sorted le x ys)
    unfolding insert_sorted
    All-insert_sorted x y [] h a = (h, tt)
    All-insert_sorted x y (z ∷ zs) h (p, a) = elim (Bool-cases (le x z)) [
      | inl first ↦ rw first (h, (p, a))
      | inr later ↦ rw later (p, All-insert_sorted x y zs h a)
    ]

    insert_sorted-IsSorted : (x : A) (ys : List A) → IsSorted ys → IsSorted (insert_sorted le x ys)
    unfolding insert_sorted
    insert_sorted-IsSorted x [] s = (tt, tt)
    insert_sorted-IsSorted x (y ∷ ys) (a, s) = elim (Bool-cases (le x y)) [
      | inl first ↦ rw first ((first, All-trans x y ys first a), (a, s))
      | inr later ↦
          rw later (All-insert_sorted x y ys (total x y later) a, insert_sorted-IsSorted x ys s)
    ]

    pub sort_by-IsSorted : (xs : List A) → IsSorted (sort_by le xs)
    unfolding sort_by
    sort_by-IsSorted [] = tt
    sort_by-IsSorted (x ∷ xs) = insert_sorted-IsSorted x (sort_by le xs) (sort_by-IsSorted xs)

    le_refl : (a : A) → le a a ≡ true
    le_refl a = elim (Bool-cases (le a a)) [ inl h ↦ h | inr h ↦ total a a h ]

    pub reverse-greatest :
        ⦃e : Eq A⦄ (xs : List A) (a : A)
        → IsSorted xs
        → contains xs a ≡ true
        → (n : A) × (rest : List A) × (reverse xs ≡ n ∷ rest) × (le a n ≡ true)
    unfolding contains
    reverse-greatest [] a s c = absurd (false≢true c)
    reverse-greatest ⦃e⦄ (x ∷ []) a s c = elim (Bool-cases (x == a)) [
      | inl same ↦ (x, [], refl, subst (λ b. le b x ≡ true) ((e.beq_iff x a).0 same) (le_refl x))
      | inr other ↦ absurd (false≢true (rw other at c))
    ]
    reverse-greatest ⦃e⦄ (x ∷ y ∷ ys) a ((first, _), s) c =
        let behind = λ (t : List A). t ++ x ∷ [] in
        elim (Bool-cases (x == a)) [
          | inl same ↦
              let (n, rest, r, g) = reverse-greatest (y ∷ ys) y s (rw (beq_refl y) refl) in
              (
                n,
                rest ++ x ∷ [],
                reverse-cons x (y ∷ ys) ∙ ap behind r,
                subst (λ b. le b n ≡ true) ((e.beq_iff x a).0 same) (trans x y n first g),
              )
          | inr other ↦
              let (n, rest, r, g) = reverse-greatest (y ∷ ys) a s (rw other at c) in
              (n, rest ++ x ∷ [], reverse-cons x (y ∷ ys) ∙ ap behind r, g)
        ]
