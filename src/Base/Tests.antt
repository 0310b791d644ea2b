-- ===== src/Base/Tests.antt =====
-- Boolean tests on numbers and texts, the conditional, and case analysis that keeps the equation.
use Prim.Native.Nat.{ℕ, ◌≤◌, ◌<◌, compare, Ordering}
use Prim.Native.String.{String}
use mathlib.Core.Path.{◌≡◌, refl, subst, sym, ◌∙◌}
use mathlib.Core.Logic.{◌↔◌, ◌≢◌, ◌⊎◌, inl, inr}
use mathlib.Core.Bool.{Bool, true, false, not, ◌||◌, false≢true}
use open_vibe_host.Base.Lists.{All}
use mathlib.Core.Option.{Option, none, some}
use mathlib.Core.List.{List, [], ◌∷◌}
use native.Mathlib.Omega.{arith}
use text.Mathlib.Text.{◌==◌ as str_beq}
use text.Mathlib.TextEquality.{eq_iff}

abbrev pub ltb : ℕ → ℕ → Bool
ltb a b = elim (compare a b) [ Ordering.lt ↦ true | _ ↦ false ]

abbrev pub leb : ℕ → ℕ → Bool
leb a b = elim (compare a b) [ Ordering.gt ↦ false | _ ↦ true ]

abbrev pub nat_beq : ℕ → ℕ → Bool
nat_beq a b = elim (compare a b) [ Ordering.eq ↦ true | _ ↦ false ]

pub nat_beq_iff : (a b : ℕ) → (nat_beq a b ≡ true) ↔ (a ≡ b)
nat_beq_iff a b = ground arith

infix 1 if◌then◌else◌
abbrev pub if◌then◌else◌ {ℓ} : {A : Type ℓ} → Bool → A → A → A
if true then x else y = x
if false then x else y = y

pub ltb→lt : (a b : ℕ) → ltb a b ≡ true → a < b
ltb→lt a b h = ground arith

pub ltb→le : (a b : ℕ) → ltb a b ≡ false → b ≤ a
ltb→le a b h = ground arith

pub leb→le : (a b : ℕ) → leb a b ≡ true → a ≤ b
leb→le a b h = ground arith

pub leb→gt : (a b : ℕ) → leb a b ≡ false → b < a
leb→gt a b h = ground arith

pub lt→ltb : (a b : ℕ) → a < b → ltb a b ≡ true
lt→ltb a b h = ground arith

pub le→ltb : (a b : ℕ) → b ≤ a → ltb a b ≡ false
le→ltb a b h = ground arith

-- Equality tests on the types that the program compares with `===`.
pub record Eq (A : Type 0) : Type 0 where
  pub beq : A → A → Bool
  pub beq_iff : (a b : A) → (beq a b ≡ true) ↔ (a ≡ b)

infix 50 ◌==◌
abbrev pub ◌==◌ : {A : Type 0} ⦃e : Eq A⦄ → A → A → Bool
◌==◌ ⦃e⦄ = e.beq

instance abbrev pub nat_eq : Eq ℕ
nat_eq = record { beq = nat_beq; beq_iff = nat_beq_iff }

instance abbrev pub string_eq : Eq String
string_eq = record { beq = str_beq; beq_iff = eq_iff }

pub beq_refl : {A : Type 0} ⦃e : Eq A⦄ (a : A) → (a == a) ≡ true
beq_refl ⦃e⦄ a = (e.beq_iff a a).1 refl

-- `xs.includes(a)`
unfoldable pub contains : {A : Type 0} ⦃e : Eq A⦄ → List A → A → Bool
contains [] a = false
contains (x ∷ xs) a = x == a || contains xs a

pub Bool-cases : (b : Bool) → (b ≡ true) ⊎ (b ≡ false)
Bool-cases true = inl refl
Bool-cases false = inr refl

pub Option-cases {ℓ} : {A : Type ℓ} (o : Option A) → (o ≡ none) ⊎ ((a : A) × (o ≡ some a))
Option-cases none = inl refl
Option-cases (some a) = inr (a, refl)

abbrev pub is_some {ℓ} : {A : Type ℓ} → Option A → Bool
is_some none = false
is_some (some a) = true

-- A nullish text that is tested for truth: `null`, `undefined` and "" are false.
abbrev pub truthy : Option String → Bool
truthy none = false
truthy (some s) = if str_beq s "" then false else true

-- What holds of every item of a list holds of what the list contains.
pub contains_elim :
    {A : Type 0} ⦃e : Eq A⦄ (P : A → Type 0) (xs : List A) (a : A)
    → All P xs
    → contains xs a ≡ true
    → P a
unfolding contains
contains_elim P [] a h c = absurd (false≢true c)
contains_elim ⦃e⦄ P (x ∷ xs) a (p, h) c = elim (Bool-cases (x == a)) [
  | inl same ↦ subst P ((e.beq_iff x a).0 same) p
  | inr other ↦ contains_elim P xs a h (rw other at c)
]

-- The branch that a negated test takes, applied.
pub take_else :
    {A B : Type 0} (b : Bool) (x y : A → B) (a : A) (r : B)
    → b ≡ true
    → (if not b then x else y) a ≡ r
    → y a ≡ r
take_else true x y a r h e = e
take_else false x y a r h e = absurd (false≢true h)

pub take_then :
    {A B : Type 0} (b : Bool) (x y : A → B) (a : A) (r : B)
    → b ≡ false
    → (if not b then x else y) a ≡ r
    → x a ≡ r
take_then true x y a r h e = absurd (false≢true (sym h))
take_then false x y a r h e = e

pub not_both : (b : Bool) → b ≡ true → b ≢ false
not_both b p q = false≢true (sym q ∙ p)
