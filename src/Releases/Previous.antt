-- ===== src/Releases/Previous.antt =====
-- Which release a rollback without a target returns to.
use open_vibe_host.Base.{
  String, true, false, none, some, List, [], ◌∷◌, ◌++◌, reverse, ◌≡◌, All, arith, Bool-cases, inl,
  inr, ◌∙◌, ◌≢◌,
}
use mathlib.Core.List.{reverse-cons, reverse-reverse, append-nil, append_assoc}
use mathlib.Core.Path.{subst}
use open_vibe_host.Releases.{Logged, brought, last_from, previous_for}

-- The log is split at the last record that brought the checkout to `current` from elsewhere.
pub record LastBrought (records : List Logged) (current from : String) : Type 0 where
  pub earlier : List Logged
  pub it : Logged
  pub later : List Logged
  pub split : records ≡ earlier ++ it ∷ later
  pub brings : brought current it ≡ true
  pub its_from : it.from ≡ some from
  pub none_later : All (λ r. brought current r ≡ false) later

brought-from : (current : String) (r : Logged) → brought current r ≡ true → r.from ≢ none
unfolding brought
brought-from current r h = ground arith

last_from-none :
    (current : String) (rs : List Logged)
    → last_from current rs ≡ none
    → All (λ r. brought current r ≡ false) rs
unfolding last_from
last_from-none current [] h = tt
last_from-none current (r ∷ rs) h =
    ground (arith, brought-from current r, last_from-none current rs)

reverse-shift :
    (r : Logged) (rs later : List Logged) → reverse (r ∷ rs) ++ later ≡ reverse rs ++ r ∷ later
reverse-shift r rs later = simp (reverse-cons, append_assoc)

last_from-some :
    (current from : String) (rs later : List Logged)
    → last_from current rs ≡ some from
    → All (λ r. brought current r ≡ false) later
    → LastBrought (reverse rs ++ later) current from
unfolding last_from
last_from-some current from [] later h k = cc
last_from-some current from (r ∷ rs) later h k = elim (Bool-cases (brought current r)) [
  | inl brings ↦ record {
    earlier = reverse rs;
    it = r;
    later = later;
    split = reverse-shift r rs later;
    brings = brings;
    its_from = ground arith;
    none_later = k;
  }
  | inr other ↦
      rw (reverse-shift r rs later)
        (last_from-some current from rs (r ∷ later) (ground arith) (other, k))
]

All-reverse :
    (P : Logged → Type 0) (rs later : List Logged)
    → All P rs
    → All P later
    → All P (reverse rs ++ later)
All-reverse P [] later h k = k
All-reverse P (r ∷ rs) later (p, h) k =
    rw (reverse-shift r rs later) (All-reverse P rs (r ∷ later) h (p, k))

-- The release that `previousFor` names is the `from` of the last deployed record that brought the
-- checkout to the current commit from another one.
pub previous_for-some :
    (records : List Logged) (current from : String)
    → previous_for records current ≡ some from
    → LastBrought records current from
unfolding previous_for
previous_for-some records current from h =
    subst (λ l. LastBrought l current from) (append-nil _ ∙ reverse-reverse records)
      (last_from-some current from (reverse records) [] h tt)

-- It names none exactly where no record brought the checkout to the current commit.
pub previous_for-none :
    (records : List Logged) (current : String)
    → previous_for records current ≡ none
    → All (λ r. brought current r ≡ false) records
unfolding previous_for
previous_for-none records current h =
    subst (λ l. All (λ r. brought current r ≡ false) l) (append-nil _ ∙ reverse-reverse records)
      (All-reverse _ (reverse records) [] (last_from-none current (reverse records) h) tt)
