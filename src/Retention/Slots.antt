-- ===== src/Retention/Slots.antt =====
-- The slots of a policy, against what they mean: a list of keys fills the first ones it names.
use open_vibe_host.Base.{
  ℕ, String, Bool, List, [], ◌∷◌, ◌++◌, map, ◌≡◌, refl, ap, ◌∙◌, arith, ◌&&◌, not, string_eq, ltb,
  ltb→lt, ltb→le, if◌then◌else◌, contains, length, length-append, take, take_all, length-take,
  take-append_le, Bool-cases, inl, inr,
}
use open_vibe_host.Base.Sets.{add, add_all, to_set, contains-add_all}
use open_vibe_host.Retention.{has_room}

-- The key of the item has none before it, and fewer than `limit` keys came before it.
unfoldable pub is_first : (String → String) → ℕ → List String → String → Bool
is_first key limit before s =
    not (contains (map key before) (key s)) && ltb (length (to_set (map key before))) limit

add_all-snoc :
    (taken xs : List String) (x : String) → add_all taken (xs ++ x ∷ []) ≡ add (add_all taken xs) x
unfolding add_all
add_all-snoc taken [] x = refl
add_all-snoc taken (y ∷ ys) x = add_all-snoc (add taken y) ys x

map-snoc :
    (key : String → String) (xs : List String) (x : String)
    → map key (xs ++ x ∷ []) ≡ map key xs ++ key x ∷ []
map-snoc key [] x = refl
map-snoc key (y ∷ ys) x = ap (λ t. key y ∷ t) (map-snoc key ys x)

-- A key takes a slot if it has none and one is free.
slot_step :
    (n : ℕ) (xs : List String) (k : String)
    → take n (add xs k)
      ≡ (if not (contains xs k) && ltb (length xs) n then add (take n xs) k else take n xs)
unfolding add
slot_step n xs k = elim (Bool-cases (contains xs k)) [
  | inl old ↦ rw old refl
  | inr new ↦ elim (Bool-cases (ltb (length xs) n)) [
    | inl room ↦
        let fits = ltb→lt (length xs) n room in
        rw (new, room, take_all n xs (omega arith), new)
          (take_all n (xs ++ k ∷ []) (omega (arith, length-append xs (k ∷ []))))
    | inr full ↦ rw (new, full) (take-append_le n xs (k ∷ []) (ltb→le (length xs) n full))
  ]
]

-- The keys that hold a slot after some items.
abbrev pub slots : (String → String) → ℕ → List String → List String
slots key limit before = take limit (to_set (map key before))

module _ (key : String → String) (limit : ℕ) (before : List String) (s : String) where
  abbrev seen : List String
  seen = to_set (map key before)

  contains-seen : contains seen (key s) ≡ contains (map key before) (key s)
  unfolding to_set contains
  contains-seen = contains-add_all (map key before) [] (key s)

  pub has_room_lem : has_room limit (slots key limit before) (key s) ≡ is_first key limit before s
  unfolding has_room is_first
  has_room_lem = elim (Bool-cases (ltb (length seen) limit)) [
    | inl room ↦
        rw (take_all limit seen (omega (arith, ltb→lt (length seen) limit room)))
          (ground (arith, contains-seen))
    | inr full ↦
        let taken = length-take limit seen (ltb→le (length seen) limit full) in
        ground (arith, taken)
  ]

  next_seen : to_set (map key (before ++ s ∷ [])) ≡ add seen (key s)
  unfolding to_set
  next_seen = ap to_set (map-snoc key before s) ∙ add_all-snoc [] (map key before) (key s)

  pub next_slots : slots key limit (before ++ s ∷ []) ≡ (
      if is_first key limit before s
      then add (slots key limit before) (key s)
      else slots key limit before)
  unfolding is_first
  next_slots =
      ap (take limit) next_seen
      ∙ slot_step limit seen (key s)
      ∙ ap
          (λ (b : Bool).
            if not b && ltb (length seen) limit
            then add (slots key limit before) (key s)
            else slots key limit before)
          contains-seen
