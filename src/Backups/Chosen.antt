-- ===== src/Backups/Chosen.antt =====
-- Which directories `prune` chooses to remove.
use open_vibe_host.Base.{
  ℕ, ◌<◌, String, Bool, true, false, not, ◌&&◌, Option, none, some, List, ◌≡◌, refl, sym, ap, ◌∙◌,
  arith, string_eq, contains, null, Bool-cases, inl, inr, is_some,
}
use mathlib.Core.Bool.{false≢true}
use open_vibe_host.Base.Sets.{contains-keep}
use open_vibe_host.Retention.{Dates, keep, text_le, parse_stamp}
use open_vibe_host.Retention.Policy.{keep_newest, keep-contains}
use open_vibe_host.Backups.{Recorded, get, is_good, good_dirs, goes, removals, planned, Pruning}

both_of : (a b : Bool) → (a && b) ≡ true → (a ≡ true) × (b ≡ true)
both_of true b h = (refl, h)
both_of false b h = absurd (false≢true h)

module _ (dates : Dates) (recorded : Recorded) (dirs : List String) (daily weekly : ℕ) where
  abbrev plan : Pruning
  plan = planned dates recorded dirs daily weekly

  abbrev policy : List String
  policy = keep dates (good_dirs dates recorded dirs daily weekly) daily weekly

  -- What may be removed: a directory that is recorded, and where its record is good, one that the
  -- policy does not keep.
  pub record IsRemovable (d : String) : Type 0 where
    pub listed : contains dirs d ≡ true
    pub known : is_some (get recorded d) ≡ true
    pub dropped : get recorded d ≡ some true → contains policy d ≡ false

  dropped_if :
      (o : Option Bool) (old kept : Bool)
      → (elim o [ none ↦ false | some true ↦ not kept | some false ↦ old ]) ≡ true
      → (is_some o ≡ true) × (o ≡ some true → kept ≡ false)
  dropped_if none old kept h = absurd (false≢true h)
  dropped_if (some true) old kept h = (refl, λ _. ground arith)
  dropped_if (some false) old kept h = (refl, λ e. cc)

  removed-Removable :
      (d : String) → contains (removals dates recorded dirs daily weekly) d ≡ true → IsRemovable d
  unfolding removals goes
  removed-Removable d h =
      let split = contains-keep (λ e. goes dates recorded dirs daily weekly e) dirs d in
      let parts = both_of (contains dirs d) _ (sym split ∙ h) in
      let (known, dropped) = dropped_if (get recorded d) _ (contains policy d) parts.1 in
      record { listed = parts.0; known = known; dropped = dropped }

  -- All that a plan removes may go.
  abbrev pub RemovesOnly : Pruning → Type 0
  RemovesOnly p = (d : String) → contains p.removed d ≡ true → IsRemovable d

  -- Of any good backup that was listed, with a stamp that is a date, one at least as new stays.
  abbrev pub Spares : Pruning → Type 0
  Spares p =
      (b : String)
      → 0 < daily
      → contains dirs b ≡ true
      → is_good recorded b ≡ true
      → is_some (parse_stamp dates b) ≡ true
      → (n : String) × (contains p.kept n ≡ true)
        × (is_good recorded n ≡ true)
        × (text_le b n ≡ true)

  pub planned-Removable : RemovesOnly plan
  unfolding planned contains
  planned-Removable d h = elim (Bool-cases (null (good_dirs dates recorded dirs daily weekly))) [
    | inl bare ↦ absurd (false≢true (rw bare at h))
    | inr some_good ↦ removed-Removable d (rw some_good at h)
  ]

  good_record : (n : String) → is_good recorded n ≡ true → get recorded n ≡ some true
  unfolding is_good
  good_record n g = go (get recorded n) g
    where
      go :
          (o : Option Bool)
          → (elim o as (λ _. Bool) [ some good ↦ good | none ↦ false ]) ≡ true
          → o ≡ some true
      go none h = absurd (false≢true h)
      go (some b) h = ap some h

  not_removed :
      (n : String)
      → contains policy n ≡ true
      → is_good recorded n ≡ true
      → contains (removals dates recorded dirs daily weekly) n ≡ false
  not_removed n k g = elim (Bool-cases (contains (removals dates recorded dirs daily weekly) n)) [
    | inr stays ↦ stays
    | inl gone ↦
        absurd (false≢true (sym ((removed-Removable n gone).dropped (good_record n g)) ∙ k))
  ]

  -- A directory that the policy keeps stays.
  policy_stays :
      (n : String)
      → contains policy n ≡ true
      → contains dirs n ≡ true
      → is_good recorded n ≡ true
      → contains plan.kept n ≡ true
  unfolding planned
  policy_stays n k l g = elim (Bool-cases (null (good_dirs dates recorded dirs daily weekly))) [
    | inl bare ↦ rw bare l
    | inr some_good ↦ rw some_good (
        contains-keep (λ d. not (contains (removals dates recorded dirs daily weekly) d)) dirs n
        ∙ rw (l, not_removed n k g) refl)
  ]

  -- Of any good backup, one at least as new stays, that is good too.
  pub planned-Spares : Spares plan
  unfolding good_dirs
  planned-Spares s pos l g valid =
      let among = λ (d : String). contains-keep (λ e. is_good recorded e) dirs d in
      let (n, k, newer) =
        keep_newest dates daily weekly (good_dirs dates recorded dirs daily weekly) s pos
          (among s ∙ rw (l, g) refl) valid in
      let given =
        (keep-contains dates daily weekly (good_dirs dates recorded dirs daily weekly) n k).0 in
      let (listed, good) = both_of (contains dirs n) (is_good recorded n) (sym (among n) ∙ given) in
      (n, policy_stays n k listed good, good, newer)
