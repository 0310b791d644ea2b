-- ===== src/Offsite/Remote.antt =====
-- `pruneRemote`: which runs are pruned off-host.
use open_vibe_host.Base.{
  ℕ, ◌+◌, ◌*◌, String, Bool, true, false, not, ◌||◌, Option, none, some, List, [], ◌∷◌, ◌++◌, ◌≡◌,
  ◌⊎◌, refl, sym, ◌∙◌, arith, map, ◌==◌, string_eq, if◌then◌else◌, contains, ltb, take,
  keep as filter, Bool-cases, All, length, beq_refl, zero, suc, ap, inl, inr, ℤ, pos_part, neg_part,
}
use mathlib.Core.Bool.{false≢true}
use open_vibe_host.Base.Sets.{add, contains-keep, contains-add, contains-append}
use open_vibe_host.Base.Text.{starts_with, split_on, slice_from}
use open_vibe_host.Base.Sorting.{sort_by}
use open_vibe_host.Base.Sorting.Greatest.{IsSorted, sort_by-IsSorted}
use open_vibe_host.Retention.{Dates, parse_stamp, is_stamp, text_le}
use open_vibe_host.Retention.Policy.{text_le_total, text_le_trans}
use Prim.Native.String

-- One run that `listRuns` found, as far as `pruneRemote` reads it.
pub record RemoteRun : Type 0 where
  pub run : String
  pub manifest : Bool
  pub keys : List String

abbrev pub min_keep_runs : ℕ
min_keep_runs = 7

-- `runs.get(run)`, noted and set again at its place, or a new run behind the others
put_key : String → Bool → String → List RemoteRun → List RemoteRun
put_key run manifest key [] = record { run = run; manifest = manifest; keys = key ∷ [] } ∷ []
put_key run manifest key (r ∷ rs) =
    if r.run == run
    then record r { manifest = r.manifest || manifest; keys = r.keys ++ key ∷ [] } ∷ rs
    else r ∷ put_key run manifest key rs

is_manifest : List String → Bool
is_manifest [] = false
is_manifest (name ∷ []) = name == "manifest.json"
is_manifest (name ∷ more ∷ rest) = false

-- One key that was listed, cut at its slashes behind the host's prefix.
note_key : List String → String → List RemoteRun → List RemoteRun
unfolding put_key is_manifest
note_key [] key runs = runs
note_key (run ∷ rest) key runs =
    if is_stamp run then put_key run (is_manifest rest) key runs else runs

grouped : ℕ → List String → List RemoteRun → List RemoteRun
unfolding note_key
grouped base [] runs = runs
grouped base (k ∷ ks) runs = grouped base ks (note_key (split_on b'/' (slice_from base k)) k runs)

-- The newest first.
newer : RemoteRun → RemoteRun → Bool
unfolding text_le
newer a b = text_le b.run a.run

-- The runs of a host, from the keys that the bucket lists below its prefix, in their order.
unfoldable pub list_runs : String → String → List String → List RemoteRun
unfolding grouped newer
list_runs prefix host listed =
    sort_by newer (
      grouped (String.count (String.◌++◌ prefix (String.◌++◌ "/" (String.◌++◌ host "/")))) listed
        [])

abbrev pub Among : RemoteRun → List RemoteRun → Type 0
Among r [] = ⊥
Among r (x ∷ xs) = (r ≡ x) ⊎ Among r xs

-- Strictly newer than a run.
abbrev pub IsLater : RemoteRun → RemoteRun → Type 0
IsLater r x = (text_le r.run x.run ≡ true) × ((x.run == r.run) ≡ false)

Among-keep :
    (r : RemoteRun) (xs : List RemoteRun)
    → r.manifest ≡ true
    → Among r xs
    → Among r (filter (λ x. x.manifest) xs)
Among-keep r [] m there = elim there [ ]
Among-keep r (x ∷ xs) m (inl same) =
    let its : x.manifest ≡ true = ap (λ (y : RemoteRun). y.manifest) (sym same) ∙ m in
    rw its (inl same)
Among-keep r (x ∷ xs) m (inr there) = elim (Bool-cases x.manifest) [
  | inl its ↦ rw its (inr (Among-keep r xs m there))
  | inr not ↦ rw not (Among-keep r xs m there)
]

All-keep :
    (P : RemoteRun → Type 0) (xs : List RemoteRun) → All P xs → All P (filter (λ x. x.manifest) xs)
All-keep P [] a = tt
All-keep P (x ∷ xs) (p, a) = elim (Bool-cases x.manifest) [
  | inl its ↦ rw its (p, All-keep _ xs a)
  | inr not ↦ rw not (All-keep _ xs a)
]

IsSorted-keep :
    (xs : List RemoteRun) → IsSorted newer xs → IsSorted newer (filter (λ x. x.manifest) xs)
IsSorted-keep [] s = tt
IsSorted-keep (x ∷ xs) (a, s) = elim (Bool-cases x.manifest) [
  | inl its ↦ rw its (All-keep _ xs a, IsSorted-keep xs s)
  | inr not ↦ rw not (IsSorted-keep xs s)
]

first-IsLater :
    (r : RemoteRun) (xs : List RemoteRun)
    → All (λ y. newer r y ≡ true) xs
    → (x : RemoteRun) → Among x xs
    → newer r x ≡ true
first-IsLater r [] a x there = elim there [ ]
first-IsLater r (y ∷ ys) (p, a) x (inl same) = ap (λ z. newer r z) same ∙ p
first-IsLater r (y ∷ ys) (p, a) x (inr there) = first-IsLater r ys a x there

-- What is behind the first `n` of a sorted list has `n` newer ones.
behind-IsLater :
    (n : ℕ) (xs : List RemoteRun) (r : RemoteRun)
    → IsSorted newer xs
    → Among r xs
    → contains (map (λ x. x.run) (take n xs)) r.run ≡ false
    → (length (take n xs) ≡ n) × All (IsLater r) (take n xs)
unfolding contains newer
behind-IsLater zero xs r s there c = (refl, tt)
behind-IsLater (suc n) [] r s there c = elim there [ ]
behind-IsLater (suc n) (x ∷ xs) r s (inl same) c =
    let its : (x.run == r.run) ≡ true =
      ap (λ (y : RemoteRun). y.run == r.run) (sym same) ∙ beq_refl r.run in
    absurd (ground arith)
behind-IsLater (suc n) (x ∷ xs) r (a, s) (inr there) c =
    let (long, all) = behind-IsLater n xs r s there (ground arith) in
    (ap suc long, ((first-IsLater x xs a r there, ground arith), all))

module _ (dates : Dates) (prefix host current : String) (listed : List String)
    (now retention_days : ℕ) where
  abbrev pub runs : List RemoteRun
  runs = list_runs prefix host listed

  -- The newest runs with a manifest.
  abbrev pub newest : List RemoteRun
  newest = take min_keep_runs (filter (λ r. r.manifest) runs)

  -- These and the run that was just made.
  unfoldable pub protected_runs : List String
  protected_runs = add (map (λ r. r.run) newest) current

  -- `at < cutoff`, for a cutoff of `now` less the days of retention
  is_before : ℤ → Bool
  is_before at = ltb (pos_part at + retention_days * 86400000) (now + neg_part at)

  unfoldable pub is_old : Option ℤ → Bool
  unfolding is_before
  is_old none = false
  is_old (some at) = is_before at

  -- `${cfg.prefix}/${host}/${run}/`
  unfoldable pub run_prefix : String → String
  run_prefix run =
      String.◌++◌ prefix
        (String.◌++◌ "/" (String.◌++◌ host (String.◌++◌ "/" (String.◌++◌ run "/"))))

  unfoldable pub deletes_of : RemoteRun → List String
  unfolding run_prefix is_old
  deletes_of r =
      if contains protected_runs r.run || not (is_old (parse_stamp dates r.run))
      then []
      else filter (λ k. starts_with k (run_prefix r.run)) r.keys

  deletes_in : List RemoteRun → List String
  deletes_in [] = []
  deletes_in (r ∷ rs) = deletes_of r ++ deletes_in rs

  -- The keys that are deleted, in order, where the bucket takes every request.
  unfoldable pub remote_deletes : List String
  unfolding deletes_in
  remote_deletes = deletes_in runs

  -- A run that may be pruned: it is not the one that was just made, it is older than the retention,
  -- and where it has a manifest, seven newer runs that were listed have one too.
  pub record IsPrunable (r : RemoteRun) : Type 0 where
    pub outlived : r.manifest ≡ true → (length newest ≡ min_keep_runs) × All (IsLater r) newest
    pub not_current : (current == r.run) ≡ false
    pub old : is_old (parse_stamp dates r.run) ≡ true

  list_runs-IsSorted : IsSorted newer runs
  unfolding list_runs newer
  list_runs-IsSorted =
      sort_by-IsSorted newer (λ a b. text_le_total b.run a.run)
        (λ a b c p q. text_le_trans c.run b.run a.run q p) _

  unprotected-IsPrunable :
      (r : RemoteRun)
      → Among r runs
      → (contains protected_runs r.run || not (is_old (parse_stamp dates r.run))) ≡ false
      → IsPrunable r
  unfolding protected_runs
  unprotected-IsPrunable r there h =
      let split = contains-add (map (λ (x : RemoteRun). x.run) newest) current r.run in
      record {
        outlived = λ m.
            behind-IsLater min_keep_runs (filter (λ x. x.manifest) runs) r
              (IsSorted-keep runs list_runs-IsSorted) (Among-keep r runs m there) (ground arith);
        not_current = ground arith;
        old = ground arith;
      }

  deletes_of-IsPrunable :
      (r : RemoteRun) (k : String)
      → Among r runs
      → contains (deletes_of r) k ≡ true
      → IsPrunable r × (contains r.keys k ≡ true) × (starts_with k (run_prefix r.run) ≡ true)
  unfolding deletes_of contains
  deletes_of-IsPrunable r k there h =
      elim (Bool-cases (contains protected_runs r.run || not (is_old (parse_stamp dates r.run)))) [
        | inl stays ↦ absurd (false≢true (rw stays at h))
        | inr goes ↦
            let found =
              sym (contains-keep (λ x. starts_with x (run_prefix r.run)) r.keys k)
              ∙ (rw goes at h) in
            (unprotected-IsPrunable r there goes, ground (arith, found), ground (arith, found))
      ]

  deletes_in-IsPrunable :
      (rs : List RemoteRun) (k : String)
      → ((r : RemoteRun) → Among r rs → Among r runs)
      → contains (deletes_in rs) k ≡ true
      → (r : RemoteRun) × Among r rs
        × IsPrunable r
        × (contains r.keys k ≡ true)
        × (starts_with k (run_prefix r.run) ≡ true)
  unfolding deletes_in contains
  deletes_in-IsPrunable [] k sub h = absurd (false≢true h)
  deletes_in-IsPrunable (x ∷ xs) k sub h = elim (Bool-cases (contains (deletes_of x) k)) [
    | inl here ↦
        let (may, held, begins) = deletes_of-IsPrunable x k (sub x (inl refl)) here in
        (x, inl refl, may, held, begins)
    | inr later ↦
        let (r, there, may, held, begins) =
          deletes_in-IsPrunable xs k (λ r m. sub r (inr m))
            (rw later at (sym (contains-append (deletes_of x) (deletes_in xs) k) ∙ h)) in
        (r, inr there, may, held, begins)
  ]

  -- Each key that is deleted off-host is a key of a run that was listed and is not the run just made nor
  -- younger than the retention; where that run has a manifest, seven newer runs that were listed have
  -- one too; and the key begins with the prefix of that run.
  pub remote_deletes-IsPrunable :
      (k : String)
      → contains remote_deletes k ≡ true
      → (r : RemoteRun) × Among r runs
        × IsPrunable r
        × (contains r.keys k ≡ true)
        × (starts_with k (run_prefix r.run) ≡ true)
  unfolding remote_deletes
  remote_deletes-IsPrunable k h = deletes_in-IsPrunable runs k (λ r m. m) h
