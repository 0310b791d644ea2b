-- ===== src/Lock/Excludes.antt =====
-- `acquire` of lib/lock.js excludes: without dead owners, and where no release falls between a failed
-- creation and its read.
use open_vibe_host.Base.{ℕ, Bool, true, Option, none, some, ◌≡◌, ◌⊎◌}
use open_vibe_host.Lock.Race.{
  Point, starting, reading, checking, removing, retrying, holding, refused, released, Content,
  names, System,
}

module _ (alive : ℕ → Bool) where
  -- The lock file names a living process.
  abbrev Named : Option Content → Type 0
  Named f = (q : ℕ) × (f ≡ some (names q)) × (alive q ≡ true)

  -- What a lock file is for a process at a point.
  abbrev Fits : Option Content → ℕ → Point → Type 0
  Fits f p starting = Unit
  Fits f p reading = Named f
  Fits f p (checking q) = alive q ≡ true
  Fits f p removing = ⊥
  Fits f p retrying = ⊥
  Fits f p holding = f ≡ some (names p)
  Fits f p refused = Unit
  Fits f p released = Unit

  abbrev Fit : System → Type 0
  Fit s = (p : ℕ) → alive p ≡ true → Fits s.file p (s.points p)

  pub record IsGuarded (s : System) : Type 0 where
    pub named : (s.file ≡ none) ⊎ Named s.file
    pub fit : Fit s
