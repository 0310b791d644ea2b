-- ===== src/Lock/Race.antt =====
-- `acquire` and `release` of lib/lock.js run by several processes at once: each awaited call is one
-- step, on one lock file, with the calls of the others between them.
use open_vibe_host.Base.{ℕ, Bool, true, Option, none, some, if◌then◌else◌, nat_beq, ◌≡◌, ◌≢◌, ◌⊎◌}

-- Where a process is in `acquire`, or in the operation that the lock protects.
pub data Point : Type 0 where
  -- before the first `createExclusive`
  starting : Point
  -- before `readFile`
  reading : Point
  -- before `pidAlive` of the pid that was read
  checking : ℕ → Point
  -- before `removeFile`
  removing : Point
  -- before the second `createExclusive`
  retrying : Point
  holding : Point
  -- a LockedError was thrown
  refused : Point
  released : Point

-- What a lock file holds: the pid of its owner, or a text that is no JSON or has no pid.
pub data Content : Type 0 where
  names : ℕ → Content
  unreadable : Content

-- The lock file, `none` where there is none, and the point of each process.
pub record System : Type 0 where
  pub file : Option Content
  pub points : ℕ → Point

abbrev pub move : ℕ → Point → (ℕ → Point) → ℕ → Point
move p x points q = if nat_beq p q then x else points q

-- `alive` is what `pidAlive` answers, and only a living process takes steps; `may_release` is true
-- of the states where a holder releases the lock.
pub data Step (alive : ℕ → Bool) (may_release : System → Type 0) : System → System → Type 0 where
  creates :
      (p : ℕ) (points : ℕ → Point)
      → alive p ≡ true
      → points p ≡ starting
      → Step alive may_release
          (record { file = none; points = points })
          (record { file = some (names p); points = move p holding points })
  meets :
      (p : ℕ) (c : Content) (points : ℕ → Point)
      → alive p ≡ true
      → points p ≡ starting
      → Step alive may_release
          (record { file = some c; points = points })
          (record { file = some c; points = move p reading points })
  reads :
      (p q : ℕ) (points : ℕ → Point)
      → alive p ≡ true
      → points p ≡ reading
      → Step alive may_release
          (record { file = some (names q); points = points })
          (record { file = some (names q); points = move p (checking q) points })
  reads_unreadable :
      (p : ℕ) (points : ℕ → Point)
      → alive p ≡ true
      → points p ≡ reading
      → Step alive may_release
          (record { file = some unreadable; points = points })
          (record { file = some unreadable; points = move p removing points })
  reads_nothing :
      (p : ℕ) (points : ℕ → Point)
      → alive p ≡ true
      → points p ≡ reading
      → Step alive may_release
          (record { file = none; points = points })
          (record { file = none; points = move p removing points })
  checks :
      (p q : ℕ) (s : System)
      → alive p ≡ true
      → s.points p ≡ checking q
      → Step alive may_release s
          (record s { points = move p (if alive q then refused else removing) s.points })
  removes :
      (p : ℕ) (s : System)
      → alive p ≡ true
      → s.points p ≡ removing
      → Step alive may_release s (record { file = none; points = move p retrying s.points })
  recreates :
      (p : ℕ) (points : ℕ → Point)
      → alive p ≡ true
      → points p ≡ retrying
      → Step alive may_release
          (record { file = none; points = points })
          (record { file = some (names p); points = move p holding points })
  is_late :
      (p : ℕ) (c : Content) (points : ℕ → Point)
      → alive p ≡ true
      → points p ≡ retrying
      → Step alive may_release
          (record { file = some c; points = points })
          (record { file = some c; points = move p refused points })
  releases :
      (p : ℕ) (s : System)
      → alive p ≡ true
      → s.points p ≡ holding
      → may_release s
      → Step alive may_release s (record { file = none; points = move p released s.points })
  -- The next `acquire` of a process whose last one is over.
  begins_again :
      (p : ℕ) (s : System)
      → alive p ≡ true
      → (s.points p ≡ released) ⊎ (s.points p ≡ refused)
      → Step alive may_release s (record s { points = move p starting s.points })

pub data Reaches (alive : ℕ → Bool) (may_release : System → Type 0) (s : System)
    : System → Type 0 where
  here : Reaches alive may_release s s
  then_step :
      (t u : System)
      → Reaches alive may_release s t
      → Step alive may_release t u
      → Reaches alive may_release s u

-- No lock file, and no process in `acquire`.
abbrev pub unlocked : System
unlocked = record { file = none; points = λ _. starting }

-- The code releases whenever its operation is over.
abbrev pub Always : System → Type 0
Always s = Unit

-- No living process has met the lock file and is yet to read it.
abbrev pub Unmet : (ℕ → Bool) → System → Type 0
Unmet alive s = (q : ℕ) → alive q ≡ true → s.points q ≢ reading
