-- ===== src/Examples/Waits.antt =====
-- The loops that wait and the race for the lock file of lib/, at concrete inputs.
use open_vibe_host.Base.{ℕ, zero, suc, Bool, true, false, none, some, ◌≡◌, refl, nat_beq, arith}
use open_vibe_host.Host.Rules.{Steps}
use open_vibe_host.Host.Rules.Clock.{Ongoing}
use open_vibe_host.Examples.Machine.{machine, machine-Clock, live, guard}
use open_vibe_host.Sessions.{Options, guard_sessions}
use open_vibe_host.Sessions.Looking.{guard_sessions-Ongoing}
use open_vibe_host.DeployGuard.{wait_outside_lock}
use open_vibe_host.DeployGuard.Outside.{wait_outside_lock-KeepsTime}
use open_vibe_host.Lock.Race.{
  starting, reading, checking, refused, holding, released, names, System, Reaches, move, Always,
  unlocked,
}
use open_vibe_host.Lock.Unread.{Reaches-both_live}
use open_vibe_host.Lock.Stale.{Reaches-both}

abbrev patient : Options
patient = record { force = false; wait_idle = true }

guard_sessions-Ongoing_example :
    Steps
      (Ongoing machine-Clock)
      (guard_sessions machine live patient (wait_outside_lock machine guard live) "now")
guard_sessions-Ongoing_example =
    guard_sessions-Ongoing machine-Clock live (omega arith) patient
      (wait_outside_lock machine guard live)
      (wait_outside_lock-KeepsTime machine guard live machine-Clock) "now"

abbrev all_living : ℕ → Bool
all_living n = true

-- The processes 0 and 2 live.
abbrev small : ℕ → Bool
small zero = true
small (suc n) = nat_beq n 1

-- 0 meets the lock of 2 and is refused; 2 releases it, and 0 comes again and takes it.
abbrev taken : System
taken = record { file = some (names 2); points = move 2 holding unlocked.points }

abbrev met : System
met = record { file = some (names 2); points = move 0 reading taken.points }

abbrev checked : System
checked = record { file = some (names 2); points = move 0 (checking 2) met.points }

abbrev turned_away : System
turned_away = record { file = some (names 2); points = move 0 refused checked.points }

abbrev let_go : System
let_go = record { file = none; points = move 2 released turned_away.points }

abbrev back : System
back = record { file = none; points = move 0 starting let_go.points }

abbrev taken_again : System
taken_again = record { file = some (names 0); points = move 0 holding back.points }

Reaches-both_live_example :
    (t : System) × Reaches all_living Always unlocked t
    × (t.points 0 ≡ holding)
    × (t.points 2 ≡ holding)
Reaches-both_live_example =
    Reaches-both_live all_living 0 1 2 (omega arith) (omega arith) (omega arith) refl refl refl

Reaches-both_example :
    (t : System) × Reaches small Always (record { file = some (names 5); points = λ _. starting }) t
    × (t.points 0 ≡ holding)
    × (t.points 2 ≡ holding)
Reaches-both_example = Reaches-both small 0 2 5 (omega arith) refl refl refl
