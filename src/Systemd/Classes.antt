-- ===== src/Systemd/Classes.antt =====
-- Classes of calls: those that stop no socket unit, and those that change nothing.
use open_vibe_host.Base.{
  String, Bool, true, false, ◌&&◌, ◌||◌, List, [], ◌∷◌, ◌==◌, string_eq, contains, contains_elim,
  arith, ◌≡◌,
}
use open_vibe_host.Base.Text.{ends_with}
use open_vibe_host.Host.{Call}

-- The verbs of systemctl after which a unit no longer runs as it did.
abbrev pub disruptive : List String
disruptive =
    "stop" ∷ "restart" ∷ "try-restart" ∷ "reload" ∷ "reload-or-restart" ∷ "kill" ∷ "disable"
    ∷ "mask" ∷ "isolate" ∷ "revert" ∷ "freeze" ∷ []

names_socket : List String → Bool
names_socket [] = false
names_socket (a ∷ args) = ends_with a ".socket" || names_socket args

unfoldable pub stops_socket : List String → Bool
unfolding names_socket contains
stops_socket [] = false
stops_socket (verb ∷ args) = contains disruptive verb && names_socket args

abbrev pub observing : List String
observing = "show" ∷ "list-units" ∷ "list-unit-files" ∷ []

unfoldable pub observes : List String → Bool
unfolding contains
observes [] = false
observes (verb ∷ args) = contains observing verb

-- A command that is no systemctl, or one that does not stop a socket unit.
abbrev pub IsSocketSafe : Call → Type 0
IsSocketSafe (Call.run c) = (c.cmd == "systemctl" && stops_socket c.args) ≡ false
IsSocketSafe _ = Unit {0}

-- A systemctl that only shows something, or another call that only looks or waits.
abbrev pub IsObservation : Call → Type 0
IsObservation (Call.run c) = (c.cmd == "systemctl" && observes c.args) ≡ true
IsObservation (Call.write_file _ _) = ⊥
IsObservation (Call.append_file _ _) = ⊥
IsObservation (Call.remove_file _) = ⊥
IsObservation (Call.symlink _ _) = ⊥
IsObservation (Call.mkdir _) = ⊥
IsObservation (Call.create_exclusive _ _) = ⊥
IsObservation (Call.acquire_deploy_lock _ _ _) = ⊥
IsObservation Call.release_deploy_lock = ⊥
IsObservation _ = Unit {0}

observes-stops_socket : (args : List String) → observes args ≡ true → stops_socket args ≡ false
unfolding observes stops_socket
observes-stops_socket (verb ∷ args) h =
    contains_elim (λ a. stops_socket (a ∷ args) ≡ false) observing verb (ground arith) h
observes-stops_socket [] h = ground arith

pub IsObservation-IsSocketSafe : (c : Call) → IsObservation c → IsSocketSafe c
IsObservation-IsSocketSafe (Call.run c) h =
    let safe : stops_socket c.args ≡ false = observes-stops_socket c.args (ground arith) in
    ground arith
IsObservation-IsSocketSafe (Call.read_file p) h = tt
IsObservation-IsSocketSafe _ h = tt

-- A command that is no systemctl at all, or another call.
abbrev pub IsPlain : Call → Type 0
IsPlain (Call.run c) = (c.cmd == "systemctl") ≡ false
IsPlain _ = Unit {0}

pub IsPlain-IsSocketSafe : (c : Call) → IsPlain c → IsSocketSafe c
IsPlain-IsSocketSafe (Call.run c) h = ground arith
IsPlain-IsSocketSafe (Call.read_file p) h = tt
IsPlain-IsSocketSafe _ h = tt
