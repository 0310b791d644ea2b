-- ===== src/Examples/Runs.antt =====
-- What the operations of lib/ return, at runs on the small machine.
use open_vibe_host.Base.{
  ℕ, Bool, true, false, Option, none, some, List, [], ◌∷◌, ◌≡◌, refl, ◌⊎◌, contains, string_eq, ℤ,
  pos, All,
}
use open_vibe_host.Base.Text.{ends_with}
use open_vibe_host.Host.{M, State, ok, perform, Call}
use open_vibe_host.Host.Json.{Json, Fields}
use open_vibe_host.Host.Rules.{ran, Steps}
use open_vibe_host.Host.Rules.Issued.{Issued}
use open_vibe_host.Inventory.{Ready, http_json_count}
use open_vibe_host.Examples.Machine.{
  machine, computing, start, live, guard, inventory, sessions_page,
}
use open_vibe_host.Systemd.{
  restart, ensure_socket_active, enable, daemon_reload, reload_nginx, rebind_socket, rebind_reasons,
}
use open_vibe_host.Systemd.Classes.{IsSocketSafe, IsObservation}
use open_vibe_host.Systemd.Sockets.{Rebound, operations-IsSocketSafe, rebind_socket-Rebound}
use open_vibe_host.Probes.{Count, count_protected, count_one, add_fields, value_at}
use open_vibe_host.Probes.Laws.{Answered, count_one-Answered, HasNull, add_fields-null}
use open_vibe_host.Sessions.{Options, guard_sessions}
use open_vibe_host.Sessions.Guarded.{Justified, guard_sessions-Justified}
use open_vibe_host.Sessions.Looking.{guard_sessions-looks}
use open_vibe_host.DeployGuard.{wait_outside_lock, enough_memory}
use open_vibe_host.DeployGuard.Memory.{Enough, enough_memory-Enough}
use open_vibe_host.DeployGuard.Outside.{Made, taking, same-RunsWork, wait_outside_lock-frees}
use open_vibe_host.Readiness.{Waited, wait_ready}
use open_vibe_host.Readiness.Evidence.{Evidence, wait_ready-Evidence}
use open_vibe_host.Releases.{Logged, previous_for, brought}
use open_vibe_host.Releases.Previous.{LastBrought, previous_for-some, previous_for-none}
use open_vibe_host.Lock.{Held, acquire, lock_file}
use open_vibe_host.Lock.Created.{Created, acquire-Created}

abbrev patient : Options
patient = record { force = false; wait_idle = true }

abbrev guard_run : M ℕ (Unit {0})
guard_run = guard_sessions machine live patient (λ m. m) "before the restart"

guarded : (guard_run start).0 ≡ ok tt
unfolding guard_sessions computing
guarded = refl

guard_sessions-Justified_example :
    (c : Count) × (u : State ℕ) × (count_protected machine live start ≡ (ok c, u))
    × Justified machine live patient (λ m. m) same-RunsWork c
guard_sessions-Justified_example =
    guard_sessions-Justified machine live patient (λ m. m) same-RunsWork "before the restart" start
      (guard_run start).1 (ran guard_run start (ok tt) guarded)

guard_sessions-looks_example :
    Steps (Issued IsObservation) (guard_sessions machine live patient (λ m. m) "now")
guard_sessions-looks_example = guard_sessions-looks machine live patient "now"

abbrev wait_run : M ℕ Waited
wait_run = wait_ready machine live 0 (some "abcdef1234") live.units

abbrev good_wait : Waited
good_wait = record { ok = true; skipped = false; seconds = 0 }

waited : (wait_run start).0 ≡ ok good_wait
unfolding wait_ready computing
waited = refl

wait_ready-Evidence_example :
    ((live.ready ≡ none) × (good_wait.skipped ≡ true))
    ⊎ ((ready : Ready) × (live.ready ≡ some ready)
        × Evidence machine ready (some "abcdef1234") live.units)
wait_ready-Evidence_example =
    wait_ready-Evidence machine live 0 (some "abcdef1234") live.units good_wait start
      (wait_run start).1 (ran wait_run start (ok good_wait) waited) refl

operations-IsSocketSafe_example :
    Steps (Issued IsSocketSafe) (restart machine "live.socket")
    × Steps (Issued IsSocketSafe) (ensure_socket_active machine "live.socket")
    × Steps (Issued IsSocketSafe) (enable machine "live.socket")
    × Steps (Issued IsSocketSafe) (daemon_reload machine)
    × Steps (Issued IsSocketSafe) (reload_nginx machine)
operations-IsSocketSafe_example = operations-IsSocketSafe machine "live.socket"

abbrev rebind_run : M ℕ (Bool × Bool)
rebind_run = rebind_socket machine "live.service" "live.socket" "socket-not-held"

rebound : (rebind_run start).0 ≡ ok (true, true)
unfolding rebind_socket computing
rebound = refl

rebind_socket-Rebound_example :
    (contains rebind_reasons "socket-not-held" ≡ true)
    × (ends_with "live.service" ".service" ≡ true)
    × (ends_with "live.socket" ".socket" ≡ true)
    × Rebound machine "live.service" "live.socket" (true, true) start (rebind_run start).1
rebind_socket-Rebound_example =
    rebind_socket-Rebound machine "live.service" "live.socket" "socket-not-held" (true, true) start
      (rebind_run start).1 (ran rebind_run start (ok (true, true)) rebound)

abbrev log : List Logged
log =
    record { result = some "deployed"; from = some "a"; to = some "b" }
    ∷ record { result = some "refused"; from = some "b"; to = some "c" }
    ∷ record { result = some "deployed"; from = some "b"; to = some "c" }
    ∷ []

last_is_b : previous_for log "c" ≡ some "b"
unfolding previous_for brought
last_is_b = refl

previous_for-some_example : LastBrought log "c" "b"
previous_for-some_example = previous_for-some log "c" "b" last_is_b

none_brought : previous_for log "x" ≡ none
unfolding previous_for brought
none_brought = refl

previous_for-none_example : All (λ r. brought "x" r ≡ false) log
previous_for-none_example = previous_for-none log "x" none_brought

abbrev lock_run : M ℕ Held
lock_run = acquire machine inventory "live" 7

abbrev held : Held
held = record { file = "/var/lib/ovhost/locks/live.lock"; recovered_stale = false }

acquired : (lock_run start).0 ≡ ok held
unfolding acquire lock_file computing
acquired = refl

acquire-Created_example : Created machine inventory "live" 7 held (lock_run start).1
acquire-Created_example =
    acquire-Created machine inventory "live" 7 held start (lock_run start).1
      (ran lock_run start (ok held) acquired)

remembered : (enough_memory machine guard start).0 ≡ ok tt
unfolding enough_memory computing
remembered = refl

enough_memory-Enough_example : Enough machine guard (enough_memory machine guard start).1
enough_memory-Enough_example =
    enough_memory-Enough machine guard start (enough_memory machine guard start).1
      (ran (enough_memory machine guard) start (ok tt) remembered)

abbrev outside_run : M ℕ (Unit {0})
outside_run = wait_outside_lock machine guard live (perform machine (Call.sleep 5))

outside : (outside_run start).0 ≡ ok tt
unfolding wait_outside_lock computing
outside = refl

wait_outside_lock-frees_example :
    (u v : State ℕ) × Made machine guard live Call.release_deploy_lock tt start u
    × (u.host_lock ≡ false)
    × (perform machine (Call.sleep 5) u ≡ (ok tt, v))
    × Made machine guard live (taking machine guard live) tt v (outside_run start).1
    × ((outside_run start).1.host_lock ≡ true)
wait_outside_lock-frees_example =
    wait_outside_lock-frees machine guard live (perform machine (Call.sleep 5)) start
      (outside_run start).1 (ran outside_run start (ok tt) outside)

abbrev null_body : Json
null_body = Json.obj (Fields.field "n" Json.null Fields.end)

null_here : value_at machine null_body (some "n") ≡ some Json.null
unfolding value_at computing
null_here = refl

add_fields-null_example : add_fields machine null_body (pos 3) ("n" ∷ []) ≡ none
add_fields-null_example =
    add_fields-null machine null_body (pos 3) ("n" ∷ []) (HasNull.here null_here)

abbrev count_run : M ℕ (Option ℤ)
count_run = count_one machine (http_json_count sessions_page)

counted_two : (count_run start).0 ≡ ok (some (pos 2))
unfolding count_one computing
counted_two = refl

count_one-Answered_example : Answered machine sessions_page (pos 2) start (count_run start).1
count_one-Answered_example =
    count_one-Answered machine sessions_page (pos 2) start (count_run start).1
      (ran count_run start (ok (some (pos 2))) counted_two)
