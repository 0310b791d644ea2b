-- ===== src/Lock/Steps.antt =====
-- What lib/lock.js does to the machine: files, a pid and a clock.
use open_vibe_host.Base.{ℕ, String, false, Option, none, some}
use open_vibe_host.Host.{Env, Call, State}
use open_vibe_host.Host.Json.{Json, is_truthy}
use open_vibe_host.Host.Rules.{Allows, Steps, Steps-pure, Steps-if, steps_rules}
use open_vibe_host.Inventory.{Inventory}
use open_vibe_host.Systemd.Classes.{IsPlain}
use open_vibe_host.Probes.{value_at}
use open_vibe_host.Lock.{
  Held, read_holder, pid_alive_if, holder_alive, take_stale, acquire, release,
}

module _ {H : Type 0} (env : Env H) {R : State H → State H → Type 0}
    (plain : Allows env IsPlain R) where
  read_holder-Steps : (file : String) → Steps R (read_holder env file)
  unfolding read_holder
  read_holder-Steps file = search (steps_rules, plain.pre, plain.each) depth 8

  pid_alive_if-Steps : (pid : Option Json) → Steps R (pid_alive_if env pid)
  unfolding pid_alive_if
  pid_alive_if-Steps none = Steps-pure plain.pre false
  pid_alive_if-Steps (some pid) =
      Steps-if (is_truthy (some pid)) _ _ (λ _. plain.each (Call.pid_alive pid) tt)
        (λ _. Steps-pure plain.pre false)

  holder_alive-Steps : (holder : Json) → Steps R (holder_alive env holder)
  unfolding holder_alive
  holder_alive-Steps holder = pid_alive_if-Steps (value_at env holder (some "pid"))

  take_stale-Steps : (file body : String) → Steps R (take_stale env file body)
  unfolding take_stale
  take_stale-Steps file body = search (steps_rules, plain.pre, plain.each) depth 8

  pub acquire-Steps : (inv : Inventory) (id : String) (pid : ℕ) → Steps R (acquire env inv id pid)
  unfolding acquire
  acquire-Steps inv id pid =
      search
        (
          read_holder-Steps, holder_alive-Steps, take_stale-Steps, steps_rules, plain.pre,
          plain.each,
        )
        depth 12

  pub release-Steps : (held : Held) → Steps R (release env held)
  unfolding release
  release-Steps held = plain.each (Call.remove_file held.file) tt
