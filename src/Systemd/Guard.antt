-- ===== src/Systemd/Guard.antt =====
-- The systemctl calls of lib/systemd.js: what class each is of, so that no operation but the rebind
-- stops a socket unit.
use open_vibe_host.Base.{
  ℕ, String, true, false, not, ◌&&◌, Option, none, some, contains, contains_elim, arith, ◌≡◌, refl,
  string_eq, Bool, Bool-cases, inl, inr, List,
}
use open_vibe_host.Host.{Env, Call, State}
use open_vibe_host.Host.Rules.{Allows, Allows-weaken, Steps, Steps-throw, Steps-if, steps_rules}
use open_vibe_host.Systemd.{
  socket_safe_actions, allowed_actions, read_only_actions, is_socket, systemctl_args,
  systemctl_command, systemctl, show, instances, restart, ensure_socket_active, list_unit_files,
  enable, socket_held, daemon_reload, reload_nginx,
}
use open_vibe_host.Systemd.Classes.{
  stops_socket, observes, observing, IsSocketSafe, IsObservation, IsObservation-IsSocketSafe,
}

-- A verb that is allowed on socket units is none that stops one.
args_safe_verb :
    (action : String) (unit : Option String)
    → contains socket_safe_actions action ≡ true
    → stops_socket (systemctl_args action unit) ≡ false
unfolding stops_socket systemctl_args
args_safe_verb action unit h =
    contains_elim (λ a. stops_socket (systemctl_args a unit) ≡ false) socket_safe_actions action
      (ground arith) h

-- An allowed verb on a unit that is no socket names no socket.
args_safe_unit :
    (action : String) (unit : Option String)
    → is_socket unit ≡ false
    → contains allowed_actions action ≡ true
    → stops_socket (systemctl_args action unit) ≡ false
unfolding stops_socket systemctl_args is_socket
args_safe_unit action none k h =
    contains_elim (λ a. stops_socket (systemctl_args a none) ≡ false) allowed_actions action
      (ground arith) h
args_safe_unit action (some unit) k h =
    contains_elim (λ a. stops_socket (systemctl_args a (some unit)) ≡ false) allowed_actions action
      (ground arith) h

command_safe :
    (args : List String) (privileged : Bool)
    → stops_socket args ≡ false
    → IsSocketSafe (Call.run (systemctl_command args privileged))
unfolding systemctl_command
command_safe args privileged h = h

command_observes :
    (args : List String) (privileged : Bool)
    → observes args ≡ true
    → IsObservation (Call.run (systemctl_command args privileged))
unfolding systemctl_command
command_observes args privileged h = h

args_safe :
    (action : String) (unit : Option String)
    → contains allowed_actions action ≡ true
    → (is_socket unit && not (contains socket_safe_actions action)) ≡ false
    → stops_socket (systemctl_args action unit) ≡ false
args_safe action unit allowed h = elim (Bool-cases (is_socket unit)) [
  | inl socket ↦ args_safe_verb action unit (ground arith)
  | inr other ↦ args_safe_unit action unit other allowed
]

-- Showing a unit observes it, whatever the unit.
args_observe :
    (action : String) (unit : Option String)
    → contains observing action ≡ true
    → observes (systemctl_args action unit) ≡ true
unfolding observes systemctl_args
args_observe action unit h =
    contains_elim (λ a. observes (systemctl_args a unit) ≡ true) observing action
      (refl, (refl, (refl, tt))) h

observing_safe :
    (action : String)
    → contains observing action ≡ true
    → contains socket_safe_actions action ≡ true
unfolding contains
observing_safe action h =
    contains_elim (λ a. contains socket_safe_actions a ≡ true) observing action
      (refl, (refl, (refl, tt))) h

module _ {H : Type 0} (env : Env H) {R : State H → State H → Type 0} where
  -- Whatever the action and the unit, `systemctl` runs no command that stops a socket unit.
  pub systemctl-Steps :
      (safe : Allows env IsSocketSafe R) (action : String) (unit : Option String)
      → Steps R (systemctl env action unit)
  unfolding systemctl
  systemctl-Steps safe action unit = elim (Bool-cases (contains allowed_actions action)) [
    | inr refused ↦ rw refused (Steps-throw safe.pre _)
    | inl allowed ↦ rw allowed (
        Steps-if (is_socket unit && not (contains socket_safe_actions action)) _ _
          (λ _. Steps-throw safe.pre _)
          (λ e.
            safe.each
              (Call.run (
                systemctl_command (systemctl_args action unit)
                  (not (contains read_only_actions action))))
              (command_safe _ _ (args_safe action unit allowed e))))
  ]

  pub systemctl-Steps_look :
      (look : Allows env IsObservation R) (action : String) (unit : Option String)
      → contains observing action ≡ true
      → Steps R (systemctl env action unit)
  unfolding systemctl
  systemctl-Steps_look look action unit h =
      Steps-if (not (contains allowed_actions action)) _ _ (λ _. Steps-throw look.pre _)
        (λ _.
          Steps-if (is_socket unit && not (contains socket_safe_actions action)) _ _
            (λ _. Steps-throw look.pre _)
            (λ _.
              look.each
                (Call.run (
                  systemctl_command (systemctl_args action unit)
                    (not (contains read_only_actions action))))
                (command_observes _ _ (args_observe action unit h))))

module _ {H : Type 0} (env : Env H) {R : State H → State H → Type 0}
    (look : Allows env IsObservation R) where
  ruleset look_rules = (steps_rules, systemctl-Steps_look)

  pub show-Steps : (unit : String) → Steps R (show env unit)
  unfolding show contains
  show-Steps unit = search (look_rules, look.pre) depth 7

  pub instances-Steps : (unit : String) → Steps R (instances env unit)
  unfolding instances contains
  instances-Steps unit = search (look_rules, look.pre) depth 7

  pub list_unit_files-Steps : (glob : String) → Steps R (list_unit_files env glob)
  unfolding list_unit_files contains
  list_unit_files-Steps glob = search (look_rules, look.pre) depth 7

  pub socket_held-Steps : (port : ℕ) → Steps R (socket_held env port)
  unfolding socket_held
  socket_held-Steps port = search (steps_rules, look.pre, look.each) depth 7

module _ {H : Type 0} (env : Env H) {R : State H → State H → Type 0}
    (safe : Allows env IsSocketSafe R) where
  ruleset safe_rules = (steps_rules, systemctl-Steps, show-Steps)

  look : Allows env IsObservation R
  look = Allows-weaken IsObservation-IsSocketSafe safe

  pub restart-Steps : (unit : String) → Steps R (restart env unit)
  unfolding restart
  restart-Steps unit = search (safe_rules, safe.pre) depth 7

  pub ensure_socket_active-Steps : (unit : String) → Steps R (ensure_socket_active env unit)
  unfolding ensure_socket_active
  ensure_socket_active-Steps unit = search (safe_rules, safe.pre, look) depth 9

  pub enable-Steps : (unit : String) → Steps R (enable env unit)
  unfolding enable
  enable-Steps unit = search (safe_rules, safe.pre) depth 7

  pub daemon_reload-Steps : Steps R (daemon_reload env)
  unfolding daemon_reload
  daemon_reload-Steps = search (safe_rules, safe.pre) depth 7

  pub reload_nginx-Steps : Steps R (reload_nginx env)
  unfolding reload_nginx
  reload_nginx-Steps = search (safe_rules, safe.pre) depth 7
