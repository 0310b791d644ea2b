-- ===== src/Systemd.antt =====
-- lib/systemd.js: every systemctl call, behind the guard that keeps socket units up.
pub mod Classes
pub mod Guard
pub mod Sockets
use Prim.Native.String
use open_vibe_host.Base.{
  ℕ, String, Bool, true, false, not, ◌&&◌, ◌||◌, Option, none, some, List, [], ◌∷◌, ◌++◌, map, ◌==◌,
  nat_eq, string_eq, if◌then◌else◌, contains, truthy, any, keep, ℤ, pos,
}
use open_vibe_host.Base.Text.{ends_with, split_on, cut_at, trim, words, strip_suffix}
use open_vibe_host.Host.{
  Env, M, Call, Command, Output, Listener, failed, socket_guard_error, pure, throw, perform, ◌>>=◌,
  ◌>>◌,
}
use open_vibe_host.Host.Json

-- SOCKET_SAFE_ACTIONS, ALLOWED_ACTIONS, READ_ONLY_ACTIONS and PROPS
abbrev pub socket_safe_actions : List String
socket_safe_actions =
    "show" ∷ "is-active" ∷ "is-enabled" ∷ "start" ∷ "enable" ∷ "cat" ∷ "status" ∷ "list-units"
    ∷ "list-unit-files" ∷ []

abbrev pub allowed_actions : List String
allowed_actions =
    "show" ∷ "is-active" ∷ "is-enabled" ∷ "start" ∷ "enable" ∷ "restart" ∷ "reload" ∷ "cat"
    ∷ "status" ∷ "daemon-reload" ∷ "list-units" ∷ "list-unit-files" ∷ []

abbrev pub read_only_actions : List String
read_only_actions =
    "show" ∷ "is-active" ∷ "is-enabled" ∷ "cat" ∷ "status" ∷ "list-units" ∷ "list-unit-files" ∷ []

abbrev props_option : String
props_option =
    "--property=LoadState,ActiveState,SubState,MainPID,FragmentPath,UnitFileState,DropInPaths,PartOf,NRestarts,TimeoutStopUSec,KillSignal,Type"

-- `unit && unit.endsWith('.socket')`
unfoldable pub is_socket : Option String → Bool
is_socket none = false
is_socket (some unit) = ends_with unit ".socket"

abbrev unit_args : Option String → List String
unit_args none = []
unit_args (some unit) = unit ∷ []

systemctl_args : String → Option String → List String
systemctl_args action unit =
    if action == "show"
    then "show" ∷ unit_args unit ++ props_option ∷ []
    else if action == "list-units"
    then "list-units" ∷ "--all" ∷ "--plain" ∷ "--no-legend" ∷ "--no-pager" ∷ unit_args unit
    else if action == "list-unit-files"
    then "list-unit-files" ∷ "--no-legend" ∷ "--no-pager" ∷ unit_args unit
    else if truthy unit
    then action ∷ unit_args unit
    else action ∷ []

unfoldable pub systemctl_command : List String → Bool → Command
systemctl_command args privileged = record {
  cmd = "systemctl";
  args = args;
  run_as = none;
  privileged = privileged;
  cwd = none;
}

-- The values of a `key=value` line, the last one for a key.
abbrev later : Option String → Option String → Option String
later (some v) w = some v
later none w = w

abbrev value_at : String → Option (String × String) → Option String
value_at k none = none
value_at k (some (j, v)) = if j == "" then none else if j == k then some v else none

find_prop : String → List String → Option String
find_prop k [] = none
find_prop k (line ∷ lines) = later (find_prop k lines) (value_at k (cut_at b'=' line))

-- `props[k] || fallback`
prop_or : String → List String → String → String
unfolding find_prop
prop_or k lines fallback = elim (find_prop k lines) [
  | none ↦ fallback
  | some v ↦ if v == "" then fallback else v
]

pub record UnitState : Type 0 where
  pub unit : String
  pub load : String
  pub active : String
  pub sub : String
  pub main_pid : Option ℤ
  pub fragment_path : String
  pub unit_file_state : String
  pub drop_ins : List String
  pub part_of : List String
  pub restarts : Option ℤ
  pub timeout_stop : String
  pub kill_signal : String
  pub kind : String

pub record Instance : Type 0 where
  pub unit : String
  pub load : String
  pub active : String
  pub sub : String

abbrev nth_word : ℕ → List String → String
nth_word n [] = ""
nth_word ℕ.zero (w ∷ ws) = w
nth_word (ℕ.suc n) (w ∷ ws) = nth_word n ws

-- `name@.service` stands for its instances, `name@*.service`.
instance_glob : String → String
instance_glob unit =
    if ends_with unit "@.service"
    then String.◌++◌ (strip_suffix ".service" unit) "*.service"
    else unit

instance_of : String → List Instance
instance_of line =
    let ws = words line in
    if ends_with (nth_word 0 ws) ".service"
    then record {
      unit = nth_word 0 ws;
      load = nth_word 1 ws;
      active = nth_word 2 ws;
      sub = nth_word 3 ws;
    }
      ∷ []
    else []

flat : {A B : Type 0} → (A → List B) → List A → List B
flat f [] = []
flat f (x ∷ xs) = f x ++ flat f xs

service_unit : String → Bool
service_unit u = not (u == "") && ends_with u ".service" && not (ends_with u "@.service")

held_by_systemd : Listener → Bool
held_by_systemd l = is_one l.pid && (not (truthy l.process) || named_systemd l.process)
  where
    is_one : Option ℕ → Bool
    is_one none = false
    is_one (some p) = p == 1

    named_systemd : Option String → Bool
    named_systemd none = false
    named_systemd (some p) = p == "systemd"

abbrev pub rebind_reasons : List String
rebind_reasons = "socket-changed" ∷ "socket-not-held" ∷ []

module _ {H : Type 0} (env : Env H) where
  unfoldable pub systemctl : String → Option String → M H Output
  unfolding is_socket systemctl_args
  systemctl action unit =
      if not (contains allowed_actions action)
      then throw failed
      else if is_socket unit && not (contains socket_safe_actions action)
      then throw socket_guard_error
      else perform env (
          Call.run (
            systemctl_command (systemctl_args action unit)
              (not (contains read_only_actions action))))

  -- `Number(props[k] || 0)`
  number_prop : String → List String → Option ℤ
  number_prop k lines =
      let v = prop_or k lines "" in if v == "" then some (pos 0) else env.number (Json.str v)

  state_of : String → String → UnitState
  unfolding prop_or number_prop
  state_of unit stdout =
      let lines = split_on b'\n' stdout in
      record {
        unit = unit;
        load = prop_or "LoadState" lines "unknown";
        active = prop_or "ActiveState" lines "unknown";
        sub = prop_or "SubState" lines "unknown";
        main_pid = number_prop "MainPID" lines;
        fragment_path = prop_or "FragmentPath" lines "";
        unit_file_state = prop_or "UnitFileState" lines "";
        drop_ins = words (prop_or "DropInPaths" lines "");
        part_of = words (prop_or "PartOf" lines "");
        restarts = number_prop "NRestarts" lines;
        timeout_stop = prop_or "TimeoutStopUSec" lines "";
        kill_signal = prop_or "KillSignal" lines "";
        kind = prop_or "Type" lines "";
      }

  unfoldable pub show : String → M H UnitState
  unfolding state_of
  show unit = do r ← systemctl "show" (some unit); pure (state_of unit r.stdout)

  -- `if (r.code !== 0) throw new Error(…)`
  must_succeed : Output → M H (Unit {0})
  must_succeed r = if r.code == 0 then pure tt else throw failed

  unfoldable pub instances : String → M H (List Instance)
  unfolding must_succeed instance_glob flat instance_of
  instances worker_unit = do
    r ← systemctl "list-units" (some (instance_glob worker_unit))
    must_succeed r
    pure (flat instance_of (split_on b'\n' r.stdout))

  unfoldable pub restart : String → M H (Unit {0})
  unfolding must_succeed
  restart unit = do r ← systemctl "restart" (some unit); must_succeed r

  -- Whether the socket was started, and the state it was in.
  unfoldable pub ensure_socket_active : String → M H (Bool × UnitState)
  unfolding must_succeed
  ensure_socket_active socket_unit = do
    st ← show socket_unit
    if st.active == "active"
        then pure (false, st)
        else do r ← systemctl "start" (some socket_unit); must_succeed r; pure (true, st)

  unfoldable pub list_unit_files : String → M H (List String)
  unfolding service_unit
  list_unit_files glob = do
    r ← systemctl "list-unit-files" (some glob)
    if not (r.code == 0) && not (trim r.stdout == "")
        then throw failed
        else pure (keep service_unit (map (λ l. nth_word 0 (words l)) (split_on b'\n' r.stdout)))

  unfoldable pub enable : String → M H Bool
  enable unit = do r ← systemctl "enable" (some unit); pure (r.code == 0)

  unfoldable pub socket_held : ℕ → M H (Bool × List Listener)
  unfolding held_by_systemd
  socket_held port = do
    holders ← perform env (Call.listeners port)
    pure (any held_by_systemd holders, holders)

  rebind_command : String → String → M H Output
  rebind_command action unit = perform env (Call.run (systemctl_command (action ∷ unit ∷ []) true))

  -- Whether the stop and the socket's restart succeeded.
  unfoldable pub rebind_socket : String → String → String → M H (Bool × Bool)
  unfolding rebind_command must_succeed
  rebind_socket service_unit socket_unit reason =
      if not (contains rebind_reasons reason)
      then throw socket_guard_error
      else if not (ends_with service_unit ".service") || not (ends_with socket_unit ".socket")
      then throw socket_guard_error
      else do
        stop ← rebind_command "stop" service_unit
        sock ← rebind_command "restart" socket_unit
        start ← rebind_command "start" service_unit
        must_succeed start
        pure (stop.code == 0, sock.code == 0)

  unfoldable pub daemon_reload : M H (Unit {0})
  unfolding must_succeed
  daemon_reload = do r ← systemctl "daemon-reload" none; must_succeed r

  unfoldable pub reload_nginx : M H (Unit {0})
  unfolding must_succeed
  reload_nginx = do r ← systemctl "reload" (some "nginx.service"); must_succeed r
