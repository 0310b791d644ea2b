-- ===== src/Examples/Machine.antt =====
-- A machine that is only a clock in milliseconds: units are active, a page counts two sessions until
-- three seconds have passed and none after that, and another page names the release.
use open_vibe_host.Base.{
  ℕ, ◌+◌, String, true, false, Option, none, some, [], ◌∷◌, ◌==◌, string_eq, if◌then◌else◌, ltb, ℤ,
  pos, arith, refl,
}
use open_vibe_host.Base.{List}
use open_vibe_host.Host.{DirEntry, Env, Call, Answer, Result, ok, State, Entry}
use open_vibe_host.Base.{◌+ℤ◌, contains}
use open_vibe_host.Base.Text.{
  ends_with, starts_with, split_on, cut_at, trim, words, strip_suffix, has_char,
}
use open_vibe_host.Host.{
  ◌>>=◌, maybe, exhaust, perform, pure, set_entry, set_host_lock, throw, gets, catch, finally,
  for_each, collect,
}
use open_vibe_host.Host.Waiting.{while_before, forever, next}
use open_vibe_host.Host.Json.{own}
use open_vibe_host.Systemd.{
  systemctl, show, systemctl_command, is_socket, restart, ensure_socket_active, enable,
  daemon_reload,
}
use open_vibe_host.Readiness.{wait_round, probe_url, release_matches}
use open_vibe_host.Probes.{
  count_protected, running, count_one, http_count, add_fields, matches, sum_counts, number_of,
  value_at,
}
use open_vibe_host.Sessions.{hold, idle, poll, wait_for_idle, waited}
use open_vibe_host.Host.Json.{Json, Fields}
use open_vibe_host.Host.Rules.Clock.{Clock}
use open_vibe_host.Inventory
use open_vibe_host.Inventory.{
  Service, Ready, Drain, wait, Protected, single, git_checkout, http_json_count, HttpCount,
  Inventory, Install,
}

abbrev counted : ℤ → Json
counted n = Json.obj (Fields.field "n" (Json.num n) Fields.end)

abbrev parse : String → Option Json
parse text =
    if text == "busy"
    then some (counted (pos 2))
    else if text == "idle"
    then some (counted (pos 0))
    else if text == "null"
    then some (Json.obj (Fields.field "n" Json.null Fields.end))
    else if text == "package"
    then some (Json.obj (Fields.field "dependencies" (Json.obj Fields.end) Fields.end))
    else if text == "left"
    then some (Json.obj (Fields.field "name" (Json.str "left") Fields.end))
    else if text == "release"
    then some (Json.obj (Fields.field "release" (Json.str "abcdef1") Fields.end))
    else none

abbrev page : String → ℕ → String
page url ms = if url == "/release.json" then "release" else if ltb ms 3000 then "busy" else "idle"

abbrev three : List DirEntry
three =
    record { name = "r3"; is_dir = true }
    ∷ record { name = "r2"; is_dir = true }
    ∷ record { name = "r1"; is_dir = true }
    ∷ []

-- A package that declares one dependency, and that dependency.
abbrev content : String → Option String
content p =
    if p == "/srv/live/package.json"
    then some "package"
    else if p == "/srv/live/node_modules/left/package.json"
    then some "left"
    else none

abbrev reply : (c : Call) → ℕ → Result (Answer c)
reply (Call.run _) ms = ok (record { code = 0; stdout = "ActiveState=active"; stderr = "" })
reply (Call.read_file p) ms = ok (content p)
reply (Call.write_file _ _) ms = ok tt
reply (Call.append_file _ _) ms = ok tt
reply (Call.remove_file _) ms = ok tt
reply (Call.symlink _ _) ms = ok tt
reply (Call.readlink _) ms = ok none
reply (Call.stat _) ms = ok none
reply (Call.readdir p) ms = ok (if p == "/srv/releases" then some three else none)
reply (Call.mkdir _) ms = ok tt
reply (Call.create_exclusive _ _) ms = ok true
reply (Call.pid_alive _) ms = ok true
reply (Call.http url) ms = ok (record { status = 200; body = page url ms })
reply (Call.psql _ _) ms = ok []
reply (Call.listeners _) ms = ok []
reply (Call.sleep _) ms = ok tt
reply Call.now ms = ok ms
reply Call.user_name ms = ok "openvibe"
reply Call.hostname ms = ok "host"
reply (Call.acquire_deploy_lock _ _ _) ms = ok tt
reply Call.release_deploy_lock ms = ok tt
reply Call.mem_available ms = ok (some (if ltb ms 1000 then 1048576 else 104857600))

abbrev lasts : Call → ℕ
lasts (Call.sleep ms) = ms
lasts _ = 0

abbrev pub machine : Env ℕ
machine = record {
  answer = λ c ms. (reply c ms, ms + lasts c);
  parse_json = parse;
  stringify = λ _. "{}";
  lock_text = λ _ at. at;
  stringify_values = λ _. "[]";
  keys = λ _. "left" ∷ [];
  locale_le = λ _ _. true;
  unit_le = λ _ _. true;
  sudo_user = none;
  pid = 7;
  number = λ _. none;
  member = λ _ _. none;
  text_of = λ _. "";
  lower_case = λ s. s;
  iso_string = λ _. "1970";
  utc_digits = λ _. "19700101-000000";
  resolve_url = λ path _. some path;
}

pub machine-Clock : Clock machine
machine-Clock = record {
  time = λ ms. ms;
  reads = λ ms. refl;
  forward = λ c ms. omega arith;
  sleeps = λ n ms. omega arith;
}

abbrev pub blank : Entry
blank = record {
  service = "live";
  action = "deploy";
  from = none;
  to = none;
  commits = 0;
  lockfile_changed = false;
  installed = [];
  deps_verified = none;
  restart_needed = none;
  restarted = false;
  ready = none;
  forced = false;
  built = false;
  result = none;
  error = none;
  protected_sessions = none;
  checkout_moved = false;
  checkout_restored = false;
  deps_repaired = [];
  removed_untracked = [];
  dropped_from_index = [];
  preflight_ok = none;
  backup = [];
  aux_apply_pending = [];
  aux_restarted = [];
  auto_rollback = none;
  rollback_ready = none;
  started_at = none;
  finished_at = none;
  operator = none;
  on_host = none;
  units_installed = none;
  from_release = none;
  to_release = none;
  prepared = none;
  removed_prepared = false;
  switched = false;
  pruned = [];
  socket_rebind = none;
  socket_held = none;
}

abbrev pub start : State ℕ
start = record { host = 0; trace = []; entry = blank; host_lock = true; exhausted = false }

abbrev pub guard : Inventory.DeployGuard
guard = record {
  lock_wait_seconds = 60;
  min_available_mib = 64;
  memory_wait_seconds = 10;
  memory_poll_seconds = 2;
}

abbrev pub sessions_page : HttpCount
sessions_page = record {
  url = "/sessions";
  array = none;
  where_ = [];
  field = some "n";
  add_fields = [];
}

abbrev pub readiness : Ready
readiness = record { url = "/ready"; timeout_seconds = 5; release = true; all_units = true }

abbrev pub inventory : Inventory
inventory = record {
  state_dir = "/var/lib/ovhost";
  backup_dir = "/var/backups";
  deploy_guard = guard;
  sites_available = "/etc/nginx/sites-available";
  sites_enabled = "/etc/nginx/sites-enabled";
  nginx_bin = "nginx";
}

abbrev pub live : Service
live = record {
  id = "live";
  repo = "/srv/live";
  owner = "openvibe";
  run_as = "openvibe";
  remote = "origin";
  branch = "main";
  strategy = git_checkout;
  managed = true;
  units = "live.service" ∷ [];
  worker_units = [];
  auxiliary_units = [];
  socket_unit = some "live.socket";
  unit_sources = [];
  units_match = none;
  install_units = false;
  enable_units = false;
  ready = some readiness;
  packages = [];
  skip_packages = [];
  remove_untracked_lockfiles = false;
  generated = [];
  no_restart_paths = "docs/" ∷ [];
  preflight = record { syntax_check = false; dirs = []; checks = [] };
  install = record {
    program = "npm";
    arguments = "ci" ∷ [];
    always = false;
    restore_lockfile = false;
    lockfile = "package-lock.json";
    workspace = false;
  };
  build = [];
  nginx = none;
  databases = [];
  backup_on_change = [];
  release_files = none;
  protected =
      some (record { label = some "viewers"; kind = single (http_json_count sessions_page) });
  drain = record { policy = wait; wait_max_seconds = 20; poll_seconds = 1; quiet_checks = 2 };
  deploy_guard = guard;
  deploy_policy = "auto";
}

-- A run on the machine computes through what this line opens.
unfoldable pub computing : Env ℕ
unfolding ◌>>=◌ maybe exhaust perform pure set_entry set_host_lock throw gets catch finally for_each
    collect while_before forever next own ◌+ℤ◌ contains ends_with starts_with split_on cut_at trim
    words strip_suffix has_char wait_round probe_url release_matches systemctl show
    systemctl_command is_socket restart ensure_socket_active enable daemon_reload count_protected
    running count_one http_count add_fields matches sum_counts number_of value_at hold idle poll
    wait_for_idle waited
computing = machine
