-- ===== src/ReleaseOps/Actions.antt =====
-- The steps of `apply` in lib/release-ops.js: installs, builds, vhosts, units, restarts, and putting the
-- checkout back.
pub mod Steps
pub mod Waits
use open_vibe_host.Base.{
  ℕ, String, Bool, true, false, not, ◌&&◌, Option, none, some, List, [], ◌∷◌, ◌++◌, map, ◌==◌,
  nat_eq, string_eq, if◌then◌else◌, keep, contains, null, truthy,
}
use open_vibe_host.Base.Text.{ends_with, split_on}
use open_vibe_host.Base.Paths.{join, basename, dirname}
use open_vibe_host.Base.Sorting.{sort_by}
use open_vibe_host.Base.Names.{is_service_id, is_domain}
use open_vibe_host.Host
use open_vibe_host.Host.{
  Env, M, Call, Command, DirEntry, Entry, failed, pure, throw, perform, set_entry, gets, maybe,
  when, for_each, collect, ◌>>=◌, ◌>>◌,
}
use open_vibe_host.Host.Json.{Json, is_truthy}
use open_vibe_host.Inventory.{Service, Inventory, Nginx}
use open_vibe_host.Probes.{value_at}
use open_vibe_host.Readiness.{Waited, wait_ready, names_release}
use open_vibe_host.Systemd
use open_vibe_host.Systemd.{UnitState}
use open_vibe_host.Git
use open_vibe_host.Git.{Checkout, checkout_of, ◌⧺◌}
use open_vibe_host.Deps
use open_vibe_host.Deps.{Problem, expand_packages, verify_and_repair}
use open_vibe_host.Nginx
use open_vibe_host.Nginx.{Vhost}
use open_vibe_host.ReleaseOps.Plan.{InstallStep}

pub record Verified : Type 0 where
  pub pkg_dirs : List String
  pub problems : List Problem
  pub repaired : List String

pub record Announcement : Type 0 where
  pub service : String
  pub release : String
  pub origin : String

add_installed : String → Entry → Entry
add_installed pkg e = record e { installed = e.installed ++ pkg ∷ [] }

unfoldable pub build_command : Service → String × List String → Command
build_command svc (program, arguments) = record {
  cmd = program;
  args = arguments;
  run_as = some svc.owner;
  privileged = false;
  cwd = some svc.repo;
}

-- The vhost files of the repository in a directory.
vhost_names : String → List String → Option (List DirEntry) → List String
vhost_names dir skip none = []
vhost_names dir skip (some es) =
    map (λ e. join (dir ∷ e.name ∷ []))
      (keep (λ e. not e.is_dir && ends_with e.name ".conf" && not (contains skip e.name)) es)

pub install_unit_command : String → String → Command
install_unit_command from dest = record {
  cmd = "install";
  args = "-m" ∷ "0644" ∷ "-D" ∷ from ∷ dest ∷ [];
  run_as = none;
  privileged = true;
  cwd = none;
}

same_text : Option String → String → Bool
same_text none b = false
same_text (some a) b = a == b

abbrev either : Option String → Option String → Option String
either a b = if truthy a then a else b

module _ {H : Type 0} (env : Env H) (inv : Inventory) (svc : Service) where
  abbrev g : Checkout
  g = checkout_of svc

  install_step : InstallStep → M H (Unit {0})
  unfolding add_installed
  install_step i = when i.install (Deps.install env svc g i.pkg >> set_entry (add_installed i.pkg))

  unfoldable pub install_all : List InstallStep → M H (Unit {0})
  unfolding install_step checkout_of
  install_all installs = for_each installs install_step

  unfoldable pub verify_deps : M H Verified
  unfolding checkout_of
  verify_deps = do
    dirs ← expand_packages env svc
    v ← verify_and_repair env svc g dirs
    pure (record { pkg_dirs = dirs; problems = v.0; repaired = v.1 })

  build_step : String × List String → M H (Unit {0})
  unfolding build_command
  build_step argv = do
    r ← perform env (Call.run (build_command svc argv))
    if not (r.code == 0) then throw failed else pure tt

  unfoldable pub run_build : M H (Unit {0})
  unfolding build_step
  run_build = for_each svc.build build_step

  -- `runBuild(ctx, svc, record)`: the record says so before the first step.
  unfoldable pub run_build_noted : M H (Unit {0})
  run_build_noted = do
    when (not (null svc.build)) (set_entry (λ e. record e { built = true }))
    run_build

  read_vhost : String → M H (List Vhost)
  read_vhost rel = do
    text ← perform env (Call.read_file (join (svc.repo ∷ rel ∷ [])))
    pure (record { name = basename rel; text = text } ∷ [])

  listed_vhosts : Nginx → String → M H (List String)
  unfolding vhost_names
  listed_vhosts n glob =
      if ends_with glob "*.conf"
      then (do
        entries ← perform env (Call.readdir (join (svc.repo ∷ dirname glob ∷ [])))
        pure (vhost_names (dirname glob) n.skip_vhosts entries))
      else pure (glob ∷ [])

  vhosts_of : Nginx → Option String → M H (Unit {0})
  unfolding read_vhost listed_vhosts
  vhosts_of n glob = maybe glob (pure tt) (λ p. if p == "" then pure tt else do
    names ← listed_vhosts n p
    files ← collect (sort_by env.unit_le names) read_vhost
    Nginx.install env inv files []
    pure tt)

  unfoldable pub install_repo_vhosts : M H (Unit {0})
  unfolding vhosts_of
  install_repo_vhosts =
      maybe svc.nginx (throw failed) (λ n. vhosts_of n (either n.repo_vhosts n.repo_vhost))

  install_unit : String × String → M H (List String)
  unfolding install_unit_command same_text
  install_unit (unit, src) = do
    want ← perform env (Call.read_file (join (svc.repo ∷ src ∷ [])))
    maybe want (pure []) (λ text. do
      have ← perform env (Call.read_file (join ("/etc/systemd/system" ∷ unit ∷ [])))
      if same_text have text then pure [] else do
        perform env (
            Call.run (
              install_unit_command (join (svc.repo ∷ src ∷ []))
                (join ("/etc/systemd/system" ∷ unit ∷ []))))
        pure (unit ∷ []))

  enable_unit : String → M H (Unit {0})
  enable_unit unit = do
    r ← Systemd.systemctl env "enable" (some unit)
    if not (r.code == 0) then throw failed else pure tt

  unfoldable pub install_units : M H (Unit {0})
  unfolding install_unit enable_unit
  install_units = do
    changed ← collect svc.unit_sources install_unit
    when (not (null changed)) (Systemd.daemon_reload env)
    set_entry (λ e. record e { units_installed = some changed })
    when svc.enable_units
        (for_each (svc.units ++ map (λ a. a.unit) svc.auxiliary_units) enable_unit)

  ensure_socket : M H (Unit {0})
  ensure_socket =
      maybe svc.socket_unit (pure tt) (λ u. do Systemd.ensure_socket_active env u; pure tt)

  -- The socket is ensured, every unit restarted, and then the service waited for.
  unfoldable pub restart_and_wait : ℕ → List String → Option String → M H Waited
  unfolding ensure_socket
  restart_and_wait timeout units expected = do
    ensure_socket
    for_each units (Systemd.restart env)
    wait_ready env svc timeout expected units

  unfoldable pub refuse_problems : List Problem → M H (Unit {0})
  refuse_problems ps = if null ps then pure tt else throw failed

  unfoldable pub restore_checkout : String → M H (Unit {0})
  unfolding refuse_problems checkout_of
  restore_checkout sha = do
    Git.reset_hard env g sha
    installed ← gets (λ s. s.entry.installed)
    for_each installed (Deps.install env svc g)
    v ← verify_deps
    refuse_problems v.problems
    built ← gets (λ s. s.entry.built)
    when built run_build

  -- `String(v)` of a member
  text_member : Json → String → String
  text_member m k = elim (value_at env m (some k)) [
    | none ↦ "undefined"
    | some (Json.str s) ↦ s
    | some v ↦ env.text_of v
  ]

  announced : String → Json → List Announcement
  unfolding text_member is_service_id is_domain
  announced domain m =
      if is_truthy (some m)
        && is_service_id (text_member m "service")
        && names_release (text_member m "release")
        && is_domain domain
      then record {
        service = text_member m "service";
        release = text_member m "release";
        origin = "https://" ⧺ domain;
      }
        ∷ []
      else []

  parse_or_null : Option String → Json
  parse_or_null none = Json.null
  parse_or_null (some text) =
      if text == "" then Json.null else elim (env.parse_json text) [ none ↦ Json.null | some m ↦ m ]

  read_announcement : String → String → M H (List Announcement)
  unfolding announced parse_or_null
  read_announcement dir domain = do
    text ←
        Host.catch
          (perform env (Call.read_file (join (svc.repo ∷ dir ∷ domain ∷ "release.json" ∷ []))))
          (λ _. pure none)
    pure (announced domain (parse_or_null text))

  dirs_in : Option (List DirEntry) → List String
  dirs_in none = []
  dirs_in (some es) = sort_by env.unit_le (map (λ e. e.name) (keep (λ e. e.is_dir) es))

  abbrev first_part : List String → String
  first_part [] = ""
  first_part (p ∷ ps) = p

  unfoldable pub release_announcements : M H (Option (List Announcement))
  unfolding read_announcement dirs_in
  release_announcements =
      if not (truthy svc.release_files)
      then pure none
      else maybe svc.release_files (pure none) (λ pattern. do
        entries ←
            perform env (Call.readdir (join (svc.repo ∷ first_part (split_on b'/' pattern) ∷ [])))
        out ← collect (dirs_in entries) (read_announcement (first_part (split_on b'/' pattern)))
        pure (some out))
