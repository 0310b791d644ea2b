-- ===== src/ReleaseLayout/Steps.antt =====
-- The steps of `apply` in lib/release-layout.js: preparing a release, switching to it, installing its unit
-- files, restarting, and pruning.
pub mod Prunes
pub mod Waits
use open_vibe_host.Base.{
  ℕ, String, Bool, true, false, not, ◌&&◌, ◌||◌, Option, none, some, List, [], ◌∷◌, ◌++◌, map, ◌==◌,
  nat_eq, string_eq, if◌then◌else◌, contains, null, is_some, truthy, any, drop,
}
use open_vibe_host.Base.Paths.{join, basename, dirname}
use open_vibe_host.Host.{
  Env, M, Call, Command, Entry, failed, op_error, validation, pure, throw, perform, set_entry,
  maybe, when, for_each, collect, ◌>>=◌, ◌>>◌,
}
use open_vibe_host.Inventory.{Service, Inventory}
use open_vibe_host.Readiness.{Waited, wait_ready}
use open_vibe_host.Systemd
use open_vibe_host.Git
use open_vibe_host.Git.{◌⧺◌}
use open_vibe_host.Deps
use open_vibe_host.Deps.{expand_packages, verify_and_repair}
use open_vibe_host.Preflight
use open_vibe_host.ReleaseOps.Apply.{check_preflight}
use open_vibe_host.ReleaseLayout.State.{
  Layout, Release, clone, inside, current_release, list_releases, releases_in_use,
}
use open_vibe_host.ReleaseLayout.Plan.{LayoutPlan, ModulesStep, port_of}

-- What `installReleaseUnits` and `restartRelease` return.
pub record UnitsInstalled : Type 0 where
  pub changed : List String
  pub socket_changed : Bool

pub record Restarted : Type 0 where
  pub waited : Waited
  pub rebind : Option String
  pub socket_held : Option Bool

pub privileged_command : String → List String → Command
privileged_command program arguments = record {
  cmd = program;
  args = arguments;
  run_as = none;
  privileged = true;
  cwd = none;
}

same_text : Option String → String → Bool
same_text none b = false
same_text (some a) b = a == b

-- The service as its release is prepared: at the directory, and without restoring the lockfile.
unfoldable pub service_at : Service → String → Service
service_at svc dir = record svc {
  repo = dir;
  install = record svc.install { restore_lockfile = false };
}

-- `socketChanged ? 'socket-changed' : held.held === false ? 'socket-not-held' : null`
abbrev rebind_reason : Bool → Option Bool → Option String
rebind_reason changed held =
    if changed
    then some "socket-changed"
    else elim held [ some false ↦ some "socket-not-held" | _ ↦ none ]

abbrev is_id : Option String → String → Bool
is_id none s = false
is_id (some t) s = t == s

abbrev first_unit : List String → String
first_unit [] = "undefined"
first_unit (u ∷ us) = u

module _ {H : Type 0} (env : Env H) (inv : Inventory) (backup : M H (List String)) (svc : Service)
    (rel : Layout) where
  must : Command → M H (Unit {0})
  must c = do r ← perform env (Call.run c); if r.code == 0 then pure tt else throw failed

  abbrev temporary : String
  temporary = join (dirname rel.current ∷ ("." ⧺ basename rel.current ⧺ ".tmp") ∷ [])

  -- A new link beside the old one, renamed over it.
  unfoldable pub switch_current : String → M H (Unit {0})
  unfolding must privileged_command
  switch_current dir = do
    perform env (Call.remove_file temporary)
    perform env (Call.symlink dir temporary)
    must (privileged_command "mv" ("-T" ∷ "-f" ∷ temporary ∷ rel.current ∷ []))

  -- One unit file; the second part says that it is an installed socket's.
  install_unit : String → String × String → M H (List (String × Bool))
  unfolding must privileged_command same_text
  install_unit dir (unit, src) = do
    want ← perform env (Call.read_file (join (dir ∷ src ∷ [])))
    maybe want (pure []) (λ text. do
      have ← perform env (Call.read_file (join ("/etc/systemd/system" ∷ unit ∷ [])))
      if same_text have text then pure [] else do
        must (
            privileged_command "install" (
              "-m"
              ∷ "0644"
              ∷ "-D"
              ∷ join (dir ∷ src ∷ [])
              ∷ join ("/etc/systemd/system" ∷ unit ∷ [])
              ∷ []))
        pure (
            (unit, elim svc.socket_unit [ none ↦ false | some s ↦ s == unit ] && is_some have)
            ∷ []))

  enable_unit : String → M H (Unit {0})
  enable_unit u = do Systemd.enable env u; pure tt

  unfoldable pub install_release_units : String → M H UnitsInstalled
  unfolding install_unit enable_unit
  install_release_units dir = do
    done ← collect svc.unit_sources (install_unit dir)
    when (not (null done)) (do
      Systemd.daemon_reload env
      maybe svc.socket_unit (pure tt) enable_unit
      for_each svc.units enable_unit)
    pure (record { changed = map (λ d. d.0) done; socket_changed = any (λ d. d.1) done })

  held_at : Option ℕ → M H (Option Bool)
  held_at none = pure none
  held_at (some port) = do h ← Systemd.socket_held env port; pure (some h.0)

  -- Why the socket must be bound again before the restart.
  why_rebind : Bool → M H (Option String)
  unfolding held_at port_of
  why_rebind socket_changed = maybe svc.socket_unit (pure none) (λ u. do
    Systemd.ensure_socket_active env u
    held ← held_at (port_of rel)
    pure (rebind_reason socket_changed held))

  rebind_if : Option String → M H (List String)
  rebind_if none = pure svc.units
  rebind_if (some reason) = do
    Systemd.rebind_socket env (first_unit svc.units)
        (elim svc.socket_unit [ none ↦ "" | some u ↦ u ]) reason
    pure (drop 1 svc.units)

  held_after : Bool → M H (Option Bool)
  unfolding held_at port_of
  held_after good = if good && is_some svc.socket_unit then held_at (port_of rel) else pure none

  -- The units restarted, the socket bound again only when it must, and the service waited for.
  unfoldable pub restart_release : Bool → Option String → ℕ → M H Restarted
  unfolding why_rebind rebind_if held_after
  restart_release socket_changed expected timeout = do
    rebind ← why_rebind socket_changed
    units ← rebind_if rebind
    for_each units (Systemd.restart env)
    w ← wait_ready env svc timeout expected svc.units
    held ← held_after w.ok
    pure (record { waited = w; rebind = rebind; socket_held = held })

  prune_one : Option String → List String → List String → Release → M H (List String)
  unfolding privileged_command contains
  prune_one cur keep_ids in_use r =
      if is_id cur r.id || contains keep_ids r.id || contains in_use r.id then pure [] else do
        removed ← Git.worktree_remove env (clone env svc rel) r.dir
        when (not removed) (do
          perform env (Call.run (privileged_command "rm" ("-rf" ∷ "--" ∷ r.dir ∷ [])))
          pure tt)
        pure (r.id ∷ [])

  -- Releases beyond those to keep, but none that is current, just left, or run from.
  unfoldable pub prune : List String → M H (List String)
  unfolding prune_one
  prune keep_ids = do
    list ← list_releases env svc rel
    cur ← current_release env svc rel
    in_use ← releases_in_use env svc rel
    removed ← collect (drop rel.keep list) (prune_one cur.id keep_ids in_use)
    Git.worktree_prune env (clone env svc rel)
    pure removed

  link_in : String → String × String → M H (Unit {0})
  unfolding privileged_command
  link_in dir (name, target) = do
    there ← perform env (Call.readlink (join (dir ∷ name ∷ [])))
    if truthy there then pure tt else do
      st ← perform env (Call.stat (join (dir ∷ name ∷ [])))
      when (is_some st) (do
        perform env
            (Call.run (privileged_command "rm" ("-rf" ∷ "--" ∷ join (dir ∷ name ∷ []) ∷ [])))
        pure tt)
      perform env (Call.symlink target (join (dir ∷ name ∷ [])))

  copy_command : LayoutPlan → ModulesStep → Command
  copy_command p i = record {
    cmd = "cp";
    args =
        "-al"
        ∷ join (p.current_dir ∷ i.pkg ∷ "node_modules" ∷ [])
        ∷ join (p.target_dir ∷ i.pkg ∷ "node_modules" ∷ [])
        ∷ [];
    run_as = some svc.owner;
    privileged = false;
    cwd = none;
  }

  modules_in : LayoutPlan → ModulesStep → M H (Unit {0})
  unfolding must copy_command service_at
  modules_in p i =
      if i.install
      then (do
        Deps.install env (service_at svc p.target_dir) (inside env svc rel p.target_dir) i.pkg
        set_entry (λ e. record e { installed = e.installed ++ i.pkg ∷ [] }))
      else must (copy_command p i)

  make_release : LayoutPlan → M H (Unit {0})
  unfolding link_in modules_in
  make_release p = do
    perform env (Call.mkdir rel.releases_dir)
    Git.worktree_add env (clone env svc rel) p.target_dir p.to
    set_entry (λ e. record e { prepared = some p.to_release })
    for_each rel.links (link_in p.target_dir)
    for_each p.installs (modules_in p)

  check_deps : LayoutPlan → M H (List String)
  unfolding service_at
  check_deps p = do
    dirs ← expand_packages env (service_at svc p.target_dir)
    v ← verify_and_repair env (service_at svc p.target_dir) (inside env svc rel p.target_dir) dirs
    set_entry (λ e. record e { deps_verified = some (null v.0) })
    when (not (null v.1)) (set_entry (λ e. record e { deps_repaired = v.1 }))
    if not (null v.0) then throw (op_error validation none) else pure dirs

  -- The new release, checked, while the old one serves.
  unfoldable pub prepare : LayoutPlan → M H (Unit {0})
  unfolding make_release check_deps must privileged_command service_at
  prepare p = do
    when (not p.reuse) (make_release p)
    dirs ← check_deps p
    pf ← Preflight.run env (service_at svc p.target_dir) p.target_dir p.changed dirs
    check_preflight env inv backup svc pf
    maybe rel.chown (pure tt) (λ owner.
        when (not (owner == ""))
          (must (privileged_command "chown" ("-R" ∷ owner ∷ p.target_dir ∷ []))))
