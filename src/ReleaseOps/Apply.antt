-- ===== src/ReleaseOps/Apply.antt =====
-- `apply` of lib/release-ops.js: the locks, the plan, the session guards, the checkout that moves, the
-- restart, the way back, and the release log.
pub mod Steps
pub mod Outcomes
pub mod Failures
use open_vibe_host.Base.{
  ℕ, String, Bool, true, false, not, ◌&&◌, ◌||◌, Option, none, some, List, [], ◌∷◌, ◌++◌, length,
  ◌==◌, string_eq, if◌then◌else◌, null, truthy, any,
}
use open_vibe_host.Base.Paths.{join}
use open_vibe_host.Host.{
  Env, M, Call, Command, Entry, Exit, Error, op_error, ok_exit, usage, validation, rolled_back,
  rollback_failed, pure, throw, perform, set_entry, gets, catch, finally, maybe, when, for_each,
  ◌>>=◌, ◌>>◌,
}
use open_vibe_host.Inventory.{Service, Inventory, Strategy}
use open_vibe_host.Readiness.{Waited, probe}
use open_vibe_host.Systemd
use open_vibe_host.Git
use open_vibe_host.Git.{Checkout, checkout_of}
use open_vibe_host.Lock
use open_vibe_host.Lock.{Held}
use open_vibe_host.DeployGuard
use open_vibe_host.Sessions.{guard_sessions}
use open_vibe_host.Sessions
use open_vibe_host.Preflight
use open_vibe_host.Releases
use open_vibe_host.ReleaseOps.Plan.{Mode, deploying, rolling_back, is_deploy, Plan, compute_plan}
use open_vibe_host.ReleaseOps.Actions.{
  Verified, Announcement, install_all, verify_deps, run_build_noted, install_repo_vhosts,
  install_units, restart_and_wait, restore_checkout, release_announcements,
}

-- The options that `apply` reads; `ready_timeout` is 0 where it is not given.
pub record ApplyOptions : Type 0 where
  pub guard : Sessions.Options
  pub to : Option String
  pub fetch : Bool
  pub restart : Bool
  pub install_units : Bool
  pub ready_timeout : ℕ
  pub prepare_only : Bool

-- What an operation returns, its record aside: that is the state's.
pub record Done : Type 0 where
  pub exit : Exit
  pub plan : Option Plan
  pub announcements : Option (List Announcement)

unfoldable pub fresh : Service → Mode → String → String → String → Entry
fresh svc mode started operator on_host = record {
  service = svc.id;
  action = elim mode [ deploying ↦ "deploy" | rolling_back ↦ "rollback" ];
  from = none;
  to = none;
  commits = 0;
  lockfile_changed = false;
  installed = [];
  deps_verified = none;
  restart_needed = none;
  restarted = false;
  ready = none;
  forced = false;
  built = false;
  result = none;
  error = none;
  protected_sessions = none;
  checkout_moved = false;
  checkout_restored = false;
  deps_repaired = [];
  removed_untracked = [];
  dropped_from_index = [];
  preflight_ok = none;
  backup = [];
  aux_apply_pending = [];
  aux_restarted = [];
  auto_rollback = none;
  rollback_ready = none;
  started_at = some started;
  finished_at = none;
  operator = some operator;
  on_host = some on_host;
  units_installed = none;
  from_release = none;
  to_release = none;
  prepared = none;
  removed_prepared = false;
  switched = false;
  pruned = [];
  socket_rebind = none;
  socket_held = none;
}

-- `Object.assign(record, { from, to, … })`
noted_plan : Plan → Entry → Entry
noted_plan p e = record e {
  from = some p.from;
  to = some p.to;
  commits = length p.commits;
  lockfile_changed = any (λ i. i.lockfile_changed) p.installs;
  restart_needed = some p.restart_needed;
}

-- `rm -f -- <path>` as the owner of the checkout
rm_command : Service → String → Command
rm_command svc file = record {
  cmd = "rm";
  args = "-f" ∷ "--" ∷ join (svc.repo ∷ file ∷ []) ∷ [];
  run_as = some svc.owner;
  privileged = false;
  cwd = none;
}

-- `mode === 'deploy' ? 'deployed' : 'rolled-back'`
abbrev pub done_result : Mode → String
done_result deploying = "deployed"
done_result rolling_back = "rolled-back"

abbrev result_of : Error → Option String
result_of (op_error _ r) = r
result_of _ = none

-- `err.result || record.result || 'failed'`
unfoldable pub failed_as : Error → Entry → Entry
failed_as err e = record e {
  result =
      some (elim (result_of err) [
        | some r ↦ r
        | none ↦ elim e.result [ none ↦ "failed" | some r ↦ r ]
      ]);
  error = some err;
}

abbrev pub is_release_layout : Strategy → Bool
is_release_layout s = elim s [ Strategy.release_layout ↦ true | _ ↦ false ]

-- `writeRecord` is false in the one branch that sets this result.
abbrev is_unchanged : Option String → Bool
is_unchanged none = false
is_unchanged (some r) = r == "unchanged"

-- What a failure before the restart is reported as: an OpError as it is.
unfoldable pub as_op_error : Error → Error
as_op_error (op_error x r) = op_error x r
as_op_error _ = op_error validation none

module _ {H : Type 0} (env : Env H) (inv : Inventory) (backup : M H (List String))
    (svc : Service) where
  abbrev g : Checkout
  g = checkout_of svc

  unfoldable pub operator_name : M H String
  operator_name =
      if truthy env.sudo_user
      then maybe env.sudo_user (pure "") pure
      else perform env Call.user_name

  -- `guardedOpts`: the wait for idle sessions lets the host lock go.
  abbrev pub outside : M H (Unit {0}) → M H (Unit {0})
  outside = DeployGuard.wait_outside_lock env inv.deploy_guard svc

  unfoldable pub guard_if : Bool → Sessions.Options → String → M H (Unit {0})
  guard_if needed opts when_ = when needed (guard_sessions env svc opts outside when_)

  remove_untracked : String → M H (Unit {0})
  unfolding rm_command
  remove_untracked f = do
    perform env (Call.run (rm_command svc f))
    set_entry (λ e. record e { removed_untracked = e.removed_untracked ++ f ∷ [] })

  drop_from_index : String → M H (Unit {0})
  unfolding checkout_of
  drop_from_index f = do
    Git.no_skip_worktree env g f
    Git.rm_cached env g f
    set_entry (λ e. record e { dropped_from_index = e.dropped_from_index ++ f ∷ [] })

  -- The refusals that follow the plan.
  refuse : Plan → M H (Unit {0})
  refuse p =
      if not (p.branch == svc.branch)
      then throw (op_error usage none)
      else if not (null p.dirty)
      then throw (op_error validation none)
      else pure tt

  -- `plan.upToDate && !opts.restart`
  nothing_to_do : Mode → ApplyOptions → Plan → M H Done
  nothing_to_do mode opts p =
      if opts.install_units && not (null p.unit_drift) && is_deploy mode
      then (do
        install_units env inv svc
        set_entry (λ e. record e { result = some "units-installed" })
        pure (record { exit = ok_exit; plan = some p; announcements = none }))
      else (do
        set_entry (λ e. record e { result = some "unchanged" })
        pure (record { exit = ok_exit; plan = some p; announcements = none }))

  -- What blocks the merge is moved out of its way, then the checkout moves.
  unfoldable pub move_checkout : Mode → Plan → M H (Unit {0})
  unfolding remove_untracked drop_from_index checkout_of
  move_checkout mode p = do
    when (not (null p.generated_dirty) && not p.up_to_date)
        (Git.checkout_paths env g p.generated_dirty)
    for_each p.untracked_lockfiles remove_untracked
    for_each p.untracked_generated remove_untracked
    for_each p.untracked_deleted drop_from_index
    when (not p.up_to_date) (do
      if is_deploy mode then Git.ff_merge env g p.to else Git.reset_hard env g p.to
      set_entry (λ e. record e { checkout_moved = true }))

  unfoldable pub check_preflight : Preflight.Report → M H (Unit {0})
  check_preflight pf =
      if not (null pf.problems)
      then (do
        set_entry (λ e. record e { preflight_ok = some false })
        throw (op_error validation none))
      else when (not (null svc.preflight.checks) || svc.preflight.syntax_check)
          (set_entry (λ e. record e { preflight_ok = some true }))

  check_deps : M H Verified
  check_deps = do
    v ← verify_deps env inv svc
    set_entry (λ e. record e { deps_verified = some (null v.problems) })
    when (not (null v.repaired)) (set_entry (λ e. record e { deps_repaired = v.repaired }))
    if not (null v.problems) then throw (op_error validation none) else pure v

  install_vhosts_if : Bool → M H (Unit {0})
  install_vhosts_if wanted =
      when wanted (catch (install_repo_vhosts env inv svc) (λ _. throw (op_error validation none)))

  unfoldable pub backup_if : Bool → M H (Unit {0})
  backup_if needed = when needed (do files ← backup; set_entry (λ e. record e { backup = files }))

  restart_aux : String → M H (Unit {0})
  restart_aux u = do
    Systemd.restart env u
    set_entry (λ e. record e { aux_restarted = e.aux_restarted ++ u ∷ [] })

  -- Everything between the checkout's move and the restart.
  unfoldable pub prepare : ApplyOptions → Plan → M H (Unit {0})
  unfolding check_deps check_preflight install_vhosts_if backup_if restart_aux guard_if
  prepare opts p = do
    install_all env inv svc p.installs
    v ← check_deps
    run_build_noted env inv svc
    pf ← Preflight.run env svc svc.repo p.changed v.pkg_dirs
    check_preflight pf
    install_vhosts_if p.install_vhosts
    when (opts.install_units || svc.install_units) (install_units env inv svc)
    backup_if (p.backup_needed && p.restart_needed)
    guard_if p.restart_needed opts.guard "immediately before the restart"
    set_entry (λ e. record e { aux_apply_pending = e.aux_apply_pending ++ p.aux_apply })
    for_each p.aux_restart restart_aux

  -- The checkout goes back if it moved; what cannot be put back is said so.
  unfoldable pub put_back : Plan → Error → M H (Unit {0})
  unfolding as_op_error
  put_back p err = do
    moved ← gets (λ s. s.entry.checkout_moved)
    when moved (
        catch
          (do
            restore_checkout env inv svc p.from
            set_entry (λ e. record e { checkout_restored = true }))
          (λ _. throw (op_error rollback_failed (some "restore-failed"))))
    throw (as_op_error err)

  -- No restart is needed: the service is only asked whether it answers.
  no_restart : Mode → Plan → Option (List Announcement) → M H Done
  no_restart mode p announcements = do
    set_entry (λ e. record e { result = some (done_result mode) })
    maybe svc.ready (pure tt)
        (λ _. do a ← probe env svc; set_entry (λ e. record e { ready = a.ok }))
    pure (record { exit = ok_exit; plan = some p; announcements = announcements })

  -- The answer of the second restart.
  came_back : Plan → Waited → M H Done
  came_back p back =
      if back.ok
      then (do
        set_entry (λ e. record e { rollback_ready = some true; result = some "failed-rolled-back" })
        pure (record { exit = rolled_back; plan = some p; announcements = none }))
      else (do
        set_entry (λ e. record e { rollback_ready = some false; result = some "rollback-failed" })
        pure (record { exit = rollback_failed; plan = some p; announcements = none }))

  go_back : ApplyOptions → Plan → M H Done
  unfolding came_back
  go_back opts p = do
    restore_checkout env inv svc p.from
    back ← restart_and_wait env inv svc opts.ready_timeout p.units (some p.from)
    came_back p back

  -- Not ready: back to where it was.
  unfoldable pub auto_rollback : ApplyOptions → Plan → M H Done
  unfolding go_back
  auto_rollback opts p = do
    set_entry (λ e. record e { auto_rollback = some p.from })
    catch (go_back opts p) (λ err. do
      set_entry (λ e. record e { result = some "rollback-failed"; error = some err })
      pure (record { exit = rollback_failed; plan = some p; announcements = none }))

  restarted_with : Mode → ApplyOptions → Plan → Option (List Announcement) → Waited → M H Done
  restarted_with mode opts p announcements r = do
    set_entry (λ e. record e { restarted = true; ready = some r.ok })
    if r.ok
        then (do
          set_entry (λ e. record e { result = some (done_result mode) })
          pure (record { exit = ok_exit; plan = some p; announcements = announcements }))
        else auto_rollback opts p

  unfoldable pub restart_phase : Mode → ApplyOptions → Plan → Option (List Announcement) → M H Done
  unfolding restarted_with
  restart_phase mode opts p announcements = do
    r ← restart_and_wait env inv svc opts.ready_timeout p.units (some p.to)
    restarted_with mode opts p announcements r

  -- The plan is carried out.
  unfoldable pub carry_out : Mode → ApplyOptions → Plan → M H Done
  unfolding no_restart guard_if
  carry_out mode opts p = do
    guard_if p.restart_needed opts.guard "before the checkout moves"
    move_checkout mode p
    catch (prepare opts p) (put_back p)
    announcements ← release_announcements env inv svc
    if not p.restart_needed
        then no_restart mode p announcements
        else restart_phase mode opts p announcements

  -- The body of the outer `try`.
  unfoldable pub attempt : Mode → ApplyOptions → M H Done
  unfolding noted_plan refuse nothing_to_do
  attempt mode opts = do
    DeployGuard.acquire env inv.deploy_guard svc
    p ← compute_plan env svc mode opts.to opts.fetch opts.restart
    set_entry (noted_plan p)
    refuse p
    if p.up_to_date && not opts.restart then nothing_to_do mode opts p else carry_out mode opts p

  unfoldable pub noted_failure : Error → M H Done
  unfolding failed_as
  noted_failure err = do set_entry (failed_as err); throw err

  write_record : M H (Unit {0})
  write_record = do
    result ← gets (λ s. s.entry.result)
    when (not (is_unchanged result)) (catch (Releases.append env inv) (λ _. pure tt))

  -- The `finally`: the log, the host lock if it is held, the service's lock.
  unfoldable pub closing : Held → M H (Unit {0})
  unfolding write_record
  closing held = do
    t ← perform env Call.now
    set_entry (λ e. record e { finished_at = some (env.iso_string t) })
    write_record
    locked ← gets (λ s. s.host_lock)
    when locked (perform env Call.release_deploy_lock)
    Lock.release env held

  unfoldable pub start_record : Mode → M H (Unit {0})
  unfolding operator_name fresh
  start_record mode = do
    perform env Call.now
    t ← perform env Call.now
    who ← operator_name
    name ← perform env Call.hostname
    set_entry (λ _. fresh svc mode (env.iso_string t) who name)

  -- An in-place strategy, with the service's lock held.
  unfoldable pub in_place : Mode → ApplyOptions → M H Done
  unfolding start_record
  in_place mode opts = do
    held ← Lock.acquire env inv svc.id env.pid
    start_record mode
    finally (catch (attempt mode opts) noted_failure) (closing held)

  -- `layout` is `apply` of lib/release-layout.js.
  unfoldable pub apply : (Mode → ApplyOptions → M H Done) → Mode → ApplyOptions → M H Done
  apply layout mode opts =
      if not svc.managed
      then throw (op_error usage none)
      else if is_release_layout svc.strategy
      then layout mode opts
      else if opts.prepare_only
      then throw (op_error usage none)
      else (do
        current ← perform env (Call.readlink (join (svc.repo ∷ "current" ∷ [])))
        if truthy current then throw (op_error usage none) else in_place mode opts)
