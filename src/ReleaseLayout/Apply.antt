-- ===== src/ReleaseLayout/Apply.antt =====
-- `apply` of lib/release-layout.js: a release is prepared beside the one that serves, then switched to, and
-- switched back from where it does not come up.
pub mod Outcomes
use open_vibe_host.Base.{
  ℕ, String, Bool, true, false, not, ◌&&◌, ◌||◌, Option, none, some, List, [], ◌∷◌, ◌++◌, ◌==◌,
  nat_eq, string_eq, if◌then◌else◌, truthy, is_some, any, length, ◌*◌,
}
use open_vibe_host.Host
use open_vibe_host.Host.{
  Env, M, Call, Entry, Error, Exit, op_error, ok_exit, usage, validation, rolled_back,
  rollback_failed, pure, throw, perform, set_entry, gets, catch, finally, maybe, when, ◌>>=◌, ◌>>◌,
}
use open_vibe_host.Inventory.{Service, Inventory}
use open_vibe_host.Readiness.{probe}
use open_vibe_host.Git
use open_vibe_host.Lock
use open_vibe_host.DeployGuard
use open_vibe_host.ReleaseOps.Plan.{Mode, is_deploy}
use open_vibe_host.ReleaseOps.Apply.{
  ApplyOptions, done_result, guard_if, backup_if, noted_failure, closing, start_record,
}
use open_vibe_host.ReleaseLayout.State.{Layout, clone}
use open_vibe_host.ReleaseLayout.Plan.{LayoutPlan, compute_plan}
use open_vibe_host.ReleaseLayout.Steps.{
  UnitsInstalled, Restarted, switch_current, install_release_units, restart_release, prune, prepare,
}

pub record LayoutDone : Type 0 where
  pub exit : Exit
  pub plan : LayoutPlan

-- The exit of a failed preparation: that of an OpError, else a failed validation.
unfoldable pub prepare_error : Error → Error
prepare_error (op_error x r) = op_error x none
prepare_error _ = op_error validation none

noted_plan : LayoutPlan → Entry → Entry
noted_plan p e = record e {
  from = some p.from;
  to = some p.to;
  from_release = some p.from_release;
  to_release = some p.to_release;
  commits = length p.commits;
  lockfile_changed = any (λ i. i.lockfile_changed) p.installs;
  restart_needed = some p.restart_needed;
}

module _ {H : Type 0} (env : Env H) (inv : Inventory) (backup : M H (List String)) (svc : Service)
    (rel : Layout) where
  abbrev finished : Exit → LayoutPlan → M H LayoutDone
  finished x p = pure (record { exit = x; plan = p })

  note_result : String → M H (Unit {0})
  note_result r = set_entry (λ e. record e { result = some r })

  -- A prepared release is removed again.
  remove_prepared : LayoutPlan → M H (Unit {0})
  remove_prepared p = do
    made ← gets (λ s. s.entry.prepared)
    when (is_some made) (do
      Git.worktree_remove env (clone env svc rel) p.target_dir
      set_entry (λ e. record e { removed_prepared = true }))

  prepare_or_remove : LayoutPlan → M H (Unit {0})
  unfolding remove_prepared
  prepare_or_remove p =
      catch (prepare env inv backup svc rel p)
        (λ err. do remove_prepared p; throw (prepare_error err))

  switch_if : LayoutPlan → String → M H (Unit {0})
  switch_if p dir =
      when (not (dir == p.current_dir)) (do
        switch_current env inv backup svc rel dir
        set_entry (λ e. record e { switched = true }))

  prune_after : Mode → LayoutPlan → M H (Unit {0})
  prune_after mode p = when (is_deploy mode) (do
    removed ← prune env inv backup svc rel (p.from_release ∷ [])
    set_entry (λ e. record e { pruned = removed }))

  settled : Mode → LayoutPlan → M H LayoutDone
  unfolding note_result prune_after
  settled mode p = do note_result (done_result mode); prune_after mode p; finished ok_exit p

  abbrev is_yes : Option Bool → Bool
  is_yes none = false
  is_yes (some b) = b

  -- The service does not answer behind the switch: the link goes back.
  switch_back : LayoutPlan → M H LayoutDone
  unfolding note_result
  switch_back p = do
    switch_current env inv backup svc rel p.current_dir
    set_entry (λ e. record e { auto_rollback = some p.from_release })
    a ← probe env svc
    set_entry (λ e. record e { rollback_ready = some (is_yes a.ok) })
    note_result "failed-rolled-back"
    finished rolled_back p

  unfoldable pub switch_only : Mode → LayoutPlan → String → M H LayoutDone
  unfolding settled switch_back switch_if
  switch_only mode p dir = do
    switch_if p dir
    maybe svc.ready (settled mode p) (λ _. do
      perform env (Call.sleep (rel.settle_seconds * 1000))
      a ← probe env svc
      set_entry (λ e. record e { ready = a.ok })
      if is_yes a.ok then settled mode p else switch_back p)

  -- The sessions first, then the backup; refused, the prepared release goes again.
  unfoldable pub guarded : ApplyOptions → LayoutPlan → M H (Unit {0})
  unfolding remove_prepared
  guarded opts p =
      catch
        (do
          guard_if env inv backup svc true opts.guard "before the switch"
          backup_if env inv backup svc p.backup_needed
          guard_if env inv backup svc p.backup_needed opts.guard "immediately before the restart")
        (λ err. do remove_prepared p; throw err)

  back_to : ApplyOptions → LayoutPlan → M H LayoutDone
  unfolding note_result
  back_to opts p = do
    moved ← gets (λ s. s.entry.switched)
    when moved (switch_current env inv backup svc rel p.current_dir)
    u ← install_release_units env inv backup svc rel p.current_dir
    r ← restart_release env inv backup svc rel u.socket_changed (some p.from) opts.ready_timeout
    set_entry (λ e. record e { rollback_ready = some r.waited.ok })
    if r.waited.ok
        then note_result "failed-rolled-back" >> finished rolled_back p
        else note_result "rollback-failed" >> finished rollback_failed p

  -- Not ready: back to the release that was left.
  unfoldable pub auto_rollback : ApplyOptions → LayoutPlan → M H LayoutDone
  unfolding back_to
  auto_rollback opts p = do
    set_entry (λ e. record e { auto_rollback = some p.from_release })
    catch (back_to opts p) (λ err. do
      set_entry (λ e. record e { result = some "rollback-failed"; error = some err })
      finished rollback_failed p)

  noted_restart : UnitsInstalled → Restarted → Entry → Entry
  noted_restart u r e = record e {
    units_installed = some u.changed;
    restarted = true;
    ready = some r.waited.ok;
    socket_rebind = r.rebind;
    socket_held = r.socket_held;
  }

  unfoldable pub restart_phase : Mode → ApplyOptions → LayoutPlan → String → M H LayoutDone
  unfolding settled noted_restart
  restart_phase mode opts p dir = do
    u ← install_release_units env inv backup svc rel dir
    set_entry (λ e. record e { units_installed = some u.changed })
    r ← restart_release env inv backup svc rel u.socket_changed (some p.to) opts.ready_timeout
    set_entry (noted_restart u r)
    if r.waited.ok then settled mode p else auto_rollback opts p

  -- The plan is carried out.
  unfoldable pub carry_out : Mode → ApplyOptions → LayoutPlan → M H LayoutDone
  unfolding prepare_or_remove note_result switch_if
  carry_out mode opts p = do
    when (is_deploy mode && not p.up_to_date) (prepare_or_remove p)
    let dir = if p.up_to_date then p.current_dir else p.target_dir
    if opts.prepare_only
        then note_result "prepared" >> finished ok_exit p
        else if not p.restart_needed
        then switch_only mode p dir
        else (do guarded opts p; switch_if p dir; restart_phase mode opts p dir)

  unfoldable pub attempt : Mode → ApplyOptions → M H LayoutDone
  unfolding noted_plan note_result
  attempt mode opts = do
    DeployGuard.acquire env inv.deploy_guard svc
    p ← compute_plan env inv svc rel mode opts.to opts.fetch opts.restart
    set_entry (noted_plan p)
    if p.up_to_date && not opts.restart
        then note_result "unchanged" >> finished ok_exit p
        else carry_out mode opts p

  failing : Error → M H LayoutDone
  failing err = do noted_failure env inv backup svc err; throw err

  unfoldable pub apply : Mode → ApplyOptions → M H LayoutDone
  unfolding failing
  apply mode opts = if not svc.managed then throw (op_error usage none) else do
    held ← Lock.acquire env inv svc.id env.pid
    start_record env inv backup svc mode
    finally (catch (attempt mode opts) failing) (closing env inv backup svc held)
