-- ===== src/ReleaseOps/Apply/Steps.antt =====
-- What `apply` of lib/release-ops.js does to the machine, given what the parts do that the inventory
-- configures.
use open_vibe_host.Base.{String, Bool, not, Option, List, nat_eq, string_eq, refl, truthy}
use open_vibe_host.DeployGuard
use open_vibe_host.Git.Steps.{
  no_skip_worktree-Steps, rm_cached-Steps, checkout_paths-Steps, ff_merge-Steps, reset_hard-Steps,
}
use open_vibe_host.Host.{Env, M, Call, Error, State, perform}
use open_vibe_host.Host.Rules.{
  Allows, Allows-weaken, Steps, Steps-pure, Steps-throw, Steps-if, Steps-bind, Steps-maybe,
  Steps-gets, steps_rules,
}
use open_vibe_host.Inventory.{Service, Inventory}
use open_vibe_host.Lock.{Held}
use open_vibe_host.Lock.Steps.{acquire-Steps, release-Steps}
use open_vibe_host.Preflight
use open_vibe_host.Preflight.Steps as PreflightSteps
use open_vibe_host.Readiness
use open_vibe_host.Readiness.{Waited}
use open_vibe_host.Releases
use open_vibe_host.Sessions
use open_vibe_host.Sessions.{guard_sessions}
use open_vibe_host.Systemd.Classes.{IsPlain, IsSocketSafe, IsPlain-IsSocketSafe}
use open_vibe_host.Systemd.Guard.{restart-Steps}
use open_vibe_host.ReleaseOps.Plan.{Mode, Plan}
use open_vibe_host.ReleaseOps.Plan.Steps.{compute_plan-Steps}
use open_vibe_host.ReleaseOps.Actions.{Announcement}
use open_vibe_host.ReleaseOps.Actions.Steps.{
  Configured, install_all-Steps, verify_deps-Steps, run_build_noted-Steps,
  install_repo_vhosts-Steps, install_units-Steps, restart_and_wait-Steps, restore_checkout-Steps,
  release_announcements-Steps,
}
use open_vibe_host.ReleaseOps.Apply.{
  ApplyOptions, Done, rm_command, operator_name, guard_if, remove_untracked, drop_from_index,
  refuse, nothing_to_do, move_checkout, check_preflight, check_deps, install_vhosts_if, backup_if,
  restart_aux, prepare, put_back, no_restart, came_back, go_back, auto_rollback, restarted_with,
  restart_phase, carry_out, attempt, noted_failure, write_record, closing, start_record, in_place,
  apply, is_release_layout,
}

-- What the parts do that `apply` is given beside: the backup, and the guard of the sessions.
pub record Given {H : Type 0} (env : Env H) (R : State H → State H → Type 0) (inv : Inventory)
    (backup : M H (List String)) (svc : Service) : Type 0 where
  pub configured : Configured env R inv svc
  pub backs_up : Steps R backup
  pub guards :
      (opts : Sessions.Options) (when_ : String)
      → Steps R (
          guard_sessions env svc opts
            (DeployGuard.wait_outside_lock env inv.deploy_guard svc)
            when_)

module _ {H : Type 0} (env : Env H) (inv : Inventory) (backup : M H (List String)) (svc : Service)
    {R : State H → State H → Type 0} (safe : Allows env IsSocketSafe R)
    (given : Given env R inv backup svc) where
  plain : Allows env IsPlain R
  plain = Allows-weaken IsPlain-IsSocketSafe safe

  conf : Configured env R inv svc
  conf = given.configured

  operator_name-Steps : Steps R (operator_name env inv backup svc)
  unfolding operator_name
  operator_name-Steps =
      Steps-if (truthy env.sudo_user) _ _
        (λ _. Steps-maybe env.sudo_user _ _ (Steps-pure safe.pre "") (λ u. Steps-pure safe.pre u))
        (λ _. plain.each Call.user_name tt)

  guard_if-Steps :
      (needed : Bool) (opts : Sessions.Options) (when_ : String)
      → Steps R (guard_if env inv backup svc needed opts when_)
  unfolding guard_if
  guard_if-Steps needed opts when_ =
      Steps-if needed _ _ (λ _. given.guards opts when_) (λ _. Steps-pure safe.pre tt)

  rm-Steps : (f : String) → Steps R (perform env (Call.run (rm_command svc f)))
  unfolding rm_command
  rm-Steps f = plain.each (Call.run (rm_command svc f)) refl

  remove_untracked-Steps : (f : String) → Steps R (remove_untracked env inv backup svc f)
  unfolding remove_untracked
  remove_untracked-Steps f = search (rm-Steps, steps_rules, safe.pre, safe.edits) depth 6

  drop_from_index-Steps : (f : String) → Steps R (drop_from_index env inv backup svc f)
  unfolding drop_from_index
  drop_from_index-Steps f =
      search (no_skip_worktree-Steps, rm_cached-Steps, steps_rules, safe.pre, safe.edits, plain)
        depth 6

  refuse-Steps : (p : Plan) → Steps R (refuse env inv backup svc p)
  unfolding refuse
  refuse-Steps p = search (steps_rules, safe.pre) depth 6

  nothing_to_do-Steps :
      (mode : Mode) (opts : ApplyOptions) (p : Plan)
      → Steps R (nothing_to_do env inv backup svc mode opts p)
  unfolding nothing_to_do
  nothing_to_do-Steps mode opts p =
      search (install_units-Steps, steps_rules, safe.pre, safe.edits, safe, conf) depth 8

  move_checkout-Steps : (mode : Mode) (p : Plan) → Steps R (move_checkout env inv backup svc mode p)
  unfolding move_checkout
  move_checkout-Steps mode p =
      search
        (
          checkout_paths-Steps, remove_untracked-Steps, drop_from_index-Steps, ff_merge-Steps,
          reset_hard-Steps, steps_rules, safe.pre, safe.edits, plain,
        )
        depth 10

  check_preflight-Steps : (r : Preflight.Report) → Steps R (check_preflight env inv backup svc r)
  unfolding check_preflight
  check_preflight-Steps r = search (steps_rules, safe.pre, safe.edits) depth 8

  check_deps-Steps : Steps R (check_deps env inv backup svc)
  unfolding check_deps
  check_deps-Steps =
      search (verify_deps-Steps, steps_rules, safe.pre, safe.edits, safe, conf) depth 8

  install_vhosts_if-Steps : (b : Bool) → Steps R (install_vhosts_if env inv backup svc b)
  unfolding install_vhosts_if
  install_vhosts_if-Steps b =
      search (install_repo_vhosts-Steps, steps_rules, safe.pre, safe, conf) depth 8

  backup_if-Steps : (b : Bool) → Steps R (backup_if env inv backup svc b)
  unfolding backup_if
  backup_if-Steps b = search (given.backs_up, steps_rules, safe.pre, safe.edits) depth 8

  restart_aux-Steps : (u : String) → Steps R (restart_aux env inv backup svc u)
  unfolding restart_aux
  restart_aux-Steps u = search (restart-Steps, steps_rules, safe.pre, safe.edits, safe) depth 8

  prepare-Steps : (opts : ApplyOptions) (p : Plan) → Steps R (prepare env inv backup svc opts p)
  unfolding prepare
  prepare-Steps opts p =
      let preflight = PreflightSteps.run-Steps env plain svc conf.checks in
      search
        (
          install_all-Steps, check_deps-Steps, run_build_noted-Steps, preflight,
          check_preflight-Steps, install_vhosts_if-Steps, install_units-Steps, backup_if-Steps,
          guard_if-Steps, restart_aux-Steps, steps_rules, safe.pre, safe.edits, safe, conf,
        )
        depth 16

  put_back-Steps : (p : Plan) (e : Error) → Steps R (put_back env inv backup svc p e)
  unfolding put_back
  put_back-Steps p e =
      search (restore_checkout-Steps, steps_rules, safe.pre, safe.edits, safe, conf) depth 10

  no_restart-Steps :
      (mode : Mode) (p : Plan) (a : Option (List Announcement))
      → Steps R (no_restart env inv backup svc mode p a)
  unfolding no_restart Readiness.probe Readiness.probe_url
  no_restart-Steps mode p a = search (steps_rules, safe.pre, safe.edits, plain.each) depth 12

  came_back-Steps : (p : Plan) (w : Waited) → Steps R (came_back env inv backup svc p w)
  unfolding came_back
  came_back-Steps p w = search (steps_rules, safe.pre, safe.edits) depth 8

  go_back-Steps : (opts : ApplyOptions) (p : Plan) → Steps R (go_back env inv backup svc opts p)
  unfolding go_back
  go_back-Steps opts p =
      search
        (
          restore_checkout-Steps, restart_and_wait-Steps, came_back-Steps, steps_rules, safe.pre,
          safe, conf,
        )
        depth 8

  auto_rollback-Steps :
      (opts : ApplyOptions) (p : Plan) → Steps R (auto_rollback env inv backup svc opts p)
  unfolding auto_rollback
  auto_rollback-Steps opts p = search (go_back-Steps, steps_rules, safe.pre, safe.edits) depth 8

  pub restart_phase-Steps :
      (mode : Mode) (opts : ApplyOptions) (p : Plan) (a : Option (List Announcement))
      → Steps R (restart_phase env inv backup svc mode opts p a)
  unfolding restart_phase restarted_with
  restart_phase-Steps mode opts p a =
      search
        (restart_and_wait-Steps, auto_rollback-Steps, steps_rules, safe.pre, safe.edits, safe, conf)
        depth 10

  carry_out-Steps :
      (mode : Mode) (opts : ApplyOptions) (p : Plan)
      → Steps R (carry_out env inv backup svc mode opts p)
  unfolding carry_out
  carry_out-Steps mode opts p =
      search
        (
          guard_if-Steps, move_checkout-Steps, prepare-Steps, put_back-Steps,
          release_announcements-Steps, no_restart-Steps, restart_phase-Steps, steps_rules, safe.pre,
          safe, conf,
        )
        depth 10

  acquire_host-Steps : Steps R (DeployGuard.acquire env inv.deploy_guard svc)
  unfolding DeployGuard.acquire
  acquire_host-Steps = search (steps_rules, safe.pre, safe.locks, plain.each) depth 8

  attempt-Steps :
      (mode : Mode) (opts : ApplyOptions) → Steps R (attempt env inv backup svc mode opts)
  unfolding attempt
  attempt-Steps mode opts =
      search
        (
          acquire_host-Steps, compute_plan-Steps, refuse-Steps, nothing_to_do-Steps,
          carry_out-Steps, steps_rules, safe.pre, safe.edits, safe,
        )
        depth 12

  append-Steps : Steps R (Releases.append env inv)
  unfolding Releases.append
  append-Steps = Steps-bind safe.pre _ _ (Steps-gets safe.pre _) (λ entry.
      Steps-bind safe.pre _ _ (plain.each (Call.append_file _ _) tt) (λ _. Steps-pure safe.pre tt))

  write_record-Steps : Steps R (write_record env inv backup svc)
  unfolding write_record
  write_record-Steps = search (append-Steps, steps_rules, safe.pre) depth 8

  closing-Steps : (held : Held) → Steps R (closing env inv backup svc held)
  unfolding closing
  closing-Steps held = Steps-bind safe.pre _ _ (plain.each Call.now tt) (λ t.
      Steps-bind safe.pre _ _ (safe.edits _) (λ _. Steps-bind safe.pre _ _ write_record-Steps (λ _.
        Steps-bind safe.pre _ _ (Steps-gets safe.pre _) (λ locked.
          Steps-bind safe.pre _ _
            (Steps-if locked _ _ (λ _. plain.each Call.release_deploy_lock tt)
              (λ _. Steps-pure safe.pre tt))
            (λ _. release-Steps env plain held)))))

  start_record-Steps : (mode : Mode) → Steps R (start_record env inv backup svc mode)
  unfolding start_record
  start_record-Steps mode =
      search (operator_name-Steps, steps_rules, safe.pre, safe.edits, plain.each) depth 12

  in_place-Steps :
      (mode : Mode) (opts : ApplyOptions) → Steps R (in_place env inv backup svc mode opts)
  unfolding in_place noted_failure
  in_place-Steps mode opts =
      search
        (
          acquire-Steps, start_record-Steps, attempt-Steps, closing-Steps, steps_rules, safe.pre,
          safe.edits, plain,
        )
        depth 12

  -- `apply` does what its parts do, the release-layout engine among them.
  pub apply-Steps :
      (layout : Mode → ApplyOptions → M H Done) (mode : Mode) (opts : ApplyOptions)
      → Steps R (layout mode opts)
      → Steps R (apply env inv backup svc layout mode opts)
  unfolding apply
  apply-Steps layout mode opts k =
      Steps-if (not svc.managed) _ _ (λ _. Steps-throw safe.pre _)
        (λ _.
          Steps-if (is_release_layout svc.strategy) _ _ (λ _. k)
            (λ _.
              Steps-if opts.prepare_only _ _ (λ _. Steps-throw safe.pre _)
                (λ _. Steps-bind safe.pre _ _ (plain.each (Call.readlink _) tt) (λ current.
                  Steps-if (truthy current) _ _ (λ _. Steps-throw safe.pre _)
                    (λ _. in_place-Steps mode opts)))))
