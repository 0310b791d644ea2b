-- ===== src/ReleaseOps/Plan/Steps.antt =====
-- What `computePlan` of lib/release-ops.js does to the machine.
use open_vibe_host.Base.{String, Bool, Option, none, some, List, [], ◌∷◌, ◌==◌, nat_eq, string_eq}
use open_vibe_host.Deps.{Need}
use open_vibe_host.Deps.Steps.{needs_install-Steps, expand_packages-Steps}
use open_vibe_host.Git.Steps.{
  head-Steps, branch-Steps, rev_parse-Steps, has_commit-Steps, dirty-Steps, skip_worktree-Steps,
  fetch-Steps, changed_files-Steps, added_files-Steps, log-Steps, show-Steps,
}
use open_vibe_host.Host.{Env, M, State}
use open_vibe_host.Host.Rules.{
  Allows, Allows-weaken, Steps, Steps-pure, Steps-throw, Steps-if, Steps-bind, Steps-catch,
  Steps-collect, steps_rules,
}
use open_vibe_host.Inventory.{Service}
use open_vibe_host.Probes.Steps.{count_protected-Steps}
use open_vibe_host.Systemd.Classes.{
  IsPlain, IsSocketSafe, IsObservation, IsPlain-IsSocketSafe, IsObservation-IsSocketSafe,
}
use open_vibe_host.Systemd.Guard
use open_vibe_host.ReleaseOps.Plan.{
  Mode, deploying, rolling_back, keep_where, target_of, unless_same, log_between, stops_tracking,
  dropped_paths, goes_first, newly_tracked, is_generated, generated_files, need_for, step_for,
  workspace_need, install_steps, is_job, found_units, sort_jobs, drifted, unit_drift, sessions_if,
  vhost_gone, removed_vhosts, plan_changes, compute_plan,
}

module _ {H : Type 0} (env : Env H) (svc : Service) {R : State H → State H → Type 0}
    (plain : Allows env IsPlain R) where
  keep_where-Steps :
      (test : String → M H Bool) (xs : List String)
      → ((x : String) → Steps R (test x))
      → Steps R (keep_where env svc test xs)
  unfolding keep_where
  keep_where-Steps test xs k =
      Steps-collect plain.pre xs _
        (λ x. Steps-bind plain.pre _ _ (k x) (λ b. Steps-pure plain.pre _))

  unless_same-Steps :
      {A : Type 0} (from target : String) (x : A) (m : M H A)
      → Steps R m
      → Steps R (unless_same env svc from target x m)
  unfolding unless_same
  unless_same-Steps from target x m k =
      Steps-if (from == target) _ _ (λ _. Steps-pure plain.pre x) (λ _. k)

  target_of-Steps :
      (mode : Mode) (to : Option String) (fetch : Bool) → Steps R (target_of env svc mode to fetch)
  unfolding target_of
  target_of-Steps deploying to fetch =
      search (fetch-Steps, rev_parse-Steps, steps_rules, plain.pre, plain) depth 6
  target_of-Steps rolling_back none fetch = Steps-throw plain.pre _
  target_of-Steps rolling_back (some r) fetch =
      search (has_commit-Steps, rev_parse-Steps, steps_rules, plain.pre, plain) depth 6

  log_between-Steps :
      (mode : Mode) (from target : String) → Steps R (log_between env svc mode from target)
  unfolding log_between
  log_between-Steps deploying from target = log-Steps env plain _ _ _
  log_between-Steps rolling_back from target = log-Steps env plain _ _ _

  stops_tracking-Steps : (from target f : String) → Steps R (stops_tracking env svc from target f)
  unfolding stops_tracking
  stops_tracking-Steps from target f = search (show-Steps, steps_rules, plain.pre, plain) depth 8

  dropped_paths-Steps :
      (from target : String) (paths : List String)
      → Steps R (dropped_paths env svc from target paths)
  unfolding dropped_paths
  dropped_paths-Steps from target paths =
      Steps-bind plain.pre _ _ (keep_where-Steps _ paths (stops_tracking-Steps from target))
        (λ s. Steps-pure plain.pre _)

  goes_first-Steps : (target f : String) → Steps R (goes_first env svc target f)
  unfolding goes_first
  goes_first-Steps target f =
      search (show-Steps, steps_rules, plain.pre, plain.each, plain) depth 10

  newly_tracked-Steps : (from target f : String) → Steps R (newly_tracked env svc from target f)
  unfolding newly_tracked
  newly_tracked-Steps from target f =
      search (show-Steps, steps_rules, plain.pre, plain.each, plain) depth 10

  is_generated-Steps :
      (lockfiles : List String) (from target f : String)
      → Steps R (is_generated env svc lockfiles from target f)
  unfolding is_generated
  is_generated-Steps lockfiles from target f =
      search (newly_tracked-Steps, steps_rules, plain.pre) depth 6

  generated_files-Steps :
      (lockfiles : List String) (from target : String) (changed : List String)
      → Steps R (generated_files env svc lockfiles from target changed)
  unfolding generated_files
  generated_files-Steps lockfiles from target changed =
      search (keep_where-Steps, is_generated-Steps, steps_rules, plain.pre) depth 6

  need_for-Steps : (from target pkg : String) → Steps R (need_for env svc from target pkg)
  unfolding need_for
  need_for-Steps from target pkg =
      unless_same-Steps from target _ _ (needs_install-Steps env plain _ from target pkg _)

  step_for-Steps : (pkg : String) (n : Need) → Steps R (step_for env svc pkg n)
  unfolding step_for
  step_for-Steps pkg n = search (steps_rules, plain.pre, plain.each) depth 6

  workspace_need-Steps :
      (from target : String) (dirs : List String)
      → Steps R (workspace_need env svc from target dirs)
  unfolding workspace_need
  workspace_need-Steps from target dirs = unless_same-Steps from target _ _ (
      Steps-bind plain.pre _ _
        (Steps-collect plain.pre ("." ∷ dirs) _ (λ pkg.
          Steps-bind plain.pre _ _ (needs_install-Steps env plain _ from target pkg _)
            (λ n. Steps-pure plain.pre _)))
        (λ needs. Steps-pure plain.pre _))

  install_steps-Steps :
      (from target : String) (dirs : List String) → Steps R (install_steps env svc from target dirs)
  unfolding install_steps
  install_steps-Steps from target dirs =
      search (workspace_need-Steps, need_for-Steps, step_for-Steps, steps_rules, plain.pre) depth 8

  drifted-Steps : (target : String) (u : String × String) → Steps R (drifted env svc target u)
  unfolding drifted
  drifted-Steps target (unit, src) =
      search (show-Steps, steps_rules, plain.pre, plain.each, plain) depth 8

  unit_drift-Steps : (target : String) → Steps R (unit_drift env svc target)
  unfolding unit_drift
  unit_drift-Steps target = Steps-collect plain.pre svc.unit_sources _ (drifted-Steps target)

  vhost_gone-Steps : (target glob f : String) → Steps R (vhost_gone env svc target glob f)
  unfolding vhost_gone
  vhost_gone-Steps target glob f = search (show-Steps, steps_rules, plain.pre, plain) depth 8

  removed_vhosts-Steps :
      (target : String) (changed : List String) → Steps R (removed_vhosts env svc target changed)
  unfolding removed_vhosts
  removed_vhosts-Steps target changed =
      search (keep_where-Steps, vhost_gone-Steps, steps_rules, plain.pre) depth 8

module _ {H : Type 0} (env : Env H) (svc : Service) {R : State H → State H → Type 0}
    (safe : Allows env IsSocketSafe R) where
  plain : Allows env IsPlain R
  plain = Allows-weaken IsPlain-IsSocketSafe safe

  look : Allows env IsObservation R
  look = Allows-weaken IsObservation-IsSocketSafe safe

  is_job-Steps : (u : String) → Steps R (is_job env svc u)
  unfolding is_job
  is_job-Steps u =
      Steps-bind safe.pre _ _
        (Steps-catch safe.pre _ _
          (Steps-bind safe.pre _ _ (Guard.show-Steps env look u) (λ st. Steps-pure safe.pre _))
          (λ _. Steps-pure safe.pre _))
        (λ kind. Steps-pure safe.pre _)

  found_units-Steps : (glob : Option String) → Steps R (found_units env svc glob)
  unfolding found_units
  found_units-Steps none = Steps-pure safe.pre []
  found_units-Steps (some glob) =
      Steps-if (glob == "") _ _ (λ _. Steps-pure safe.pre [])
        (λ _.
          Steps-catch safe.pre _ _
            (Steps-bind safe.pre _ _ (Guard.list_unit_files-Steps env look glob)
              (λ found. Steps-pure safe.pre _))
            (λ _. Steps-pure safe.pre []))

  sort_jobs-Steps : (us : List String) → Steps R (sort_jobs env svc us)
  unfolding sort_jobs
  sort_jobs-Steps [] = Steps-pure safe.pre _
  sort_jobs-Steps (u ∷ us) =
      Steps-bind safe.pre _ _ (is_job-Steps u)
        (λ job. Steps-bind safe.pre _ _ (sort_jobs-Steps us) (λ rest. Steps-pure safe.pre _))

  sessions_if-Steps : (needed : Bool) → Steps R (sessions_if env svc needed)
  sessions_if-Steps needed =
      Steps-if needed _ _
        (λ _.
          Steps-bind safe.pre _ _ (count_protected-Steps env look svc) (λ c. Steps-pure safe.pre _))
        (λ _. Steps-pure safe.pre none)

  plan_changes-Steps :
      (mode : Mode) (restart : Bool) (branch from target : String) (dirty : List String)
      → Steps R (plan_changes env svc mode restart branch from target dirty)
  unfolding plan_changes
  plan_changes-Steps mode restart branch from target dirty =
      search
        (
          unless_same-Steps, changed_files-Steps, log_between-Steps, skip_worktree-Steps,
          dropped_paths-Steps, expand_packages-Steps, added_files-Steps, keep_where-Steps,
          goes_first-Steps, generated_files-Steps, install_steps-Steps, found_units-Steps,
          sort_jobs-Steps, unit_drift-Steps, sessions_if-Steps, removed_vhosts-Steps, Steps-bind,
          Steps-pure, safe.pre, plain,
        )
        depth 20

  pub compute_plan-Steps :
      (mode : Mode) (to : Option String) (fetch restart : Bool)
      → Steps R (compute_plan env svc mode to fetch restart)
  unfolding compute_plan
  compute_plan-Steps mode to fetch restart =
      search
        (
          head-Steps, branch-Steps, dirty-Steps, target_of-Steps, plan_changes-Steps, steps_rules,
          safe.pre, plain,
        )
        depth 10
