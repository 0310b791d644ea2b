-- ===== src/ReleaseOps/Plan.antt =====
-- `computePlan` of lib/release-ops.js: what a deploy or a rollback would do.
pub mod Steps
use open_vibe_host.Base.{
  String, Bool, true, false, not, ◌&&◌, ◌||◌, Option, none, some, List, [], ◌∷◌, ◌++◌, map, ◌==◌,
  nat_eq, string_eq, if◌then◌else◌, keep, any, contains, null, is_some, truthy, length,
}
use open_vibe_host.Base.Text.{ends_with, strip_suffix}
use open_vibe_host.Base.Paths.{join, basename, dirname}
use open_vibe_host.Host.{
  Env, M, Call, op_error, usage, pure, throw, perform, maybe, catch, when, collect, ◌>>=◌, ◌>>◌,
}
use open_vibe_host.Inventory.{Service, Auxiliary}
use open_vibe_host.Probes.{Count, count_protected}
use open_vibe_host.Systemd
use open_vibe_host.Git
use open_vibe_host.Git.{Checkout, checkout_of, ◌⧺◌}
use open_vibe_host.Deps.{Need, skipped, expand_packages, needs_install}
use open_vibe_host.ReleaseOps.Patterns.{matches_path, is_ref}

pub data Mode : Type 0 where
  deploying rolling_back : Mode

pub record InstallStep : Type 0 where
  pub pkg : String
  pub lockfile_changed : Bool
  pub deps_changed : Bool
  pub missing_node_modules : Bool
  pub install : Bool

pub record Plan : Type 0 where
  pub branch : String
  pub from : String
  pub to : String
  pub up_to_date : Bool
  pub dirty : List String
  pub untracked_deleted : List String
  pub generated_dirty : List String
  pub commits : List String
  pub changed : List String
  pub code_changed : List String
  pub installs : List InstallStep
  pub untracked_lockfiles : List String
  pub untracked_generated : List String
  pub restart_needed : Bool
  pub units : List String
  pub extra_units : List String
  pub skipped_jobs : List String
  pub aux_restart : List String
  pub aux_apply : List String
  pub unit_drift : List String
  pub backup_needed : Bool
  pub sessions : Option Count
  pub vhosts_removed : List String
  pub install_vhosts : Bool

abbrev pub is_deploy : Mode → Bool
is_deploy deploying = true
is_deploy rolling_back = false

no_need : Need
no_need = record { lockfile_changed = false; deps_changed = false; needed = false }

-- `[...new Set(xs)]`
unfoldable pub distinct : List String → List String → List String
unfolding contains
distinct [] seen = seen
distinct (x ∷ xs) seen = distinct xs (if contains seen x then seen else seen ++ x ∷ [])

-- A package whose package.json changed, by the patterns of `packages`.
in_patterns : Service → String → Bool
unfolding ends_with strip_suffix dirname
in_patterns svc dir =
    any (λ p. p == dir || (ends_with p "/*" && dirname dir == strip_suffix "/*" p)) svc.packages

unfoldable pub add_changed_packages : Service → List String → List String → List String
unfolding in_patterns contains basename dirname skipped
add_changed_packages svc [] dirs = dirs
add_changed_packages svc (f ∷ fs) dirs = add_changed_packages svc fs (
    if basename f == "package.json"
      && in_patterns svc (dirname f)
      && not (contains dirs (dirname f))
      && not (skipped (dirname f) svc.skip_packages)
    then dirs ++ dirname f ∷ []
    else dirs)

-- A changed file that the vhost glob of the repository names.
unfoldable pub is_repo_vhost : Option String → String → Bool
unfolding ends_with basename dirname
is_repo_vhost none f = false
is_repo_vhost (some glob) f =
    not (glob == "")
    && (if ends_with glob "*.conf"
        then dirname f == dirname glob && ends_with (basename f) ".conf"
        else f == glob)

abbrev vhost_glob : Service → Option String
vhost_glob svc = elim svc.nginx [ none ↦ none | some n ↦ n.repo_vhosts ]

abbrev skipped_vhosts : Service → List String
skipped_vhosts svc = elim svc.nginx [ none ↦ [] | some n ↦ n.skip_vhosts ]

-- The auxiliary units with a changed file among the given patterns.
unfoldable pub aux_hit : (Auxiliary → List String) → List String → List Auxiliary → List String
unfolding matches_path
aux_hit patterns changed aux =
    map (λ a. a.unit)
      (keep (λ a. not (null (patterns a)) && any (λ f. matches_path f (patterns a)) changed) aux)

any_need : List Need → Bool
any_need ns = any (λ n. n.deps_changed) ns

lockfile_of_root : List Need → Bool
lockfile_of_root [] = false
lockfile_of_root (n ∷ ns) = n.lockfile_changed

text_eq : Option String → Option String → Bool
text_eq none none = true
text_eq (some a) (some b) = a == b
text_eq _ _ = false

module _ {H : Type 0} (env : Env H) (svc : Service) where
  abbrev g : Checkout
  g = checkout_of svc

  -- Each item of a list that passes an awaited test.
  keep_where : (String → M H Bool) → List String → M H (List String)
  keep_where test xs = collect xs (λ x. do b ← test x; pure (if b then x ∷ [] else []))

  -- `svc.remote/svc.branch`, or the ref that is given
  abbrev ref_of : Option String → String
  ref_of to = elim to [ none ↦ svc.remote ⧺ "/" ⧺ svc.branch | some r ↦ r ]

  target_of : Mode → Option String → Bool → M H String
  unfolding checkout_of
  target_of deploying to fetch = do when fetch (Git.fetch env g); Git.rev_parse env g (ref_of to)
  target_of rolling_back none fetch = throw (op_error usage none)
  target_of rolling_back (some r) fetch = if r == "" then throw (op_error usage none) else do
    known ← Git.has_commit env g r
    if not known then throw (op_error usage none) else Git.rev_parse env g r

  unless_same : {A : Type 0} → String → String → A → M H A → M H A
  unless_same from target x m = if from == target then pure x else m

  log_between : Mode → String → String → M H (List String)
  log_between deploying from target = Git.log env g from target
  log_between rolling_back from target = Git.log env g target from

  -- The target does not track a file that the current release tracks.
  stops_tracking : String → String → String → M H Bool
  stops_tracking from target f = do
    now ← Git.show env g from f
    if not (is_some now)
        then pure false
        else do then' ← Git.show env g target f; pure (not (is_some then'))

  -- All of the local changes, or none.
  unfoldable pub dropped_paths : String → String → List String → M H (List String)
  unfolding keep_where stops_tracking
  dropped_paths from target paths = do
    stopped ← keep_where (stops_tracking from target) paths
    pure (if length stopped == length paths then stopped else [])

  -- An untracked file that the target brings and that may go: a lockfile, or the same bytes.
  goes_first : String → String → M H Bool
  unfolding text_eq
  goes_first target f = do
    st ← perform env (Call.stat (join (svc.repo ∷ f ∷ [])))
    if not (is_some st)
        then pure false
        else if svc.remove_untracked_lockfiles
            && basename f == svc.install.lockfile
            && not (skipped (dirname f) svc.skip_packages)
        then pure true
        else do
          have ← perform env (Call.read_file (join (svc.repo ∷ f ∷ [])))
          want ← Git.show env g target f
          pure (text_eq have want)

  newly_tracked : String → String → String → M H Bool
  newly_tracked from target f = do
    was ← Git.show env g from f
    if is_some was then pure false else do
      want ← Git.show env g target f
      if not (is_some want)
          then pure false
          else do st ← perform env (Call.stat (join (svc.repo ∷ f ∷ []))); pure (is_some st)

  -- Known build output, or a vhost of the repository, that the target starts to track.
  is_generated : List String → String → String → String → M H Bool
  unfolding newly_tracked
  is_generated lockfiles from target f =
      let vhost = is_repo_vhost (vhost_glob svc) f in
      if vhost && contains (skipped_vhosts svc) (basename f)
      then pure false
      else if not (matches_path f svc.generated || vhost) || contains lockfiles f
      then pure false
      else newly_tracked from target f

  unfoldable pub generated_files : List String → String → String → List String → M H (List String)
  unfolding keep_where is_generated
  generated_files lockfiles from target changed =
      if not (null svc.generated) || truthy (vhost_glob svc)
      then keep_where (is_generated lockfiles from target) changed
      else pure []

  need_for : String → String → String → M H Need
  unfolding no_need
  need_for from target pkg =
      unless_same from target no_need (needs_install env g from target pkg svc.install.lockfile)

  step_for : String → Need → M H (List InstallStep)
  step_for pkg n = do
    st ← perform env (Call.stat (join (svc.repo ∷ pkg ∷ "node_modules" ∷ [])))
    pure (
        record {
          pkg = pkg;
          lockfile_changed = n.lockfile_changed;
          deps_changed = n.deps_changed;
          missing_node_modules = not (is_some st);
          install = n.needed || svc.install.always || not (is_some st);
        }
        ∷ [])

  -- One install at the root of a workspace, needed by its lockfile or by any package.
  workspace_need : String → String → List String → M H Need
  unfolding any_need lockfile_of_root no_need
  workspace_need from target dirs = unless_same from target no_need (do
    needs ←
        collect ("." ∷ dirs)
          (λ pkg. do n ← needs_install env g from target pkg svc.install.lockfile; pure (n ∷ []))
    pure (record {
      lockfile_changed = lockfile_of_root needs;
      deps_changed = any_need needs;
      needed = lockfile_of_root needs || any_need needs;
    }))

  unfoldable pub install_steps : String → String → List String → M H (List InstallStep)
  unfolding need_for step_for workspace_need unless_same
  install_steps from target dirs =
      if svc.install.workspace
      then (do n ← workspace_need from target dirs; step_for "." n)
      else collect dirs (λ pkg. do n ← need_for from target pkg; step_for pkg n)

  -- A oneshot unit is a job; a unit that cannot be shown is taken for a service.
  is_job : String → M H Bool
  is_job u = do
    kind ← catch (do st ← Systemd.show env u; pure st.kind) (λ _. pure "")
    pure (kind == "oneshot")

  found_units : Option String → M H (List String)
  found_units none = pure []
  found_units (some glob) =
      if glob == ""
      then pure []
      else catch
          (do
            found ← Systemd.list_unit_files env glob
            pure
                (keep (λ u. not (contains svc.units u) && not (contains svc.worker_units u)) found))
          (λ _. pure [])

  sort_jobs : List String → M H (List String × List String)
  unfolding is_job
  sort_jobs [] = pure ([], [])
  sort_jobs (u ∷ us) = do
    job ← is_job u
    rest ← sort_jobs us
    pure (if job then (rest.0, u ∷ rest.1) else (u ∷ rest.0, rest.1))

  drifted : String → String × String → M H (List String)
  unfolding text_eq
  drifted target (unit, src) = do
    want ← Git.show env g target src
    if not (is_some want) then pure [] else do
      have ← perform env (Call.read_file (join ("/etc/systemd/system" ∷ unit ∷ [])))
      pure (if text_eq have want then [] else unit ∷ [])

  unfoldable pub unit_drift : String → M H (List String)
  unfolding drifted
  unit_drift target = collect svc.unit_sources (drifted target)

  abbrev sessions_if : Bool → M H (Option Count)
  sessions_if needed = if needed then (do c ← count_protected env svc; pure (some c)) else pure none

  -- A vhost of the repository that the target no longer has.
  vhost_gone : String → String → String → M H Bool
  vhost_gone target glob f =
      if ends_with f ".conf"
        && dirname f == dirname glob
        && not (contains (skipped_vhosts svc) (basename f))
      then (do want ← Git.show env g target f; pure (not (is_some want)))
      else pure false

  removed_vhosts : String → List String → M H (List String)
  unfolding vhost_gone keep_where
  removed_vhosts target changed = maybe svc.nginx (pure []) (λ n.
      if n.install_on_deploy && truthy n.repo_vhosts
      then (maybe n.repo_vhosts (pure [])
          (λ glob. do gone ← keep_where (vhost_gone target glob) changed; pure (map basename gone)))
      else pure [])

  -- The rest of the plan, once both ends and the local changes are known.
  plan_changes : Mode → Bool → String → String → String → List String → M H Plan
  unfolding unless_same log_between dropped_paths generated_files install_steps found_units
      sort_jobs unit_drift removed_vhosts keep_where goes_first
  plan_changes mode restart branch from target dirty_all = do
    let generated_dirty = keep (λ f. matches_path f svc.generated) dirty_all
    let dirty = keep (λ f. not (matches_path f svc.generated)) dirty_all
    changed ← unless_same from target [] (Git.changed_files env g from target)
    commits ← unless_same from target [] (log_between mode from target)
    skip ← Git.skip_worktree env g
    untracked_deleted ←
        dropped_paths from target
          (distinct (dirty ++ keep (λ f. not (matches_path f svc.generated)) skip) [])
    listed ← expand_packages env svc
    let pkg_dirs = add_changed_packages svc changed listed
    added ← unless_same from target [] (Git.added_files env g from target)
    lockfiles ← keep_where (goes_first target) added
    generated ← generated_files lockfiles from target changed
    installs ← install_steps from target pkg_dirs
    let code_changed = keep (λ f. not (matches_path f svc.no_restart_paths)) changed
    found ← found_units svc.units_match
    jobs ← sort_jobs found
    let units = svc.units ++ jobs.0
    let restart_needed = not (null units) && (restart || not (null code_changed))
    drift ← unit_drift target
    sessions ← sessions_if restart_needed
    gone ← removed_vhosts target changed
    pure (record {
      branch = branch;
      from = from;
      to = target;
      up_to_date = from == target;
      dirty = keep (λ f. not (contains untracked_deleted f)) dirty;
      untracked_deleted = untracked_deleted;
      generated_dirty = generated_dirty;
      commits = commits;
      changed = changed;
      code_changed = code_changed;
      installs = installs;
      untracked_lockfiles = lockfiles;
      untracked_generated = generated;
      restart_needed = restart_needed;
      units = units;
      extra_units = jobs.0;
      skipped_jobs = jobs.1;
      aux_restart =
          if is_deploy mode then aux_hit (λ a. a.restart_on) changed svc.auxiliary_units else [];
      aux_apply =
          if is_deploy mode then aux_hit (λ a. a.apply_on) changed svc.auxiliary_units else [];
      unit_drift = drift;
      backup_needed =
          not (null svc.databases) && any (λ f. contains svc.backup_on_change f) changed;
      sessions = sessions;
      vhosts_removed = gone;
      install_vhosts = elim svc.nginx [ none ↦ false | some n ↦ n.install_on_deploy ];
    })

  -- `to != null && !/…/.test(String(to))`
  abbrev bad_ref : Option String → Bool
  bad_ref to = elim to [ none ↦ false | some r ↦ not (is_ref r) ]

  unfoldable pub compute_plan : Mode → Option String → Bool → Bool → M H Plan
  unfolding target_of plan_changes
  compute_plan mode to fetch restart = if bad_ref to then throw (op_error usage none) else do
    from ← Git.head env g
    branch ← Git.branch env g
    dirty_all ← Git.dirty env g
    target ← target_of mode to fetch
    plan_changes mode restart branch from target dirty_all
