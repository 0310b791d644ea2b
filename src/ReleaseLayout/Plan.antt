-- ===== src/ReleaseLayout/Plan.antt =====
-- `computePlan` of lib/release-layout.js.
use open_vibe_host.Base.{
  ℕ, String, Bool, true, false, not, ◌&&◌, ◌||◌, Option, none, some, List, [], ◌∷◌, map, ◌==◌,
  nat_eq, string_eq, if◌then◌else◌, keep, any, contains, null, is_some,
}
use open_vibe_host.Base.Paths.{join}
use open_vibe_host.Host.{
  Env, M, Call, op_error, usage, pure, throw, perform, maybe, when, collect, ◌>>=◌, ◌>>◌,
}
use open_vibe_host.Inventory.{Service, Inventory}
use open_vibe_host.Probes.{Count, count_protected}
use open_vibe_host.Systemd
use open_vibe_host.Git
use open_vibe_host.Git.{◌⧺◌}
use open_vibe_host.Deps.{Need, expand_packages, needs_install}
use open_vibe_host.ReleaseOps.Patterns.{matches_path, is_ref}
use open_vibe_host.ReleaseOps.Plan.{Mode, deploying, rolling_back, is_deploy}
use open_vibe_host.ReleaseLayout.State.{
  Layout, Current, new_release_id, clone, current_release, rollback_target,
}

pub record ModulesStep : Type 0 where
  pub pkg : String
  pub lockfile_changed : Bool
  pub install : Bool

pub record LayoutPlan : Type 0 where
  pub from : String
  pub to : String
  pub from_release : String
  pub to_release : String
  pub current_dir : String
  pub target_dir : String
  pub reuse : Bool
  pub up_to_date : Bool
  pub commits : List String
  pub changed : List String
  pub code_changed : List String
  pub installs : List ModulesStep
  pub restart_needed : Bool
  pub unit_drift : List String
  pub socket_changed : Bool
  pub socket_held : Option Bool
  pub backup_needed : Bool
  pub sessions : Option Count

-- Where a plan leads: the commit, the directory and the id, and whether the directory is there.
pub record Goal : Type 0 where
  pub sha : String
  pub dir : String
  pub id : String
  pub reuse : Bool

text_eq : Option String → Option String → Bool
text_eq none none = true
text_eq (some a) (some b) = a == b
text_eq _ _ = false

-- One unit file that differs, and whether it is an installed socket's.
pub record Drift : Type 0 where
  pub unit : String
  pub socket : Bool

abbrev is_unit : Option String → String → Bool
is_unit none u = false
is_unit (some s) u = s == u

abbrev nonzero : Option ℕ → Option ℕ
nonzero none = none
nonzero (some p) = if p == 0 then none else some p

-- `release.socketPort || port`, where 0 is none
unfoldable pub port_of : Layout → Option ℕ
port_of rel = elim (nonzero rel.socket_port) [ some p ↦ some p | none ↦ nonzero rel.port ]

module _ {H : Type 0} (env : Env H) (inv : Inventory) (svc : Service) (rel : Layout) where
  commit_of : Option String → Bool → M H String
  commit_of to fetch = do
    when fetch (Git.fetch env (clone env svc rel))
    Git.rev_parse env (clone env svc rel)
        (elim to [ none ↦ svc.remote ⧺ "/" ⧺ svc.branch | some r ↦ r ])

  deploy_goal : String → Option String → Bool → M H Goal
  unfolding commit_of new_release_id
  deploy_goal cur_id to fetch = do
    sha ← commit_of to fetch
    t ← perform env Call.now
    let id = new_release_id rel (env.utc_digits t) sha
    reuse ←
        if not rel.time_ids && not (id == cur_id)
        then (do
          st ← perform env (Call.stat (join (rel.releases_dir ∷ id ∷ [])))
          pure (is_some st))
        else pure false
    pure (record { sha = sha; dir = join (rel.releases_dir ∷ id ∷ []); id = id; reuse = reuse })

  rollback_goal : Current → Option String → M H Goal
  rollback_goal cur to = do
    t ← rollback_target env svc rel inv cur to
    maybe t.sha (throw (op_error usage none))
        (λ sha. pure (record { sha = sha; dir = t.dir; id = t.id; reuse = false }))

  goal_of : Mode → Current → String → Option String → Bool → M H Goal
  unfolding deploy_goal rollback_goal
  goal_of deploying cur cur_id to fetch = deploy_goal cur_id to fetch
  goal_of rolling_back cur cur_id to fetch = rollback_goal cur to

  unless_same : {A : Type 0} → String → String → A → M H A → M H A
  unless_same from target x m = if from == target then pure x else m

  log_between : Mode → String → String → M H (List String)
  log_between deploying from target = Git.log env (clone env svc rel) from target
  log_between rolling_back from target = Git.log env (clone env svc rel) target from

  drifted : String → String × String → M H (List Drift)
  unfolding text_eq
  drifted target (unit, src) = do
    want ← Git.show env (clone env svc rel) target src
    if not (is_some want) then pure [] else do
      have ← perform env (Call.read_file (join ("/etc/systemd/system" ∷ unit ∷ [])))
      pure (
          if text_eq have want
          then []
          else record { unit = unit; socket = is_unit svc.socket_unit unit && is_some have } ∷ [])

  packages_of : String → M H (List String)
  packages_of dir = do
    dirs ← expand_packages env (record svc { repo = dir })
    pure (if null dirs then "." ∷ [] else dirs)

  no_need : Need
  no_need = record { lockfile_changed = false; deps_changed = false; needed = false }

  modules_step : Bool → String → String → String → String → M H (List ModulesStep)
  unfolding unless_same no_need
  modules_step own cur_dir from target pkg =
      if own
      then pure (record { pkg = pkg; lockfile_changed = false; install = false } ∷ [])
      else (do
        need ←
            unless_same from target no_need
              (needs_install env (clone env svc rel) from target pkg svc.install.lockfile)
        st ← perform env (Call.stat (join (cur_dir ∷ pkg ∷ "node_modules" ∷ [])))
        pure (
            record {
              pkg = pkg;
              lockfile_changed = need.lockfile_changed;
              install = need.needed || not rel.reuse_modules || not (is_some st);
            }
            ∷ []))

  held_by : Option ℕ → M H (Option Bool)
  held_by none = pure none
  held_by (some port) = do h ← Systemd.socket_held env port; pure (some h.0)

  held_if : Option String → M H (Option Bool)
  unfolding held_by port_of
  held_if none = pure none
  held_if (some u) = held_by (port_of rel)

  sessions_if : Bool → M H (Option Count)
  sessions_if needed = if needed then (do c ← count_protected env svc; pure (some c)) else pure none

  plan_between : Mode → Bool → String → String → String → Goal → M H LayoutPlan
  unfolding unless_same log_between drifted packages_of modules_step held_if sessions_if
      matches_path contains
  plan_between mode restart dir cur_id from goal = do
    changed ← unless_same from goal.sha [] (Git.changed_files env (clone env svc rel) from goal.sha)
    commits ← unless_same from goal.sha [] (log_between mode from goal.sha)
    drift ← collect svc.unit_sources (drifted goal.sha)
    pkgs ← packages_of dir
    installs ← collect pkgs (modules_step (not (is_deploy mode) || goal.reuse) dir from goal.sha)
    let code_changed = keep (λ f. not (matches_path f svc.no_restart_paths)) changed
    let restart_needed =
        not (null svc.units) && (restart || not (null code_changed) || not (null drift))
    sessions ← sessions_if restart_needed
    held ← held_if svc.socket_unit
    pure (record {
      from = from;
      to = goal.sha;
      from_release = cur_id;
      to_release = goal.id;
      current_dir = dir;
      target_dir = goal.dir;
      reuse = goal.reuse;
      up_to_date = if is_deploy mode then goal.sha == from else goal.id == cur_id;
      commits = commits;
      changed = changed;
      code_changed = code_changed;
      installs = installs;
      restart_needed = restart_needed;
      unit_drift = map (λ d. d.unit) drift;
      socket_changed = any (λ d. d.socket) drift;
      socket_held = held;
      backup_needed =
          not (null svc.databases) && any (λ f. contains svc.backup_on_change f) changed;
      sessions = sessions;
    })

  abbrev bad_ref : Mode → Option String → Bool
  bad_ref mode to = is_deploy mode && elim to [ none ↦ false | some r ↦ not (is_ref r) ]

  abbrev or_usage : {A : Type 0} → Option A → (A → M H LayoutPlan) → M H LayoutPlan
  or_usage x f = maybe x (throw (op_error usage none)) f

  abbrev id_or_empty : Option String → String
  id_or_empty none = ""
  id_or_empty (some s) = s

  unfoldable pub compute_plan : Mode → Option String → Bool → Bool → M H LayoutPlan
  unfolding goal_of plan_between
  compute_plan mode to fetch restart = if bad_ref mode to then throw (op_error usage none) else do
    cur ← current_release env svc rel
    or_usage cur.dir (λ dir. or_usage cur.sha (λ from. do
      st ← perform env (Call.stat rel.git)
      if not (is_some st) then throw (op_error usage none) else do
        goal ← goal_of mode cur (id_or_empty cur.id) to fetch
        plan_between mode restart dir (id_or_empty cur.id) from goal))
