-- ===== src/Examples/Layouts.antt =====
-- Releases of lib/release-layout.js on the machine, and the theorems about them at concrete inputs.
use open_vibe_host.Base.{false, ℕ, String, List, [], ◌∷◌, true, none, ◌≡◌, refl, All}
use open_vibe_host.Base.Paths.{join, join_with, normalize, dirname, basename}
use open_vibe_host.Base.Sorting.{sort_by, insert_sorted}
use open_vibe_host.Git
use open_vibe_host.Host.{M, State, ok, ok_exit, pure}
use open_vibe_host.Host.Rules.{ran}
use open_vibe_host.Host.Rules.Issued.{Issued}
use open_vibe_host.Examples.Machine.{machine, live, inventory, start, computing}
use open_vibe_host.ReleaseLayout.State.{
  Layout, Current, Release, current_release, list_releases, releases_in_use, used_by_unit,
  used_by_worker,
}
use open_vibe_host.Examples.Deploys.{plainly}
use open_vibe_host.Readiness.{wait_ready}
use open_vibe_host.ReleaseOps.Plan.{deploying}
use open_vibe_host.ReleaseLayout.Plan.{LayoutPlan}
use open_vibe_host.ReleaseLayout.Apply.{LayoutDone, restart_phase}
use open_vibe_host.ReleaseLayout.Apply.Outcomes.{Outcome, layout-Outcome}
use open_vibe_host.ReleaseLayout.Steps.{prune, install_release_units, restart_release}
use open_vibe_host.ReleaseLayout.Steps.Prunes.{Seen, Removes, MayGo, prune-Removes}

abbrev releases : Layout
releases = record {
  git = "/srv/live.git";
  current = "/srv/current";
  releases_dir = "/srv/releases";
  time_ids = true;
  reuse_modules = true;
  keep = 1;
  links = [];
  chown = none;
  settle_seconds = 3;
  socket_port = none;
  port = none;
}

abbrev no_backup : M ℕ (List String)
no_backup = pure []

abbrev pruning : M ℕ (List String)
pruning = prune machine inventory no_backup live releases ("r2" ∷ [])

pruned_one : (pruning start).0 ≡ ok ("r1" ∷ [])
unfolding prune list_releases current_release releases_in_use Git.worktree_remove Git.worktree_prune
    Git.run_any join join_with normalize dirname basename sort_by insert_sorted computing
pruned_one = refl

prune-Removes_example :
    (list : List Release) × (cur : Current) × (in_use : List String) × (u v w : State ℕ)
    × (list_releases machine live releases start ≡ (ok list, u))
    × (current_release machine live releases u ≡ (ok cur, v))
    × (releases_in_use machine live releases v ≡ (ok in_use, w))
    × All (Seen (used_by_unit machine live releases) in_use) live.units
    × All (Seen (used_by_worker machine live releases) in_use) live.worker_units
    × Issued
        (Removes machine inventory no_backup live releases
          (MayGo machine inventory no_backup live releases list cur.id ("r2" ∷ []) in_use))
        w
        (pruning start).1
prune-Removes_example =
    prune-Removes machine inventory no_backup live releases ("r2" ∷ []) ("r1" ∷ []) start
      (pruning start).1 (ran pruning start (ok ("r1" ∷ [])) pruned_one)

abbrev to_newer : LayoutPlan
to_newer = record {
  from = "1234567abc";
  to = "abcdef1234";
  from_release = "r2";
  to_release = "r3";
  current_dir = "/srv/releases/r2";
  target_dir = "/srv/releases/r3";
  reuse = false;
  up_to_date = false;
  commits = [];
  changed = "server.js" ∷ [];
  code_changed = "server.js" ∷ [];
  installs = [];
  restart_needed = true;
  unit_drift = [];
  socket_changed = false;
  socket_held = none;
  backup_needed = false;
  sessions = none;
}

abbrev restarting : M ℕ LayoutDone
restarting =
    restart_phase machine inventory no_backup live releases deploying plainly to_newer
      "/srv/releases/r3"

abbrev went_live : LayoutDone
went_live = record { exit = ok_exit; plan = to_newer }

restarted_well : (restarting start).0 ≡ ok went_live
unfolding restart_phase install_release_units restart_release wait_ready prune list_releases
    current_release releases_in_use Git.worktree_remove Git.worktree_prune Git.run_any join
    join_with normalize dirname basename sort_by insert_sorted computing
restarted_well = refl

layout-Outcome_example : Outcome machine inventory no_backup live releases to_newer ok_exit
layout-Outcome_example =
    layout-Outcome machine inventory no_backup live releases deploying plainly to_newer
      "/srv/releases/r3" went_live start (restarting start).1
      (ran restarting start (ok went_live) restarted_well)
