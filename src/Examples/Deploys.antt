-- ===== src/Examples/Deploys.antt =====
-- Deploys of lib/release-ops.js on the machine, and the theorems about them at concrete inputs.
use open_vibe_host.Base.{ℕ, String, true, false, none, some, List, [], ◌∷◌, ◌≡◌, refl, arith}
use open_vibe_host.Host.{M, ok, ok_exit, failed, pure, throw}
use open_vibe_host.Host.Rules.{Steps, Steps-pure, Steps-throw, ran}
use open_vibe_host.Host.Rules.Issued.{Issued, Issued-preorder}
use open_vibe_host.Host.Rules.Clock.{Ongoing, Ongoing-preorder}
use open_vibe_host.Systemd.Classes.{IsSocketSafe}
use open_vibe_host.Examples.Machine.{machine, machine-Clock, live, inventory, start, computing}
use open_vibe_host.ReleaseOps.Plan.{Mode, deploying, Plan}
use open_vibe_host.ReleaseOps.Apply.{ApplyOptions, Done, apply, restart_phase}
use open_vibe_host.ReleaseOps.Apply.Outcomes.{Outcome, restart_phase-Outcome}
use open_vibe_host.ReleaseOps.Actions.{restart_and_wait}
use open_vibe_host.ReleaseOps.Sockets.{PlainPrograms, apply-IsSocketSafe}
use open_vibe_host.ReleaseOps.Entrances.{deploy, rollback}
use open_vibe_host.ReleaseOps.Entrances.Sockets.{entrances-IsSocketSafe}
use open_vibe_host.ReleaseOps.Ends.{apply-Ongoing}
use open_vibe_host.Readiness.{wait_ready}

abbrev pub plainly : ApplyOptions
plainly = record {
  guard = record { force = false; wait_idle = false };
  to = none;
  fetch = true;
  restart = false;
  install_units = false;
  ready_timeout = 0;
  prepare_only = false;
}

abbrev pub no_backup : M ℕ (List String)
no_backup = pure []

abbrev no_layout : Mode → ApplyOptions → M ℕ Done
no_layout mode opts = throw failed

plain_programs : PlainPrograms inventory live
plain_programs = record {
  install_program = refl;
  nginx_program = refl;
  build_programs = tt;
  check_programs = tt;
}

apply-IsSocketSafe_example :
    Steps (Issued IsSocketSafe) (apply machine inventory no_backup live no_layout deploying plainly)
apply-IsSocketSafe_example =
    apply-IsSocketSafe machine inventory live plain_programs no_backup
      (Steps-pure Issued-preorder []) no_layout deploying plainly
      (Steps-throw Issued-preorder failed)

entrances-IsSocketSafe_example :
    Steps (Issued IsSocketSafe) (deploy machine inventory no_backup no_layout live plainly)
    × Steps (Issued IsSocketSafe) (rollback machine inventory no_backup no_layout live plainly)
entrances-IsSocketSafe_example =
    entrances-IsSocketSafe machine inventory live plain_programs no_backup
      (Steps-pure Issued-preorder []) no_layout (λ mode opts. Steps-throw Issued-preorder failed)
      plainly

apply-Ongoing_example :
    Steps
      (Ongoing machine-Clock)
      (apply machine inventory no_backup live no_layout deploying plainly)
apply-Ongoing_example =
    apply-Ongoing machine-Clock inventory live (omega arith) (omega arith) no_backup
      (Steps-pure (Ongoing-preorder machine-Clock) []) no_layout deploying plainly
      (Steps-throw (Ongoing-preorder machine-Clock) failed)

abbrev pub to_new : Plan
to_new = record {
  branch = "main";
  from = "1234567abc";
  to = "abcdef1234";
  up_to_date = false;
  dirty = [];
  untracked_deleted = [];
  generated_dirty = [];
  commits = "abcdef1 new" ∷ [];
  changed = "server.js" ∷ [];
  code_changed = "server.js" ∷ [];
  installs = [];
  untracked_lockfiles = [];
  untracked_generated = [];
  restart_needed = true;
  units = "live.service" ∷ [];
  extra_units = [];
  skipped_jobs = [];
  aux_restart = [];
  aux_apply = [];
  unit_drift = [];
  backup_needed = false;
  sessions = none;
  vhosts_removed = [];
  install_vhosts = false;
}

abbrev restarting : M ℕ Done
restarting = restart_phase machine inventory no_backup live deploying plainly to_new none

abbrev went_live : Done
went_live = record { exit = ok_exit; plan = some to_new; announcements = none }

restarted_well : (restarting start).0 ≡ ok went_live
unfolding restart_phase restart_and_wait wait_ready computing
restarted_well = refl

restart_phase-Outcome_example :
    Outcome machine inventory no_backup live deploying to_new ok_exit
      (restarting start).1.entry.result
restart_phase-Outcome_example =
    restart_phase-Outcome machine inventory no_backup live deploying plainly to_new none went_live
      start (restarting start).1 (ran restarting start (ok went_live) restarted_well)
