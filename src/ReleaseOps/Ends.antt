-- ===== src/ReleaseOps/Ends.antt =====
-- Every deploy and every rollback of lib/release-ops.js ends.
use open_vibe_host.Base.{◌<◌, All, String, List, [], ◌∷◌}
use open_vibe_host.DeployGuard.Memory.{enough_memory-Ongoing}
use open_vibe_host.DeployGuard.Outside.{wait_outside_lock-KeepsTime}
use open_vibe_host.Host.{Env, M, Call, perform}
use open_vibe_host.Host.Rules.{Steps}
use open_vibe_host.Host.Rules.Clock.{Clock, Ongoing, Ongoing-perform, Ongoing-Allows}
use open_vibe_host.Inventory.{Service, Inventory, Check}
use open_vibe_host.Deps.{install_command}
use open_vibe_host.Nginx.{test_command}
use open_vibe_host.Preflight.{check_command}
use open_vibe_host.Readiness.Ends.{wait_ready-Ongoing}
use open_vibe_host.Sessions.Looking.{guard_sessions-Ongoing}
use open_vibe_host.Systemd.Classes.{IsSocketSafe}
use open_vibe_host.ReleaseOps.Plan.{Mode}
use open_vibe_host.ReleaseOps.Actions.{build_command}
use open_vibe_host.ReleaseOps.Actions.Steps.{Configured}
use open_vibe_host.ReleaseOps.Apply.{ApplyOptions, Done, apply}
use open_vibe_host.ReleaseOps.Apply.Steps.{apply-Steps}

module _ {H : Type 0} {env : Env H} (c : Clock env) (inv : Inventory) (svc : Service) where
  builds :
      (bs : List (String × List String))
      → All (λ b. Steps (Ongoing c) (perform env (Call.run (build_command svc b)))) bs
  builds [] = tt
  builds (b ∷ bs) = (Ongoing-perform c (Call.run (build_command svc b)), builds bs)

  checks :
      (cs : List Check)
      → All
          (λ k.
            (dir : String) → Steps (Ongoing c) (perform env (Call.run (check_command svc k dir))))
          cs
  checks [] = tt
  checks (k ∷ cs) = ((λ dir. Ongoing-perform c (Call.run (check_command svc k dir))), checks cs)

  configured : 0 < svc.deploy_guard.memory_poll_seconds → Configured env (Ongoing c) inv svc
  configured m = record {
    installs = record {
      memory = enough_memory-Ongoing c svc.deploy_guard m;
      program = λ dir. Ongoing-perform c (Call.run (install_command svc dir));
    };
    builds = builds svc.build;
    checks = checks svc.preflight.checks;
    nginx_tests = Ongoing-perform c (Call.run (test_command inv));
    waits = wait_ready-Ongoing c svc;
  }

  -- With a clock that goes forward and pauses above zero between the polls of sessions and of memory,
  -- `apply` ends by itself, if the backup and the release-layout engine do: it never uses up the rounds
  -- that the model grants a loop, whatever the mode, the options, the plan and the answers.
  pub apply-Ongoing :
      0 < svc.deploy_guard.memory_poll_seconds
      → 0 < svc.drain.poll_seconds
      → (backup : M H (List String)) → Steps (Ongoing c) backup
      → (layout : Mode → ApplyOptions → M H Done) (mode : Mode) (opts : ApplyOptions)
      → Steps (Ongoing c) (layout mode opts)
      → Steps (Ongoing c) (apply env inv backup svc layout mode opts)
  apply-Ongoing m p backup kb layout mode opts kl =
      apply-Steps env inv backup svc (Ongoing-Allows c {C = IsSocketSafe})
        (record {
          configured = configured m;
          backs_up = kb;
          guards = λ o w.
              guard_sessions-Ongoing c svc p o _
                (wait_outside_lock-KeepsTime env inv.deploy_guard svc c) w;
        })
        layout mode opts kl
