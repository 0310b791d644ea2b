-- ===== src/ReleaseOps/Sockets.antt =====
-- No deploy and no rollback of lib/release-ops.js stops a socket unit.
use open_vibe_host.Base.{arith, All, String, false, List, [], ◌∷◌, ◌==◌, string_eq, ◌≡◌}
use open_vibe_host.DeployGuard
use open_vibe_host.DeployGuard.Steps.{wait_outside_lock-Steps, enough_memory-Issued}
use open_vibe_host.Deps.{install_command}
use open_vibe_host.Host.{Env, M, Call, State, perform}
use open_vibe_host.Host.Rules.{Allows, Allows-weaken, Steps, Steps-bind}
use open_vibe_host.Host.Rules.Issued.{Issued, Issued-Allows, Issued-weaken}
use open_vibe_host.Inventory.{Service, Inventory, Check}
use open_vibe_host.Nginx.{test_command}
use open_vibe_host.Preflight.{check_command}
use open_vibe_host.Readiness.Ends.{wait_ready-looks}
use open_vibe_host.Sessions
use open_vibe_host.Sessions.{poll, wait_for_idle, guard_sessions}
use open_vibe_host.Sessions.Looking.{guard_sessions-Steps, poll-Issued}
use open_vibe_host.Systemd.Classes.{IsSocketSafe, IsPlain-IsSocketSafe, IsObservation-IsSocketSafe}
use open_vibe_host.ReleaseOps.Plan.{Mode}
use open_vibe_host.ReleaseOps.Actions.{build_command}
use open_vibe_host.ReleaseOps.Actions.Steps.{Configured}
use open_vibe_host.ReleaseOps.Apply.{ApplyOptions, Done, apply}
use open_vibe_host.ReleaseOps.Apply.Steps.{apply-Steps}

-- The programs that the inventory configures are other ones than systemctl.
pub record PlainPrograms (inv : Inventory) (svc : Service) : Type 0 where
  pub install_program : (svc.install.program == "systemctl") ≡ false
  pub nginx_program : (inv.nginx_bin == "systemctl") ≡ false
  pub build_programs : All (λ b. (b.0 == "systemctl") ≡ false) svc.build
  pub check_programs : All (λ c. (c.program == "systemctl") ≡ false) svc.preflight.checks

module _ {H : Type 0} (env : Env H) (inv : Inventory) (svc : Service) where
  abbrev Safe : State H → State H → Type 0
  Safe = Issued IsSocketSafe

  abbrev safe : Allows env IsSocketSafe Safe
  safe = Issued-Allows env

  installs :
      (svc.install.program == "systemctl") ≡ false
      → (dir : String) → Steps Safe (perform env (Call.run (install_command svc dir)))
  unfolding install_command
  installs h dir = safe.each (Call.run (install_command svc dir)) (ground arith)

  nginx_tests :
      (inv.nginx_bin == "systemctl") ≡ false
      → Steps Safe (perform env (Call.run (test_command inv)))
  unfolding test_command
  nginx_tests h = safe.each (Call.run (test_command inv)) (ground arith)

  builds :
      (bs : List (String × List String))
      → All (λ b. (b.0 == "systemctl") ≡ false) bs
      → All (λ b. Steps Safe (perform env (Call.run (build_command svc b)))) bs
  unfolding build_command
  builds [] _ = tt
  builds ((program, arguments) ∷ bs) (h, hs) =
      (safe.each (Call.run (build_command svc (program, arguments))) (ground arith), builds bs hs)

  checks :
      (cs : List Check)
      → All (λ c. (c.program == "systemctl") ≡ false) cs
      → All (λ c. (dir : String) → Steps Safe (perform env (Call.run (check_command svc c dir)))) cs
  unfolding check_command
  checks [] _ = tt
  checks (c ∷ cs) (h, hs) =
      ((λ dir. safe.each (Call.run (check_command svc c dir)) (ground arith)), checks cs hs)

  configured : PlainPrograms inv svc → Configured env Safe inv svc
  configured p = record {
    installs = record {
      memory = Issued-weaken _ IsPlain-IsSocketSafe (enough_memory-Issued env svc.deploy_guard);
      program = installs p.install_program;
    };
    builds = builds svc.build p.build_programs;
    checks = checks svc.preflight.checks p.check_programs;
    nginx_tests = nginx_tests p.nginx_program;
    waits = λ timeout expected units.
        Issued-weaken _ IsObservation-IsSocketSafe
          (wait_ready-looks env svc timeout expected units);
  }

  waits_outside :
      Steps Safe (wait_for_idle env svc (DeployGuard.wait_outside_lock env inv.deploy_guard svc))
  unfolding wait_for_idle
  waits_outside = Steps-bind safe.pre _ _ (safe.each Call.now tt) (λ start.
      wait_outside_lock-Steps env (Allows-weaken IsPlain-IsSocketSafe safe) inv.deploy_guard svc
        (poll env svc start)
        (Issued-weaken _ IsObservation-IsSocketSafe (poll-Issued env svc start)))

  guards :
      (opts : Sessions.Options) (when_ : String)
      → Steps Safe (
          guard_sessions env svc opts
            (DeployGuard.wait_outside_lock env inv.deploy_guard svc)
            when_)
  guards opts when_ =
      guard_sessions-Steps env (Allows-weaken IsObservation-IsSocketSafe safe) svc opts _
        waits_outside when_

  -- Where the inventory configures no systemctl of its own, no call that `apply` makes is a systemctl
  -- verb that disrupts a socket unit, if none that the backup or the release-layout engine makes is
  -- one: whatever the mode, the options, the plan and the answers, and whether it returns or throws.
  pub apply-IsSocketSafe :
      PlainPrograms inv svc
      → (backup : M H (List String)) → Steps (Issued IsSocketSafe) backup
      → (layout : Mode → ApplyOptions → M H Done) (mode : Mode) (opts : ApplyOptions)
      → Steps (Issued IsSocketSafe) (layout mode opts)
      → Steps (Issued IsSocketSafe) (apply env inv backup svc layout mode opts)
  apply-IsSocketSafe p backup kb layout mode opts kl =
      apply-Steps env inv backup svc safe
        (record { configured = configured p; backs_up = kb; guards = guards }) layout mode opts kl
