-- ===== src/DeployGuard/Steps.antt =====
-- What lib/deploy-guard.js does to the machine: a lock, a clock, and the available memory.
use open_vibe_host.Base.{false, ℕ, Option, none, some}
use open_vibe_host.Host.{Env, M, Call, State}
use open_vibe_host.Host.Rules.{Allows, Steps, Steps-bind, Steps-throw, Steps-finally, steps_rules}
use open_vibe_host.Host.Rules.Issued.{Issued, Issued-Allows, Issued-exhaust}
use open_vibe_host.Host.Waiting.{forever-Steps}
use open_vibe_host.Inventory.{Service}
use open_vibe_host.Inventory
use open_vibe_host.Systemd.Classes.{IsPlain}
use open_vibe_host.DeployGuard.{
  acquire, release, wait_outside_lock, pause, weigh, memory_round, enough_memory,
}

module _ {H : Type 0} (env : Env H) {R : State H → State H → Type 0}
    (plain : Allows env IsPlain R) where
  pause-Steps : (config : Inventory.DeployGuard) (start : ℕ) → Steps R (pause env config start)
  unfolding pause
  pause-Steps config start = search (steps_rules, plain.pre, plain.each) depth 10

  weigh-Steps :
      (config : Inventory.DeployGuard) (start : ℕ) (bytes : Option ℕ)
      → Steps R (weigh env config start bytes)
  unfolding weigh
  weigh-Steps config start none = Steps-throw plain.pre _
  weigh-Steps config start (some free) = search (pause-Steps, steps_rules, plain.pre) depth 6

  memory_round-Steps :
      (config : Inventory.DeployGuard) (start : ℕ) (u : Unit {0})
      → Steps R (memory_round env config start u)
  unfolding memory_round
  memory_round-Steps config start u =
      Steps-bind plain.pre _ _ (plain.each Call.mem_available tt) (weigh-Steps config start)

  pub acquire-Steps :
      (guard : Inventory.DeployGuard) (svc : Service) → Steps R (acquire env guard svc)
  unfolding acquire
  acquire-Steps guard svc = search (steps_rules, plain.pre, plain.locks, plain.each) depth 8

  release-Steps : Steps R (release env)
  unfolding release
  release-Steps =
      Steps-bind plain.pre _ _ (plain.each Call.release_deploy_lock tt) (λ _. plain.locks false)

  pub wait_outside_lock-Steps :
      (guard : Inventory.DeployGuard) (svc : Service) (work : M H (Unit {0}))
      → Steps R work
      → Steps R (wait_outside_lock env guard svc work)
  unfolding wait_outside_lock
  wait_outside_lock-Steps guard svc work k =
      Steps-bind plain.pre _ _ release-Steps
        (λ _. Steps-finally plain.pre work _ k (acquire-Steps guard svc))

-- The wait for memory runs no command at all.
pub enough_memory-Issued :
    {H : Type 0} (env : Env H) (config : Inventory.DeployGuard)
    → Steps (Issued IsPlain) (enough_memory env config)
unfolding enough_memory
enough_memory-Issued env config =
    let plain = Issued-Allows {C = IsPlain} env in
    Steps-bind plain.pre _ _ (plain.each Call.now tt) (λ start.
      forever-Steps plain.pre (memory_round env config start) env (Issued-exhaust _)
        (memory_round-Steps env plain config start) _ tt)
