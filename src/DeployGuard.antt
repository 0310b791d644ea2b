-- ===== src/DeployGuard.antt =====
-- lib/deploy-guard.js: the host-wide deploy lock, and the wait for memory before an install.
pub mod Memory
pub mod Outside
pub mod Steps
use open_vibe_host.Base.{
  ℕ, zero, suc, ◌+◌, ◌-◌, ◌*◌, String, Bool, true, false, Option, none, some, if◌then◌else◌, leb,
  min,
}
use open_vibe_host.Host.{
  Env, M, Call, State, failed, locked_error, pure, throw, set_host_lock, perform, catch, finally,
  maybe, ◌>>=◌, ◌>>◌,
}
use open_vibe_host.Host.Waiting.{Round, finished, again, forever}
use open_vibe_host.Inventory.{Service}
use open_vibe_host.Inventory

abbrev lock_path : String
lock_path = "/run/lock/openvibe-host-deploy.lock"

abbrev pub mib : ℕ
mib = 1024 * 1024

module _ {H : Type 0} (env : Env H) where
  -- `acquire`, and the assignment of its result to `hostLock.current` in every caller
  unfoldable pub acquire : Inventory.DeployGuard → Service → M H (Unit {0})
  acquire guard svc = do
    catch (perform env (Call.acquire_deploy_lock lock_path svc.id guard.lock_wait_seconds))
        (λ _. throw locked_error)
    set_host_lock true

  -- `hostLock.current.release()`, with `hostLock.current = null` behind it
  unfoldable pub release : M H (Unit {0})
  release = do perform env Call.release_deploy_lock; set_host_lock false

  unfoldable pub wait_outside_lock :
      Inventory.DeployGuard → Service → M H (Unit {0}) → M H (Unit {0})
  unfolding acquire release
  wait_outside_lock guard svc work = do release; finally work (acquire guard svc)

  -- `if (now >= deadline) throw …; await sleep(…)`
  pause : Inventory.DeployGuard → ℕ → M H (Round (Unit {0}) (Unit {0}))
  pause config start = do
    t ← perform env Call.now
    if leb (start + config.memory_wait_seconds * 1000) t then throw failed else do
      u ← perform env Call.now
      perform env (
          Call.sleep (
            min (config.memory_poll_seconds * 1000)
              (start + config.memory_wait_seconds * 1000 - u)))
      pure (again tt)

  weigh : Inventory.DeployGuard → ℕ → Option ℕ → M H (Round (Unit {0}) (Unit {0}))
  unfolding pause
  weigh config start none = throw failed
  weigh config start (some free) =
      if leb (config.min_available_mib * mib) free then pure (finished tt) else pause config start

  -- One round of the loop: it ends, it throws, or it sleeps.
  memory_round : Inventory.DeployGuard → ℕ → Unit {0} → M H (Round (Unit {0}) (Unit {0}))
  unfolding weigh
  memory_round config start _ = do bytes ← perform env Call.mem_available; weigh config start bytes

  unfoldable pub enough_memory : Inventory.DeployGuard → M H (Unit {0})
  unfolding memory_round
  enough_memory config = do
    start ← perform env Call.now
    forever env (suc (config.memory_wait_seconds * 1000)) (memory_round config start) tt
