-- ===== src/ReleaseOps/Actions/Waits.antt =====
-- `restartAndWait` of lib/release-ops.js ends with its wait for readiness.
use open_vibe_host.Base.{ℕ, String, Option, List, ◌≡◌}
use open_vibe_host.Host.{Env, State, ok, for_each}
use open_vibe_host.Host.Rules.{bind-ok}
use open_vibe_host.Inventory.{Service, Inventory}
use open_vibe_host.Readiness.{Waited, wait_ready}
use open_vibe_host.Systemd
use open_vibe_host.ReleaseOps.Actions.{ensure_socket, restart_and_wait}

pub restart_and_wait-waits :
    {H : Type 0} (env : Env H) (inv : Inventory) (svc : Service) (timeout : ℕ) (units : List String)
    (expected : Option String) (w : Waited) (s t : State H)
    → restart_and_wait env inv svc timeout units expected s ≡ (ok w, t)
    → (u : State H) × (wait_ready env svc timeout expected units u ≡ (ok w, t))
unfolding restart_and_wait
restart_and_wait-waits env inv svc timeout units expected w s t h =
    let (_, u, _, rest) = bind-ok (ensure_socket env inv svc) _ s t w h in
    let (_, v, _, last) = bind-ok (for_each units (Systemd.restart env)) _ u t w rest in (v, last)
