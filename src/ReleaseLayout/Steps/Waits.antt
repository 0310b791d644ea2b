-- ===== src/ReleaseLayout/Steps/Waits.antt =====
-- `restartRelease` of lib/release-layout.js says what its wait for readiness said.
use open_vibe_host.Base.{ℕ, String, Bool, Option, List, ◌≡◌, ap}
use open_vibe_host.Host.{Env, M, State, ok, for_each}
use open_vibe_host.Host.Rules.{bind-ok}
use open_vibe_host.Host.Rules.Inverse.{pure-ok}
use open_vibe_host.Inventory.{Service, Inventory}
use open_vibe_host.Readiness.{Waited, wait_ready}
use open_vibe_host.Systemd
use open_vibe_host.ReleaseLayout.State.{Layout}
use open_vibe_host.ReleaseLayout.Steps.{
  Restarted, why_rebind, rebind_if, held_after, restart_release,
}

pub restart_release-waits :
    {H : Type 0} (env : Env H) (inv : Inventory) (backup : M H (List String)) (svc : Service)
    (rel : Layout) (socket_changed : Bool) (expected : Option String) (timeout : ℕ) (r : Restarted)
    (s t : State H)
    → restart_release env inv backup svc rel socket_changed expected timeout s ≡ (ok r, t)
    → (u v : State H) × (w : Waited) × (wait_ready env svc timeout expected svc.units u ≡ (ok w, v))
      × (w ≡ r.waited)
unfolding restart_release
restart_release-waits env inv backup svc rel socket_changed expected timeout r s t h =
    let (why, a, _, h1) = bind-ok (why_rebind env inv backup svc rel socket_changed) _ s t r h in
    let (units, b, _, h2) = bind-ok (rebind_if env inv backup svc rel why) _ a t r h1 in
    let (_, c, _, h3) = bind-ok (for_each units (Systemd.restart env)) _ b t r h2 in
    let (w, d, waited, h4) = bind-ok (wait_ready env svc timeout expected svc.units) _ c t r h3 in
    let (held, e, _, last) = bind-ok (held_after env inv backup svc rel w.ok) _ d t r h4 in
    let (same, _) = pure-ok _ r e t last in (c, d, w, waited, ap (λ x. x.waited) same)
