-- ===== src/Readiness/Ends.antt =====
-- `waitReady` (lib/readiness.js) only looks at the machine, and it ends.
use open_vibe_host.Base.{
  ℕ, ◌+◌, ◌≤◌, String, Bool, true, false, Option, List, ◌≡◌, ◌≢◌, sym, ap, arith,
}
use open_vibe_host.Host.{Env, Call, State, ok, pure, perform, ◌>>=◌}
use open_vibe_host.Host.Rules.{
  Preorder, Steps, Steps-pure, Steps-bind, Steps-maybe, bind-ok, bind_at,
}
use open_vibe_host.Host.Rules.Issued.{Issued, Issued-Allows, Issued-exhaust}
use open_vibe_host.Host.Rules.Clock.{
  Clock, Ongoing, Ongoing-preorder, Ongoing-perform, Ongoing-Allows, now_time, slept,
}
use open_vibe_host.Host.Waiting.{
  Round, finished, again, Advances, while_before-Steps, while_before-Ongoing,
}
use open_vibe_host.Inventory.{Ready, Service}
use open_vibe_host.Systemd.Classes.{IsObservation}
use open_vibe_host.Readiness.{
  Waited, Verdict, is_ready, unit_failed, not_yet, look_once, answer_in, after_look, wait_round,
  wait_url, wait_ready,
}
use open_vibe_host.Readiness.Steps.{look_once-Steps, answer_in-Steps, wait_round-Steps}

module _ {H : Type 0} where
  ends :
      (w : Waited) (s t : State H) (y : Unit {0})
      → pure {A = Round Waited (Unit {0})} (finished w) s ≢ (ok (again y), t)
  unfolding pure
  ends w s t y h = cc

  goes_on :
      (s t : State H) → pure {A = Round Waited (Unit {0})} (again tt) s ≡ (ok (again tt), t) → s ≡ t
  unfolding pure
  goes_on s t h = cc

module _ {H : Type 0} (env : Env H) where
  wait_url-Issued :
      (ready : Ready) (timeout : ℕ) (expected : Option String) (units : List String)
      → Steps (Issued IsObservation) (wait_url env ready timeout expected units)
  unfolding wait_url
  wait_url-Issued ready timeout expected units =
      let look = Issued-Allows {C = IsObservation} env in
      Steps-bind look.pre _ _ (look.each Call.now tt) (λ start.
        while_before-Steps env look.pre _ _ _ (look.each Call.now tt) (Issued-exhaust _)
          (λ _. wait_round-Steps env look ready expected units start)
          (λ _. answer_in-Steps env look false start) _ tt)

  -- Waiting for a service only looks at the machine.
  pub wait_ready-looks :
      (svc : Service) (timeout : ℕ) (expected : Option String) (units : List String)
      → Steps (Issued IsObservation) (wait_ready env svc timeout expected units)
  unfolding wait_ready
  wait_ready-looks svc timeout expected units =
      let look = Issued-Allows {C = IsObservation} env in
      Steps-maybe svc.ready _ _ (Steps-pure look.pre _)
        (λ ready. wait_url-Issued ready timeout expected units)

module _ {H : Type 0} {env : Env H} (c : Clock env) where
  abbrev order : Preorder (Ongoing c)
  order = Ongoing-preorder c

  answers :
      (good : Bool) (start : ℕ) (s t : State H) (y : Unit {0})
      → (answer_in env good start >>= λ w. pure {A = Round Waited (Unit {0})} (finished w)) s
        ≢ (ok (again y), t)
  answers good start s t y h =
      let (w, u, _, last) = bind-ok (answer_in env good start) _ s t (again y) h in
      ends w u t y last

  after_look-waits :
      (start : ℕ) (v : Verdict) (s t : State H)
      → after_look env start v s ≡ (ok (again tt), t)
      → c.time s.host + 1000 ≤ c.time t.host
  unfolding after_look
  after_look-waits start is_ready s t h = absurd (answers true start s t tt h)
  after_look-waits start unit_failed s t h = absurd (answers false start s t tt h)
  after_look-waits start not_yet s t h =
      let (_, u, e, last) = bind-ok (perform env (Call.sleep 1000)) _ s t (again tt) h in
      let passed = slept c s u 1000 e in rw (sym (goes_on u t last)) passed

  module _ (ready : Ready) (expected : Option String) (units : List String) where
    wait_round-waits :
        (start : ℕ) (s t : State H)
        → wait_round env ready expected units start s ≡ (ok (again tt), t)
        → c.time s.host + 1000 ≤ c.time t.host
    unfolding wait_round
    wait_round-waits start s t h =
        let (v, u, e, rest) = bind-ok (look_once env ready expected units) _ s t (again tt) h in
        let looked : c.time s.host ≤ c.time u.host =
          rw (← ap (λ r. c.time r.1.host) e)
            ((look_once-Steps env (Ongoing-Allows c) ready expected units).at s).later in
        omega (arith, looked, after_look-waits start v u t rest)

    wait_round-Advances :
        (start : ℕ) → Advances c 1000 (λ (_ : Unit {0}). wait_round env ready expected units start)
    wait_round-Advances start = record {
      ongoing = λ _. wait_round-Steps env (Ongoing-Allows c) ready expected units start;
      passes = λ _ _ s e.
          wait_round-waits start s _
            (ap (λ r. (r, (wait_round env ready expected units start s).1)) e);
    }

    wait_url-Ongoing : (timeout : ℕ) → Steps (Ongoing c) (wait_url env ready timeout expected units)
    unfolding wait_url
    wait_url-Ongoing timeout = record {
      at = λ s.
          let read = (Ongoing-perform c Call.now).at s in
          bind_at order (perform env Call.now) _ s read (λ start e.
            while_before-Ongoing c 1000 _
              (λ (_ : Unit {0}). wait_round env ready expected units start)
              (λ _. answer_in env false start) (wait_round-Advances start)
              (λ _. answer_in-Steps env (Ongoing-Allows c) false start) _ tt
              (perform env Call.now s).1 (omega arith)
              (omega (arith, now_time c s start e, read.later)));
    }

  -- Where the clock goes forward, waiting for a service ends by itself.
  pub wait_ready-Ongoing :
      (svc : Service) (timeout : ℕ) (expected : Option String) (units : List String)
      → Steps (Ongoing c) (wait_ready env svc timeout expected units)
  unfolding wait_ready
  wait_ready-Ongoing svc timeout expected units =
      Steps-maybe svc.ready _ _ (Steps-pure order _)
        (λ ready. wait_url-Ongoing ready expected units timeout)
