-- ===== src/Sessions/Looking.antt =====
-- What `guardSessions` of lib/release-ops.js does to the machine, and that its wait ends.
use open_vibe_host.Base.{
  ℕ, ◌+◌, ◌*◌, ◌≤◌, ◌<◌, String, ◌&&◌, ◌||◌, if◌then◌else◌, leb, not, is_some, arith,
}
use open_vibe_host.Host.{Env, M, Call, State, perform, ◌>>=◌}
use open_vibe_host.Host.Rules.{
  Allows, Steps, Steps-pure, Steps-throw, Steps-if, Steps-bind, bind_at, bind_rest, bind_rest,
}
use open_vibe_host.Host.Rules.Issued.{Issued, Issued-Allows, Issued-exhaust}
use open_vibe_host.Host.Rules.Clock.{
  Clock, Ongoing, Ongoing-preorder, Ongoing-perform, Ongoing-Allows, now_time, sleep_passes,
}
use open_vibe_host.Host.Waiting.{Advances, while_before-Steps, while_before-Ongoing}
use open_vibe_host.Inventory.{Service}
use open_vibe_host.Probes.{count_protected}
use open_vibe_host.Probes.Steps.{count_protected-Steps}
use open_vibe_host.Sessions.{
  Options, idle, is_report, is_wait, settled, poll_round, gave_up, poll, wait_for_idle, hold,
  guard_sessions,
}
use open_vibe_host.Systemd.Classes.{IsObservation}

module _ {H : Type 0} (env : Env H) {R : State H → State H → Type 0}
    (look : Allows env IsObservation R) where
  gave_up-Steps : Steps R (gave_up env)
  unfolding gave_up
  gave_up-Steps = Steps-throw look.pre _

  settled-Steps : (svc : Service) (start quiet : ℕ) → Steps R (settled env svc start quiet)
  unfolding settled
  settled-Steps svc start quiet =
      Steps-if (leb svc.drain.quiet_checks quiet) _ _
        (λ _.
          Steps-bind look.pre _ _ (look.each Call.now tt)
            (λ t. Steps-bind look.pre _ _ (look.edits _) (λ _. Steps-pure look.pre _)))
        (λ _. Steps-pure look.pre _)

  poll_round-Steps : (svc : Service) (start quiet : ℕ) → Steps R (poll_round env svc start quiet)
  unfolding poll_round
  poll_round-Steps svc start quiet = Steps-bind look.pre _ _ (look.each (Call.sleep _) tt) (λ _.
      Steps-bind look.pre _ _ (count_protected-Steps env look svc)
        (λ last. settled-Steps svc start _))

  hold-Steps :
      (svc : Service) (opts : Options) (outside : M H (Unit {0}) → M H (Unit {0}))
      → Steps R (wait_for_idle env svc outside)
      → (first : _) → Steps R (hold env svc opts outside first)
  unfolding hold
  hold-Steps svc opts outside waits first =
      Steps-if opts.force _ _ (λ _. look.edits _)
        (λ _.
          Steps-if (is_report svc.drain.policy && is_some first.count && not opts.wait_idle) _ _
            (λ _. Steps-pure look.pre tt)
            (λ _.
              Steps-if (opts.wait_idle || is_wait svc.drain.policy) _ _ (λ _. waits)
                (λ _. Steps-throw look.pre _)))

  pub guard_sessions-Steps :
      (svc : Service) (opts : Options) (outside : M H (Unit {0}) → M H (Unit {0}))
      → Steps R (wait_for_idle env svc outside)
      → (when_ : String) → Steps R (guard_sessions env svc opts outside when_)
  unfolding guard_sessions
  guard_sessions-Steps svc opts outside waits when_ =
      Steps-bind look.pre _ _ (count_protected-Steps env look svc) (λ first.
        Steps-bind look.pre _ _ (look.edits _) (λ _.
          Steps-if (idle first) _ _ (λ _. Steps-pure look.pre tt)
            (λ _. hold-Steps svc opts outside waits first)))

module _ {H : Type 0} (env : Env H) where
  pub poll-Issued : (svc : Service) (start : ℕ) → Steps (Issued IsObservation) (poll env svc start)
  unfolding poll
  poll-Issued svc start =
      let look = Issued-Allows {C = IsObservation} env in
      while_before-Steps env look.pre _ _ _ (look.each Call.now tt) (Issued-exhaust _)
        (λ quiet. poll_round-Steps env look svc start quiet) (λ _. gave_up-Steps env look) _ 0

  wait_for_idle-Issued :
      (svc : Service) → Steps (Issued IsObservation) (wait_for_idle env svc (λ m. m))
  unfolding wait_for_idle
  wait_for_idle-Issued svc =
      let look = Issued-Allows {C = IsObservation} env in
      Steps-bind look.pre _ _ (look.each Call.now tt) (poll-Issued svc)

  -- The guard only looks at the machine.
  pub guard_sessions-looks :
      (svc : Service) (opts : Options) (when_ : String)
      → Steps (Issued IsObservation) (guard_sessions env svc opts (λ m. m) when_)
  guard_sessions-looks svc opts when_ =
      guard_sessions-Steps env (Issued-Allows env) svc opts (λ m. m) (wait_for_idle-Issued svc)
        when_

-- `onIdleWait` goes on where its work does.
pub record KeepsTime {H : Type 0} {env : Env H} (c : Clock env)
    (outside : M H (Unit {0}) → M H (Unit {0})) : Type 0 where
  pub keeps :
      (m : M H (Unit {0})) (start : ℕ)
      → ((s : State H) → start ≤ c.time s.host → Ongoing c s (m s).1)
      → (s : State H) → start ≤ c.time s.host
      → Ongoing c s (outside m s).1

module _ {H : Type 0} {env : Env H} (c : Clock env) (svc : Service)
    (polls : 0 < svc.drain.poll_seconds) where
  poll_round-Advances : (start : ℕ) → Advances c 1 (poll_round env svc start)
  unfolding poll_round
  poll_round-Advances start = record {
    ongoing = λ quiet. poll_round-Steps env (Ongoing-Allows c) svc start quiet;
    passes = λ quiet _ s _.
        let slept = sleep_passes c (svc.drain.poll_seconds * 1000) s in
        let rest =
          bind_rest (Ongoing-preorder c) (perform env (Call.sleep (svc.drain.poll_seconds * 1000)))
            (λ _. count_protected env svc >>= λ last.
              settled env svc start (if idle last then quiet + 1 else 0))
            s
            (λ _.
              Steps-bind (Ongoing-preorder c) (count_protected env svc) _
                (count_protected-Steps env (Ongoing-Allows c) svc)
                (λ last. settled-Steps env (Ongoing-Allows c) svc start _)) in
        omega (arith, slept, rest.later, polls);
  }

  -- Where the clock goes forward, the poll ends by itself: within its bound of seconds.
  poll-Ongoing :
      (start : ℕ) (s : State H) → start ≤ c.time s.host → Ongoing c s (poll env svc start s).1
  unfolding poll
  poll-Ongoing start s h =
      while_before-Ongoing c 1 _ (poll_round env svc start) (λ _. gave_up env)
        (poll_round-Advances start) (λ _. gave_up-Steps env (Ongoing-Allows c)) _ 0 s (omega arith)
        (omega (arith, h))

  wait_for_idle-Ongoing :
      (outside : M H (Unit {0}) → M H (Unit {0}))
      → KeepsTime c outside
      → Steps (Ongoing c) (wait_for_idle env svc outside)
  unfolding wait_for_idle
  wait_for_idle-Ongoing outside k = record {
    at = λ s.
        let read = (Ongoing-perform c Call.now).at s in
        bind_at (Ongoing-preorder c) (perform env Call.now) (λ start. outside (poll env svc start))
          s read
          (λ start e.
            k.keeps (poll env svc start) start (poll-Ongoing start) (perform env Call.now s).1
              (omega (arith, now_time c s start e, read.later)));
  }

  -- Where the clock goes forward the guard ends by itself.
  pub guard_sessions-Ongoing :
      (opts : Options) (outside : M H (Unit {0}) → M H (Unit {0}))
      → KeepsTime c outside
      → (when_ : String) → Steps (Ongoing c) (guard_sessions env svc opts outside when_)
  guard_sessions-Ongoing opts outside k when_ =
      guard_sessions-Steps env (Ongoing-Allows c) svc opts outside (wait_for_idle-Ongoing outside k)
        when_
