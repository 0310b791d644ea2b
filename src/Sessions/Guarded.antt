-- ===== src/Sessions/Guarded.antt =====
-- Why a guarded restart may go on: what `guardSessions` of lib/release-ops.js saw when it returns.
use open_vibe_host.Base.{
  ℕ, ◌+◌, ◌-◌, ◌*◌, ◌/◌, ◌≤◌, String, Bool, true, not, ◌&&◌, ◌||◌, some, is_some, leb, ◌≡◌, ◌≢◌,
  refl, sym, ap, ◌∙◌, arith, inl, inr, Bool-cases, leb→le,
}
use open_vibe_host.Host.{
  Env, Entry, M, Call, State, ok, op_error, protected, pure, throw, perform, set_entry, ◌>>=◌, ◌>>◌,
}
use open_vibe_host.Host.Rules.{bind-ok}
use open_vibe_host.Host.Waiting.{Round, finished, again, while_before-post}
use open_vibe_host.Inventory.{Service, DrainPolicy, report, wait, refuse}
use open_vibe_host.Probes.{Count, count_protected}
use open_vibe_host.Sessions.{
  Options, idle, is_report, is_wait, settled, waited, poll_round, gave_up, poll, wait_for_idle,
  hold, guard_sessions,
}

module _ {H : Type 0} (env : Env H) (svc : Service) where
  -- `n` idle checks in a row, each after a pause of the poll, from an earlier state to this one.
  pub data IdleRun : ℕ → State H → Type 0 where
    started : (s : State H) → IdleRun 0 s
    checked :
        (n ms : ℕ) (s t u v : State H) (c : Count)
        → IdleRun n s
        → perform env Call.now s ≡ (ok ms, t)
        → perform env (Call.sleep (svc.drain.poll_seconds * 1000)) t ≡ (ok tt, u)
        → count_protected env svc u ≡ (ok c, v)
        → idle c ≡ true
        → IdleRun (n + 1) v

  -- The run of idle checks is as long as the inventory asks, and it ended in this state but for the
  -- reading of the clock and the two fields that the guard then writes.
  pub record Quiet (t : State H) : Type 0 where
    pub checks : ℕ
    pub enough : svc.drain.quiet_checks ≤ checks
    pub seen : State H
    pub idle_run : IdleRun checks seen
    pub seconds : ℕ
    pub noted : t ≡ (set_entry (waited seconds) (perform env Call.now seen).1).1

  ended-again :
      (f : Entry → Entry) (q : ℕ) (s t : State H)
      → (set_entry f >> pure {A = Round (Unit {0}) ℕ} (finished tt)) s ≢ (ok (again q), t)
  unfolding ◌>>=◌ set_entry pure
  ended-again f q s t h = cc

  ended-finished :
      (f : Entry → Entry) (s t : State H)
      → (set_entry f >> pure {A = Round (Unit {0}) ℕ} (finished tt)) s ≡ (ok (finished tt), t)
      → t ≡ (set_entry f s).1
  unfolding ◌>>=◌ set_entry pure
  ended-finished f s t h = cc

  settled-again :
      (start q q' : ℕ) (s t : State H)
      → settled env svc start q s ≡ (ok (again q'), t)
      → (q ≡ q') × (s ≡ t)
  unfolding settled ◌>>=◌ set_entry pure
  settled-again start q q' s t h = elim (Bool-cases (leb svc.drain.quiet_checks q)) [
    | inl long ↦
        let (n, u, e, rest) = bind-ok (perform env Call.now) _ s t _ (rw long at h) in
        absurd (ended-again (waited ((n - start + 500) / 1000)) q' u t rest)
    | inr short ↦ (cc (rw short at h), cc (rw short at h))
  ]

  short-finished :
      (q : ℕ) (s t : State H) → pure {A = Round (Unit {0}) ℕ} (again q) s ≢ (ok (finished tt), t)
  unfolding pure
  short-finished q s t h = cc

  settled-finished :
      (start q : ℕ) (s t : State H)
      → IdleRun q s
      → settled env svc start q s ≡ (ok (finished tt), t)
      → Quiet t
  unfolding settled
  settled-finished start q s t seen h = elim (Bool-cases (leb svc.drain.quiet_checks q)) [
    | inl long ↦
        let (n, u, e, rest) = bind-ok (perform env Call.now) _ s t _ (rw long at h) in
        record {
          checks = q;
          enough = leb→le _ q long;
          seen = s;
          idle_run = seen;
          seconds = (n - start + 500) / 1000;
          noted =
              ended-finished (waited ((n - start + 500) / 1000)) u t rest
              ∙ ap (λ r. (set_entry (waited ((n - start + 500) / 1000)) r.1).1) (sym e);
        }
    | inr short ↦ absurd (short-finished q s t (rw short at h))
  ]

  round-runs :
      (start x n : ℕ) (r : Round (Unit {0}) ℕ) (s t u : State H)
      → IdleRun x s
      → perform env Call.now s ≡ (ok n, u)
      → poll_round env svc start x u ≡ (ok r, t)
      → (q : ℕ) × (v : State H) × IdleRun q v × (settled env svc start q v ≡ (ok r, t))
  unfolding poll_round
  round-runs start x n r s t u seen e h =
      let (_, w, ew, rest) = bind-ok _ _ u t r h in
      let (c, v, ev, last) = bind-ok (count_protected env svc) _ w t r rest in
      elim (Bool-cases (idle c)) [
        | inl y ↦ (x + 1, v, checked x n s u w v c seen e ew ev y, (rw y at last))
        | inr n' ↦ (0, v, started v, (rw n' at last))
      ]

  gave_up-throws : (s t : State H) → gave_up env s ≢ (ok tt, t)
  unfolding gave_up throw
  gave_up-throws s t h = cc

  goes_on :
      (start x q : ℕ) (s t : State H) (n : ℕ) (u : State H)
      → IdleRun x s
      → perform env Call.now s ≡ (ok n, u)
      → poll_round env svc start x u ≡ (ok (again q), t)
      → IdleRun q t
  goes_on start x q s t n u run e h =
      let (q', v, run', last) = round-runs start x n (again q) s t u run e h in
      let (same_q, same_t) = settled-again start q' q v t last in rw (sym same_q, sym same_t) run'

  -- The poll returns only behind a run of idle checks as long as the inventory asks.
  pub poll-Quiet : (start : ℕ) (s t : State H) → poll env svc start s ≡ (ok tt, t) → Quiet t
  unfolding poll
  poll-Quiet start s t h =
      while_before-post env _ (poll_round env svc start) (λ _. gave_up env) IdleRun (λ _ u. Quiet u)
        (goes_on start)
        (λ x a s t n u run e h.
          let (q, v, run', last) = round-runs start x n (finished a) s t u run e h in
          settled-finished start q v t run' last)
        (λ x a s t. gave_up-throws s t) _ 0 tt s t (started s) h

report_known :
    (p : DrainPolicy) (known more : Bool)
    → (is_report p && known && more) ≡ true
    → (p ≡ report) × (known ≡ true)
report_known report known more h = (refl, ground arith)
report_known wait known more h = cc
report_known refuse known more h = cc

-- `onIdleWait` runs the poll that it is given: when it returns, the poll returned.
pub record RunsWork {H : Type 0} (outside : M H (Unit {0}) → M H (Unit {0})) : Type 0 where
  pub runs :
      (m : M H (Unit {0})) (s t : State H)
      → outside m s ≡ (ok tt, t)
      → (u : State H) × (v : State H) × (m u ≡ (ok tt, v))

module _ {H : Type 0} (env : Env H) (svc : Service) (opts : Options)
    (outside : M H (Unit {0}) → M H (Unit {0})) (works : RunsWork outside) where
  -- What entitles a restart to go on, given the first count.
  pub data Justified (c : Count) : Type 0 where
    no_sessions : idle c ≡ true → Justified c
    by_force : opts.force ≡ true → Justified c
    reported_only : svc.drain.policy ≡ report → is_some c.count ≡ true → Justified c
    waited_until_idle : (t : State H) → Quiet env svc t → Justified c

  wait_for_idle-Quiet :
      (s t : State H)
      → wait_for_idle env svc outside s ≡ (ok tt, t)
      → (v : State H) × Quiet env svc v
  unfolding wait_for_idle
  wait_for_idle-Quiet s t h =
      let (start, u, e, rest) = bind-ok (perform env Call.now) _ s t tt h in
      let (w, v, ran) = works.runs (poll env svc start) u t rest in
      (v, poll-Quiet env svc start w v ran)

  refuses :
      (s t : State H) → throw {A = Unit {0}} (op_error protected (some "refused")) s ≢ (ok tt, t)
  unfolding throw
  refuses s t h = cc

  hold-Justified :
      (c : Count) (s t : State H) → hold env svc opts outside c s ≡ (ok tt, t) → Justified c
  unfolding hold
  hold-Justified c s t h = elim (Bool-cases opts.force) [
    | inl f ↦ by_force f
    | inr nf ↦
        elim (Bool-cases (is_report svc.drain.policy && is_some c.count && not opts.wait_idle)) [
          | inl r ↦ let (policy, known) = report_known _ _ _ r in reported_only policy known
          | inr nr ↦ elim (Bool-cases (opts.wait_idle || is_wait svc.drain.policy)) [
            | inl w ↦
                let (v, q) = wait_for_idle-Quiet s t (rw (nf, nr, w) at h) in waited_until_idle v q
            | inr nw ↦ absurd (refuses s t (rw (nf, nr, nw) at h))
          ]
        ]
  ]

  -- The guard returns only with a justification.
  pub guard_sessions-Justified :
      (when_ : String) (s t : State H)
      → guard_sessions env svc opts outside when_ s ≡ (ok tt, t)
      → (c : Count) × (u : State H) × (count_protected env svc s ≡ (ok c, u)) × Justified c
  unfolding guard_sessions
  guard_sessions-Justified when_ s t h =
      let (c, u, e, rest) = bind-ok (count_protected env svc) _ s t tt h in
      let (_, v, _, last) = bind-ok (set_entry _) _ u t tt rest in
      (
        c,
        u,
        e,
        elim (Bool-cases (idle c)) [
          | inl y ↦ no_sessions y
          | inr n ↦ hold-Justified c v t (rw n at last)
        ],
      )
