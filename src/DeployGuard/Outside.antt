-- ===== src/DeployGuard/Outside.antt =====
-- The two ways a guarded restart waits: as it is, or outside the host-wide deploy lock
-- (`waitOutsideLock` of lib/release-ops.js).
use open_vibe_host.Base.{Bool, true, false, ◌≡◌, ap, arith, sym, ◌∙◌, ◌∷◌, inl, inr}
use open_vibe_host.Host.{
  Env, M, Call, Answer, State, Result, ok, err, locked_error, throw, perform, set_host_lock,
  finally, settle,
}
use open_vibe_host.Host.Rules.{
  Steps, Steps-bind, Steps-catch, Steps-throw, bind-ok, bind_at, finally_at,
}
use open_vibe_host.Host.Rules.Inverse.{catch-ok}
use open_vibe_host.Host.Rules.Clock.{
  Clock, Ongoing, Ongoing-preorder, Ongoing-perform, Ongoing-set_host_lock,
}
use open_vibe_host.Inventory
use open_vibe_host.Inventory.{Service}
use open_vibe_host.DeployGuard.{lock_path, acquire, release, wait_outside_lock}
use open_vibe_host.Sessions.Guarded.{RunsWork}
use open_vibe_host.Sessions.Looking.{KeepsTime}

pub same-RunsWork : {H : Type 0} → RunsWork {H = H} (λ m. m)
same-RunsWork = record { runs = λ m s t h. (s, t, h) }

module _ {H : Type 0} (env : Env H) (guard : Inventory.DeployGuard) (svc : Service) where
  settle-ok :
      (r : Result (Unit {0})) (q : Result (Unit {0}) × State H) (t : State H)
      → settle r q ≡ (ok tt, t)
      → (r ≡ ok tt) × (q ≡ (ok tt, t))
  settle-ok r (ok _, s) t h = (cc, cc)
  settle-ok r (err e, s) t h = cc

  finally-ok :
      (m n : M H (Unit {0})) (s t : State H)
      → finally m n s ≡ (ok tt, t)
      → ((m s).0 ≡ ok tt) × (n (m s).1 ≡ (ok tt, t))
  unfolding finally
  finally-ok m n s t h = settle-ok (m s).0 (n (m s).1) t h

  locks :
      (b : Bool) (s t : State H)
      → set_host_lock b s ≡ (ok tt, t)
      → (t.host_lock ≡ b) × (t.trace ≡ s.trace)
  unfolding set_host_lock
  locks b s t h = (cc, cc)

  -- The calls from `s` to `t` are the one call `c`, which returned `a`.
  abbrev pub Made : (c : Call) → Answer c → State H → State H → Type 0
  Made c a s t = t.trace ≡ record { call = c; answered = ok a } ∷ s.trace

  made : (c : Call) (a : Answer c) (s t : State H) → perform env c s ≡ (ok a, t) → Made c a s t
  unfolding perform
  made c a s t h =
      let q = env.answer c s.host in
      sym (ap (λ (r : Result (Answer c) × State H). r.1.trace) h)
      ∙ ap (λ (r : Result (Answer c)). record { call = c; answered = r } ∷ s.trace)
          (ap (λ (r : Result (Answer c) × State H). r.0) h)

  -- The call that takes the host-wide lock.
  abbrev pub taking : Call
  taking = Call.acquire_deploy_lock lock_path svc.id guard.lock_wait_seconds

  acquired :
      (s t : State H)
      → acquire env guard svc s ≡ (ok tt, t)
      → (t.host_lock ≡ true) × Made taking tt s t
  unfolding acquire throw
  acquired s t h =
      let (_, u, took, rest) = bind-ok _ (λ _. set_host_lock true) s t tt h in
      let (held, same) = locks true u t rest in
      elim (catch-ok (perform env taking) (λ _. throw locked_error) s u tt took) [
        | inl took' ↦ (held, same ∙ made taking tt s u took')
        | inr (e, v, _, refused) ↦ absurd cc
      ]

  released :
      (s t : State H)
      → release env s ≡ (ok tt, t)
      → (t.host_lock ≡ false) × Made Call.release_deploy_lock tt s t
  unfolding release
  released s t h =
      let (_, u, let_go, rest) = bind-ok (perform env Call.release_deploy_lock) _ s t tt h in
      let (free, same) = locks false u t rest in
      (free, same ∙ made Call.release_deploy_lock tt s u let_go)

  -- A `waitOutsideLock` that returned first made one call, which let the host-wide lock go, then ran
  -- the work, and then made one call, which took the lock again.
  pub wait_outside_lock-frees :
      (work : M H (Unit {0})) (s t : State H)
      → wait_outside_lock env guard svc work s ≡ (ok tt, t)
      → (u v : State H) × Made Call.release_deploy_lock tt s u
        × (u.host_lock ≡ false)
        × (work u ≡ (ok tt, v))
        × Made taking tt v t
        × (t.host_lock ≡ true)
  unfolding wait_outside_lock
  wait_outside_lock-frees work s t h =
      let (_, u, free, rest) = bind-ok (release env) _ s t tt h in
      let (ran, held) = finally-ok work (acquire env guard svc) u t rest in
      let (unheld, let_go) = released s u free in
      let (shut, took) = acquired (work u).1 t held in
      (u, (work u).1, let_go, unheld, ap (λ r. (r, (work u).1)) ran, took, shut)

  pub wait_outside_lock-RunsWork : RunsWork (wait_outside_lock env guard svc)
  wait_outside_lock-RunsWork = record {
    runs = λ m s t h. let (u, v, _, _, ran, _, _) = wait_outside_lock-frees m s t h in (u, v, ran);
  }

  module _ (c : Clock env) where
    acquire-Ongoing : Steps (Ongoing c) (acquire env guard svc)
    unfolding acquire
    acquire-Ongoing =
        Steps-bind (Ongoing-preorder c) _ _
          (Steps-catch (Ongoing-preorder c) _ _
            (Ongoing-perform c (Call.acquire_deploy_lock lock_path svc.id guard.lock_wait_seconds))
            (λ e. Steps-throw (Ongoing-preorder c) locked_error))
          (λ _. Ongoing-set_host_lock c true)

    release-Ongoing : Steps (Ongoing c) (release env)
    unfolding release
    release-Ongoing =
        Steps-bind (Ongoing-preorder c) _ _ (Ongoing-perform c Call.release_deploy_lock)
          (λ _. Ongoing-set_host_lock c false)

    pub wait_outside_lock-KeepsTime : KeepsTime c (wait_outside_lock env guard svc)
    unfolding wait_outside_lock
    wait_outside_lock-KeepsTime = record {
      keeps = λ m start going s le.
          let freed = release-Ongoing.at s in
          bind_at (Ongoing-preorder c) (release env) (λ _. finally m (acquire env guard svc)) s
            freed
            (λ _ _.
              finally_at (Ongoing-preorder c) m (acquire env guard svc) (release env s).1
                (going (release env s).1 (omega (arith, freed.later, le))) acquire-Ongoing);
    }
