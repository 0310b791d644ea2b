-- ===== src/DeployGuard/Memory.antt =====
-- The wait for memory (`deployGuard.enoughMemory`): it returns only with enough, and it ends.
use open_vibe_host.Base.{
  ℕ, ◌+◌, ◌-◌, ◌*◌, ◌≤◌, ◌<◌, Option, none, some, leb, leb→le, leb→gt, min, ◌≡◌, ◌≢◌, sym, ap, ◌∙◌,
  arith, inl, inr, Bool-cases,
}
use open_vibe_host.Host.{Env, Call, State, ok, failed, pure, throw, perform}
use open_vibe_host.Host.Rules.{
  Preorder, Steps, Steps-pure, Steps-throw, Steps-if, Steps-bind, bind-ok, bind_at,
}
use open_vibe_host.Host.Rules.Clock.{
  Clock, Ongoing, Ongoing-preorder, Ongoing-perform, now_time, read_at, slept,
}
use open_vibe_host.Host.Waiting.{Round, finished, again, Advances, forever-Ongoing, forever-post}
use open_vibe_host.Inventory
use open_vibe_host.DeployGuard.{mib, pause, weigh, memory_round, enough_memory}

module _ {H : Type 0} where
  fails : (s t : State H) → throw {A = Round (Unit {0}) (Unit {0})} failed s ≢ (ok (finished tt), t)
  unfolding throw
  fails s t h = cc

  goes_on :
      (s t : State H) → pure {A = Round (Unit {0}) (Unit {0})} (again tt) s ≢ (ok (finished tt), t)
  unfolding pure
  goes_on s t h = cc

  ends :
      (s t : State H)
      → pure {A = Round (Unit {0}) (Unit {0})} (finished tt) s ≡ (ok (finished tt), t)
      → s ≡ t
  unfolding pure
  ends s t h = cc

  fails_again :
      (s t : State H) → throw {A = Round (Unit {0}) (Unit {0})} failed s ≢ (ok (again tt), t)
  unfolding throw
  fails_again s t h = cc

  ends_again :
      (s t : State H)
      → pure {A = Round (Unit {0}) (Unit {0})} (again tt) s ≡ (ok (again tt), t)
      → s ≡ t
  unfolding pure
  ends_again s t h = cc

  ends_early :
      (s t : State H) → pure {A = Round (Unit {0}) (Unit {0})} (finished tt) s ≢ (ok (again tt), t)
  unfolding pure
  ends_early s t h = cc

module _ {H : Type 0} (env : Env H) (config : Inventory.DeployGuard) where
  -- The machine said, in a state that led to this one, that there is enough memory.
  pub record Enough (t : State H) : Type 0 where
    pub before : State H
    pub free : ℕ
    pub said : perform env Call.mem_available before ≡ (ok (some free), t)
    pub enough : config.min_available_mib * mib ≤ free

  pauses : (start : ℕ) (s t : State H) → pause env config start s ≢ (ok (finished tt), t)
  unfolding pause
  pauses start s t h =
      let (n, u, _, rest) = bind-ok (perform env Call.now) _ s t (finished tt) h in
      elim (Bool-cases (leb (start + config.memory_wait_seconds * 1000) n)) [
        | inl late ↦ fails u t (rw late at rest)
        | inr early ↦
            let (m, v, _, rest') =
              bind-ok (perform env Call.now) _ u t (finished tt) (rw early at rest) in
            let (_, w, _, last) = bind-ok (perform env (Call.sleep _)) _ v t (finished tt) rest' in
            goes_on w t last
      ]

  weigh-Enough :
      (start : ℕ) (bytes : Option ℕ) (s u t : State H)
      → perform env Call.mem_available s ≡ (ok bytes, u)
      → weigh env config start bytes u ≡ (ok (finished tt), t)
      → Enough t
  unfolding weigh
  weigh-Enough start none s u t e h = absurd (fails u t h)
  weigh-Enough start (some free) s u t e h =
      elim (Bool-cases (leb (config.min_available_mib * mib) free)) [
        | inl much ↦ record {
          before = s;
          free = free;
          said = e ∙ ap (λ r. (ok (some free), r)) (ends u t (rw much at h));
          enough = leb→le _ free much;
        }
        | inr little ↦ absurd (pauses start u t (rw little at h))
      ]

  -- The wait returns only when the machine has just said that there is enough memory.
  pub enough_memory-Enough : (s t : State H) → enough_memory env config s ≡ (ok tt, t) → Enough t
  unfolding enough_memory memory_round
  enough_memory-Enough s t h =
      let (start, u, _, rest) = bind-ok (perform env Call.now) _ s t tt h in
      forever-post env (memory_round env config start) (λ _ v. Enough v)
        (λ x a s t e.
          let (bytes, u, said, last) =
            bind-ok (perform env Call.mem_available) _ s t (finished a) e in
          weigh-Enough start bytes s u t said last)
        _ tt tt u t rest

module _ {H : Type 0} {env : Env H} (c : Clock env) (config : Inventory.DeployGuard)
    (polls : 0 < config.memory_poll_seconds) where
  abbrev order : Preorder (Ongoing c)
  order = Ongoing-preorder c

  pause-Ongoing : (start : ℕ) → Steps (Ongoing c) (pause env config start)
  unfolding pause
  pause-Ongoing start = Steps-bind order _ _ (Ongoing-perform c Call.now) (λ t.
      Steps-if (leb (start + config.memory_wait_seconds * 1000) t) _ _
        (λ _. Steps-throw order failed)
        (λ _. Steps-bind order _ _ (Ongoing-perform c Call.now) (λ u.
          Steps-bind order _ _ (Ongoing-perform c (Call.sleep _))
            (λ _. Steps-pure order (again tt)))))

  weigh-Ongoing : (start : ℕ) (bytes : Option ℕ) → Steps (Ongoing c) (weigh env config start bytes)
  unfolding weigh
  weigh-Ongoing start none = Steps-throw order failed
  weigh-Ongoing start (some free) =
      Steps-if (leb (config.min_available_mib * mib) free) _ _ (λ _. Steps-pure order _)
        (λ _. pause-Ongoing start)

  round-Ongoing : (start : ℕ) → Steps (Ongoing c) (memory_round env config start tt)
  unfolding memory_round
  round-Ongoing start =
      Steps-bind order _ _ (Ongoing-perform c Call.mem_available) (weigh-Ongoing start)

  -- A round that goes on began before the deadline, and took time.
  record Went (start : ℕ) (s t : State H) : Type 0 where
    early : c.time s.host < start + config.memory_wait_seconds * 1000
    passed : c.time s.host + 1 ≤ c.time t.host

  went :
      (start : ℕ) (s : State H) (n : ℕ) (u : State H) (m : ℕ) (v w t : State H)
      → perform env Call.now s ≡ (ok n, u)
      → perform env Call.now u ≡ (ok m, v)
      → perform env
          (Call.sleep (
            min
              (config.memory_poll_seconds * 1000)
              (start + config.memory_wait_seconds * 1000 - m)))
          v
        ≡ (ok tt, w)
      → w ≡ t
      → n < start + config.memory_wait_seconds * 1000
      → Went start s t
  went start s n u m v w t e e' e'' same early =
      let (n_is, later) = read_at c s u n e in
      let (m_is, later') = read_at c u v m e' in
      let passes = slept c v w _ e'' in
      rw (sym same) (record {
        early = omega (arith, n_is, early);
        passed = omega (arith, later, later', passes, n_is, m_is, early, polls);
      })

  pause-Went :
      (start : ℕ) (s t : State H) → pause env config start s ≡ (ok (again tt), t) → Went start s t
  unfolding pause
  pause-Went start s t h =
      let (n, u, e, rest) = bind-ok (perform env Call.now) _ s t (again tt) h in
      elim (Bool-cases (leb (start + config.memory_wait_seconds * 1000) n)) [
        | inl late ↦ absurd (fails_again u t (rw late at rest))
        | inr early ↦
            let (m, v, e', rest') =
              bind-ok (perform env Call.now) _ u t (again tt) (rw early at rest) in
            let (_, w, e'', last) = bind-ok (perform env (Call.sleep _)) _ v t (again tt) rest' in
            went start s n u m v w t e e' e'' (ends_again w t last) (leb→gt _ n early)
      ]

  weigh-Went :
      (start : ℕ) (bytes : Option ℕ) (s t : State H)
      → weigh env config start bytes s ≡ (ok (again tt), t)
      → Went start s t
  unfolding weigh
  weigh-Went start none s t h = absurd (fails_again s t h)
  weigh-Went start (some free) s t h =
      elim (Bool-cases (leb (config.min_available_mib * mib) free)) [
        | inl much ↦ absurd (ends_early s t (rw much at h))
        | inr little ↦ pause-Went start s t (rw little at h)
      ]

  round-Went :
      (start : ℕ) (s t : State H)
      → memory_round env config start tt s ≡ (ok (again tt), t)
      → Went start s t
  unfolding memory_round
  round-Went start s t h =
      let (bytes, u, e, rest) = bind-ok (perform env Call.mem_available) _ s t (again tt) h in
      let w = weigh-Went start bytes u t rest in
      let later : c.time s.host ≤ c.time u.host =
        rw (← ap (λ r. c.time r.1.host) e) ((Ongoing-perform c Call.mem_available).at s).later in
      record { early = omega (arith, w.early, later); passed = omega (arith, w.passed, later) }

  round-Advances : (start : ℕ) → Advances c 1 (memory_round env config start)
  round-Advances start = record {
    ongoing = λ _. round-Ongoing start;
    passes = λ _ _ s e.
        (round-Went start s _ (ap (λ r. (r, (memory_round env config start tt s).1)) e)).passed;
  }

  -- Where the clock goes forward the wait for memory ends by itself.
  pub enough_memory-Ongoing : Steps (Ongoing c) (enough_memory env config)
  unfolding enough_memory
  enough_memory-Ongoing = record {
    at = λ s.
        let read = (Ongoing-perform c Call.now).at s in
        bind_at order (perform env Call.now) _ s read (λ start e.
          forever-Ongoing c _ (memory_round env config start) (round-Advances start)
            (λ _ _ u e'.
              (round-Went start u _
                (ap (λ r. (r, (memory_round env config start tt u).1)) e')).early)
            _ tt (perform env Call.now s).1 (omega (arith, now_time c s start e, read.later)));
  }
