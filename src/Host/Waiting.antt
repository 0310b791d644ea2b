-- ===== src/Host/Waiting.antt =====
-- The loops that wait: `while (exec.now() < deadline) { … }`, with the rounds counted, and why the
-- count is enough.
use open_vibe_host.Base.{
  ℕ, zero, suc, ◌+◌, ◌*◌, ◌≤◌, ◌<◌, true, false, ltb, ltb→lt, if◌then◌else◌, ◌≡◌, ◌≢◌, sym, arith,
  inl, inr, Bool-cases,
}
use open_vibe_host.Host.Calls.{Call, ok}
use open_vibe_host.Host.Exec.{Env, State, M, perform, pure, exhaust, ◌>>=◌}
use open_vibe_host.Host.Rules.{Preorder, Steps, Steps-pure, Steps-bind, Steps-if, bind_at, bind-ok}
use open_vibe_host.Host.Rules.Clock.{Clock, Ongoing, Ongoing-preorder, Ongoing-perform, now_time}

-- How a round of a loop ends.
pub data Round (A X : Type 0) : Type 0 where
  finished : A → Round A X
  again : X → Round A X

module _ {H A X : Type 0} where
  unfoldable pub next : Round A X → (A → M H A) → (X → M H A) → M H A
  next (finished a) return more = return a
  next (again x) return more = more x

module _ {H A X : Type 0} (env : Env H) where
  unfoldable pub while_before : ℕ → ℕ → (X → M H (Round A X)) → (X → M H A) → X → M H A
  unfolding next exhaust
  while_before zero deadline round late x = exhaust
  while_before (suc fuel) deadline round late x = do
    t ← perform env Call.now
    if ltb t deadline
        then (do r ← round x; next r pure (while_before fuel deadline round late))
        else late x

  -- `for (;;) { … }`
  unfoldable pub forever : ℕ → (X → M H (Round A X)) → X → M H A
  unfolding next exhaust
  forever zero round x = exhaust
  forever (suc fuel) round x = do r ← round x; next r pure (forever fuel round)

module _ {H A X : Type 0} (env : Env H) {R : State H → State H → Type 0} (pre : Preorder R)
    (deadline : ℕ) (round : X → M H (Round A X)) (late : X → M H A) where
  -- The loop relates its states as its rounds do.
  pub while_before-Steps :
      Steps R (perform env Call.now)
      → Steps R (exhaust {H = H} {A = A})
      → ((x : X) → Steps R (round x))
      → ((x : X) → Steps R (late x))
      → (fuel : ℕ) (x : X) → Steps R (while_before env fuel deadline round late x)
  unfolding while_before next
  while_before-Steps kn ke kr kl zero x = ke
  while_before-Steps kn ke kr kl (suc fuel) x = Steps-bind pre (perform env Call.now) _ kn (λ t.
      Steps-if (ltb t deadline) _ _
        (λ _. Steps-bind pre (round x) _ (kr x) (elim [
          | finished a ↦ Steps-pure pre a
          | again y ↦ while_before-Steps kn ke kr kl fuel y
        ]))
        (λ _. kl x))

module _ {H A X : Type 0} (env : Env H) (deadline : ℕ) (round : X → M H (Round A X))
    (late : X → M H A) (Inv : X → State H → Type 0) (Post : A → State H → Type 0)
    (goes_on : (x y : X) (s t : State H) (n : ℕ) (u : State H)
      → Inv x s
      → perform env Call.now s ≡ (ok n, u)
      → round x u ≡ (ok (again y), t)
      → Inv y t)
    (ends : (x : X) (a : A) (s t : State H) (n : ℕ) (u : State H)
      → Inv x s
      → perform env Call.now s ≡ (ok n, u)
      → round x u ≡ (ok (finished a), t)
      → Post a t)
    (throws : (x : X) (a : A) (s t : State H) → late x s ≢ (ok a, t)) where
  after_round :
      (x : X) (s : State H) (n : ℕ) (u : State H)
      → Inv x s
      → perform env Call.now s ≡ (ok n, u)
      → (r : Round A X) (v : State H) → round x u ≡ (ok r, v)
      → (more : X → M H A) (t : State H) (a : A) → next r pure more v ≡ (ok a, t)
      → ((y : X) → Inv y v → more y v ≡ (ok a, t) → Post a t)
      → Post a t
  unfolding next pure
  after_round x s n u i e (finished b) v er more t a last loops =
      let holds = ends x b s v n u i e er in
      let same_a : b ≡ a = cc in let same_t : v ≡ t = cc in rw (sym same_a, sym same_t) holds
  after_round x s n u i e (again y) v er more t a last loops =
      loops y (goes_on x y s v n u i e er) last

  -- What holds when the loop returns, where it throws at its deadline.
  pub while_before-post :
      (fuel : ℕ) (x : X) (a : A) (s t : State H)
      → Inv x s
      → while_before env fuel deadline round late x s ≡ (ok a, t)
      → Post a t
  unfolding while_before
  while_before-post zero x a s t i h = cc
  while_before-post (suc fuel) x a s t i h =
      let (n, u, e, rest) = bind-ok (perform env Call.now) _ s t a h in
      elim (Bool-cases (ltb n deadline)) [
        | inl early ↦
            let (r, v, er, last) = bind-ok (round x) _ u t a (rw early at rest) in
            after_round x s n u i e r v er _ t a last
              (λ y i' h'. while_before-post fuel y a v t i' h')
        | inr past ↦ absurd (throws x a u t (rw past at rest))
      ]

-- A round that goes on lets `pause` milliseconds pass.
pub record Advances {H A X : Type 0} {env : Env H} (c : Clock env) (pause : ℕ)
    (round : X → M H (Round A X)) : Type 0 where
  pub ongoing : (x : X) → Steps (Ongoing c) (round x)
  pub passes :
      (x y : X) (s : State H)
      → (round x s).0 ≡ ok (again y)
      → c.time s.host + pause ≤ c.time (round x s).1.host

module _ {H A X : Type 0} {env : Env H} (c : Clock env) (pause deadline : ℕ)
    (round : X → M H (Round A X)) (late : X → M H A) (adv : Advances c pause round)
    (late_ongoing : (x : X) → Steps (Ongoing c) (late x)) where
  abbrev loop : ℕ → X → M H A
  loop fuel = while_before env fuel deadline round late

  late-Ongoing :
      (m : M H A) (x : X) (s : State H) (t : ℕ)
      → ltb t deadline ≡ false
      → Ongoing c s ((if ltb t deadline then m else late x) s).1
  late-Ongoing m x s t ge = rw ge ((late_ongoing x).at s)

  round-Ongoing :
      (fuel : ℕ) (x : X) (s : State H) (t : ℕ)
      → ((y : X)
          → (round x s).0 ≡ ok (again y)
          → Ongoing c (round x s).1 (loop fuel y (round x s).1).1)
      → ltb t deadline ≡ true
      → Ongoing c s
          ((if ltb t deadline then (round x >>= λ r. next r pure (loop fuel)) else late x) s).1
  unfolding next pure
  round-Ongoing fuel x s t ih lt = rw lt (
      bind_at (Ongoing-preorder c) (round x) _ s ((adv.ongoing x).at s)
        (elim [ finished a ↦ λ e. (Ongoing-preorder c).same _ | again y ↦ λ e. ih y e ]))

  -- A clock that passes the deadline before the rounds are used up: the loop ends by itself.
  pub while_before-Ongoing :
      (fuel : ℕ) (x : X) (s : State H)
      → 0 < pause
      → deadline ≤ c.time s.host + pause * fuel
      → Ongoing c s (loop (suc fuel) x s).1
  unfolding while_before
  while_before-Ongoing zero x s p h =
      bind_at (Ongoing-preorder c) (perform env Call.now) _ s ((Ongoing-perform c Call.now).at s)
        λ t e. elim (Bool-cases (ltb t deadline)) [
          | inl lt ↦ absurd (omega (arith, ltb→lt t deadline lt, now_time c s t e))
          | inr ge ↦ late-Ongoing _ x _ t ge
        ]
  while_before-Ongoing (suc fuel) x s p h =
      let started = (Ongoing-perform c Call.now).at s in
      bind_at (Ongoing-preorder c) (perform env Call.now) _ s started λ t e.
        elim (Bool-cases (ltb t deadline)) [
          | inl lt ↦
              round-Ongoing (suc fuel) x _ t
                (λ y e'.
                  while_before-Ongoing fuel y _ p
                    (omega (arith, started.later, adv.passes x y (perform env Call.now s).1 e')))
                lt
          | inr ge ↦ late-Ongoing _ x _ t ge
        ]

module _ {H A X : Type 0} {env : Env H} (c : Clock env) (deadline : ℕ) (round : X → M H (Round A X))
    (adv : Advances c 1 round)
    (ends : (x y : X) (s : State H) → (round x s).0 ≡ ok (again y) → c.time s.host < deadline) where
  -- No round goes on after the deadline, and each takes time: the loop ends by itself.
  pub forever-Ongoing :
      (fuel : ℕ) (x : X) (s : State H)
      → deadline ≤ c.time s.host + fuel
      → Ongoing c s (forever env (suc fuel) round x s).1
  unfolding forever next pure
  forever-Ongoing zero x s h =
      bind_at (Ongoing-preorder c) (round x) _ s ((adv.ongoing x).at s) (elim [
        | finished a ↦ λ e. (Ongoing-preorder c).same _
        | again y ↦ λ e. absurd (omega (arith, ends x y s e))
      ])
  forever-Ongoing (suc fuel) x s h =
      bind_at (Ongoing-preorder c) (round x) _ s ((adv.ongoing x).at s) (elim [
        | finished a ↦ λ e. (Ongoing-preorder c).same _
        | again y ↦ λ e. forever-Ongoing fuel y _ (omega (arith, adv.passes x y s e))
      ])

module _ {H A X : Type 0} (env : Env H) (round : X → M H (Round A X)) (Post : A → State H → Type 0)
    (ends : (x : X) (a : A) (s t : State H) → round x s ≡ (ok (finished a), t) → Post a t) where
  after_finish :
      (x : X) (s : State H) (r : Round A X) (v : State H)
      → round x s ≡ (ok r, v)
      → (more : X → M H A) (t : State H) (a : A) → next r pure more v ≡ (ok a, t)
      → ((y : X) → more y v ≡ (ok a, t) → Post a t)
      → Post a t
  unfolding next pure
  after_finish x s (finished b) v er more t a last loops =
      let same_a : b ≡ a = cc in
      let same_t : v ≡ t = cc in rw (sym same_a, sym same_t) (ends x b s v er)
  after_finish x s (again y) v er more t a last loops = loops y last

  -- What holds when the loop returns is what its last round established.
  pub forever-post :
      (fuel : ℕ) (x : X) (a : A) (s t : State H) → forever env fuel round x s ≡ (ok a, t) → Post a t
  unfolding forever
  forever-post zero x a s t h = cc
  forever-post (suc fuel) x a s t h =
      let (r, v, er, last) = bind-ok (round x) _ s t a h in
      after_finish x s r v er _ t a last (λ y h'. forever-post fuel y a v t h')

module _ {H A X : Type 0} (env : Env H) (deadline : ℕ) (round : X → M H (Round A X))
    (late : X → M H A) (Post : A → State H → Type 0)
    (ends : (x : X) (a : A) (s t : State H) → round x s ≡ (ok (finished a), t) → Post a t)
    (expires : (x : X) (a : A) (s t : State H) → late x s ≡ (ok a, t) → Post a t) where
  -- What its last round or the deadline established holds when the loop returns.
  pub while_before-returns :
      (fuel : ℕ) (x : X) (a : A) (s t : State H)
      → while_before env fuel deadline round late x s ≡ (ok a, t)
      → Post a t
  unfolding while_before
  while_before-returns zero x a s t h = cc
  while_before-returns (suc fuel) x a s t h =
      let (n, u, e, rest) = bind-ok (perform env Call.now) _ s t a h in
      elim (Bool-cases (ltb n deadline)) [
        | inl early ↦
            let (r, v, er, last) = bind-ok (round x) _ u t a (rw early at rest) in
            after_finish env round Post ends x u r v er _ t a last
              (λ y h'. while_before-returns fuel y a v t h')
        | inr past ↦ expires x a u t (rw past at rest)
      ]

module _ {H A X : Type 0} {R : State H → State H → Type 0} (pre : Preorder R)
    (round : X → M H (Round A X)) where
  after_round-Steps :
      (r : Round A X) (more : X → M H A) → ((x : X) → Steps R (more x)) → Steps R (next r pure more)
  unfolding next
  after_round-Steps (finished a) more k = Steps-pure pre a
  after_round-Steps (again x) more k = k x

  -- An endless loop relates its states as its rounds do.
  pub forever-Steps :
      (env : Env H)
      → Steps R (exhaust {H = H} {A = A})
      → ((x : X) → Steps R (round x))
      → (fuel : ℕ) (x : X) → Steps R (forever env fuel round x)
  unfolding forever
  forever-Steps env ke kr zero x = ke
  forever-Steps env ke kr (suc fuel) x =
      Steps-bind pre (round x) _ (kr x) (λ r. after_round-Steps r _ (forever-Steps env ke kr fuel))
