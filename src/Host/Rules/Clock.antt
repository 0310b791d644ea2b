-- ===== src/Host/Rules/Clock.antt =====
-- The clock of the machine, as the loops that wait rely on it.
use open_vibe_host.Base.{ℕ, Bool, ◌+◌, ◌≤◌, ◌≡◌, refl, ap, ◌∙◌, arith}
use open_vibe_host.Host.Calls.{Call, ok}
use open_vibe_host.Host.ReleaseRecord.{Entry}
use open_vibe_host.Host.Exec.{Env, State, perform, set_entry, set_host_lock}
use open_vibe_host.Host.Rules.{Preorder, Steps, Allows}

-- `now` reads the clock, no call sets it back, and `sleep` lets the time pass that it is given.
pub record Clock {H : Type 0} (env : Env H) : Type 0 where
  pub time : H → ℕ
  pub reads : (h : H) → (env.answer Call.now h).0 ≡ ok (time h)
  pub forward : (c : Call) (h : H) → time h ≤ time (env.answer c h).1
  pub sleeps : (ms : ℕ) (h : H) → time h + ms ≤ time (env.answer (Call.sleep ms) h).1

-- No time was turned back, and no counted loop has run out of rounds.
pub record Ongoing {H : Type 0} {env : Env H} (c : Clock env) (s t : State H) : Type 0 where
  pub later : c.time s.host ≤ c.time t.host
  pub counted : t.exhausted ≡ s.exhausted

module _ {H : Type 0} {env : Env H} (c : Clock env) where
  pub Ongoing-preorder : Preorder (Ongoing c)
  Ongoing-preorder = record {
    same = λ s. record { later = omega arith; counted = refl };
    chain = λ s t u p q. record { later = omega arith; counted = q.counted ∙ p.counted };
  }

  pub Ongoing-perform : (call : Call) → Steps (Ongoing c) (perform env call)
  unfolding perform
  Ongoing-perform call = record {
    at = λ s. record { later = c.forward call s.host; counted = refl };
  }

  pub Ongoing-set_entry : (f : Entry → Entry) → Steps (Ongoing c) (set_entry f)
  unfolding set_entry
  Ongoing-set_entry f = record { at = λ s. record { later = omega arith; counted = refl } }

  pub Ongoing-set_host_lock : (b : Bool) → Steps (Ongoing c) (set_host_lock b)
  unfolding set_host_lock
  Ongoing-set_host_lock b = record { at = λ s. record { later = omega arith; counted = refl } }

  pub Ongoing-Allows : {C : Call → Type 0} → Allows env C (Ongoing c)
  Ongoing-Allows = record {
    pre = Ongoing-preorder;
    each = λ call _. Ongoing-perform call;
    edits = Ongoing-set_entry;
    locks = Ongoing-set_host_lock;
  }

  -- What `now` returns is the time.
  pub now_time : (s : State H) (t : ℕ) → (perform env Call.now s).0 ≡ ok t → t ≡ c.time s.host
  unfolding perform
  now_time s t e = cc (c.reads s.host)

  -- After `sleep` its time has passed.
  pub sleep_passes :
      (ms : ℕ) (s : State H) → c.time s.host + ms ≤ c.time (perform env (Call.sleep ms) s).1.host
  unfolding perform
  sleep_passes ms s = c.sleeps ms s.host

  -- The same of a run that is known.
  pub read_at :
      (s u : State H) (n : ℕ)
      → perform env Call.now s ≡ (ok n, u)
      → (n ≡ c.time s.host) × (c.time s.host ≤ c.time u.host)
  read_at s u n e = (
    now_time s n (ap (λ r. r.0) e),
    rw (← ap (λ r. c.time r.1.host) e) ((Ongoing-perform Call.now).at s).later,
  )

  pub slept :
      (s u : State H) (ms : ℕ)
      → perform env (Call.sleep ms) s ≡ (ok tt, u)
      → c.time s.host + ms ≤ c.time u.host
  slept s u ms e = rw (← ap (λ r. c.time r.1.host) e) (sleep_passes ms s)
