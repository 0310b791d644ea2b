-- ===== src/Sessions.antt =====
-- `guardSessions` of lib/release-ops.js: what happens to protected sessions before a restart.
pub mod Guarded
pub mod Looking
use open_vibe_host.Base.{
  ℕ, zero, suc, ◌+◌, ◌-◌, ◌*◌, ◌/◌, String, Bool, true, false, not, ◌&&◌, ◌||◌, Option, none, some,
  ◌==◌, nat_eq, if◌then◌else◌, leb, is_some, ℤ, pos, int_eq,
}
use open_vibe_host.Host.{
  Env, M, Call, State, Entry, Sessions, op_error, protected, pure, throw, perform, set_entry, ◌>>=◌,
  ◌>>◌,
}
use open_vibe_host.Host.Waiting.{Round, finished, again, while_before}
use open_vibe_host.Inventory.{DrainPolicy, refuse, wait, report, Service}
use open_vibe_host.Probes.{Count, count_protected}

-- The options that the guard reads.
pub record Options : Type 0 where
  pub force : Bool
  pub wait_idle : Bool

abbrev is_zero : Option ℤ → Bool
is_zero none = false
is_zero (some n) = n == pos 0

-- `r.notRunning || r.count === 0`
unfoldable pub idle : Count → Bool
idle c = c.not_running || is_zero c.count

abbrev is_report : DrainPolicy → Bool
is_report report = true
is_report _ = false

abbrev is_wait : DrainPolicy → Bool
is_wait wait = true
is_wait _ = false

-- `record.protectedSessions = { … }`
counted : Count → String → Entry → Entry
counted c when_ e = record e {
  protected_sessions = some (record {
    count = c.count;
    label = c.label;
    known = is_some c.count;
    checked_when = when_;
    waited_seconds = none;
  });
}

-- the two fields that are set when the wait ends
now_idle : ℕ → Option Sessions → Option Sessions
now_idle seconds none = none
now_idle seconds (some p) = some (record p { waited_seconds = some seconds; count = some (pos 0) })

unfoldable pub waited : ℕ → Entry → Entry
unfolding now_idle
waited seconds e = record e { protected_sessions = now_idle seconds e.protected_sessions }

module _ {H : Type 0} (env : Env H) where
  settled : Service → ℕ → ℕ → M H (Round (Unit {0}) ℕ)
  unfolding waited
  settled svc start quiet =
      if leb svc.drain.quiet_checks quiet
      then (do
        t ← perform env Call.now
        set_entry (waited ((t - start + 500) / 1000))
        pure (finished tt))
      else pure (again quiet)

  -- One round of the poll; `quiet` counts the idle checks in a row.
  poll_round : Service → ℕ → ℕ → M H (Round (Unit {0}) ℕ)
  unfolding settled idle
  poll_round svc start quiet = do
    perform env (Call.sleep (svc.drain.poll_seconds * 1000))
    last ← count_protected env svc
    settled svc start (if idle last then quiet + 1 else 0)

  gave_up : M H (Unit {0})
  gave_up = throw (op_error protected (some "gave-up-waiting"))

  unfoldable pub poll : Service → ℕ → M H (Unit {0})
  unfolding poll_round gave_up
  poll svc start =
      while_before env (suc (svc.drain.wait_max_seconds * 1000))
        (start + svc.drain.wait_max_seconds * 1000) (poll_round svc start) (λ _. gave_up) 0

  -- `outside` is `opts.onIdleWait`: the identity where it is not given.
  unfoldable pub wait_for_idle : Service → (M H (Unit {0}) → M H (Unit {0})) → M H (Unit {0})
  unfolding poll
  wait_for_idle svc outside = do start ← perform env Call.now; outside (poll svc start)

  -- What follows once sessions may be active.
  unfoldable pub hold :
      Service → Options → (M H (Unit {0}) → M H (Unit {0})) → Count → M H (Unit {0})
  unfolding wait_for_idle
  hold svc opts outside first =
      if opts.force
      then set_entry (λ e. record e { forced = true })
      else if is_report svc.drain.policy && is_some first.count && not opts.wait_idle
      then pure tt
      else if opts.wait_idle || is_wait svc.drain.policy
      then wait_for_idle svc outside
      else throw (op_error protected (some "refused"))

  unfoldable pub guard_sessions :
      Service → Options → (M H (Unit {0}) → M H (Unit {0})) → String → M H (Unit {0})
  unfolding hold counted idle
  guard_sessions svc opts outside when_ = do
    first ← count_protected env svc
    set_entry (counted first when_)
    if idle first then pure tt else hold svc opts outside first
