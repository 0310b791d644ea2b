-- ===== src/Readiness.antt =====
-- lib/readiness.js: polling a service until it answers, and until every unit and the release that it
-- names are as the inventory asks.
pub mod Steps
pub mod Ends
pub mod Evidence
use Prim.Native.String
use Prim.Native.Char.{code}
use open_vibe_host.Base.{
  ℕ, suc, ◌+◌, ◌-◌, ◌*◌, ◌/◌, String, Bool, true, false, not, ◌&&◌, ◌||◌, Option, none, some, List,
  [], ◌∷◌, ◌==◌, nat_eq, string_eq, if◌then◌else◌, all, any, leb,
}
use open_vibe_host.Base.Text.{starts_with}
use open_vibe_host.Host.{Env, M, Call, Response, pure, perform, maybe, collect, ◌>>=◌, ◌>>◌}
use open_vibe_host.Host.Json.{Json, is_truthy}
use open_vibe_host.Host.Waiting.{Round, finished, again, while_before}
use open_vibe_host.Inventory.{Ready, Service}
use open_vibe_host.Probes.{is_2xx, value_at}
use open_vibe_host.Systemd.{UnitState, show}

-- The latency that it also reports is left out.
pub record Probed : Type 0 where
  pub ok : Option Bool
  pub status : ℕ

pub record Waited : Type 0 where
  pub ok : Bool
  pub skipped : Bool
  pub seconds : ℕ

-- What one look at the service says.
pub data Verdict : Type 0 where
  is_ready unit_failed not_yet : Verdict

is_hex : ℕ → Bool
is_hex c = (leb b'0' c && leb c b'9') || (leb b'a' c && leb c b'f')

all_hex : String → Bool
unfolding is_hex
all_hex String.[] = true
all_hex (String.◌∷◌ c s) = is_hex (code c) && all_hex s

-- `/^[0-9a-f]{7,40}$/.test(rel)`, behind `toLowerCase()`
unfoldable pub names_release : String → Bool
unfolding all_hex
names_release rel = all_hex rel && leb 7 (String.count rel) && leb (String.count rel) 40

module _ {H : Type 0} (env : Env H) where
  unfoldable pub probe_url : Ready → M H Probed
  probe_url ready = do
    r ← perform env (Call.http ready.url)
    pure (record { ok = some (is_2xx r.status); status = r.status })

  unfoldable pub probe : Service → M H Probed
  unfolding probe_url
  probe svc = maybe svc.ready (pure (record { ok = none; status = 0 })) probe_url

  -- `String((m && m.release) || '').toLowerCase()`
  release_of : Json → String
  release_of m = elim (value_at env m (some "release")) [
    | none ↦ ""
    | some (Json.str s) ↦ env.lower_case s
    | some v ↦ if is_truthy (some v) then env.lower_case (env.text_of v) else ""
  ]

  -- Whether an answer of /release.json names the commit.
  unfoldable pub names_sha : String → Response → Bool
  unfolding release_of names_release
  names_sha sha r = r.status == 200 && elim (env.parse_json r.body) [
    | none ↦ false
    | some m ↦ names_release (release_of m) && starts_with sha (release_of m)
  ]

  unfoldable pub release_matches : Ready → String → M H Bool
  unfolding names_sha
  release_matches ready sha =
      maybe (env.resolve_url "/release.json" ready.url) (pure false)
        (λ url. do r ← perform env (Call.http url); pure (names_sha sha r))

  unfoldable pub show_all : List String → M H (List UnitState)
  show_all units = collect units (λ u. do st ← show env u; pure (st ∷ []))

  abbrev failing : List UnitState → Verdict
  failing states = if any (λ st. st.active == "failed") states then unit_failed else not_yet

  -- The units are shown once in a round.
  not_ready : List String → Option (List UnitState) → M H Verdict
  unfolding show_all
  not_ready units none = do states ← show_all units; pure (failing states)
  not_ready units (some states) = pure (failing states)

  check_release : Ready → Option String → List String → Option (List UnitState) → M H Verdict
  unfolding not_ready
  check_release ready none units states = pure is_ready
  check_release ready (some sha) units states =
      if not (ready.release && not (sha == ""))
      then pure is_ready
      else do m ← release_matches ready sha; if m then pure is_ready else not_ready units states

  check_units : Ready → Option String → List String → M H Verdict
  unfolding check_release show_all
  check_units ready expected units =
      if not ready.all_units then check_release ready expected units none else do
        states ← show_all units
        if all (λ st. st.active == "active") states
            then check_release ready expected units (some states)
            else not_ready units (some states)

  unfoldable pub look_once : Ready → Option String → List String → M H Verdict
  unfolding check_units
  look_once ready expected units = do
    last ← probe_url ready
    if is_2xx last.status then check_units ready expected units else not_ready units none

  -- `Math.round((exec.now() - start) / 1000)`
  seconds_since : ℕ → M H ℕ
  seconds_since start = do t ← perform env Call.now; pure ((t - start + 500) / 1000)

  unfoldable pub answer_in : Bool → ℕ → M H Waited
  unfolding seconds_since
  answer_in good start = do
    s ← seconds_since start
    pure (record { ok = good; skipped = false; seconds = s })

  after_look : ℕ → Verdict → M H (Round Waited (Unit {0}))
  unfolding answer_in
  after_look start is_ready = do w ← answer_in true start; pure (finished w)
  after_look start unit_failed = do w ← answer_in false start; pure (finished w)
  after_look start not_yet = do perform env (Call.sleep 1000); pure (again tt)

  unfoldable pub wait_round :
      Ready → Option String → List String → ℕ → M H (Round Waited (Unit {0}))
  unfolding look_once after_look
  wait_round ready expected units start = do v ← look_once ready expected units; after_look start v

  -- `timeoutSeconds || svc.ready.timeoutSeconds || 90`
  abbrev wait_seconds : Ready → ℕ → ℕ
  wait_seconds ready timeout =
      if not (timeout == 0)
      then timeout
      else if not (ready.timeout_seconds == 0)
      then ready.timeout_seconds
      else 90

  wait_url : Ready → ℕ → Option String → List String → M H Waited
  wait_url ready timeout expected units = do
    start ← perform env Call.now
    while_before env (suc (wait_seconds ready timeout)) (start + 1000 * wait_seconds ready timeout)
        (λ _. wait_round ready expected units start) (λ _. answer_in false start) tt

  -- `expected` is the release to name, `timeout` is 0 where it is not given.
  unfoldable pub wait_ready : Service → ℕ → Option String → List String → M H Waited
  unfolding wait_url
  wait_ready svc timeout expected units =
      maybe svc.ready (pure (record { ok = true; skipped = true; seconds = 0 }))
        (λ ready. wait_url ready timeout expected units)
