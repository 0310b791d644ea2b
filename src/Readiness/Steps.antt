-- ===== src/Readiness/Steps.antt =====
-- Each part of a round of `waitReady` (lib/readiness.js) only looks at the machine.
use open_vibe_host.Base.{
  ℕ, String, Bool, true, false, not, ◌&&◌, Option, none, some, List, ◌==◌, string_eq, nat_eq, all,
}
use open_vibe_host.Host.{Env, Call, State}
use open_vibe_host.Host.Rules.{
  Allows, Steps, Steps-pure, Steps-if, Steps-bind, Steps-maybe, Steps-collect,
}
use open_vibe_host.Inventory.{Ready}
use open_vibe_host.Probes.{is_2xx}
use open_vibe_host.Systemd.{UnitState}
use open_vibe_host.Systemd.Classes.{IsObservation}
use open_vibe_host.Systemd.Guard.{show-Steps}
use open_vibe_host.Readiness.{
  Verdict, is_ready, unit_failed, not_yet, probe_url, release_matches, show_all, not_ready,
  check_release, check_units, look_once, seconds_since, answer_in, after_look, wait_round,
}

module _ {H : Type 0} (env : Env H) {R : State H → State H → Type 0}
    (look : Allows env IsObservation R) where
  pub show_all-Steps : (units : List String) → Steps R (show_all env units)
  unfolding show_all
  show_all-Steps units =
      Steps-collect look.pre units _
        (λ u. Steps-bind look.pre _ _ (show-Steps env look u) (λ st. Steps-pure look.pre _))

  not_ready-Steps :
      (units : List String) (states : Option (List UnitState))
      → Steps R (not_ready env units states)
  unfolding not_ready
  not_ready-Steps units none =
      Steps-bind look.pre _ _ (show_all-Steps units) (λ states. Steps-pure look.pre _)
  not_ready-Steps units (some states) = Steps-pure look.pre _

  release_matches-Steps : (ready : Ready) (sha : String) → Steps R (release_matches env ready sha)
  unfolding release_matches
  release_matches-Steps ready sha =
      Steps-maybe (env.resolve_url "/release.json" ready.url) _ _ (Steps-pure look.pre false)
        (λ url. Steps-bind look.pre _ _ (look.each (Call.http url) tt) (λ r. Steps-pure look.pre _))

  check_release-Steps :
      (ready : Ready) (expected : Option String) (units : List String)
      (states : Option (List UnitState))
      → Steps R (check_release env ready expected units states)
  unfolding check_release
  check_release-Steps ready none units states = Steps-pure look.pre _
  check_release-Steps ready (some sha) units states =
      Steps-if (not (ready.release && not (sha == ""))) _ _ (λ _. Steps-pure look.pre _)
        (λ _.
          Steps-bind look.pre _ _ (release_matches-Steps ready sha)
            (λ m. Steps-if m _ _ (λ _. Steps-pure look.pre _) (λ _. not_ready-Steps units states)))

  check_units-Steps :
      (ready : Ready) (expected : Option String) (units : List String)
      → Steps R (check_units env ready expected units)
  unfolding check_units
  check_units-Steps ready expected units =
      Steps-if (not ready.all_units) _ _ (λ _. check_release-Steps ready expected units none)
        (λ _. Steps-bind look.pre _ _ (show_all-Steps units) (λ states.
          Steps-if (all (λ st. st.active == "active") states) _ _
            (λ _. check_release-Steps ready expected units (some states))
            (λ _. not_ready-Steps units (some states))))

  pub look_once-Steps :
      (ready : Ready) (expected : Option String) (units : List String)
      → Steps R (look_once env ready expected units)
  unfolding look_once probe_url
  look_once-Steps ready expected units =
      Steps-bind look.pre _ _
        (Steps-bind look.pre _ _ (look.each (Call.http ready.url) tt) (λ r. Steps-pure look.pre _))
        (λ last.
          Steps-if (is_2xx last.status) _ _ (λ _. check_units-Steps ready expected units)
            (λ _. not_ready-Steps units none))

  pub answer_in-Steps : (good : Bool) (start : ℕ) → Steps R (answer_in env good start)
  unfolding answer_in seconds_since
  answer_in-Steps good start =
      Steps-bind look.pre _ _
        (Steps-bind look.pre _ _ (look.each Call.now tt) (λ t. Steps-pure look.pre _))
        (λ s. Steps-pure look.pre _)

  after_look-Steps : (start : ℕ) (v : Verdict) → Steps R (after_look env start v)
  unfolding after_look
  after_look-Steps start is_ready =
      Steps-bind look.pre _ _ (answer_in-Steps true start) (λ w. Steps-pure look.pre _)
  after_look-Steps start unit_failed =
      Steps-bind look.pre _ _ (answer_in-Steps false start) (λ w. Steps-pure look.pre _)
  after_look-Steps start not_yet =
      Steps-bind look.pre _ _ (look.each (Call.sleep 1000) tt) (λ _. Steps-pure look.pre _)

  pub wait_round-Steps :
      (ready : Ready) (expected : Option String) (units : List String) (start : ℕ)
      → Steps R (wait_round env ready expected units start)
  unfolding wait_round
  wait_round-Steps ready expected units start =
      Steps-bind look.pre _ _ (look_once-Steps ready expected units) (after_look-Steps start)
