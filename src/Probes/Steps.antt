-- ===== src/Probes/Steps.antt =====
-- Counting the protected sessions only looks at the machine.
use open_vibe_host.Base.{String, ℤ, ◌+ℤ◌, List, [], ◌∷◌, true, contains, string_eq}
use open_vibe_host.Host.{Env, Call, State}
use open_vibe_host.Host.Rules.{
  Allows, Steps, steps_rules, Steps-bind, Steps-catch, Steps-pure, Steps-maybe, Steps-if,
}
use open_vibe_host.Inventory.{
  Probe, http_json_count, postgresql_count, other_kind, ProbeKind, single, sum, Service,
}
use open_vibe_host.Systemd.Classes.{IsObservation}
use open_vibe_host.Systemd.Guard.{show-Steps}
use open_vibe_host.Probes.{
  ask, count_one, sum_counts, any_running, live_states, running, count_kind, count_protected,
}

module _ {H : Type 0} (env : Env H) {R : State H → State H → Type 0}
    (look : Allows env IsObservation R) where
  ask-Steps : (p : Probe) → Steps R (ask env p)
  unfolding ask
  ask-Steps (http_json_count p) =
      Steps-bind look.pre _ _ (look.each (Call.http p.url) tt) (λ r. Steps-pure look.pre _)
  ask-Steps (postgresql_count d q) =
      Steps-bind look.pre _ _ (look.each (Call.psql d q) tt) (λ r. Steps-pure look.pre _)
  ask-Steps other_kind = Steps-pure look.pre _

  pub count_one-Steps : (p : Probe) → Steps R (count_one env p)
  unfolding count_one
  count_one-Steps p = Steps-catch look.pre _ _ (ask-Steps p) (λ e. Steps-pure look.pre _)

  pub sum_counts-Steps : (total : ℤ) (ps : List Probe) → Steps R (sum_counts env total ps)
  unfolding sum_counts
  sum_counts-Steps total [] = Steps-pure look.pre _
  sum_counts-Steps total (p ∷ ps) =
      Steps-bind look.pre _ _ (count_one-Steps p)
        (λ r. Steps-maybe r _ _ (Steps-pure look.pre _) (λ n. sum_counts-Steps (total +ℤ n) ps))

  any_running-Steps : (us : List String) → Steps R (any_running env us)
  unfolding any_running
  any_running-Steps [] = Steps-pure look.pre _
  any_running-Steps (u ∷ us) = Steps-bind look.pre _ _ (show-Steps env look u) (λ st.
      Steps-if (contains live_states st.active) _ _ (λ _. Steps-pure look.pre true)
        (λ _. any_running-Steps us))

  count_kind-Steps : (k : ProbeKind) → Steps R (count_kind env k)
  unfolding count_kind
  count_kind-Steps (single p) = count_one-Steps p
  count_kind-Steps (sum ps) = sum_counts-Steps _ ps

  pub running-Steps : (svc : Service) → Steps R (running env svc)
  unfolding running
  running-Steps svc = any_running-Steps svc.units

  pub count_protected-Steps : (svc : Service) → Steps R (count_protected env svc)
  unfolding count_protected
  count_protected-Steps svc =
      search (steps_rules, look.pre, running-Steps, count_kind-Steps) depth 8
