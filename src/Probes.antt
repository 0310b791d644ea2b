-- ===== src/Probes.antt =====
-- lib/probes.js: how many protected sessions a restart of a service would cut.
pub mod Steps
pub mod Laws
use open_vibe_host.Base.{
  ℕ, String, Bool, true, false, not, ◌&&◌, ◌||◌, Option, none, some, List, [], ◌∷◌, map, ◌==◌,
  nat_eq, string_eq, if◌then◌else◌, contains, truthy, keep, all, length, ltb, leb, ℤ, pos, ◌+ℤ◌,
}
use open_vibe_host.Base.Text.{split_on}
use open_vibe_host.Host.{Env, M, Call, Response, pure, perform, catch, maybe, ◌>>=◌, ◌>>◌}
use open_vibe_host.Host.Json
use open_vibe_host.Host.Json.{Json, own, items, is_truthy, strict_eq}
use open_vibe_host.Inventory.{
  HttpCount, Probe, http_json_count, postgresql_count, other_kind, ProbeKind, single, sum, Service,
}
use open_vibe_host.Systemd.{show}

-- `{ count, label, unknown, notRunning }`; the reason of an unknown count is left out.
pub record Count : Type 0 where
  pub count : Option ℤ
  pub label : String
  pub not_running : Bool

-- `'true'` in a filter matches any value that is true but the text "0".
matches_value : Option Json → Json → Bool
matches_value actual (Json.bool true) = is_truthy actual && not (strict_eq actual (Json.str "0"))
matches_value actual v = strict_eq actual v

abbrev pub live_states : List String
live_states = "active" ∷ "activating" ∷ "reloading" ∷ "deactivating" ∷ []

-- `p.label || 'protected sessions'`
abbrev label_of : Option String → String
label_of none = "protected sessions"
label_of (some l) = if l == "" then "protected sessions" else l

abbrev pub is_2xx : ℕ → Bool
is_2xx status = leb 200 status && ltb status 300

module _ {H : Type 0} (env : Env H) where
  -- `o == null ? undefined : o[k]`
  member_of : Option Json → String → Option Json
  member_of none k = none
  member_of (some Json.null) k = none
  member_of (some (Json.obj fs)) k = elim (own k fs) [
    | none ↦ env.member (Json.obj fs) k
    | some v ↦ some v
  ]
  member_of (some v) k = env.member v k

  walk : Option Json → List String → Option Json
  unfolding member_of
  walk v [] = v
  walk v (k ∷ ks) = walk (member_of v k) ks

  abbrev text_or_empty : Option String → String
  text_or_empty none = ""
  text_or_empty (some s) = s

  -- `at(obj, dotted)`
  unfoldable pub value_at : Json → Option String → Option Json
  unfolding walk
  value_at body dotted =
      walk (some body) (keep (λ k. not (k == "")) (split_on b'.' (text_or_empty dotted)))

  -- `Number(v)`, `none` where it is not finite
  unfoldable pub number_of : Option Json → Option ℤ
  number_of none = none
  number_of (some Json.null) = some (pos 0)
  number_of (some (Json.bool b)) = some (if b then pos 1 else pos 0)
  number_of (some (Json.num n)) = some n
  number_of (some v) = env.number v

  unfoldable pub matches : List (String × Json) → Json → Bool
  unfolding matches_value member_of
  matches filter x = all (λ (k, v). matches_value (member_of (some x) k) v) filter

  count_array : HttpCount → Option Json → Option ℤ
  unfolding matches
  count_array p (some (Json.arr vs)) = some (pos (length (keep (matches p.where_) (items vs))))
  count_array p _ = none

  -- What one of `addFields` adds: nothing where it is left out, unknown where it is null or no number.
  extra_at : Json → String → Option ℤ
  extra_at body f = elim (value_at body (some f)) [
    | none ↦ some (pos 0)
    | some Json.null ↦ none
    | some v ↦ number_of (some v)
  ]

  unfoldable pub add_fields : Json → ℤ → List String → Option ℤ
  unfolding extra_at
  add_fields body total [] = some total
  add_fields body total (f ∷ fs) = elim (extra_at body f) [
    | none ↦ none
    | some extra ↦ add_fields body (total +ℤ extra) fs
  ]

  count_field : HttpCount → Json → Option ℤ
  unfolding add_fields
  count_field p body = elim (number_of (value_at body p.field)) [
    | none ↦ none
    | some n ↦ add_fields body n p.add_fields
  ]

  -- What an answer counts.
  unfoldable pub http_count : HttpCount → Response → Option ℤ
  unfolding count_array count_field
  http_count p r = if not (is_2xx r.status) then none else elim (env.parse_json r.body) [
    | none ↦ none
    | some body ↦
        if truthy p.array then count_array p (value_at body p.array) else count_field p body
  ]

  first_value : List (List (Option Json)) → Option Json
  first_value [] = none
  first_value ([] ∷ rows) = none
  first_value ((v ∷ vs) ∷ rows) = v

  ask : Probe → M H (Option ℤ)
  unfolding first_value
  ask (http_json_count p) = do r ← perform env (Call.http p.url); pure (http_count p r)
  ask (postgresql_count database sql) = do
    rows ← perform env (Call.psql database sql)
    pure (number_of (first_value rows))
  ask other_kind = pure none

  -- Whatever is thrown is "unknown".
  unfoldable pub count_one : Probe → M H (Option ℤ)
  unfolding ask
  count_one p = catch (ask p) (λ _. pure none)

  unfoldable pub sum_counts : ℤ → List Probe → M H (Option ℤ)
  sum_counts total [] = pure (some total)
  sum_counts total (p ∷ ps) = do
    r ← count_one p
    maybe r (pure none) (λ n. sum_counts (total +ℤ n) ps)

  any_running : List String → M H Bool
  any_running [] = pure false
  any_running (u ∷ us) = do
    st ← show env u
    if contains live_states st.active then pure true else any_running us

  unfoldable pub running : Service → M H Bool
  unfolding any_running
  running svc = any_running svc.units

  count_kind : ProbeKind → M H (Option ℤ)
  count_kind (single p) = count_one p
  count_kind (sum ps) = sum_counts (pos 0) ps

  unfoldable pub count_protected : Service → M H Count
  unfolding count_kind
  count_protected svc =
      maybe svc.protected
        (pure (record { count = some (pos 0); label = "protected sessions"; not_running = false }))
        (λ p. do
          up ← running svc
          if not up
              then pure
                  (record { count = some (pos 0); label = label_of p.label; not_running = true })
              else do
                n ← count_kind p.kind
                pure (record { count = n; label = label_of p.label; not_running = false }))
