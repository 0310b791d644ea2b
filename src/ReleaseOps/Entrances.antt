-- ===== src/ReleaseOps/Entrances.antt =====
-- `plan`, `deploy` and `rollback` of lib/release-ops.js, on the entry of the inventory that `service`
-- finds.
pub mod Sockets
use open_vibe_host.Base.{
  String, not, ◌&&◌, Option, none, some, List, map, if◌then◌else◌, truthy, is_some,
}
use open_vibe_host.Host.{Env, M, op_error, usage, frozen, throw, maybe, ◌>>=◌}
use open_vibe_host.Host.Json.{Json}
use open_vibe_host.Inventory.{Service, Inventory}
use open_vibe_host.Probes.{value_at}
use open_vibe_host.Freezes
use open_vibe_host.Git
use open_vibe_host.Git.{checkout_of}
use open_vibe_host.Releases
use open_vibe_host.Releases.{Logged, previous_for}
use open_vibe_host.ReleaseOps.Plan.{Mode, deploying, rolling_back, Plan, compute_plan}
use open_vibe_host.ReleaseOps.Apply.{ApplyOptions, Done, apply, is_release_layout}

module _ {H : Type 0} (env : Env H) where
  -- a field of a logged record, where it is a text
  text_field : Json → String → Option String
  text_field v k = elim (value_at env v (some k)) [ some (Json.str s) ↦ some s | _ ↦ none ]

  -- What `previousFor` reads of a parsed line of the log.
  unfoldable pub logged : Json → Logged
  unfolding text_field
  logged v = record {
    result = text_field v "result";
    from = text_field v "from";
    to = text_field v "to";
  }

module _ {H : Type 0} (env : Env H) (inv : Inventory) (backup : M H (List String))
    (layout : Mode → ApplyOptions → M H Done) (svc : Service) where
  -- A freeze holds deploys, unless they are forced.
  unfoldable pub deploy : ApplyOptions → M H Done
  deploy opts = do
    hold ← Freezes.frozen env inv svc.id
    if is_some hold && not opts.guard.force
        then throw (op_error frozen none)
        else apply env inv backup svc layout deploying opts

  to_previous : ApplyOptions → M H Done
  unfolding logged checkout_of
  to_previous opts = do
    current ← Git.head env (checkout_of svc)
    records ← Releases.list env inv svc.id
    maybe (previous_for (map (logged env) records) current) (throw (op_error usage none))
        (λ to. apply env inv backup svc layout rolling_back (record opts { to = some to }))

  -- Without `to`, the release before the current one in the log.
  unfoldable pub rollback : ApplyOptions → M H Done
  unfolding to_previous
  rollback opts =
      if svc.managed && is_release_layout svc.strategy
      then layout rolling_back opts
      else if truthy opts.to
      then apply env inv backup svc layout rolling_back opts
      else to_previous opts

  -- `layout_plan` is `computePlan` of lib/release-layout.js.
  unfoldable pub plan : M H Plan → ApplyOptions → M H Plan
  plan layout_plan opts =
      if is_release_layout svc.strategy
      then layout_plan
      else compute_plan env svc deploying opts.to opts.fetch opts.restart
