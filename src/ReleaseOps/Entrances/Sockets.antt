-- ===== src/ReleaseOps/Entrances/Sockets.antt =====
-- No deploy and no rollback that lib/release-ops.js is asked for stops a socket unit.
use open_vibe_host.Base.{String, List, truthy, is_some, not, ◌&&◌}
use open_vibe_host.Freezes.Steps.{frozen-Steps}
use open_vibe_host.Git.Steps.{head-Steps}
use open_vibe_host.Host.{Env, M, Call}
use open_vibe_host.Host.Rules.{
  Allows-weaken, Steps, Steps-pure, Steps-throw, Steps-if, Steps-bind, Steps-maybe,
}
use open_vibe_host.Host.Rules.Issued.{Issued, Issued-Allows}
use open_vibe_host.Inventory.{Service, Inventory}
use open_vibe_host.Releases
use open_vibe_host.Systemd.Classes.{IsSocketSafe, IsPlain-IsSocketSafe}
use open_vibe_host.ReleaseOps.Plan.{Mode, deploying, rolling_back}
use open_vibe_host.ReleaseOps.Apply.{ApplyOptions, Done, is_release_layout, apply}
use open_vibe_host.ReleaseOps.Sockets.{PlainPrograms, apply-IsSocketSafe}
use open_vibe_host.ReleaseOps.Entrances.{deploy, to_previous, rollback}

module _ {H : Type 0} (env : Env H) (inv : Inventory) (svc : Service)
    (programs : PlainPrograms inv svc) (backup : M H (List String))
    (backs_up : Steps (Issued IsSocketSafe) backup) (layout : Mode → ApplyOptions → M H Done)
    (lays_out : (mode : Mode) (opts : ApplyOptions)
      → Steps (Issued IsSocketSafe) (layout mode opts)) where
  apply-Safe :
      (mode : Mode) (opts : ApplyOptions)
      → Steps (Issued IsSocketSafe) (apply env inv backup svc layout mode opts)
  apply-Safe mode opts =
      apply-IsSocketSafe env inv svc programs backup backs_up layout mode opts (lays_out mode opts)

  log-Safe : Steps (Issued IsSocketSafe) (Releases.list env inv svc.id)
  unfolding Releases.list
  log-Safe =
      let safe = Issued-Allows {C = IsSocketSafe} env in
      Steps-bind safe.pre _ _ (safe.each (Call.read_file _) tt)
        (λ text. Steps-maybe text _ _ (Steps-pure safe.pre _) (λ t. Steps-pure safe.pre _))

  to_previous-Safe :
      (opts : ApplyOptions)
      → Steps (Issued IsSocketSafe) (to_previous env inv backup layout svc opts)
  unfolding to_previous
  to_previous-Safe opts =
      let safe = Issued-Allows {C = IsSocketSafe} env in
      Steps-bind safe.pre _ _ (head-Steps env (Allows-weaken IsPlain-IsSocketSafe safe) _)
        (λ current.
          Steps-bind safe.pre _ _ log-Safe (λ records.
            Steps-maybe _ _ _ (Steps-throw safe.pre _) (λ to. apply-Safe rolling_back _)))

  -- Where the inventory configures no systemctl of its own, no call that a deploy or a rollback makes is
  -- a systemctl verb that disrupts a socket unit, if none that the backup or the release-layout engine
  -- makes is one: whatever the options and the answers, and whether it returns or throws.
  pub entrances-IsSocketSafe :
      (opts : ApplyOptions)
      → Steps (Issued IsSocketSafe) (deploy env inv backup layout svc opts)
        × Steps (Issued IsSocketSafe) (rollback env inv backup layout svc opts)
  unfolding deploy rollback
  entrances-IsSocketSafe opts =
      let safe = Issued-Allows {C = IsSocketSafe} env in
      (
        Steps-bind safe.pre _ _
            (frozen-Steps env inv (Allows-weaken IsPlain-IsSocketSafe safe) svc.id)
            (λ hold.
              Steps-if (is_some hold && not opts.guard.force) _ _ (λ _. Steps-throw safe.pre _)
                (λ _. apply-Safe deploying opts)),
        Steps-if (svc.managed && is_release_layout svc.strategy) _ _
            (λ _. lays_out rolling_back opts)
            (λ _.
              Steps-if (truthy opts.to) _ _ (λ _. apply-Safe rolling_back opts)
                (λ _. to_previous-Safe opts)),
      )
