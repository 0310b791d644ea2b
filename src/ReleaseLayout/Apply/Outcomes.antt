-- ===== src/ReleaseLayout/Apply/Outcomes.antt =====
-- What the exit of a release-layout deploy says about the service: `restart_phase` is the code of `apply`
-- in lib/release-layout.js behind the switch.
use open_vibe_host.Base.{
  ℕ, String, Bool, true, none, some, List, ◌≡◌, ap, sym, ◌∙◌, ◌⊎◌, inl, inr, Bool-cases,
}
use open_vibe_host.Host.{
  Env, M, State, Exit, ok, ok_exit, rolled_back, rollback_failed, pure, gets, ◌>>◌,
}
use open_vibe_host.Host.Rules.{bind-ok}
use open_vibe_host.Host.Rules.Inverse.{pure-ok, catch-ok, noted-ok, noted_pure-ok}
use open_vibe_host.Inventory.{Service, Inventory, Ready}
use open_vibe_host.Readiness.Evidence.{Evidence, wait_ready-Evidence}
use open_vibe_host.ReleaseOps.Plan.{Mode}
use open_vibe_host.ReleaseOps.Apply.{ApplyOptions, done_result}
use open_vibe_host.ReleaseLayout.State.{Layout}
use open_vibe_host.ReleaseLayout.Plan.{LayoutPlan}
use open_vibe_host.ReleaseLayout.Steps.{
  UnitsInstalled, Restarted, install_release_units, restart_release,
}
use open_vibe_host.ReleaseLayout.Steps.Waits.{restart_release-waits}
use open_vibe_host.ReleaseLayout.Apply.{
  LayoutDone, note_result, prune_after, settled, back_to, auto_rollback, restart_phase,
}

module _ {H : Type 0} (env : Env H) (inv : Inventory) (backup : M H (List String)) (svc : Service)
    (rel : Layout) where
  -- The service has no ready URL, or it was seen to run that commit.
  abbrev pub Serves : String → Type 0
  Serves sha =
      (svc.ready ≡ none)
      ⊎ ((ready : Ready) × (svc.ready ≡ some ready) × Evidence env ready (some sha) svc.units)

  pub data Outcome (p : LayoutPlan) : Exit → Type 0 where
    serves_new : Serves p.to → Outcome p ok_exit
    -- The unit files of the old release were put back before.
    serves_old :
        (u : UnitsInstalled) (s t : State H)
        → install_release_units env inv backup svc rel p.current_dir s ≡ (ok u, t)
        → Serves p.from
        → Outcome p rolled_back
    needs_hands : Outcome p rollback_failed

  serves :
      (changed : Bool) (timeout : ℕ) (sha : String) (r : Restarted) (s t : State H)
      → restart_release env inv backup svc rel changed (some sha) timeout s ≡ (ok r, t)
      → r.waited.ok ≡ true
      → Serves sha
  serves changed timeout sha r s t h good =
      let (u, v, w, waited, same) =
        restart_release-waits env inv backup svc rel changed (some sha) timeout r s t h in
      elim (wait_ready-Evidence env svc timeout (some sha) svc.units w u v waited
        (ap (λ x. x.ok) same ∙ good)) [ inl (e, _) ↦ inl e | inr seen ↦ inr seen ]

  noted_exit :
      (text : String) (x : Exit) (p : LayoutPlan) (d : LayoutDone) (s t : State H)
      → (note_result env inv backup svc rel text >> pure (record { exit = x; plan = p })) s
        ≡ (ok d, t)
      → d.exit ≡ x
  unfolding note_result
  noted_exit text x p d s t h = let (same, _) = noted_pure-ok _ s t _ d h in ap (λ y. y.exit) same

  settled-exit :
      (mode : Mode) (p : LayoutPlan) (d : LayoutDone) (s t : State H)
      → settled env inv backup svc rel mode p s ≡ (ok d, t)
      → d.exit ≡ ok_exit
  unfolding settled
  settled-exit mode p d s t h =
      let (_, u, _, rest) =
        bind-ok (note_result env inv backup svc rel (done_result mode)) _ s t d h in
      let (_, v, _, last) = bind-ok (prune_after env inv backup svc rel mode p) _ u t d rest in
      let (same, _) = pure-ok _ d v t last in ap (λ y. y.exit) (sym same)

  back_to-Outcome :
      (opts : ApplyOptions) (p : LayoutPlan) (d : LayoutDone) (s t : State H)
      → back_to env inv backup svc rel opts p s ≡ (ok d, t)
      → Outcome p d.exit
  unfolding back_to
  back_to-Outcome opts p d s t h =
      let (moved, a, _, h1) = bind-ok (gets (λ s. s.entry.switched)) _ s t d h in
      let (_, b, _, h2) = bind-ok _ _ a t d h1 in
      let (u, c, put, h3) =
        bind-ok (install_release_units env inv backup svc rel p.current_dir) _ b t d h2 in
      let (r, e, waited, h4) =
        bind-ok
          (restart_release env inv backup svc rel u.socket_changed (some p.from) opts.ready_timeout)
          _ c t d h3 in
      let told = noted-ok _ _ e t d h4 in
      elim (Bool-cases r.waited.ok) [
        | inl good ↦ rw (noted_exit "failed-rolled-back" rolled_back p d _ t (rw good at told)) (
            Outcome.serves_old u b c put
              (serves u.socket_changed opts.ready_timeout p.from r c e waited good))
        | inr bad ↦
            rw (noted_exit "rollback-failed" rollback_failed p d _ t (rw bad at told))
              Outcome.needs_hands
      ]

  auto_rollback-Outcome :
      (opts : ApplyOptions) (p : LayoutPlan) (d : LayoutDone) (s t : State H)
      → auto_rollback env inv backup svc rel opts p s ≡ (ok d, t)
      → Outcome p d.exit
  unfolding auto_rollback
  auto_rollback-Outcome opts p d s t h =
      elim (catch-ok (back_to env inv backup svc rel opts p) _ _ t d (noted-ok _ _ s t d h)) [
        | inl back ↦ back_to-Outcome opts p d _ t back
        | inr (e, u, _, handled) ↦
            let (same, _) = noted_pure-ok _ u t _ d handled in
            rw (ap (λ y. y.exit) same) Outcome.needs_hands
      ]

  -- When the phase that restarts into a release returns, its exit tells the truth: 0 means that the new
  -- release was seen to serve (or that no ready URL is declared), 3 that the unit files of the old one
  -- were put back and it was seen to serve, and every other end is 4.
  pub layout-Outcome :
      (mode : Mode) (opts : ApplyOptions) (p : LayoutPlan) (dir : String) (d : LayoutDone)
      (s t : State H)
      → restart_phase env inv backup svc rel mode opts p dir s ≡ (ok d, t)
      → Outcome p d.exit
  unfolding restart_phase
  layout-Outcome mode opts p dir d s t h =
      let (u, a, _, h1) = bind-ok (install_release_units env inv backup svc rel dir) _ s t d h in
      let (r, b, waited, h2) =
        bind-ok
          (restart_release env inv backup svc rel u.socket_changed (some p.to) opts.ready_timeout) _
          _ t d (noted-ok _ _ a t d h1) in
      let told = noted-ok _ _ b t d h2 in
      elim (Bool-cases r.waited.ok) [
        | inl good ↦
            rw (settled-exit mode p d _ t (rw good at told)) (
              Outcome.serves_new
                (serves u.socket_changed opts.ready_timeout p.to r _ b waited good))
        | inr bad ↦ auto_rollback-Outcome opts p d _ t (rw bad at told)
      ]
