-- ===== src/ReleaseOps/Apply/Outcomes.antt =====
-- What the exit of a deploy's last phase says about the service: `restart_phase` is the code of `apply`
-- in lib/release-ops.js from the restart on.
use open_vibe_host.Base.{ℕ, String, true, Option, none, some, List, ◌≡◌, ◌⊎◌, inl, inr, Bool-cases}
use open_vibe_host.Host.{Env, M, State, Exit, ok, ok_exit, rolled_back, rollback_failed}
use open_vibe_host.Host.Rules.{bind-ok}
use open_vibe_host.Host.Rules.Inverse.{catch-ok, noted-ok, noted_pure-ok}
use open_vibe_host.Inventory.{Service, Inventory, Ready}
use open_vibe_host.Readiness.{Waited}
use open_vibe_host.Readiness.Evidence.{Evidence, wait_ready-Evidence}
use open_vibe_host.ReleaseOps.Plan.{Mode, Plan}
use open_vibe_host.ReleaseOps.Actions.{Announcement, restart_and_wait, restore_checkout}
use open_vibe_host.ReleaseOps.Actions.Waits.{restart_and_wait-waits}
use open_vibe_host.ReleaseOps.Apply.{
  ApplyOptions, Done, done_result, came_back, go_back, auto_rollback, restarted_with, restart_phase,
}

module _ {H : Type 0} (env : Env H) (inv : Inventory) (backup : M H (List String))
    (svc : Service) where
  -- The service has no ready URL, or it was seen to run that release.
  abbrev pub Serves : Plan → String → Type 0
  Serves p sha =
      (svc.ready ≡ none)
      ⊎ ((ready : Ready) × (svc.ready ≡ some ready) × Evidence env ready (some sha) p.units)

  -- The three ends: the release serves; the one before it serves, back on disk; or neither is known.
  pub data Outcome (mode : Mode) (p : Plan) : Exit → Option String → Type 0 where
    serves_new : Serves p p.to → Outcome mode p ok_exit (some (done_result mode))
    serves_old :
        (s t : State H)
        → restore_checkout env inv svc p.from s ≡ (ok tt, t)
        → Serves p p.from
        → Outcome mode p rolled_back (some "failed-rolled-back")
    needs_hands : Outcome mode p rollback_failed (some "rollback-failed")

  abbrev Ends : Mode → Plan → Done → State H → Type 0
  Ends mode p d t = Outcome mode p d.exit t.entry.result

  serves :
      (p : Plan) (timeout : ℕ) (sha : String) (w : Waited) (s t : State H)
      → restart_and_wait env inv svc timeout p.units (some sha) s ≡ (ok w, t)
      → w.ok ≡ true
      → Serves p sha
  serves p timeout sha w s t h good =
      let (u, waited) = restart_and_wait-waits env inv svc timeout p.units (some sha) w s t h in
      elim (wait_ready-Evidence env svc timeout (some sha) p.units w u t waited good) [
        | inl (e, _) ↦ inl e
        | inr seen ↦ inr seen
      ]

  came_back-Ends :
      (mode : Mode) (opts : ApplyOptions) (p : Plan) (w : Waited) (d : Done) (r a b s t : State H)
      → restore_checkout env inv svc p.from a ≡ (ok tt, b)
      → restart_and_wait env inv svc opts.ready_timeout p.units (some p.from) r ≡ (ok w, s)
      → came_back env inv backup svc p w s ≡ (ok d, t)
      → Ends mode p d t
  unfolding came_back
  came_back-Ends mode opts p w d r a b s t put_back again h = elim (Bool-cases w.ok) [
    | inl good ↦
        let (same, noted) = noted_pure-ok _ s t _ d (rw good at h) in
        rw (same, noted)
          (Outcome.serves_old a b put_back (serves p opts.ready_timeout p.from w r s again good))
    | inr bad ↦
        let (same, noted) = noted_pure-ok _ s t _ d (rw bad at h) in
        rw (same, noted) Outcome.needs_hands
  ]

  go_back-Ends :
      (mode : Mode) (opts : ApplyOptions) (p : Plan) (d : Done) (s t : State H)
      → go_back env inv backup svc opts p s ≡ (ok d, t)
      → Ends mode p d t
  unfolding go_back
  go_back-Ends mode opts p d s t h =
      let (u, s1, restored, rest) = bind-ok (restore_checkout env inv svc p.from) _ s t d h in
      let (w, s2, waited, last) =
        bind-ok (restart_and_wait env inv svc opts.ready_timeout p.units (some p.from)) _ s1 t d
          rest in
      came_back-Ends mode opts p w d s1 s s1 s2 t restored waited last

  auto_rollback-Ends :
      (mode : Mode) (opts : ApplyOptions) (p : Plan) (d : Done) (s t : State H)
      → auto_rollback env inv backup svc opts p s ≡ (ok d, t)
      → Ends mode p d t
  unfolding auto_rollback
  auto_rollback-Ends mode opts p d s t h =
      elim (catch-ok (go_back env inv backup svc opts p) _ _ t d (noted-ok _ _ s t d h)) [
        | inl back ↦ go_back-Ends mode opts p d _ t back
        | inr (e, u, _, handled) ↦
            let (same, noted) = noted_pure-ok _ u t _ d handled in
            rw (same, noted) Outcome.needs_hands
      ]

  -- When the phase that restarts returns, its exit and the result in the record tell the truth: 0 with
  -- "deployed" or "rolled-back" means that the new release was seen to serve (or that no ready URL is
  -- declared), 3 with "failed-rolled-back" that the checkout was restored and the old release was seen
  -- to serve, and every other end is 4 with "rollback-failed".
  pub restart_phase-Outcome :
      (mode : Mode) (opts : ApplyOptions) (p : Plan) (a : Option (List Announcement)) (d : Done)
      (s t : State H)
      → restart_phase env inv backup svc mode opts p a s ≡ (ok d, t)
      → Outcome mode p d.exit t.entry.result
  unfolding restart_phase restarted_with
  restart_phase-Outcome mode opts p a d s t h =
      let (w, u, waited, rest) =
        bind-ok (restart_and_wait env inv svc opts.ready_timeout p.units (some p.to)) _ s t d h in
      let told = noted-ok _ _ u t d rest in
      elim (Bool-cases w.ok) [
        | inl good ↦
            let (same, noted) = noted_pure-ok _ _ t _ d (rw good at told) in
            rw (same, noted)
              (Outcome.serves_new (serves p opts.ready_timeout p.to w s u waited good))
        | inr bad ↦ auto_rollback-Ends mode opts p d _ t (rw bad at told)
      ]
