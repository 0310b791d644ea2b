-- ===== src/Readiness/Evidence.antt =====
-- What `waitReady` of lib/readiness.js has seen when it reports a service ready.
use open_vibe_host.Base.{
  not, ◌&&◌, ℕ, String, Bool, true, false, Option, none, some, List, ◌==◌, string_eq, if◌then◌else◌,
  all, any, ◌≡◌, ◌≢◌, refl, sym, ap, ◌∙◌, ◌⊎◌, inl, inr, Bool-cases, take_else, take_then, not_both,
}
use open_vibe_host.Host.{Env, Call, Response, State, ok, pure, perform, maybe, ◌>>=◌}
use open_vibe_host.Host.Rules.{bind-ok}
use open_vibe_host.Host.Waiting.{Round, finished, again, while_before-returns}
use open_vibe_host.Inventory.{Ready, Service}
use open_vibe_host.Probes.{is_2xx}
use open_vibe_host.Systemd.{UnitState}
use open_vibe_host.Readiness.{
  Probed, Waited, Verdict, is_ready, unit_failed, not_yet, probe_url, release_matches, show_all,
  failing, not_ready, check_release, check_units, look_once, seconds_since, answer_in, after_look,
  wait_round, wait_url, wait_ready,
}

module _ {H : Type 0} where
  answered_ok :
      (good : Bool) (n : ℕ) (w : Waited) (s t : State H)
      → pure (record { ok = good; skipped = false; seconds = n }) s ≡ (ok w, t)
      → w.ok ≡ good
  unfolding pure
  answered_ok good n w s t h =
      let same : record { ok = good; skipped = false; seconds = n } ≡ w = cc in
      ap (λ x. x.ok) (sym same)

  same_finished :
      (w w' : Waited) (s t : State H)
      → pure {A = Round Waited (Unit {0})} (finished w) s ≡ (ok (finished w'), t)
      → w.ok ≡ w'.ok
  unfolding pure
  same_finished w w' s t h = let same : w ≡ w' = cc in ap (λ x. x.ok) same

  goes_on :
      (w : Waited) (s t : State H)
      → pure {A = Round Waited (Unit {0})} (again tt) s ≢ (ok (finished w), t)
  unfolding pure
  goes_on w s t h = cc

  skips :
      (w : Waited) (s t : State H)
      → pure (record { ok = true; skipped = true; seconds = 0 }) s ≡ (ok w, t)
      → w.skipped ≡ true
  unfolding pure
  skips w s t h =
      let same : record { ok = true; skipped = true; seconds = 0 } ≡ w = cc in
      ap (λ x. x.skipped) (sym same)

module _ {H : Type 0} (env : Env H) (ready : Ready) (expected : Option String)
    (units : List String) where
  -- The service answered 2xx; where the inventory asks for it every unit was shown active; and where
  -- a release is asked for and one that is not empty is expected, the service named it.
  pub record Evidence : Type 0 where
    pub answered :
        (s t : State H) × (r : Response) × (perform env (Call.http ready.url) s ≡ (ok r, t))
        × (is_2xx r.status ≡ true)
    pub units_active :
        ready.all_units ≡ true
        → (s t : State H) × (states : List UnitState) × (show_all env units s ≡ (ok states, t))
          × (all (λ st. st.active == "active") states ≡ true)
    pub release_named :
        (sha : String)
        → ready.release ≡ true
        → (sha == "") ≡ false
        → expected ≡ some sha
        → (s t : State H) × (release_matches env ready sha s ≡ (ok true, t))

  abbrev Named : Type 0
  Named =
      (sha : String)
      → ready.release ≡ true
      → (sha == "") ≡ false
      → expected ≡ some sha
      → (s t : State H) × (release_matches env ready sha s ≡ (ok true, t))

  failing-not :
      (states : List UnitState) (s t : State H) → pure (failing env states) s ≢ (ok is_ready, t)
  unfolding pure
  failing-not states s t h = elim (Bool-cases (any (λ st. st.active == "failed") states)) [
    | inl f ↦ cc (rw f at h)
    | inr n ↦ cc (rw n at h)
  ]

  not_ready-not :
      (states : Option (List UnitState)) (s t : State H)
      → not_ready env units states s ≢ (ok is_ready, t)
  unfolding not_ready
  not_ready-not none s t h =
      let (states, u, _, rest) = bind-ok (show_all env units) _ s t is_ready h in
      failing-not states u t rest
  not_ready-not (some states) s t h = failing-not states s t h

  named :
      (sha : String) (states : Option (List UnitState)) (m : Bool) (s u t : State H)
      → release_matches env ready sha s ≡ (ok m, u)
      → (if m then pure is_ready else not_ready env units states) u ≡ (ok is_ready, t)
      → release_matches env ready sha s ≡ (ok true, u)
  named sha states true s u t e h = e
  named sha states false s u t e h = absurd (not_ready-not states u t h)

  check_release-Named :
      (rel : Option String) (states : Option (List UnitState)) (s t : State H)
      → check_release env ready rel units states s ≡ (ok is_ready, t)
      → (sha : String) → ready.release ≡ true
      → (sha == "") ≡ false
      → rel ≡ some sha
      → (s t : State H) × (release_matches env ready sha s ≡ (ok true, t))
  unfolding check_release
  check_release-Named none states s t h sha asks filled same = cc
  check_release-Named (some sha') states s t h sha asks filled same =
      let same_sha : sha' ≡ sha = cc in
      let checks : (ready.release && not (sha' == "")) ≡ true = rw (same_sha, asks, filled) refl in
      let (m, u, e, rest) =
        bind-ok (release_matches env ready sha') _ s t is_ready
          (take_else (ready.release && not (sha' == "")) _ _ s _ checks h) in
      (
        s,
        u,
        ap (λ x. release_matches env ready x s) (sym same_sha) ∙ named sha' states m s u t e rest,
      )

  abbrev Active : Type 0
  Active =
      ready.all_units ≡ true
      → (s t : State H) × (states : List UnitState) × (show_all env units s ≡ (ok states, t))
        × (all (λ st. st.active == "active") states ≡ true)

  check_units-ready :
      (s t : State H) → check_units env ready expected units s ≡ (ok is_ready, t) → Active × Named
  unfolding check_units
  check_units-ready s t h = elim (Bool-cases ready.all_units) [
    | inl asks ↦
        let (states, u, e, rest) =
          bind-ok (show_all env units) _ s t is_ready (take_else ready.all_units _ _ s _ asks h) in
        elim (Bool-cases (all (λ st. st.active == "active") states)) [
          | inl up ↦ (
            (λ _. (s, u, states, e, up)),
            check_release-Named expected (some states) u t (rw up at rest),
          )
          | inr down ↦ absurd (not_ready-not (some states) u t (rw down at rest))
        ]
    | inr silent ↦ (
      (λ asks. absurd (not_both ready.all_units asks silent)),
      check_release-Named expected none s t (take_then ready.all_units _ _ s _ silent h),
    )
  ]

  probed :
      (r : Response) (v u : State H) (p : Probed)
      → pure (record { ok = some (is_2xx r.status); status = r.status }) v ≡ (ok p, u)
      → p.status ≡ r.status
  unfolding pure
  probed r v u p h =
      let same : (record { ok = some (is_2xx r.status); status = r.status }) ≡ p = cc in
      ap (λ x. x.status) (sym same)

  look_once-Evidence :
      (s t : State H) → look_once env ready expected units s ≡ (ok is_ready, t) → Evidence
  unfolding look_once probe_url
  look_once-Evidence s t h =
      let (p, u, e, rest) = bind-ok (probe_url env ready) _ s t is_ready h in
      let (r, v, e', last) = bind-ok (perform env (Call.http ready.url)) _ s u p e in
      let status_is = probed r v u p last in
      elim (Bool-cases (is_2xx p.status)) [
        | inl good ↦
            let (active, named) = check_units-ready u t (rw good at rest) in
            record {
              answered = (s, v, r, e', ap is_2xx (sym status_is) ∙ good);
              units_active = active;
              release_named = named;
            }
        | inr bad ↦ absurd (not_ready-not none u t (rw bad at rest))
      ]

  answer_in-ok :
      (good : Bool) (start : ℕ) (w : Waited) (s t : State H)
      → answer_in env good start s ≡ (ok w, t)
      → w.ok ≡ good
  unfolding answer_in
  answer_in-ok good start w s t h =
      let (n, u, _, last) = bind-ok (seconds_since env start) _ s t w h in
      answered_ok good n w u t last

  finished_ok :
      (good : Bool) (start : ℕ) (w : Waited) (s t : State H)
      → (answer_in env good start >>= λ w. pure {A = Round Waited (Unit {0})} (finished w)) s
        ≡ (ok (finished w), t)
      → w.ok ≡ good
  finished_ok good start w s t h =
      let (w', u, e, last) = bind-ok (answer_in env good start) _ s t (finished w) h in
      sym (same_finished w' w u t last) ∙ answer_in-ok good start w' s u e

  after_look-Evidence :
      (start : ℕ) (v : Verdict) (w : Waited) (s u t : State H)
      → look_once env ready expected units s ≡ (ok v, u)
      → after_look env start v u ≡ (ok (finished w), t)
      → w.ok ≡ true
      → Evidence
  unfolding after_look
  after_look-Evidence start is_ready w s u t e h good = look_once-Evidence s u e
  after_look-Evidence start unit_failed w s u t e h good =
      absurd (not_both w.ok good (finished_ok false start w u t h))
  after_look-Evidence start not_yet w s u t e h good =
      let (_, v, _, last) = bind-ok (perform env (Call.sleep 1000)) _ u t (finished w) h in
      absurd (goes_on w v t last)

  wait_url-Evidence :
      (timeout : ℕ) (w : Waited) (s t : State H)
      → wait_url env ready timeout expected units s ≡ (ok w, t)
      → w.ok ≡ true
      → Evidence
  unfolding wait_url wait_round
  wait_url-Evidence timeout w s t h =
      let (start, u, _, rest) = bind-ok (perform env Call.now) _ s t w h in
      while_before-returns env _ (λ _. wait_round env ready expected units start)
        (λ _. answer_in env false start) (λ a _. a.ok ≡ true → Evidence)
        (λ _ a s t e.
          let (v, u, looked, last) =
            bind-ok (look_once env ready expected units) _ s t (finished a) e in
          after_look-Evidence start v a s u t looked last)
        (λ _ a s t e good. absurd (not_both a.ok good (answer_in-ok false start a s t e))) _ tt w u
        t rest

-- A service is reported ready only on that evidence, or because no URL is declared.
pub wait_ready-Evidence :
    {H : Type 0} (env : Env H) (svc : Service) (timeout : ℕ) (expected : Option String)
    (units : List String) (w : Waited) (s t : State H)
    → wait_ready env svc timeout expected units s ≡ (ok w, t)
    → w.ok ≡ true
    → ((svc.ready ≡ none) × (w.skipped ≡ true))
      ⊎ ((ready : Ready) × (svc.ready ≡ some ready) × Evidence env ready expected units)
unfolding wait_ready pure maybe
wait_ready-Evidence {H} env svc timeout expected units w s t h good = go svc.ready refl h
  where
    go :
        (r : Option Ready)
        → svc.ready ≡ r
        → maybe r
            (pure (record { ok = true; skipped = true; seconds = 0 }))
            (λ ready. wait_url env ready timeout expected units)
            s
          ≡ (ok w, t)
        → ((svc.ready ≡ none) × (w.skipped ≡ true))
          ⊎ ((ready : Ready) × (svc.ready ≡ some ready) × Evidence env ready expected units)
    go none e h = inl (e, skips w s t h)
    go (some ready) e h =
        inr (ready, e, wait_url-Evidence env ready expected units timeout w s t h good)
