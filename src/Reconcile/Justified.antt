-- ===== src/Reconcile/Justified.antt =====
-- When a pass deploys.
use open_vibe_host.Base.{
  String, Bool, true, false, not, ◌||◌, Option, none, some, List, ◌≡◌, ◌⊎◌, refl, sym, ap, ◌∙◌,
  arith, null, inl, inr, if◌then◌else◌, ◌==◌, string_eq, eq_iff,
}
use open_vibe_host.Host.{Env, M, State, Result, ok, err, ◌>>=◌, continue}
use open_vibe_host.Inventory.{Service}
use open_vibe_host.Reconcile.{
  Verdict, green, Planned, Deployed, Reconciled, runtime_files, ci_status, remote_of, attempted,
  github_slug, is_green, after_ci, with_slug, after_plan, reconcile_one,
}

-- Two continuations that agree on what `m` returned agree behind `m`.
bind_cases :
    {H A B D : Type 0} (P : Type 0) (m : M H A) (f : D → A → M H B) (s : State H)
    → ((a : A) (u : State H) → m s ≡ (ok a, u) → ((d e : D) → f d a u ≡ f e a u) ⊎ P)
    → ((d e : D) → (m >>= f d) s ≡ (m >>= f e) s) ⊎ P
unfolding ◌>>=◌
bind_cases {H} {A} P m f s k = go (m s) refl
  where
    go : (r : Result A × State H) → m s ≡ r → ((d e : _) → continue r (f d) ≡ continue r (f e)) ⊎ P
    go (ok a, u) e = k a u e
    go (err x, u) e = inl (λ d d'. refl)

-- So do both sides of a test whose first branch does not depend on the choice.
guard_cases :
    {H A D : Type 0} (P : Type 0) (b : Bool) (x : M H A) (f : D → M H A) (s : State H)
    → (b ≡ false → ((d e : D) → f d s ≡ f e s) ⊎ P)
    → ((d e : D) → (if b then x else f d) s ≡ (if b then x else f e) s) ⊎ P
guard_cases P true x f s k = inl (λ d e. refl)
guard_cases P false x f s k = k refl

not-false : (b : Bool) → not b ≡ false → b ≡ true
not-false true h = refl
not-false false h = sym h

module _ {H : Type 0} (env : Env H) (only : Option (List String)) (dry_run : Bool)
    (plan : String → M H Planned) (announce : String → Option String → M H Bool) where
  -- What must hold for a deploy of a service: it is managed, its policy is auto, this is no dry run,
  -- the plan is behind in a file that is neither documentation nor a test, and the checks of the
  -- commit that was planned are green.
  pub record IsJustified (svc : Service) (s : State H) : Type 0 where
    pub managed : svc.managed ≡ true
    pub automatic : svc.deploy_policy ≡ "auto"
    pub wet : dry_run ≡ false
    pub p : Planned
    pub url : String
    pub slug : String
    pub u : State H
    pub v : State H
    pub w : State H
    pub planned : attempted env (plan svc.id) s ≡ (ok (some p), u)
    pub behind : p.up_to_date ≡ false
    pub runtime : null (runtime_files p) ≡ false
    pub remote : remote_of env svc u ≡ (ok url, v)
    pub on_github : github_slug url ≡ some slug
    pub checked : ci_status env slug p.to v ≡ (ok green, w)

  -- The same result whatever deploy would do: it is not called.
  abbrev pub NotDeployed : ((String → M H Deployed) → M H Reconciled) → State H → Type 0
  NotDeployed m s = (d e : String → M H Deployed) → m d s ≡ m e s

  is_green-eq : (v : Verdict) → is_green v ≡ true → v ≡ green
  unfolding is_green
  is_green-eq v h = ground arith

  after_ci-cases :
      (svc : Service) (v : Verdict) (s : State H)
      → NotDeployed (λ d. after_ci env only dry_run plan announce d svc v) s
        ⊎ ((v ≡ green) × (dry_run ≡ false))
  unfolding after_ci
  after_ci-cases svc v s =
      guard_cases _ (not (is_green v)) _ _ s
        λ g. guard_cases _ dry_run _ _ s λ wet. inr (is_green-eq v (not-false (is_green v) g), wet)

  with_slug-cases :
      (svc : Service) (p : Planned) (o : Option String) (s : State H)
      → NotDeployed (λ d. with_slug env only dry_run plan announce d svc p o) s
        ⊎ ((slug : String) × (w : State H) × (o ≡ some slug)
            × (dry_run ≡ false)
            × (ci_status env slug p.to s ≡ (ok green, w)))
  unfolding with_slug
  with_slug-cases svc p none s = inl (λ d e. refl)
  with_slug-cases svc p (some slug) s =
      bind_cases _ (ci_status env slug p.to) (λ d. after_ci env only dry_run plan announce d svc) s
        λ v w e. elim (after_ci-cases svc v w) [
          | inl same ↦ inl same
          | inr (good, wet) ↦ inr (slug, w, refl, wet, e ∙ ap (λ x. (ok x, w)) good)
        ]

  abbrev Behind : Service → Option Planned → State H → Type 0
  Behind svc o u =
      (p : Planned) × (url : String) × (slug : String) × (v : State H) × (w : State H) × (o
        ≡ some p)
      × (svc.deploy_policy ≡ "auto")
      × (dry_run ≡ false)
      × (p.up_to_date ≡ false)
      × (null (runtime_files p) ≡ false)
      × (remote_of env svc u ≡ (ok url, v))
      × (github_slug url ≡ some slug)
      × (ci_status env slug p.to v ≡ (ok green, w))

  after_plan-cases :
      (svc : Service) (o : Option Planned) (u : State H)
      → NotDeployed (λ d. after_plan env only dry_run plan announce d svc o) u ⊎ Behind svc o u
  unfolding after_plan
  after_plan-cases svc none u = inl (λ d e. refl)
  after_plan-cases svc (some p) u = guard_cases _ p.up_to_date _ _ u λ behind.
      guard_cases _ (null (runtime_files p)) _ _ u λ runtime.
        guard_cases _ (not (svc.deploy_policy == "auto")) _ _ u λ auto.
          bind_cases _ (remote_of env svc)
            (λ d url. with_slug env only dry_run plan announce d svc p (github_slug url)) u
            λ url v read. elim (with_slug-cases svc p (github_slug url) v) [
              | inl same ↦ inl same
              | inr (slug, w, on_github, wet, checked) ↦ inr (
                p,
                url,
                slug,
                v,
                w,
                refl,
                (eq_iff svc.deploy_policy "auto").0 (not-false _ auto),
                wet,
                behind,
                runtime,
                read,
                on_github,
                checked,
              )
            ]

  or_left : (a b : Bool) → (not a || b) ≡ false → a ≡ true
  or_left true b h = refl
  or_left false b h = sym h

  -- Whatever the plan, the remote and the checks answer: reconcile deploys a service only where the
  -- service is managed with the policy auto, this is no dry run, the plan is behind in a runtime file,
  -- and the checks of the planned commit are green; otherwise the result and the state do not depend
  -- on what deploy would do.
  pub reconcile_one-IsJustified :
      (svc : Service) (s : State H)
      → NotDeployed (λ d. reconcile_one env only dry_run plan announce d svc) s ⊎ IsJustified svc s
  unfolding reconcile_one
  reconcile_one-IsJustified svc s =
      guard_cases _ (not svc.managed || svc.repo == "") _ _ s λ managed.
        bind_cases _ (attempted env (plan svc.id))
          (λ d. after_plan env only dry_run plan announce d svc) s
          λ o u planned. elim (after_plan-cases svc o u) [
            | inl same ↦ inl same
            | inr
                  (
                    p, url, slug, v, w, e, automatic, wet, behind, runtime, remote, on_github,
                    checked,
                  ) ↦
                inr (record {
                  managed = or_left svc.managed _ managed;
                  automatic = automatic;
                  wet = wet;
                  p = p;
                  url = url;
                  slug = slug;
                  u = u;
                  v = v;
                  w = w;
                  planned = planned ∙ ap (λ x. (ok x, u)) e;
                  behind = behind;
                  runtime = runtime;
                  remote = remote;
                  on_github = on_github;
                  checked = checked;
                })
          ]
