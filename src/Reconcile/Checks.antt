-- ===== src/Reconcile/Checks.antt =====
-- What a green verdict of the checks says.
use open_vibe_host.Base.{
  String, Bool, true, false, not, Option, none, some, List, [], ◌∷◌, ◌≡◌, ◌≢◌, refl, arith, any,
  null, All, if◌then◌else◌, Bool-cases, inl, inr, ◌==◌, nat_eq, nat_beq_iff, string_eq,
}
use open_vibe_host.Git.{◌⧺◌}
use open_vibe_host.Host.{Env, State, Call, Response, ok, perform, pure, throw}
use open_vibe_host.Host.Json.{Json}
use open_vibe_host.Host.Rules.{bind-ok}
use open_vibe_host.Host.Rules.Inverse.{pure-ok}
use open_vibe_host.Reconcile.{
  Verdict, green, pending, red, none_yet, unknown, completed, passed, is_null, verdict_of,
  member_of, runs_of, ci_status, read_body, read_runs, read_verdict,
}

-- A check that has ended, with success, skipped or neutral.
pub record HasPassed (c : Json) : Type 0 where
  pub ended : completed c ≡ true
  pub well : passed c ≡ true

none-All :
    (cs : List Json)
    → any (λ c. not (completed c)) cs ≡ false
    → any (λ c. not (passed c)) cs ≡ false
    → All HasPassed cs
none-All [] h k = tt
none-All (c ∷ cs) h k = (
  record { ended = ground arith; well = ground arith },
  none-All cs (ground arith) (ground arith),
)

verdict_of-green :
    (cs : List Json) → verdict_of cs ≡ some green → (null cs ≡ false) × All HasPassed cs
unfolding verdict_of
verdict_of-green cs h =
    let parts =
      green_parts (null cs) (any (λ c. is_null c) cs) (any (λ c. not (completed c)) cs)
        (any (λ c. not (passed c)) cs) h in
    (parts.0, none-All cs parts.1 parts.2)
  where
    green_parts :
        (bare broken running bad : Bool)
        → (if bare
            then some none_yet
            else if broken
            then none
            else if running
            then some pending
            else if bad
            then some red
            else some green)
          ≡ some green
        → (bare ≡ false) × (running ≡ false) × (bad ≡ false)
    green_parts bare broken running bad h = (ground arith, ground arith, ground arith)

not_green : unknown ≢ green
not_green e = cc

module _ {H : Type 0} (env : Env H) where
  read_runs-green :
      (o : Option (List Json)) (s t : State H)
      → read_runs env o s ≡ (ok green, t)
      → (cs : List Json) × (o ≡ some cs) × (verdict_of cs ≡ some green)
  unfolding read_runs read_verdict throw pure
  read_runs-green none s t h = absurd (ground arith)
  read_runs-green (some cs) s t h = (cs, refl, go (verdict_of cs) h)
    where
      go : (o : Option Verdict) → read_verdict env o s ≡ (ok green, t) → o ≡ some green
      go none h = absurd (ground arith)
      go (some v) h = ground arith

  read_body-green :
      (o : Option Json) (s t : State H)
      → read_body env o s ≡ (ok green, t)
      → (body : Json) × (o ≡ some body)
        × (cs : List Json) × (runs_of (member_of "check_runs" body) ≡ some cs)
        × (verdict_of cs ≡ some green)
  unfolding read_body pure
  read_body-green none s t h = absurd (ground arith)
  read_body-green (some body) s t h =
      let (cs, e, g) = read_runs-green _ s t h in (body, refl, cs, e, g)

  -- The checks of a commit are green only where GitHub answered with status 200 and a list of check
  -- runs that is not empty, each of which has completed with success, skipped or neutral.
  pub ci_status-green :
      (slug sha : String) (s t : State H)
      → ci_status env slug sha s ≡ (ok green, t)
      → (r : Response) × (body : Json) × (cs : List Json) × (u : State H) × (perform env
            (Call.http (
              "https://api.github.com/repos/" ⧺ slug ⧺ "/commits/" ⧺ sha
              ⧺ "/check-runs?per_page=100"))
            s
          ≡ (ok r, u))
        × (r.status ≡ 200)
        × (env.parse_json r.body ≡ some body)
        × (runs_of (member_of "check_runs" body) ≡ some cs)
        × (null cs ≡ false)
        × All HasPassed cs
  unfolding ci_status
  ci_status-green slug sha s t h =
      let url =
        "https://api.github.com/repos/" ⧺ slug ⧺ "/commits/" ⧺ sha ⧺ "/check-runs?per_page=100" in
      let (r, u, asked, rest) = bind-ok (perform env (Call.http url)) _ s t green h in
      elim (Bool-cases (r.status == 200)) [
        | inr other ↦ absurd (not_green (pure-ok unknown green u t (rw other at rest)).0)
        | inl fine ↦
            let (body, parsed, cs, listed, g) =
              read_body-green (env.parse_json r.body) u t (rw fine at rest) in
            let (some_run, passed_all) = verdict_of-green cs g in
            (
              r,
              body,
              cs,
              u,
              asked,
              (nat_beq_iff r.status 200).0 fine,
              parsed,
              listed,
              some_run,
              passed_all,
            )
      ]
