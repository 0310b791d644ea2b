-- ===== src/ReleaseOps/Apply/Failures.antt =====
-- What is left behind when the preparation of a restart fails (`apply` of lib/release-ops.js).
use open_vibe_host.Base.{String, Bool, true, false, some, List, [], ◌∷◌, ◌≡◌, refl}
use open_vibe_host.Host.{
  Env, M, State, Error, Result, op_error, rollback_failed, ok, err, pure, throw, gets, set_entry,
  catch, ◌>>=◌, ◌>>◌, recover, continue, when,
}
use open_vibe_host.Inventory.{Service, Inventory}
use open_vibe_host.Deps.{Problem}
use open_vibe_host.ReleaseOps.Plan.{Plan}
use open_vibe_host.Host.Rules.{bind-ok}
use open_vibe_host.Git
use open_vibe_host.Git.{checkout_of}
use open_vibe_host.ReleaseOps.Actions.{restore_checkout, verify_deps, refuse_problems, Verified}
use open_vibe_host.ReleaseOps.Apply.{as_op_error, put_back}

module _ {H : Type 0} (env : Env H) (inv : Inventory) (backup : M H (List String)) (svc : Service)
    (p : Plan) where
  -- What a restored checkout has behind it: a reset to the commit it came from, and then a
  -- verification of its packages that found no problem.
  pub record IsBack (s u : State H) : Type 0 where
    pub after_reset : State H
    pub reset : Git.reset_hard env (checkout_of svc) p.from s ≡ (ok tt, after_reset)
    pub found : Verified
    pub before : State H
    pub behind : State H
    pub verified : verify_deps env inv svc before ≡ (ok found, behind)
    pub no_problem : found.problems ≡ []

  -- The three ways in which `put_back` ends.
  pub data Left (e : Error) (s t : State H) : Result (Unit {0}) → Type 0 where
    not_moved : s.entry.checkout_moved ≡ false → s ≡ t → Left e s t (err (as_op_error e))
    restored :
        (u : State H)
        → s.entry.checkout_moved ≡ true
        → restore_checkout env inv svc p.from s ≡ (ok tt, u)
        → IsBack s u
        → t.entry.checkout_restored ≡ true
        → Left e s t (err (as_op_error e))
    not_restored :
        (e' : Error) (u : State H)
        → s.entry.checkout_moved ≡ true
        → restore_checkout env inv svc p.from s ≡ (err e', u)
        → Left e s t (err (op_error rollback_failed (some "restore-failed")))

  not_refused :
      (ps : List Problem) (s t : State H) → refuse_problems env inv svc ps s ≡ (ok tt, t) → ps ≡ []
  unfolding refuse_problems throw
  not_refused [] s t h = refl
  not_refused (x ∷ ps) s t h = absurd cc

  restore_checkout-IsBack :
      (s u : State H) → restore_checkout env inv svc p.from s ≡ (ok tt, u) → IsBack s u
  unfolding restore_checkout
  restore_checkout-IsBack s u h =
      let (_, a, reset, rest) = bind-ok (Git.reset_hard env (checkout_of svc) p.from) _ s u tt h in
      let (_, b, _, rest') = bind-ok _ _ a u tt rest in
      let (_, c, _, rest'') = bind-ok _ _ b u tt rest' in
      let (v, d, verified, last) = bind-ok (verify_deps env inv svc) _ c u tt rest'' in
      let (_, e, clean, _) = bind-ok (refuse_problems env inv svc v.problems) _ d u tt last in
      record {
        after_reset = a;
        reset = reset;
        found = v;
        before = c;
        behind = d;
        verified = verified;
        no_problem = not_refused v.problems d e clean;
      }

  -- What `put_back` does once it is known whether the checkout moved.
  abbrev rest : Error → Bool → M H (Unit {0})
  rest e moved =
      when moved (
        catch
          (restore_checkout env inv svc p.from
            >> set_entry (λ x. record x { checkout_restored = true }))
          (λ _. throw (op_error rollback_failed (some "restore-failed"))))
      >> throw (as_op_error e)

  abbrev ending : Error → Result (Unit {0}) × State H → Result (Unit {0}) × State H
  ending e r =
      continue {B = Unit {0}}
        (recover
          (continue {B = Unit {0}} r (λ _. set_entry (λ x. record x { checkout_restored = true })))
          (λ _. throw (op_error rollback_failed (some "restore-failed"))))
        (λ _. throw (as_op_error e))

  after_restore :
      (e : Error) (s : State H) (r : Result (Unit {0}) × State H)
      → s.entry.checkout_moved ≡ true
      → restore_checkout env inv svc p.from s ≡ r
      → Left e s (ending e r).1 (ending e r).0
  unfolding throw set_entry
  after_restore e s (ok _, u) m h = Left.restored u m h (restore_checkout-IsBack s u h) refl
  after_restore e s (err x, u) m h = Left.not_restored x u m h

  rest-Left :
      (e : Error) (s : State H) (b : Bool)
      → s.entry.checkout_moved ≡ b
      → Left e s (rest e b s).1 (rest e b s).0
  unfolding throw set_entry catch ◌>>=◌ pure
  rest-Left e s true h = after_restore e s (restore_checkout env inv svc p.from s) h refl
  rest-Left e s false h = Left.not_moved h refl

  -- `put_back` never returns. Where the checkout had not moved it does nothing and throws the failure it
  -- was given, as an OpError. Where it had moved, either restoring it failed, and it throws exit 4 with
  -- "restore-failed", or the checkout was reset to the commit it came from, a verification of its
  -- packages behind that found no problem, and the record says that it was restored, and the failure
  -- it was given is thrown.
  pub put_back-Left :
      (e : Error) (s : State H)
      → Left e s (put_back env inv backup svc p e s).1 (put_back env inv backup svc p e s).0
  unfolding put_back gets ◌>>=◌
  put_back-Left e s = rest-Left e s s.entry.checkout_moved refl
