-- ===== src/Host/Rules.antt =====
-- What an operation does to the state whatever it returns or throws: one rule for each way to build
-- an operation, for a relation between the states before and after that is a preorder. The rules are
-- a set for `search`.
pub mod Issued
pub mod Clock
pub mod Inverse
use open_vibe_host.Base.{
  All, Bool, true, false, Option, none, some, List, [], ◌∷◌, if◌then◌else◌, ◌≡◌, refl, ap,
}
use open_vibe_host.Host.Calls.{Call, Answer, Error, Result, ok, err}
use open_vibe_host.Host.ReleaseRecord.{Entry}
use open_vibe_host.Host.Exec.{
  Env, State, M, pure, throw, gets, perform, set_entry, set_host_lock, ◌>>=◌, continue, catch,
  recover, finally, settle, maybe, for_each, collect,
}

pub record Preorder {S : Type 0} (R : S → S → Type 0) : Type 0 where
  pub same : (s : S) → R s s
  pub chain : (s t u : S) → R s t → R t u → R s u

-- `m` relates the state that it is given to the one that it leaves.
pub record Steps {H A : Type 0} (R : State H → State H → Type 0) (m : M H A) : Type 0 where
  pub at : (s : State H) → R s (m s).1

module _ {H A : Type 0} {R : State H → State H → Type 0} (pre : Preorder R) where
  pub Steps-pure : (a : A) → Steps R (pure {H = H} a)
  unfolding pure
  Steps-pure a = record { at = λ s. pre.same s }

  pub Steps-throw : (e : Error) → Steps R (throw {H = H} {A = A} e)
  unfolding throw
  Steps-throw e = record { at = λ s. pre.same s }

  pub Steps-gets : (f : State H → A) → Steps R (gets f)
  unfolding gets
  Steps-gets f = record { at = λ s. pre.same s }

  pub Steps-catch :
      (m : M H A) (f : Error → M H A)
      → Steps R m
      → ((e : Error) → Steps R (f e))
      → Steps R (catch m f)
  unfolding catch
  Steps-catch m f km kf = record { at = λ s. go s (m s) (km.at s) }
    where
      go : (s : State H) (r : Result A × State H) → R s r.1 → R s (recover r f).1
      go s (ok a, t) h = h
      go s (err e, t) h = pre.chain s t _ h ((kf e).at t)

  -- `finally` from one state on.
  pub finally_at :
      (m : M H A) (n : M H (Unit {0})) (s : State H)
      → R s (m s).1
      → Steps R n
      → R s (finally m n s).1
  unfolding finally
  finally_at m n s h kn = go (m s).0 (n (m s).1) (pre.chain s (m s).1 _ h (kn.at (m s).1))
    where
      go : (r : Result A) (t : Result (Unit {0}) × State H) → R s t.1 → R s (settle r t).1
      go r (ok _, t) h = h
      go r (err e, t) h = h

  pub Steps-finally :
      (m : M H A) (n : M H (Unit {0})) → Steps R m → Steps R n → Steps R (finally m n)
  Steps-finally m n km kn = record { at = λ s. finally_at m n s (km.at s) kn }

module _ {H A : Type 0} {R : State H → State H → Type 0} where
  pub Steps-if :
      (b : Bool) (m n : M H A)
      → (b ≡ true → Steps R m)
      → (b ≡ false → Steps R n)
      → Steps R (if b then m else n)
  Steps-if true m n km kn = km refl
  Steps-if false m n km kn = kn refl

module _ {H A B : Type 0} {R : State H → State H → Type 0} (pre : Preorder R) where
  pub Steps-bind :
      (m : M H A) (f : A → M H B) → Steps R m → ((a : A) → Steps R (f a)) → Steps R (m >>= f)
  unfolding ◌>>=◌
  Steps-bind m f km kf = record { at = λ s. go s (m s) (km.at s) }
    where
      go : (s : State H) (r : Result A × State H) → R s r.1 → R s (continue r f).1
      go s (ok a, t) h = pre.chain s t _ h ((kf a).at t)
      go s (err e, t) h = h

  -- The same from one state on, where the rest may use what `m` returned there.
  pub bind_at :
      (m : M H A) (f : A → M H B) (s : State H)
      → R s (m s).1
      → ((a : A) → (m s).0 ≡ ok a → R (m s).1 (f a (m s).1).1)
      → R s ((m >>= f) s).1
  unfolding ◌>>=◌
  bind_at m f s h k = go (m s) refl h k
    where
      go :
          (r : Result A × State H)
          → m s ≡ r
          → R s r.1
          → ((a : A) → r.0 ≡ ok a → R r.1 (f a r.1).1)
          → R s (continue r f).1
      go (ok a, t) e h k = pre.chain s t _ h (k a refl)
      go (err x, t) e h k = h

  -- What follows `m` relates the state behind `m` to the last one.
  pub bind_rest :
      (m : M H A) (f : A → M H B) (s : State H)
      → ((a : A) → Steps R (f a))
      → R (m s).1 ((m >>= f) s).1
  unfolding ◌>>=◌
  bind_rest m f s kf = go (m s)
    where
      go : (r : Result A × State H) → R r.1 (continue r f).1
      go (ok a, t) = (kf a).at t
      go (err e, t) = pre.same t

module _ {H A B : Type 0} where
  -- Inversion of a bind that returned.
  pub bind-ok :
      (m : M H A) (f : A → M H B) (s t : State H) (b : B)
      → (m >>= f) s ≡ (ok b, t)
      → (a : A) × (u : State H) × (m s ≡ (ok a, u)) × (f a u ≡ (ok b, t))
  unfolding ◌>>=◌
  bind-ok m f s t b h = go (m s) refl h
    where
      go :
          (r : Result A × State H)
          → m s ≡ r
          → continue r f ≡ (ok b, t)
          → (a : A) × (u : State H) × (m s ≡ (ok a, u)) × (f a u ≡ (ok b, t))
      go (ok a, u) e h = (a, u, e, h)
      go (err x, u) e h = cc

module _ {H A B : Type 0} {R : State H → State H → Type 0} where
  pub Steps-maybe :
      (o : Option A) (n : M H B) (f : A → M H B)
      → Steps R n
      → ((a : A) → Steps R (f a))
      → Steps R (maybe o n f)
  unfolding maybe
  Steps-maybe none n f kn kf = kn
  Steps-maybe (some a) n f kn kf = kf a

module _ {H A : Type 0} {R : State H → State H → Type 0} (pre : Preorder R) where
  pub Steps-for_each :
      (xs : List A) (f : A → M H (Unit {0})) → ((a : A) → Steps R (f a)) → Steps R (for_each xs f)
  unfolding for_each
  Steps-for_each [] f kf = Steps-pure pre tt
  Steps-for_each (x ∷ xs) f kf =
      Steps-bind pre (f x) (λ _. for_each xs f) (kf x) (λ _. Steps-for_each xs f kf)

module _ {H A B : Type 0} {R : State H → State H → Type 0} (pre : Preorder R) where
  pub Steps-collect :
      (xs : List A) (f : A → M H (List B)) → ((a : A) → Steps R (f a)) → Steps R (collect xs f)
  unfolding collect
  Steps-collect [] f kf = Steps-pure pre []
  Steps-collect (x ∷ xs) f kf =
      Steps-bind pre (f x) _ (kf x)
        (λ ys. Steps-bind pre (collect xs f) _ (Steps-collect xs f kf) (λ zs. Steps-pure pre _))

-- The same for lists of which each item is known to be good.
module _ {H A : Type 0} {R : State H → State H → Type 0} (pre : Preorder R) (P : A → Type 0) where
  pub Steps-for_each_all :
      (xs : List A) (f : A → M H (Unit {0}))
      → All P xs
      → ((a : A) → P a → Steps R (f a))
      → Steps R (for_each xs f)
  unfolding for_each
  Steps-for_each_all [] f _ kf = Steps-pure pre tt
  Steps-for_each_all (x ∷ xs) f (p, ps) kf =
      Steps-bind pre (f x) (λ _. for_each xs f) (kf x p) (λ _. Steps-for_each_all xs f ps kf)

  pub Steps-collect_all :
      {B : Type 0} (xs : List A) (f : A → M H (List B))
      → All P xs
      → ((a : A) → P a → Steps R (f a))
      → Steps R (collect xs f)
  unfolding collect
  Steps-collect_all [] f _ kf = Steps-pure pre []
  Steps-collect_all (x ∷ xs) f (p, ps) kf = Steps-bind pre (f x) _ (kf x p) (λ ys.
      Steps-bind pre (collect xs f) _ (Steps-collect_all xs f ps kf) (λ zs. Steps-pure pre _))

-- A run whose result is known is the pair of that result and the state that it leaves.
pub ran : {H A : Type 0} (m : M H A) (s : State H) (r : Result A) → (m s).0 ≡ r → m s ≡ (r, (m s).1)
ran m s r e = ap (λ x. (x, (m s).1)) e

-- `R` holds across every call of the class `C`, and across what an operation writes into its record.
-- An operation that makes only calls of that class relates its states by every such `R`.
pub record Allows {H : Type 0} (env : Env H) (C : Call → Type 0) (R : State H → State H → Type 0)
    : Type 0 where
  pub pre : Preorder R
  pub each : (c : Call) → C c → Steps R (perform env c)
  pub edits : (f : Entry → Entry) → Steps R (set_entry f)
  pub locks : (b : Bool) → Steps R (set_host_lock b)

-- A smaller class is allowed too.
pub Allows-weaken :
    {H : Type 0} {env : Env H} {C D : Call → Type 0} {R : State H → State H → Type 0}
    → ((c : Call) → D c → C c)
    → Allows env C R
    → Allows env D R
Allows-weaken w a = record {
  pre = a.pre;
  each = λ c d. a.each c (w c d);
  edits = a.edits;
  locks = a.locks;
}

pub ruleset steps_rules = (
  Steps-pure, Steps-throw, Steps-gets, Steps-if, Steps-catch, Steps-finally, Steps-bind,
  Steps-maybe, Steps-for_each, Steps-collect,
)
