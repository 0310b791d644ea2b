-- ===== src/Host/Rules/Issued.antt =====
-- Which calls an operation makes.
use open_vibe_host.Base.{Bool, List, [], ◌∷◌, ◌++◌, All, All-append, ◌≡◌, refl, sym, ap, ◌∙◌}
use mathlib.Core.List.{append_assoc}
use open_vibe_host.Host.Calls.{Call}
use open_vibe_host.Host.ReleaseRecord.{Entry}
use open_vibe_host.Host.Exec.{Env, M, Event, State, perform, set_entry, set_host_lock, exhaust}
use open_vibe_host.Host.Rules.{Preorder, Steps, Allows}

-- The calls in front of the earlier trace are the ones that were added, and each satisfies `C`.
pub record Issued {H : Type 0} (C : Call → Type 0) (s t : State H) : Type 0 where
  pub added : List Event
  pub grows : t.trace ≡ added ++ s.trace
  pub good : All (λ e. C e.call) added

module _ {H : Type 0} {C : Call → Type 0} where
  pub Issued-preorder : Preorder (Issued {H = H} C)
  Issued-preorder = record {
    same = λ s. record { added = []; grows = refl; good = tt };
    chain = λ s t u p q. record {
      added = q.added ++ p.added;
      grows = q.grows ∙ ap (λ l. q.added ++ l) p.grows ∙ sym (append_assoc q.added p.added s.trace);
      good = All-append _ q.added p.added q.good p.good;
    };
  }

  pub Issued-perform : (env : Env H) (c : Call) → C c → Steps (Issued C) (perform env c)
  unfolding perform
  Issued-perform env c p = record {
    at = λ s. record { added = _ ∷ []; grows = refl; good = (p, tt) };
  }

  pub Issued-set_entry : (f : Entry → Entry) → Steps (Issued C) (set_entry {H = H} f)
  unfolding set_entry
  Issued-set_entry f = record { at = λ s. record { added = []; grows = refl; good = tt } }

  pub Issued-set_host_lock : (b : Bool) → Steps (Issued C) (set_host_lock {H = H} b)
  unfolding set_host_lock
  Issued-set_host_lock b = record { at = λ s. record { added = []; grows = refl; good = tt } }

  pub Issued-exhaust : (A : Type 0) → Steps (Issued C) (exhaust {H = H} {A = A})
  unfolding exhaust
  Issued-exhaust A = record { at = λ s. record { added = []; grows = refl; good = tt } }

  pub Issued-Allows : (env : Env H) → Allows env C (Issued C)
  Issued-Allows env = record {
    pre = Issued-preorder;
    each = λ c p. Issued-perform env c p;
    edits = Issued-set_entry;
    locks = Issued-set_host_lock;
  }

all_of :
    {C D : Call → Type 0} (xs : List Event)
    → ((c : Call) → C c → D c)
    → All (λ e. C e.call) xs
    → All (λ e. D e.call) xs
all_of [] w _ = tt
all_of (e ∷ xs) w (p, ps) = (w e.call p, all_of xs w ps)

-- Calls of a class are calls of a larger one.
pub Issued-weaken :
    {H A : Type 0} {C D : Call → Type 0} (m : M H A)
    → ((c : Call) → C c → D c)
    → Steps (Issued C) m
    → Steps (Issued D) m
Issued-weaken m w k = record {
  at = λ s.
      let i = k.at s in record { added = i.added; grows = i.grows; good = all_of i.added w i.good };
}
