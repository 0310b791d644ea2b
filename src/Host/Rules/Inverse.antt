-- ===== src/Host/Rules/Inverse.antt =====
-- What is known of the parts of an operation that returned.
use mathlib.Core.Path.{subst}
use open_vibe_host.Base.{List, [], ◌∷◌, ◌++◌, All, All-append, ap, ◌≡◌, refl, ◌∙◌, ◌⊎◌, inl, inr}
use open_vibe_host.Host.Rules.{bind-ok}
use open_vibe_host.Host.Calls.{Error, Result, ok, err}
use open_vibe_host.Host.ReleaseRecord.{Entry}
use open_vibe_host.Host.Exec.{State, M, pure, set_entry, ◌>>=◌, ◌>>◌, catch, recover, collect}

module _ {H A : Type 0} where
  pub pure-ok : (a b : A) (s t : State H) → pure a s ≡ (ok b, t) → (a ≡ b) × (s ≡ t)
  unfolding pure
  pure-ok a b s t h = (cc, cc)

  -- A guarded operation returned, or its handler did.
  pub catch-ok :
      (m : M H A) (f : Error → M H A) (s t : State H) (a : A)
      → catch m f s ≡ (ok a, t)
      → (m s ≡ (ok a, t)) ⊎ ((e : Error) × (u : State H) × (m s ≡ (err e, u)) × (f e u ≡ (ok a, t)))
  unfolding catch
  catch-ok m f s t a h = go (m s) refl h
    where
      go :
          (r : Result A × State H)
          → m s ≡ r
          → recover r f ≡ (ok a, t)
          → (m s ≡ (ok a, t))
            ⊎ ((e : Error) × (u : State H) × (m s ≡ (err e, u)) × (f e u ≡ (ok a, t)))
      go (ok x, u) e h = inl (e ∙ h)
      go (err x, u) e h = inr (x, u, e, h)

-- What follows a note in the record.
pub noted-ok :
    {H A : Type 0} (f : Entry → Entry) (m : M H A) (s t : State H) (a : A)
    → (set_entry f >> m) s ≡ (ok a, t)
    → m (set_entry f s).1 ≡ (ok a, t)
unfolding set_entry ◌>>=◌
noted-ok f m s t a h = h

-- A note in the record, and then a value.
pub noted_pure-ok :
    {H A : Type 0} (f : Entry → Entry) (s t : State H) (a b : A)
    → (set_entry f >> pure a) s ≡ (ok b, t)
    → (b ≡ a) × (t.entry ≡ f s.entry)
unfolding set_entry ◌>>=◌ pure
noted_pure-ok f s t a b h = (cc, cc)

-- Where each step of a loop pushes only good items, so does the loop.
pub collect-All :
    {H A B : Type 0} (P : B → Type 0) (f : A → M H (List B))
    → ((x : A) (u v : State H) (ys : List B) → f x u ≡ (ok ys, v) → All P ys)
    → (xs : List A) (s t : State H) (zs : List B) → collect xs f s ≡ (ok zs, t)
    → All P zs
unfolding collect
collect-All P f k [] s t zs h = let (e, _) = pure-ok [] zs s t h in subst (All P) e tt
collect-All P f k (x ∷ xs) s t zs h =
    let (ys, u, first, rest) = bind-ok (f x) _ s t zs h in
    let (more, v, later, last) = bind-ok (collect xs f) _ u t zs rest in
    let (e, _) = pure-ok (ys ++ more) zs v t last in
    subst (All P) e (All-append P ys more (k x s u ys first) (collect-All P f k xs u v more later))

pub append-empty : {A : Type 0} (xs ys : List A) → (xs ++ ys) ≡ [] → (xs ≡ []) × (ys ≡ [])
append-empty [] ys h = (refl, h)
append-empty (x ∷ xs) ys h = absurd cc

-- A loop that pushed nothing pushed nothing for each item.
pub collect-empty :
    {H A B : Type 0} (f : A → M H (List B)) (xs : List A) (s t : State H)
    → collect xs f s ≡ (ok [], t)
    → All (λ x. (u v : State H) × (f x u ≡ (ok [], v))) xs
unfolding collect
collect-empty f [] s t h = tt
collect-empty f (x ∷ xs) s t h =
    let (ys, u, first, rest) = bind-ok (f x) _ s t [] h in
    let (more, v, later, last) = bind-ok (collect xs f) _ u t [] rest in
    let (e, _) = pure-ok (ys ++ more) [] v t last in
    let (none_here, none_later) = append-empty ys more e in
    (
      (s, u, first ∙ ap (λ l. (ok l, u)) none_here),
      collect-empty f xs u v (later ∙ ap (λ l. (ok l, v)) none_later),
    )
