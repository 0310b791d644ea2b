-- ===== src/Lock/Created.antt =====
-- `acquire` of lib/lock.js returns only behind a lock file that it has itself created.
use open_vibe_host.Base.{ℕ, String, Bool, true, false, if◌then◌else◌, ◌≡◌, ◌≢◌, sym, ap, ◌∙◌, refl}
use open_vibe_host.Host.{Env, M, Call, State, ok, locked_error, pure, throw, perform}
use open_vibe_host.Host.Rules.{bind-ok}
use open_vibe_host.Inventory.{Inventory}
use open_vibe_host.Lock.{Held, lock_file, read_holder, holder_alive, take_stale, acquire}

module _ {H : Type 0} where
  returned : (h h' : Held) (s t : State H) → pure h s ≡ (ok h', t) → (h ≡ h') × (s ≡ t)
  unfolding pure
  returned h h' s t e = (cc, cc)

  locked : (h : Held) (s t : State H) → throw {A = Held} locked_error s ≢ (ok h, t)
  unfolding throw
  locked h s t e = cc

module _ {H : Type 0} (env : Env H) (inv : Inventory) (id : String) (pid : ℕ) where
  -- The exclusive creation of the lock file was the last call, and it succeeded.
  pub record Created (h : Held) (t : State H) : Type 0 where
    pub file_is : h.file ≡ lock_file inv id
    pub before : State H
    pub body : String
    pub created : perform env (Call.create_exclusive (lock_file inv id) body) before ≡ (ok true, t)

  made-Created :
      (h h' : Held) (body : String) (more : M H Held) (made : Bool) (s u t : State H)
      → h'.file ≡ lock_file inv id
      → perform env (Call.create_exclusive (lock_file inv id) body) s ≡ (ok made, u)
      → ((v : State H) → more u ≡ (ok h, t) → Created h t)
      → (if made then pure h' else more) u ≡ (ok h, t)
      → Created h t
  made-Created h h' body more true s u t f e k last =
      let (same_h, same_u) = returned h' h u t last in
      record {
        file_is = sym (ap (λ x. x.file) same_h) ∙ f;
        before = s;
        body = body;
        created = e ∙ ap (λ x. (ok true, x)) same_u;
      }
  made-Created h h' body more false s u t f e k last = k u last

  take_stale-Created :
      (h : Held) (body : String) (s t : State H)
      → take_stale env (lock_file inv id) body s ≡ (ok h, t)
      → Created h t
  unfolding take_stale
  take_stale-Created h body s t e =
      let (_, u, _, rest) = bind-ok (perform env (Call.remove_file (lock_file inv id))) _ s t h e in
      let (made, v, created, last) =
        bind-ok (perform env (Call.create_exclusive (lock_file inv id) body)) _ u t h rest in
      made-Created h _ body _ made u v t refl created (λ w fails. absurd (locked h v t fails)) last

  alive-Created :
      (h : Held) (body : String) (alive : Bool) (s t : State H)
      → (if alive then throw locked_error else take_stale env (lock_file inv id) body) s ≡ (ok h, t)
      → (alive ≡ false) × Created h t
  alive-Created h body true s t e = absurd (locked h s t e)
  alive-Created h body false s t e = (refl, take_stale-Created h body s t e)

  -- The operation holds the lock only behind its own creation of the lock file.
  pub acquire-Created :
      (h : Held) (s t : State H) → acquire env inv id pid s ≡ (ok h, t) → Created h t
  unfolding acquire
  acquire-Created h s t e =
      let (n, u, _, rest) = bind-ok (perform env Call.now) _ s t h e in
      let (made, v, created, last) =
        bind-ok
          (perform env
            (Call.create_exclusive (lock_file inv id) (env.lock_text pid (env.iso_string n))))
          _ u t h rest in
      made-Created h _ _ _ made u v t refl created
        (λ w other.
          let (holder, x, _, rest') = bind-ok (read_holder env (lock_file inv id)) _ v t h other in
          let (alive, y, _, last') = bind-ok (holder_alive env holder) _ x t h rest' in
          (alive-Created h _ alive y t last').1)
        last
