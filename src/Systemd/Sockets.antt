-- ===== src/Systemd/Sockets.antt =====
-- What the operations of lib/systemd.js do to socket units.
use open_vibe_host.Base.{
  String, Bool, true, false, not, ◌||◌, Option, [], ◌∷◌, ◌==◌, nat_eq, string_eq, contains, ◌≡◌,
  ◌≢◌, refl, ap, ◌∙◌, inl, inr, Bool-cases,
}
use open_vibe_host.Base.Text.{ends_with}
use open_vibe_host.Host.{Env, Call, Output, State, ok, socket_guard_error, pure, throw, perform}
use open_vibe_host.Host.Rules.{Steps, bind-ok}
use open_vibe_host.Host.Rules.Issued.{Issued, Issued-Allows}
use open_vibe_host.Systemd.{
  systemctl_command, systemctl, must_succeed, rebind_reasons, rebind_command, rebind_socket,
  restart, ensure_socket_active, enable, daemon_reload, reload_nginx,
}
use open_vibe_host.Systemd.Classes.{IsSocketSafe}
use open_vibe_host.Systemd.Guard.{
  systemctl-Steps, restart-Steps, ensure_socket_active-Steps, enable-Steps, daemon_reload-Steps,
  reload_nginx-Steps,
}

service_ok : (a b : Bool) → (not a || not b) ≡ false → a ≡ true
service_ok true b h = refl
service_ok false b h = cc

socket_ok : (a b : Bool) → (not a || not b) ≡ false → b ≡ true
socket_ok true true h = refl
socket_ok true false h = cc
socket_ok false b h = cc

module _ {H : Type 0} (env : Env H) where
  -- No call of systemctl stops or restarts a socket unit, whatever the action and the unit.
  pub systemctl-IsSocketSafe :
      (action : String) (unit : Option String)
      → Steps (Issued IsSocketSafe) (systemctl env action unit)
  systemctl-IsSocketSafe action unit = systemctl-Steps env (Issued-Allows env) action unit

  -- Nor does an operation that changes a unit, but for the rebind.
  pub operations-IsSocketSafe :
      (unit : String)
      → Steps (Issued IsSocketSafe) (restart env unit)
        × Steps (Issued IsSocketSafe) (ensure_socket_active env unit)
        × Steps (Issued IsSocketSafe) (enable env unit)
        × Steps (Issued IsSocketSafe) (daemon_reload env)
        × Steps (Issued IsSocketSafe) (reload_nginx env)
  operations-IsSocketSafe unit =
      let safe = Issued-Allows {C = IsSocketSafe} env in
      (
        restart-Steps env safe unit,
        ensure_socket_active-Steps env safe unit,
        enable-Steps env safe unit,
        daemon_reload-Steps env safe,
        reload_nginx-Steps env safe,
      )

  -- The service was stopped, then the socket restarted, then the service started again, and nothing
  -- else was done.
  pub record Rebound (service_unit socket_unit : String) (r : Bool × Bool) (s t : State H)
      : Type 0 where
    pub stopped : Output
    pub after_stop : State H
    pub stops :
        perform env (Call.run (systemctl_command ("stop" ∷ service_unit ∷ []) true)) s
        ≡ (ok stopped, after_stop)
    pub bound : Output
    pub after_bind : State H
    pub binds :
        perform env (Call.run (systemctl_command ("restart" ∷ socket_unit ∷ []) true)) after_stop
        ≡ (ok bound, after_bind)
    pub started : Output
    pub starts :
        perform env (Call.run (systemctl_command ("start" ∷ service_unit ∷ []) true)) after_bind
        ≡ (ok started, t)
    pub succeeded : (started.code == 0) ≡ true
    pub reported : r ≡ (stopped.code == 0, bound.code == 0)

  refuses :
      (r : Bool × Bool) (s t : State H) → throw {A = Bool × Bool} socket_guard_error s ≢ (ok r, t)
  unfolding throw
  refuses r s t h = cc

  succeeds :
      (o : Output) (s t : State H)
      → must_succeed env o s ≡ (ok tt, t)
      → ((o.code == 0) ≡ true) × (s ≡ t)
  unfolding must_succeed pure throw
  succeeds o s t h = elim (Bool-cases (o.code == 0)) [
    | inl good ↦ (good, cc (rw good at h))
    | inr bad ↦ cc (rw bad at h)
  ]

  reports : (r r' : Bool × Bool) (s t : State H) → pure r s ≡ (ok r', t) → (r' ≡ r) × (s ≡ t)
  unfolding pure
  reports r r' s t h = (cc, cc)

  -- A rebind that returns had one of the two reasons and units of the right kinds, and it made
  -- exactly the three calls in their order.
  pub rebind_socket-Rebound :
      (service_unit socket_unit reason : String) (r : Bool × Bool) (s t : State H)
      → rebind_socket env service_unit socket_unit reason s ≡ (ok r, t)
      → (contains rebind_reasons reason ≡ true)
        × (ends_with service_unit ".service" ≡ true)
        × (ends_with socket_unit ".socket" ≡ true)
        × Rebound service_unit socket_unit r s t
  unfolding rebind_socket rebind_command
  rebind_socket-Rebound service_unit socket_unit reason r s t h =
      elim (Bool-cases (contains rebind_reasons reason)) [
        | inr none_of ↦ absurd (refuses r s t (rw none_of at h))
        | inl reasoned ↦
            elim (Bool-cases
              (not (ends_with service_unit ".service") || not (ends_with socket_unit ".socket"))) [
                | inl other_units ↦ absurd (refuses r s t (rw (reasoned, other_units) at h))
                | inr units ↦
                    let (a, u, e, rest) =
                      bind-ok
                        (perform env
                          (Call.run (systemctl_command ("stop" ∷ service_unit ∷ []) true)))
                        _ s t r (rw (reasoned, units) at h) in
                    let (b, v, e', rest') =
                      bind-ok
                        (perform env
                          (Call.run (systemctl_command ("restart" ∷ socket_unit ∷ []) true)))
                        _ u t r rest in
                    let (c, w, e'', rest'') =
                      bind-ok
                        (perform env
                          (Call.run (systemctl_command ("start" ∷ service_unit ∷ []) true)))
                        _ v t r rest' in
                    let (_, x, ended, last) = bind-ok (must_succeed env c) _ w t r rest'' in
                    let (good, same) = succeeds c w x ended in
                    let (report, same') = reports _ r x t last in
                    (
                      reasoned,
                      service_ok _ _ units,
                      socket_ok _ _ units,
                      record {
                        stopped = a;
                        after_stop = u;
                        stops = e;
                        bound = b;
                        after_bind = v;
                        binds = e';
                        started = c;
                        starts = e'' ∙ ap (λ y. (ok c, y)) (same ∙ same');
                        succeeded = good;
                        reported = report;
                      },
                    )
              ]
      ]
