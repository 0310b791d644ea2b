-- ===== src/Nginx/Steps.antt =====
-- What lib/nginx.js does to the machine, given what `nginx -t` does.
use open_vibe_host.Base.{String, Option, none, some, List, [], ◌∷◌, nat_eq, string_eq}
use open_vibe_host.Host.{Env, Call, State, Stat, perform}
use open_vibe_host.Host.Rules.{Allows, Allows-weaken, Steps, Steps-pure, Steps-bind, steps_rules}
use open_vibe_host.Inventory.{Inventory}
use open_vibe_host.Systemd.Classes.{IsPlain, IsSocketSafe, IsPlain-IsSocketSafe}
use open_vibe_host.Systemd.Guard.{reload_nginx-Steps}
use open_vibe_host.Nginx
use open_vibe_host.Nginx.{
  Vhost, Undo, Progress, remove, write, link, test_command, test, undo_one, undo_all,
  remove_enabled, remove_available, stat_unless, take_out, write_available, link_enabled, put_in,
  take_all_out, put_all_in, settle_change, install,
}

module _ {H : Type 0} (env : Env H) {R : State H → State H → Type 0}
    (plain : Allows env IsPlain R) where
  undo_one-Steps : (u : Undo) → Steps R (undo_one env u)
  unfolding undo_one
  undo_one-Steps (remove p) = plain.each (Call.remove_file p) tt
  undo_one-Steps (write p t) = plain.each (Call.write_file p t) tt
  undo_one-Steps (link t p) = plain.each (Call.symlink t p) tt

  undo_all-Steps : (us : List Undo) → Steps R (undo_all env us)
  unfolding undo_all
  undo_all-Steps [] = Steps-pure plain.pre tt
  undo_all-Steps (u ∷ us) = Steps-bind plain.pre _ _ (undo_one-Steps u) (λ _. undo_all-Steps us)

  remove_enabled-Steps :
      (e : String) (target : Option String) (st : Option Stat) (p : Progress)
      → Steps R (remove_enabled env e target st p)
  unfolding remove_enabled
  remove_enabled-Steps e (some t) st p = search (steps_rules, plain.pre, plain.each) depth 6
  remove_enabled-Steps e none none p = Steps-pure plain.pre p
  remove_enabled-Steps e none (some st) p = search (steps_rules, plain.pre, plain.each) depth 6

  remove_available-Steps :
      (a : String) (prev : Option String) (p : Progress) → Steps R (remove_available env a prev p)
  unfolding remove_available
  remove_available-Steps a none p = Steps-pure plain.pre p
  remove_available-Steps a (some t) p = search (steps_rules, plain.pre, plain.each) depth 6

  stat_unless-Steps : (target : Option String) (e : String) → Steps R (stat_unless env target e)
  unfolding stat_unless
  stat_unless-Steps (some t) e = Steps-pure plain.pre none
  stat_unless-Steps none e = plain.each (Call.stat e) tt

  take_out-Steps :
      (inv : Inventory) (files : List Vhost) (name : String) (p : Progress)
      → Steps R (take_out env inv files name p)
  unfolding take_out
  take_out-Steps inv files name p =
      search
        (
          remove_enabled-Steps, remove_available-Steps, stat_unless-Steps, steps_rules, plain.pre,
          plain.each, plain,
        )
        depth 10

  write_available-Steps :
      (a : String) (prev : Option String) (f : Vhost) (p : Progress)
      → Steps R (write_available env a prev f p)
  unfolding write_available
  write_available-Steps a prev f p = search (steps_rules, plain.pre, plain.each) depth 8

  link_enabled-Steps : (a e name : String) (p : Progress) → Steps R (link_enabled env a e name p)
  unfolding link_enabled
  link_enabled-Steps a e name p = search (steps_rules, plain.pre, plain.each) depth 8

  put_in-Steps : (inv : Inventory) (f : Vhost) (p : Progress) → Steps R (put_in env inv f p)
  unfolding put_in
  put_in-Steps inv f p =
      search (write_available-Steps, link_enabled-Steps, steps_rules, plain.pre, plain.each, plain)
        depth 8

  take_all_out-Steps :
      (inv : Inventory) (files : List Vhost) (ns : List String) (p : Progress)
      → Steps R (take_all_out env inv files ns p)
  unfolding take_all_out
  take_all_out-Steps inv files [] p = Steps-pure plain.pre p
  take_all_out-Steps inv files (n ∷ ns) p =
      Steps-bind plain.pre _ _ (take_out-Steps inv files n p) (take_all_out-Steps inv files ns)

  put_all_in-Steps :
      (inv : Inventory) (fs : List Vhost) (p : Progress) → Steps R (put_all_in env inv fs p)
  unfolding put_all_in
  put_all_in-Steps inv [] p = Steps-pure plain.pre p
  put_all_in-Steps inv (f ∷ fs) p =
      Steps-bind plain.pre _ _ (put_in-Steps inv f p) (put_all_in-Steps inv fs)

module _ {H : Type 0} (env : Env H) {R : State H → State H → Type 0}
    (safe : Allows env IsSocketSafe R) (inv : Inventory)
    (tests : Steps R (perform env (Call.run (test_command inv)))) where
  test-Steps : Steps R (test env inv)
  unfolding test
  test-Steps = search (tests, steps_rules, safe.pre) depth 5

  settle_change-Steps : (p : Progress) → Steps R (settle_change env inv p)
  unfolding settle_change
  settle_change-Steps p =
      let plain = Allows-weaken IsPlain-IsSocketSafe safe in
      search (test-Steps, undo_all-Steps, reload_nginx-Steps, steps_rules, safe.pre, safe, plain)
        depth 8

  pub install-Steps :
      (files : List Vhost) (removing : List String) → Steps R (Nginx.install env inv files removing)
  unfolding Nginx.install
  install-Steps files removing =
      let plain = Allows-weaken IsPlain-IsSocketSafe safe in
      search
        (take_all_out-Steps, put_all_in-Steps, settle_change-Steps, steps_rules, safe.pre, plain)
        depth 6
