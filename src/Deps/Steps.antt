-- ===== src/Deps/Steps.antt =====
-- What lib/deps.js does to the machine, given what an install does.
use open_vibe_host.Base.{String, not, List, [], ◌∷◌, ◌==◌, nat_eq, string_eq, contains, refl}
use open_vibe_host.DeployGuard.{enough_memory}
use open_vibe_host.Git.{Checkout}
use open_vibe_host.Git.Steps.{show-Steps, dirty-Steps, checkout_file-Steps}
use open_vibe_host.Host.{Env, Call, State, perform}
use open_vibe_host.Host.Rules.{
  Allows, Steps, Steps-pure, Steps-if, Steps-bind, Steps-for_each, Steps-maybe, Steps-collect,
  steps_rules,
}
use open_vibe_host.Inventory.{Service}
use open_vibe_host.Systemd.Classes.{IsPlain}
use open_vibe_host.Deps.{
  Problem, install_command, package_dir, expand_pattern, expand_packages, needs_install,
  restore_lockfile, install, check_dep, verify_package, verify, remove_command, remove_broken,
  repair, install_at, verify_and_repair,
}

module _ {H : Type 0} (env : Env H) {R : State H → State H → Type 0}
    (plain : Allows env IsPlain R) where
  package_dir-Steps : (svc : Service) (dir : String) → Steps R (package_dir env svc dir)
  unfolding package_dir
  package_dir-Steps svc dir = search (steps_rules, plain.pre, plain.each) depth 6

  expand_pattern-Steps : (svc : Service) (p : String) → Steps R (expand_pattern env svc p)
  unfolding expand_pattern
  expand_pattern-Steps svc p =
      search (package_dir-Steps, steps_rules, plain.pre, plain.each) depth 8

  pub expand_packages-Steps : (svc : Service) → Steps R (expand_packages env svc)
  unfolding expand_packages
  expand_packages-Steps svc = Steps-collect plain.pre svc.packages _ (expand_pattern-Steps svc)

  pub needs_install-Steps :
      (g : Checkout) (from to dir lock : String) → Steps R (needs_install env g from to dir lock)
  unfolding needs_install
  needs_install-Steps g from to dir lock =
      search (show-Steps, steps_rules, plain.pre, plain) depth 8

  check_dep-Steps : (root pkg dep : String) → Steps R (check_dep env root pkg dep)
  unfolding check_dep
  check_dep-Steps root pkg dep = search (steps_rules, plain.pre, plain.each) depth 6

  verify_package-Steps : (svc : Service) (pkg : String) → Steps R (verify_package env svc pkg)
  unfolding verify_package
  verify_package-Steps svc pkg =
      search (check_dep-Steps, steps_rules, plain.pre, plain.each) depth 8

  pub verify-Steps : (svc : Service) (dirs : List String) → Steps R (verify env svc dirs)
  unfolding verify
  verify-Steps svc dirs = Steps-collect plain.pre dirs _ (verify_package-Steps svc)

  restore_lockfile-Steps :
      (svc : Service) (g : Checkout) (lock : String) → Steps R (restore_lockfile env svc g lock)
  unfolding restore_lockfile
  restore_lockfile-Steps svc g lock =
      search (dirty-Steps, checkout_file-Steps, steps_rules, plain.pre, plain) depth 6

  removed :
      (svc : Service) (dir : String) → Steps R (perform env (Call.run (remove_command env svc dir)))
  unfolding remove_command
  removed svc dir = plain.each (Call.run (remove_command env svc dir)) refl

  remove_broken-Steps : (svc : Service) (p : Problem) → Steps R (remove_broken env svc p)
  unfolding remove_broken
  remove_broken-Steps svc p = Steps-maybe p.dep _ _ (Steps-pure plain.pre tt) (λ dep.
      Steps-if (not (dep == "")) _ _
        (λ _. Steps-bind plain.pre _ _ (removed svc _) (λ _. Steps-pure plain.pre tt))
        (λ _. Steps-pure plain.pre tt))

-- An install waits for memory, and runs the program of the inventory.
pub record Installs {H : Type 0} (env : Env H) (R : State H → State H → Type 0) (svc : Service)
    : Type 0 where
  pub memory : Steps R (enough_memory env svc.deploy_guard)
  pub program : (dir : String) → Steps R (perform env (Call.run (install_command svc dir)))

module _ {H : Type 0} (env : Env H) {R : State H → State H → Type 0} (plain : Allows env IsPlain R)
    (svc : Service) (i : Installs env R svc) where
  pub install-Steps : (g : Checkout) (dir : String) → Steps R (install env svc g dir)
  unfolding install
  install-Steps g dir = Steps-bind plain.pre _ _ i.memory (λ _.
      Steps-bind plain.pre _ _ (i.program dir)
        (λ r. search (restore_lockfile-Steps, steps_rules, plain.pre, plain) depth 6))

  repair-Steps :
      (g : Checkout) (ps : List Problem) (pkgs done : List String)
      → Steps R (repair env svc g ps pkgs done)
  unfolding repair
  repair-Steps g ps [] done = Steps-pure plain.pre done
  repair-Steps g ps (p ∷ pkgs) done =
      Steps-bind plain.pre _ _ (Steps-for_each plain.pre _ _ (remove_broken-Steps env plain svc))
        (λ _.
          Steps-if (contains done (install_at env svc p)) _ _ (λ _. repair-Steps g ps pkgs done)
            (λ _. Steps-bind plain.pre _ _ (install-Steps g _) (λ _. repair-Steps g ps pkgs _)))

  pub verify_and_repair-Steps :
      (g : Checkout) (dirs : List String) → Steps R (verify_and_repair env svc g dirs)
  unfolding verify_and_repair
  verify_and_repair-Steps g dirs =
      search (repair-Steps, verify-Steps, steps_rules, plain.pre, plain) depth 8
