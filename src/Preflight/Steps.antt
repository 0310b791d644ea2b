-- ===== src/Preflight/Steps.antt =====
-- What lib/preflight.js does to the machine, given what the configured checks do.
use open_vibe_host.Base.{is_some, String, List, nat_eq, string_eq, refl, All, ℕ}
use open_vibe_host.Host.{Env, Call, State, perform}
use open_vibe_host.Host.Rules.{
  Allows, Steps, Steps-pure, Steps-if, Steps-bind, Steps-collect, Steps-collect_all, steps_rules,
}
use open_vibe_host.Inventory.{Service, Check}
use open_vibe_host.Systemd.Classes.{IsPlain}
use open_vibe_host.Preflight
use open_vibe_host.Preflight.{
  node_command, check_command, check_js, check_file, syntax_check, make_dir, run_check, run_checks,
  check_dirs, run_rest, problems_of, count_ran,
}

module _ {H : Type 0} (env : Env H) {R : State H → State H → Type 0}
    (plain : Allows env IsPlain R) where
  node-Steps :
      (svc : Service) (a b : String) → Steps R (perform env (Call.run (node_command svc a b)))
  unfolding node_command
  node-Steps svc a b = plain.each (Call.run (node_command svc a b)) refl

  check_js-Steps : (svc : Service) (root f : String) → Steps R (check_js env svc root f)
  unfolding check_js
  check_js-Steps svc root f = search (node-Steps, steps_rules, plain.pre, plain.each) depth 8

  check_file-Steps : (svc : Service) (root f : String) → Steps R (check_file env svc root f)
  unfolding check_file
  check_file-Steps svc root f = search (check_js-Steps, steps_rules, plain.pre, plain.each) depth 8

  syntax_check-Steps :
      (svc : Service) (root : String) (changed : List String)
      → Steps R (syntax_check env svc root changed)
  unfolding syntax_check
  syntax_check-Steps svc root changed =
      search (check_file-Steps, steps_rules, plain.pre, plain) depth 8

  make_dir-Steps : (root pkg d : String) → Steps R (make_dir env root pkg d)
  unfolding make_dir
  make_dir-Steps root pkg d = Steps-bind plain.pre _ _ (plain.each (Call.stat _) tt) (λ st.
      Steps-if (is_some st) _ _ (λ _. Steps-pure plain.pre tt) (λ _. plain.each (Call.mkdir _) tt))

-- Each check runs the program of the inventory.
abbrev pub Checks :
    {H : Type 0} (env : Env H) (R : State H → State H → Type 0) (svc : Service) → Type 0
Checks env R svc =
    All (λ c. (dir : String) → Steps R (perform env (Call.run (check_command svc c dir))))
      svc.preflight.checks

module _ {H : Type 0} (env : Env H) {R : State H → State H → Type 0} (plain : Allows env IsPlain R)
    (svc : Service) (checks : Checks env R svc) where
  run_check-Steps :
      (c : Check)
      → ((dir : String) → Steps R (perform env (Call.run (check_command svc c dir))))
      → (root pkg : String) → Steps R (run_check env svc root c pkg)
  unfolding run_check
  run_check-Steps c k root pkg = search (k, steps_rules, plain.pre, plain.each) depth 8

  run_checks-Steps : (root : String) (dirs : List String) → Steps R (run_checks env svc root dirs)
  unfolding run_checks
  run_checks-Steps root dirs = Steps-collect_all plain.pre _ svc.preflight.checks _ checks (λ c k.
      Steps-collect plain.pre (check_dirs env c dirs) _ (λ pkg.
        Steps-bind plain.pre _ _ (run_check-Steps c k root pkg) (λ o. Steps-pure plain.pre _)))

  run_rest-Steps :
      (root : String) (dirs : List String) (n : ℕ) → Steps R (run_rest env svc root dirs n)
  unfolding run_rest
  run_rest-Steps root dirs n =
      search (make_dir-Steps, run_checks-Steps, steps_rules, plain.pre, plain) depth 8

  pub run-Steps :
      (root : String) (changed dirs : List String)
      → Steps R (Preflight.run env svc root changed dirs)
  unfolding Preflight.run
  run-Steps root changed dirs =
      search (syntax_check-Steps, run_rest-Steps, steps_rules, plain.pre, plain) depth 8
