-- ===== src/ReleaseOps/Actions/Steps.antt =====
-- What the steps of `apply` in lib/release-ops.js do to the machine, given what the parts do that the
-- inventory configures.
use open_vibe_host.Base.{ℕ, All, String, not, Option, List, [], ◌==◌, nat_eq, string_eq, refl}
use open_vibe_host.Deps.Steps.{Installs}
use open_vibe_host.Deps.Steps as DepsSteps
use open_vibe_host.Git.Steps.{reset_hard-Steps}
use open_vibe_host.Host.{Env, Call, State, perform}
use open_vibe_host.Host.Rules.{
  Allows, Allows-weaken, Steps, Steps-pure, Steps-throw, Steps-if, Steps-bind, Steps-maybe,
  Steps-collect, Steps-gets, Steps-for_each, Steps-for_each_all, steps_rules,
}
use open_vibe_host.Inventory.{Service, Inventory, Nginx}
use open_vibe_host.Nginx
use open_vibe_host.Nginx.Steps as NginxSteps
use open_vibe_host.Preflight.Steps.{Checks}
use open_vibe_host.Readiness.{wait_ready}
use open_vibe_host.Systemd.Classes.{IsPlain, IsSocketSafe, IsPlain-IsSocketSafe}
use open_vibe_host.Systemd.Guard.{
  systemctl-Steps, restart-Steps, ensure_socket_active-Steps, daemon_reload-Steps,
}
use open_vibe_host.ReleaseOps.Plan.{InstallStep}
use open_vibe_host.ReleaseOps.Actions.{
  build_command, install_unit_command, install_step, install_all, verify_deps, build_step,
  run_build, run_build_noted, read_vhost, listed_vhosts, vhosts_of, install_repo_vhosts,
  install_unit, enable_unit, install_units, ensure_socket, restart_and_wait, refuse_problems,
  restore_checkout, read_announcement, release_announcements,
}

-- What the parts do that the inventory configures: installs, builds, checks, `nginx -t`, and waits.
pub record Configured {H : Type 0} (env : Env H) (R : State H → State H → Type 0) (inv : Inventory)
    (svc : Service) : Type 0 where
  pub installs : Installs env R svc
  pub builds : All (λ b. Steps R (perform env (Call.run (build_command svc b)))) svc.build
  pub checks : Checks env R svc
  pub nginx_tests : Steps R (perform env (Call.run (Nginx.test_command inv)))
  pub waits :
      (timeout : ℕ) (expected : Option String) (units : List String)
      → Steps R (wait_ready env svc timeout expected units)

module _ {H : Type 0} (env : Env H) (inv : Inventory) (svc : Service)
    {R : State H → State H → Type 0} (safe : Allows env IsSocketSafe R)
    (conf : Configured env R inv svc) where
  plain : Allows env IsPlain R
  plain = Allows-weaken IsPlain-IsSocketSafe safe

  install_step-Steps : (i : InstallStep) → Steps R (install_step env inv svc i)
  unfolding install_step
  install_step-Steps i =
      Steps-if i.install _ _
        (λ _.
          Steps-bind safe.pre _ _ (DepsSteps.install-Steps env plain svc conf.installs _ i.pkg)
            (λ _. safe.edits _))
        (λ _. Steps-pure safe.pre tt)

  pub install_all-Steps : (is : List InstallStep) → Steps R (install_all env inv svc is)
  unfolding install_all
  install_all-Steps is = Steps-for_each safe.pre is _ install_step-Steps

  pub verify_deps-Steps : Steps R (verify_deps env inv svc)
  unfolding verify_deps
  verify_deps-Steps =
      Steps-bind safe.pre _ _ (DepsSteps.expand_packages-Steps env plain svc) (λ dirs.
        Steps-bind safe.pre _ _
          (DepsSteps.verify_and_repair-Steps env plain svc conf.installs _ dirs)
          (λ v. Steps-pure safe.pre _))

  build_step-Steps :
      (b : String × List String)
      → Steps R (perform env (Call.run (build_command svc b)))
      → Steps R (build_step env inv svc b)
  unfolding build_step
  build_step-Steps b k = Steps-bind safe.pre _ _ k (λ r.
      Steps-if (not (r.code == 0)) _ _ (λ _. Steps-throw safe.pre _) (λ _. Steps-pure safe.pre tt))

  pub run_build-Steps : Steps R (run_build env inv svc)
  unfolding run_build
  run_build-Steps = Steps-for_each_all safe.pre _ svc.build _ conf.builds build_step-Steps

  pub run_build_noted-Steps : Steps R (run_build_noted env inv svc)
  unfolding run_build_noted
  run_build_noted-Steps = search (run_build-Steps, steps_rules, safe.pre, safe.edits) depth 6

  read_vhost-Steps : (rel : String) → Steps R (read_vhost env inv svc rel)
  unfolding read_vhost
  read_vhost-Steps rel = search (steps_rules, plain.pre, plain.each) depth 6

  listed_vhosts-Steps : (n : Nginx) (glob : String) → Steps R (listed_vhosts env inv svc n glob)
  unfolding listed_vhosts
  listed_vhosts-Steps n glob = search (steps_rules, plain.pre, plain.each) depth 6

  vhosts_of-Steps : (n : Nginx) (glob : Option String) → Steps R (vhosts_of env inv svc n glob)
  unfolding vhosts_of
  vhosts_of-Steps n glob = Steps-maybe glob _ _ (Steps-pure safe.pre tt) (λ p.
      Steps-if (p == "") _ _ (λ _. Steps-pure safe.pre tt)
        (λ _. Steps-bind safe.pre _ _ (listed_vhosts-Steps n p) (λ names.
          Steps-bind safe.pre _ _ (Steps-collect safe.pre _ _ read_vhost-Steps) (λ files.
            Steps-bind safe.pre _ _
              (NginxSteps.install-Steps env safe inv conf.nginx_tests files [])
              (λ _. Steps-pure safe.pre tt)))))

  pub install_repo_vhosts-Steps : Steps R (install_repo_vhosts env inv svc)
  unfolding install_repo_vhosts
  install_repo_vhosts-Steps = search (vhosts_of-Steps, steps_rules, safe.pre) depth 5

  install_command-Steps :
      (a b : String) → Steps R (perform env (Call.run (install_unit_command a b)))
  unfolding install_unit_command
  install_command-Steps a b = plain.each (Call.run (install_unit_command a b)) refl

  install_unit-Steps : (u : String × String) → Steps R (install_unit env inv svc u)
  unfolding install_unit
  install_unit-Steps (unit, src) =
      search (install_command-Steps, steps_rules, plain.pre, plain.each) depth 10

  enable_unit-Steps : (u : String) → Steps R (enable_unit env inv svc u)
  unfolding enable_unit
  enable_unit-Steps u = search (systemctl-Steps, steps_rules, safe.pre, safe) depth 6

  pub install_units-Steps : Steps R (install_units env inv svc)
  unfolding install_units
  install_units-Steps =
      search
        (
          install_unit-Steps, enable_unit-Steps, daemon_reload-Steps, steps_rules, safe.pre,
          safe.edits, safe,
        )
        depth 8

  ensure_socket-Steps : Steps R (ensure_socket env inv svc)
  unfolding ensure_socket
  ensure_socket-Steps = search (ensure_socket_active-Steps, steps_rules, safe.pre, safe) depth 6

  pub restart_and_wait-Steps :
      (timeout : ℕ) (units : List String) (expected : Option String)
      → Steps R (restart_and_wait env inv svc timeout units expected)
  unfolding restart_and_wait
  restart_and_wait-Steps timeout units expected = Steps-bind safe.pre _ _ ensure_socket-Steps (λ _.
      Steps-bind safe.pre _ _ (Steps-for_each safe.pre units _ (restart-Steps env safe))
        (λ _. conf.waits timeout expected units))

  pub restore_checkout-Steps : (sha : String) → Steps R (restore_checkout env inv svc sha)
  unfolding restore_checkout refuse_problems
  restore_checkout-Steps sha = Steps-bind safe.pre _ _ (reset_hard-Steps env plain _ sha) (λ _.
      Steps-bind safe.pre _ _ (Steps-gets safe.pre _) (λ installed.
        Steps-bind safe.pre _ _
          (Steps-for_each safe.pre installed _
            (DepsSteps.install-Steps env plain svc conf.installs _))
          (λ _.
            Steps-bind safe.pre _ _ verify_deps-Steps
              (λ v. search (run_build-Steps, steps_rules, safe.pre) depth 6))))

  read_announcement-Steps :
      (dir domain : String) → Steps R (read_announcement env inv svc dir domain)
  unfolding read_announcement
  read_announcement-Steps dir domain = search (steps_rules, plain.pre, plain.each) depth 6

  pub release_announcements-Steps : Steps R (release_announcements env inv svc)
  unfolding release_announcements
  release_announcements-Steps =
      search (read_announcement-Steps, steps_rules, plain.pre, plain.each) depth 8
