-- ===== src/Examples/Packages.antt =====
-- The dependencies of lib/deps.js and a failed preparation on the machine, and the theorems about them at
-- concrete inputs.
use open_vibe_host.Base.{ℕ, List, [], ◌∷◌, true, ◌≡◌, refl, All}
use open_vibe_host.Base.Paths.{join, join_with, normalize}
use open_vibe_host.Host.{M, State, ok, failed}
use open_vibe_host.Host.Rules.{ran}
use open_vibe_host.Deps.{Problem, verify, verify_package, check_dep, parse_package, declared}
use open_vibe_host.Deps.Verified.{AllResolve, verify-AllResolve}
use open_vibe_host.Examples.Machine.{machine, live, inventory, start, blank, computing}
use open_vibe_host.Examples.Deploys.{no_backup, to_new}
use open_vibe_host.ReleaseOps.Apply.{put_back}
use open_vibe_host.ReleaseOps.Apply.Failures.{Left, put_back-Left}

abbrev verifying : M ℕ (List Problem)
verifying = verify machine live ("." ∷ [])

verified : (verifying start).0 ≡ ok []
unfolding verify verify_package check_dep parse_package declared join join_with normalize computing
verified = refl

verify-AllResolve_example : All (AllResolve machine live) ("." ∷ [])
verify-AllResolve_example =
    verify-AllResolve machine live ("." ∷ []) start (verifying start).1
      (ran verifying start (ok []) verified)

abbrev moved : State ℕ
moved = record start { entry = record blank { checkout_moved = true } }

put_back-Left_example :
    Left machine inventory no_backup live to_new failed moved
      (put_back machine inventory no_backup live to_new failed moved).1
      (put_back machine inventory no_backup live to_new failed moved).0
put_back-Left_example = put_back-Left machine inventory no_backup live to_new failed moved
