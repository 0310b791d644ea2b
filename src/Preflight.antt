-- ===== src/Preflight.antt =====
-- lib/preflight.js: what must hold before anything restarts.
pub mod Steps
use open_vibe_host.Base.{
  ℕ, suc, String, Bool, true, false, not, ◌&&◌, ◌||◌, Option, none, some, List, [], ◌∷◌, ◌++◌, ◌==◌,
  nat_eq, string_eq, if◌then◌else◌, null, is_some,
}
use open_vibe_host.Base.Text.{ends_with}
use open_vibe_host.Base.Paths.{join}
use open_vibe_host.Host.{Env, M, Call, Command, Stat, pure, perform, for_each, collect, ◌>>=◌, ◌>>◌}
use open_vibe_host.Inventory.{Service, Check}

-- What stops the deploy: a changed file, or a check in a package.
pub data Finding : Type 0 where
  syntax_error : String → Finding
  invalid_json : String → Finding
  no_package : String → Finding
  check_failed : String → Finding

-- How a file or a check went: whether it was run, and what was found.
pub record Outcome : Type 0 where
  pub ran : Bool
  pub found : List Finding

pub record Report : Type 0 where
  pub syntax_checked : ℕ
  pub checks_run : ℕ
  pub problems : List Finding

unfoldable pub problems_of : List Outcome → List Finding
problems_of [] = []
problems_of (o ∷ os) = o.found ++ problems_of os

unfoldable pub count_ran : List Outcome → ℕ
count_ran [] = 0
count_ran (o ∷ os) = if o.ran then suc (count_ran os) else count_ran os

abbrev nothing : Outcome
nothing = record { ran = false; found = [] }

node_command : Service → String → String → Command
node_command svc root file = record {
  cmd = "node";
  args = "--check" ∷ file ∷ [];
  run_as = some svc.owner;
  privileged = false;
  cwd = some root;
}

unfoldable pub check_command : Service → Check → String → Command
check_command svc c cwd = record {
  cmd = c.program;
  args = c.arguments;
  run_as = some svc.run_as;
  privileged = false;
  cwd = some cwd;
}

abbrev is_file : Option Stat → Bool
is_file none = false
is_file (some st) = st.is_file

module _ {H : Type 0} (env : Env H) where
  check_js : Service → String → String → M H Outcome
  unfolding node_command
  check_js svc root f = do
    st ← perform env (Call.stat (join (root ∷ f ∷ [])))
    if not (is_file st) then pure nothing else do
      r ← perform env (Call.run (node_command svc root (join (root ∷ f ∷ []))))
      pure (record { ran = true; found = if r.code == 0 then [] else syntax_error f ∷ [] })

  json_outcome : String → Option String → Outcome
  json_outcome f none = nothing
  json_outcome f (some text) = record {
    ran = false;
    found = if is_some (env.parse_json text) then [] else invalid_json f ∷ [];
  }

  unfoldable pub check_file : Service → String → String → M H Outcome
  unfolding check_js json_outcome
  check_file svc root f =
      if ends_with f ".js" || ends_with f ".cjs"
      then check_js svc root f
      else if ends_with f ".json"
      then (do
        text ← perform env (Call.read_file (join (root ∷ f ∷ [])))
        pure (json_outcome f text))
      else pure nothing

  unfoldable pub syntax_check : Service → String → List String → M H (List Outcome)
  syntax_check svc root changed = collect changed (λ f. do o ← check_file svc root f; pure (o ∷ []))

  make_dir : String → String → String → M H (Unit {0})
  make_dir root pkg d = do
    st ← perform env (Call.stat (join (root ∷ pkg ∷ d ∷ [])))
    if is_some st then pure tt else perform env (Call.mkdir (join (root ∷ pkg ∷ d ∷ [])))

  unfoldable pub run_check : Service → String → Check → String → M H Outcome
  unfolding check_command
  run_check svc root c pkg = do
    st ← perform env (Call.stat (join (root ∷ pkg ∷ [])))
    if not (is_some st) then pure (record { ran = false; found = no_package pkg ∷ [] }) else do
      r ← perform env (Call.run (check_command svc c (join (root ∷ pkg ∷ []))))
      pure (record { ran = true; found = if r.code == 0 then [] else check_failed pkg ∷ [] })

  abbrev check_dirs : Check → List String → List String
  check_dirs c pkg_dirs = elim c.packages [ none ↦ pkg_dirs | some dirs ↦ dirs ]

  unfoldable pub run_checks : Service → String → List String → M H (List Outcome)
  run_checks svc root pkg_dirs =
      collect svc.preflight.checks (λ c.
        collect (check_dirs c pkg_dirs) (λ pkg. do o ← run_check svc root c pkg; pure (o ∷ [])))

  -- The directories and the checks, once the syntax is in order.
  run_rest : Service → String → List String → ℕ → M H Report
  unfolding make_dir
  run_rest svc root pkg_dirs checked = do
    for_each pkg_dirs (λ pkg. for_each svc.preflight.dirs (make_dir root pkg))
    outcomes ← run_checks svc root pkg_dirs
    pure (record {
      syntax_checked = checked;
      checks_run = count_ran outcomes;
      problems = problems_of outcomes;
    })

  unfoldable pub run : Service → String → List String → List String → M H Report
  unfolding run_rest
  run svc root changed pkg_dirs =
      if svc.preflight.syntax_check && not (null changed)
      then (do
        outcomes ← syntax_check svc root changed
        if not (null (problems_of outcomes))
            then pure (record {
              syntax_checked = count_ran outcomes;
              checks_run = 0;
              problems = problems_of outcomes;
            })
            else run_rest svc root pkg_dirs (count_ran outcomes))
      else run_rest svc root pkg_dirs 0
