-- ===== src/Deps.antt =====
-- lib/deps.js: when dependencies are installed, how, and the proof that each one resolves.
pub mod Steps
pub mod Verified
use open_vibe_host.Base.{
  String, Bool, true, false, not, ◌||◌, Option, none, some, List, [], ◌∷◌, ◌++◌, map, ◌==◌, nat_eq,
  string_eq, if◌then◌else◌, keep, any, contains, null, is_some,
}
use open_vibe_host.Base.Text.{ends_with, starts_with, strip_suffix}
use open_vibe_host.Base.Paths.{join, normalize}
use open_vibe_host.Base.Sorting.{sort_by}
use open_vibe_host.Host.{
  Env, M, Call, Command, DirEntry, failed, pure, throw, perform, maybe, when, for_each, collect,
  ◌>>=◌, ◌>>◌,
}
use open_vibe_host.Host.Json.{Json, Fields, is_truthy, strict_eq}
use open_vibe_host.Inventory.{Service}
use open_vibe_host.Probes.{value_at}
use open_vibe_host.Git
use open_vibe_host.Git.{Checkout, ◌⧺◌}
use open_vibe_host.DeployGuard.{enough_memory}

-- `skipped(dir, patterns)`
unfoldable pub skipped : String → List String → Bool
unfolding ends_with starts_with strip_suffix normalize
skipped dir patterns =
    any (λ p. if ends_with p "*" then starts_with dir (strip_suffix "*" p) else dir == normalize p)
      patterns

pub record Need : Type 0 where
  pub lockfile_changed : Bool
  pub deps_changed : Bool
  pub needed : Bool

-- One dependency that does not resolve; no dependency is named where package.json does not parse.
pub record Problem : Type 0 where
  pub pkg : String
  pub dep : Option String

same_text : Option String → Option String → Bool
same_text none none = true
same_text (some a) (some b) = a == b
same_text _ _ = false

unfoldable pub install_command : Service → String → Command
install_command svc pkg_dir = record {
  cmd = svc.install.program;
  args = svc.install.arguments;
  run_as = some svc.owner;
  privileged = false;
  cwd = some (join (svc.repo ∷ pkg_dir ∷ []));
}

abbrev lockfile_name : String → String
lockfile_name f = if f == "" then "package-lock.json" else f

pkg_of : Problem → String
pkg_of p = p.pkg

-- The packages with a problem in the order in which they first occur, as a `Map` keeps them.
packages_in : List Problem → List String → List String
packages_in [] seen = seen
packages_in (p ∷ ps) seen =
    packages_in ps (if contains seen p.pkg then seen else seen ++ p.pkg ∷ [])

module _ {H : Type 0} (env : Env H) where
  package_dir : Service → String → M H (List String)
  package_dir svc dir = if skipped dir svc.skip_packages then pure [] else do
    st ← perform env (Call.stat (join (svc.repo ∷ dir ∷ "package.json" ∷ [])))
    pure (if is_some st then dir ∷ [] else [])

  entry_names : Option (List DirEntry) → List String
  entry_names none = []
  entry_names (some es) = sort_by env.locale_le (map (λ e. e.name) (keep (λ e. e.is_dir) es))

  expand_pattern : Service → String → M H (List String)
  unfolding package_dir entry_names
  expand_pattern svc pattern =
      if ends_with pattern "/*"
      then (do
        entries ← perform env (Call.readdir (join (svc.repo ∷ strip_suffix "/*" pattern ∷ [])))
        collect (entry_names entries)
            (λ name. package_dir svc (join (strip_suffix "/*" pattern ∷ name ∷ []))))
      else if skipped (normalize pattern) svc.skip_packages
      then pure []
      else do
        st ← perform env (Call.stat (join (svc.repo ∷ pattern ∷ "package.json" ∷ [])))
        pure (if is_some st then normalize pattern ∷ [] else [])

  unfoldable pub expand_packages : Service → M H (List String)
  unfolding expand_pattern
  expand_packages svc = collect svc.packages (expand_pattern svc)

  -- `j.dependencies || {}`
  field_or_empty : Json → String → Json
  field_or_empty j k = elim (value_at env j (some k)) [
    | none ↦ Json.obj Fields.end
    | some v ↦ if is_truthy (some v) then v else Json.obj Fields.end
  ]

  fields_text : Json → Option String
  unfolding field_or_empty
  fields_text Json.null = none
  fields_text j = some (
      env.stringify_values (
        field_or_empty j "dependencies"
        ∷ field_or_empty j "optionalDependencies"
        ∷ field_or_empty j "engines"
        ∷ []))

  -- `depFields(text)`: `none` where the text is missing, does not parse, or is null.
  dep_fields : Option String → Option String
  unfolding fields_text
  dep_fields none = none
  dep_fields (some text) = elim (env.parse_json text) [ none ↦ none | some j ↦ fields_text j ]

  unfoldable pub needs_install : Checkout → String → String → String → String → M H Need
  unfolding dep_fields same_text
  needs_install g from to pkg_dir lockfile = do
    lock_a ← Git.show env g from (join (pkg_dir ∷ lockfile ∷ []))
    lock_b ← Git.show env g to (join (pkg_dir ∷ lockfile ∷ []))
    pkg_a ← Git.show env g from (join (pkg_dir ∷ "package.json" ∷ []))
    pkg_b ← Git.show env g to (join (pkg_dir ∷ "package.json" ∷ []))
    pure (record {
      lockfile_changed = not (same_text lock_a lock_b);
      deps_changed = not (same_text (dep_fields pkg_a) (dep_fields pkg_b));
      needed =
          not (same_text lock_a lock_b) || not (same_text (dep_fields pkg_a) (dep_fields pkg_b));
    })

  restore_lockfile : Service → Checkout → String → M H (Unit {0})
  restore_lockfile svc g lock = do
    dirty ← Git.dirty env g
    when (contains dirty lock) (Git.checkout_file env g lock)

  unfoldable pub install : Service → Checkout → String → M H (Unit {0})
  unfolding install_command restore_lockfile
  install svc g pkg_dir = do
    enough_memory env svc.deploy_guard
    r ← perform env (Call.run (install_command svc pkg_dir))
    if not (r.code == 0)
        then throw failed
        else when svc.install.restore_lockfile
            (restore_lockfile svc g (join (pkg_dir ∷ lockfile_name svc.install.lockfile ∷ [])))

  -- Whether the package.json of a dependency is there, parses, and names it; `none` is thrown by
  -- `meta.name` of null.
  names_itself : String → Option String → Option Bool
  names_itself dep none = some false
  names_itself dep (some text) = elim (env.parse_json text) [
    | none ↦ some false
    | some Json.null ↦ none
    | some meta ↦ some (strict_eq (value_at env meta (some "name")) (Json.str dep))
  ]

  unfoldable pub check_dep : String → String → String → M H (List Problem)
  unfolding names_itself
  check_dep root pkg_dir dep = do
    text ← perform env (Call.read_file (join (root ∷ "node_modules" ∷ dep ∷ "package.json" ∷ [])))
    maybe (names_itself dep text) (throw failed)
        (λ good. pure (if good then [] else record { pkg = pkg_dir; dep = some dep } ∷ []))

  -- The declared dependencies of a parsed package.json; of null they cannot be asked for.
  unfoldable pub declared : Json → Option (List String)
  unfolding field_or_empty
  declared Json.null = none
  declared pkg = some (env.keys (field_or_empty pkg "dependencies"))

  -- `JSON.parse(null)` is null, so a missing package.json parses.
  unfoldable pub parse_package : Option String → Option Json
  parse_package none = some Json.null
  parse_package (some text) = env.parse_json text

  unfoldable pub verify_package : Service → String → M H (List Problem)
  verify_package svc pkg_dir = do
    text ←
        perform env (Call.read_file (join (join (svc.repo ∷ pkg_dir ∷ []) ∷ "package.json" ∷ [])))
    maybe (parse_package text) (pure (record { pkg = pkg_dir; dep = none } ∷ [])) (λ pkg.
        maybe (declared pkg) (throw failed)
          (λ deps. collect deps (check_dep (join (svc.repo ∷ pkg_dir ∷ [])) pkg_dir)))

  unfoldable pub verify : Service → List String → M H (List Problem)
  verify svc pkg_dirs = collect pkg_dirs (verify_package svc)

  remove_command : Service → String → Command
  remove_command svc dir = record {
    cmd = "rm";
    args = "-rf" ∷ "--" ∷ dir ∷ [];
    run_as = some svc.owner;
    privileged = false;
    cwd = none;
  }

  remove_broken : Service → Problem → M H (Unit {0})
  unfolding remove_command
  remove_broken svc p = maybe p.dep (pure tt) (λ dep. when (not (dep == "")) (do
    perform env
        (Call.run (remove_command svc (join (svc.repo ∷ p.pkg ∷ "node_modules" ∷ dep ∷ []))))
    pure tt))

  -- A workspace installs at its root.
  abbrev install_at : Service → String → String
  install_at svc pkg = if svc.install.workspace then "." else pkg

  repair : Service → Checkout → List Problem → List String → List String → M H (List String)
  unfolding remove_broken
  repair svc g problems [] repaired = pure repaired
  repair svc g problems (pkg ∷ pkgs) repaired = do
    for_each (keep (λ p. p.pkg == pkg) problems) (remove_broken svc)
    if contains repaired (install_at svc pkg) then repair svc g problems pkgs repaired else (do
      install svc g (install_at svc pkg)
      repair svc g problems pkgs (repaired ++ install_at svc pkg ∷ []))

  -- The problems that remain, and where dependencies were reinstalled.
  unfoldable pub verify_and_repair :
      Service → Checkout → List String → M H (List Problem × List String)
  unfolding repair packages_in
  verify_and_repair svc g pkg_dirs = do
    problems ← verify svc pkg_dirs
    if null problems then pure ([], []) else do
      repaired ← repair svc g problems (packages_in problems []) []
      left ← verify svc pkg_dirs
      pure (left, repaired)
