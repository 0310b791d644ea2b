-- ===== src/Deps/Verified.antt =====
-- What `verify` of lib/deps.js has seen when it reports no problem.
use open_vibe_host.Base.{
  String, Bool, true, false, Option, none, some, List, [], ◌∷◌, if◌then◌else◌, All, ◌≡◌, ◌≢◌, refl,
  ap, ◌∙◌,
}
use open_vibe_host.Base.Paths.{join}
use open_vibe_host.Host.{Env, Call, State, ok, pure, throw, failed, perform, maybe, collect}
use open_vibe_host.Host.Json.{Json, strict_eq}
use open_vibe_host.Host.Rules.{bind-ok}
use open_vibe_host.Host.Rules.Inverse.{collect-empty}
use open_vibe_host.Inventory.{Service}
use open_vibe_host.Probes.{value_at}
use open_vibe_host.Deps.{
  Problem, names_itself, check_dep, declared, parse_package, verify_package, verify,
}

module _ {H : Type 0} (env : Env H) where
  -- The package.json of a dependency was read, it parses, and it names the dependency.
  pub record Resolves (root dep : String) : Type 0 where
    pub before : State H
    pub after : State H
    pub text : String
    pub meta : Json
    pub read :
        perform env
          (Call.read_file (join (root ∷ "node_modules" ∷ dep ∷ "package.json" ∷ [])))
          before
        ≡ (ok (some text), after)
    pub parses : env.parse_json text ≡ some meta
    pub named : strict_eq (value_at env meta (some "name")) (Json.str dep) ≡ true

  -- The package.json of a package was read, and each dependency that it declares resolves.
  pub record AllResolve (svc : Service) (pkg : String) : Type 0 where
    pub before : State H
    pub after : State H
    pub text : Option String
    pub parsed : Json
    pub deps : List String
    pub read :
        perform env
          (Call.read_file (join (join (svc.repo ∷ pkg ∷ []) ∷ "package.json" ∷ [])))
          before
        ≡ (ok text, after)
    pub parses : parse_package env text ≡ some parsed
    pub declares : declared env parsed ≡ some deps
    pub resolve : All (Resolves (join (svc.repo ∷ pkg ∷ []))) deps

  named_so :
      (dep : String) (text : Option String)
      → names_itself env dep text ≡ some true
      → (t : String) × (meta : Json) × (text ≡ some t)
        × (env.parse_json t ≡ some meta)
        × (strict_eq (value_at env meta (some "name")) (Json.str dep) ≡ true)
  unfolding names_itself
  named_so dep none h = absurd cc
  named_so dep (some t) h = go (env.parse_json t) refl h
    where
      go :
          (o : Option Json)
          → env.parse_json t ≡ o
          → elim o [
            | none ↦ some false
            | some Json.null ↦ none
            | some meta ↦ some (strict_eq (value_at env meta (some "name")) (Json.str dep))
          ]
            ≡ some true
          → (t' : String) × (meta : Json) × (some t ≡ some t')
            × (env.parse_json t' ≡ some meta)
            × (strict_eq (value_at env meta (some "name")) (Json.str dep) ≡ true)
      go none e h = absurd cc
      go (some Json.null) e h = absurd cc
      go (some meta) e h = (t, meta, refl, e, cc)

  good_only :
      (o : Option Bool) (pkg dep : String) (s t : State H)
      → maybe o
          (throw failed)
          (λ good.
            pure (
              if◌then◌else◌ {A = List Problem} good [] (record { pkg = pkg; dep = some dep } ∷ [])))
          s
        ≡ (ok [], t)
      → o ≡ some true
  unfolding maybe throw pure
  good_only none pkg dep s t h = absurd cc
  good_only (some true) pkg dep s t h = refl
  good_only (some false) pkg dep s t h = absurd cc

  check_dep-Resolves :
      (root pkg dep : String) (s t : State H)
      → check_dep env root pkg dep s ≡ (ok [], t)
      → Resolves root dep
  unfolding check_dep
  check_dep-Resolves root pkg dep s t h =
      let (text, u, seen, rest) = bind-ok (perform env (Call.read_file _)) _ s t [] h in
      let good = good_only (names_itself env dep text) pkg dep u t rest in
      let (x, meta, there, parses, named) = named_so dep text good in
      record {
        before = s;
        after = u;
        text = x;
        meta = meta;
        read = seen ∙ ap (λ o. (ok o, u)) there;
        parses = parses;
        named = named;
      }

  all_resolve :
      (root pkg : String) (deps : List String)
      → All (λ dep. (u v : State H) × (check_dep env root pkg dep u ≡ (ok [], v))) deps
      → All (Resolves root) deps
  all_resolve root pkg [] _ = tt
  all_resolve root pkg (dep ∷ deps) ((u, v, h), hs) =
      (check_dep-Resolves root pkg dep u v h, all_resolve root pkg deps hs)

  unparsed :
      (pkg : String) (s t : State H)
      → pure {A = List Problem} (record { pkg = pkg; dep = none } ∷ []) s ≢ (ok [], t)
  unfolding pure
  unparsed pkg s t h = cc

  undeclared : (s t : State H) → throw {A = List Problem} failed s ≢ (ok [], t)
  unfolding throw
  undeclared s t h = cc

  verify_package-AllResolve :
      (svc : Service) (pkg : String) (s t : State H)
      → verify_package env svc pkg s ≡ (ok [], t)
      → AllResolve svc pkg
  unfolding verify_package maybe
  verify_package-AllResolve svc pkg s t h =
      let (text, u, seen, rest) = bind-ok (perform env (Call.read_file _)) _ s t [] h in
      go text u seen (parse_package env text) refl rest
    where
      at_deps :
          (text : Option String) (u : State H) (parsed : Json)
          → perform env (Call.read_file (join (join (svc.repo ∷ pkg ∷ []) ∷ "package.json" ∷ []))) s
            ≡ (ok text, u)
          → parse_package env text ≡ some parsed
          → (o : Option (List String)) → declared env parsed ≡ o
          → maybe o
              (throw failed)
              (λ deps. collect deps (check_dep env (join (svc.repo ∷ pkg ∷ [])) pkg))
              u
            ≡ (ok [], t)
          → AllResolve svc pkg
      at_deps text u parsed seen e none d h = absurd (undeclared u t h)
      at_deps text u parsed seen e (some deps) d h = record {
        before = s;
        after = u;
        text = text;
        parsed = parsed;
        deps = deps;
        read = seen;
        parses = e;
        declares = d;
        resolve = all_resolve _ pkg deps (collect-empty _ deps u t h);
      }

      go :
          (text : Option String) (u : State H)
          → perform env (Call.read_file (join (join (svc.repo ∷ pkg ∷ []) ∷ "package.json" ∷ []))) s
            ≡ (ok text, u)
          → (o : Option Json) → parse_package env text ≡ o
          → maybe o
              (pure (record { pkg = pkg; dep = none } ∷ []))
              (λ p.
                maybe
                  (declared env p)
                  (throw failed)
                  (λ deps. collect deps (check_dep env (join (svc.repo ∷ pkg ∷ [])) pkg)))
              u
            ≡ (ok [], t)
          → AllResolve svc pkg
      go text u seen none e h = absurd (unparsed pkg u t h)
      go text u seen (some parsed) e h = at_deps text u parsed seen e (declared env parsed) refl h

  each_resolves :
      (svc : Service) (pkgs : List String)
      → All (λ pkg. (u v : State H) × (verify_package env svc pkg u ≡ (ok [], v))) pkgs
      → All (AllResolve svc) pkgs
  each_resolves svc [] _ = tt
  each_resolves svc (pkg ∷ pkgs) ((u, v, h), hs) =
      (verify_package-AllResolve svc pkg u v h, each_resolves svc pkgs hs)

  -- Where `verify` reports no problem, the package.json of every package was read and parsed, and the
  -- package.json of each dependency that it declares was read, parsed, and names that dependency.
  pub verify-AllResolve :
      (svc : Service) (pkgs : List String) (s t : State H)
      → verify env svc pkgs s ≡ (ok [], t)
      → All (AllResolve svc) pkgs
  unfolding verify
  verify-AllResolve svc pkgs s t h = each_resolves svc pkgs (collect-empty _ pkgs s t h)
