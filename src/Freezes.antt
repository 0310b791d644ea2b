-- ===== src/Freezes.antt =====
-- The freezes of lib/incidents.js: a file per frozen service, and one for all of them.
pub mod Steps
use open_vibe_host.Base.{
  String, Bool, not, ◌&&◌, Option, none, some, List, [], ◌∷◌, ◌==◌, string_eq, if◌then◌else◌,
  is_some,
}
use open_vibe_host.Base.Text.{ends_with, trim}
use open_vibe_host.Base.Names.{is_service_id}
use open_vibe_host.Base.Paths.{join}
use open_vibe_host.Base.Sorting.{sort_by}
use open_vibe_host.Host.{
  Env, M, Call, DirEntry, failed, pure, throw, perform, catch, collect, when, ◌>>=◌, ◌>>◌,
}
use open_vibe_host.Host.Json.{Json, is_truthy}
use open_vibe_host.Inventory.{Inventory}
use open_vibe_host.Probes.{value_at}
use open_vibe_host.Git.{◌⧺◌}

unfoldable pub freeze_dir : Inventory → String
freeze_dir inv = join (inv.state_dir ∷ "freeze" ∷ [])

unfoldable pub freeze_file : Inventory → String → String
unfolding freeze_dir
freeze_file inv id = join (freeze_dir inv ∷ (id ⧺ ".json") ∷ [])

-- The record that `freeze` writes.
pub record Freeze : Type 0 where
  pub service : String
  pub reason : String
  pub incident : Option String
  pub by : Option String
  pub at_time : String

module _ {H : Type 0} (env : Env H) (inv : Inventory) where
  -- `JSON.parse(text || 'null')`, none where it is null or does not parse
  parsed_or_none : Option String → Option Json
  parsed_or_none none = none
  parsed_or_none (some t) = if t == "" then none else elim (env.parse_json t) [
    | none ↦ none
    | some v ↦ if is_truthy (some v) then some v else none
  ]

  -- One file, null where it cannot be read or parsed.
  unfoldable pub frozen_by : String → M H (Option Json)
  unfolding parsed_or_none
  frozen_by id =
      catch
        (do text ← perform env (Call.read_file (freeze_file inv id)); pure (parsed_or_none text))
        (λ _. pure none)

  -- The freeze that holds a service: its own, else "all".
  unfoldable pub frozen : String → M H (Option Json)
  unfolding frozen_by
  frozen id = do own ← frozen_by id; if is_some own then pure own else frozen_by "all"

  -- `stringify` is `JSON.stringify(rec, null, 2)`.
  unfoldable pub freeze : (Freeze → String) → Freeze → M H (Unit {0})
  freeze stringify f =
      if not (f.service == "all") && not (is_service_id f.service)
      then throw failed
      else if trim f.reason == ""
      then throw failed
      else (do
        perform env (Call.mkdir (freeze_dir inv))
        perform env (
            Call.write_file (freeze_file inv f.service)
              (stringify (record f { reason = trim f.reason }) ⧺ "\n")))

  unfoldable pub unfreeze : String → M H Bool
  unfolding frozen_by
  unfreeze id = if not (id == "all") && not (is_service_id id) then throw failed else (do
    had ← frozen_by id
    when (is_some had) (perform env (Call.remove_file (freeze_file inv id)))
    pure (is_some had))

  -- Every freeze that a file of the directory holds, by service.
  freeze_in : DirEntry → M H (List Json)
  unfolding parsed_or_none ends_with
  freeze_in e =
      if not (ends_with e.name ".json")
      then pure []
      else catch
          (do
            text ← perform env (Call.read_file (join (freeze_dir inv ∷ e.name ∷ [])))
            pure (elim (parsed_or_none text) [ none ↦ [] | some r ↦ r ∷ [] ]))
          (λ _. pure [])

  service_of : Json → String
  service_of v = elim (value_at env v (some "service")) [
    | some (Json.str s) ↦ s
    | some o ↦ env.text_of o
    | none ↦ "undefined"
  ]

  unfoldable pub freezes : M H (List Json)
  unfolding freeze_in service_of
  freezes = do
    entries ← perform env (Call.readdir (freeze_dir inv))
    out ← collect (elim entries [ none ↦ [] | some es ↦ es ]) freeze_in
    pure (sort_by (λ a b. env.locale_le (service_of a) (service_of b)) out)
