-- ===== src/Releases.antt =====
-- lib/releases.js: the release log, and the release that a rollback returns to.
pub mod Previous
use Prim.Native.String
use open_vibe_host.Base.{
  String, Bool, true, false, not, ◌&&◌, Option, none, some, List, [], ◌∷◌, reverse, ◌==◌, string_eq,
  nat_eq, if◌then◌else◌, truthy, ◌++◌,
}
use open_vibe_host.Base.Text.{split_on, trim}
use open_vibe_host.Host.{Env, M, Call, Entry, State, pure, perform, maybe, gets, ◌>>=◌, ◌>>◌}
use open_vibe_host.Host.Json.{Json}
use open_vibe_host.Inventory.{Inventory}

-- What `previousFor` reads of a logged record.
pub record Logged : Type 0 where
  pub result : Option String
  pub from : Option String
  pub to : Option String

unfoldable pub is_text : Option String → String → Bool
is_text none s = false
is_text (some t) s = t == s

-- `r.result === 'deployed' && r.to === currentSha && r.from && r.from !== currentSha`
unfoldable pub brought : String → Logged → Bool
unfolding is_text
brought current r =
    is_text r.result "deployed"
    && is_text r.to current
    && truthy r.from
    && not (is_text r.from current)

-- The loop of `previousFor`, on the records from the last one back.
last_from : String → List Logged → Option String
last_from current [] = none
last_from current (r ∷ rs) = if brought current r then r.from else last_from current rs

-- Of the records of the log; a line that is the JSON `null`, at which the source throws, is none.
unfoldable pub previous_for : List Logged → String → Option String
unfolding last_from
previous_for records current = last_from current (reverse records)

module _ {H : Type 0} (env : Env H) where
  unfoldable pub log_path : Inventory → String → String
  log_path inv id = String.◌++◌ inv.state_dir (String.◌++◌ "/releases/" (String.◌++◌ id ".jsonl"))

  -- One line for the record as it is.
  unfoldable pub append : Inventory → M H (Unit {0})
  append inv = do
    entry ← gets (λ s. s.entry)
    perform env
        (Call.append_file (log_path inv entry.service) (String.◌++◌ (env.stringify entry) "\n"))
    pure tt

  -- The lines that parse, in order; a torn line is skipped.
  parsed_lines : List String → List Json
  parsed_lines [] = []
  parsed_lines (line ∷ lines) =
      let rest = parsed_lines lines in
      if trim line == ""
      then rest
      else elim (env.parse_json line) [ none ↦ rest | some v ↦ v ∷ rest ]

  unfoldable pub list : Inventory → String → M H (List Json)
  unfolding parsed_lines
  list inv id = do
    text ← perform env (Call.read_file (log_path inv id))
    maybe text (pure []) (λ t. pure (parsed_lines (split_on b'\n' t)))
