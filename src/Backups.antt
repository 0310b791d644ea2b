-- ===== src/Backups.antt =====
-- lib/commands/backup.js: the log of a service's backups, and `prune`, which applies the retention
-- policy to the directories on the host.
pub mod Chosen
pub mod Pruned
use open_vibe_host.Base.{
  ℕ, String, Bool, true, false, not, ◌&&◌, ◌||◌, Option, none, some, List, [], ◌∷◌, ◌++◌, map, ◌==◌,
  string_eq, nat_eq, if◌then◌else◌, contains, null, is_some, keep as filter,
}
use Prim.Native.String
use open_vibe_host.Base.Paths.{join, dirname, basename, normalize}
use open_vibe_host.Base.Sorting.{sort_by}
use open_vibe_host.Base.Text.{split_on}
use open_vibe_host.Host.{
  Env, M, DirEntry, Call, Command, pure, throw, perform, ◌>>=◌, ◌>>◌, maybe, for_each, failed,
}
use open_vibe_host.Host.Json.{Json, own, is_truthy}
use open_vibe_host.Inventory.{Inventory}
use open_vibe_host.Retention.{Dates, keep, is_stamp, text_le}

-- One parsed line of the log with a truthy `dir`: that value, and whether `ok !== false`.
pub record LogRecord : Type 0 where
  pub dir : Json
  pub succeeded : Bool

not_false : Option Json → Bool
not_false (some (Json.bool false)) = false
not_false v = true

-- `recorded`, a `Map` from a directory's name to whether any record of it is good.
abbrev pub Recorded : Type 0
Recorded = List (String × Bool)

unfoldable pub get : Recorded → String → Option Bool
get [] d = none
get ((k, good) ∷ m) d = if k == d then some good else get m d

-- `recorded.set(name, (recorded.get(name) || false) || ok)`
unfoldable pub mark : Recorded → String → Bool → Recorded
mark [] d ok = (d, ok) ∷ []
mark ((k, good) ∷ m) d ok = if k == d then (k, good || ok) ∷ m else (k, good) ∷ mark m d ok

unfoldable pub is_good : Recorded → String → Bool
is_good recorded d = elim (get recorded d) [ some good ↦ good | none ↦ false ]

-- The greatest of a list of names, `sort().pop()`.
last_of : List String → Option String
last_of [] = none
last_of (x ∷ []) = some x
last_of (x ∷ y ∷ ys) = last_of (y ∷ ys)

older : String → Option String → Bool
older d none = false
older d (some n) = text_le d n && not (d == n)

pub record Pruning : Type 0 where
  pub kept : List String
  pub removed : List String
  pub unrecorded : List String

module _ (dates : Dates) (recorded : Recorded) (dirs : List String) (daily weekly : ℕ) where
  unfoldable pub good_dirs : List String
  unfolding is_good
  good_dirs = filter (λ d. is_good recorded d) dirs

  unfoldable pub newest_good : Option String
  unfolding last_of
  newest_good = last_of (sort_by text_le good_dirs)

  -- A good backup goes if the policy does not keep it, a failed one if a newer good one is there.
  unfoldable pub goes : String → Bool
  unfolding older
  goes d = elim (get recorded d) [
    | none ↦ false
    | some true ↦ not (contains (keep dates good_dirs daily weekly) d)
    | some false ↦ older d newest_good
  ]

  unfoldable pub removals : List String
  removals = filter goes dirs

  unrecorded_dirs : List String
  unrecorded_dirs = filter (λ d. not (is_some (get recorded d))) dirs

  unfoldable pub planned : Pruning
  unfolding unrecorded_dirs
  planned =
      if null good_dirs
      then record { kept = dirs; removed = []; unrecorded = unrecorded_dirs }
      else record {
        kept = filter (λ d. not (contains removals d)) dirs;
        removed = removals;
        unrecorded = unrecorded_dirs;
      }

log_record : Option Json → List LogRecord
unfolding not_false own
log_record (some (Json.obj fs)) = elim (own "dir" fs) [
  | none ↦ []
  | some dir ↦
      if is_truthy (some dir)
      then record { dir = dir; succeeded = not_false (own "ok" fs) } ∷ []
      else []
]
log_record v = []

module _ {H : Type 0} (env : Env H) (inv : Inventory) where
  log_records : List String → List LogRecord
  unfolding log_record
  log_records [] = []
  log_records (l ∷ ls) =
      if l == "" then log_records ls else log_record (env.parse_json l) ++ log_records ls

  unfoldable pub records : String → M H (List LogRecord)
  unfolding log_records
  records id = do
    text ←
        perform env
          (Call.read_file (join (inv.state_dir ∷ "backups" ∷ String.◌++◌ id ".jsonl" ∷ [])))
    maybe text (pure []) (λ t. pure (log_records (split_on b'\n' t)))

  -- A `dir` that is no text makes `path.normalize` throw.
  note_dir : String → Recorded → Bool → Json → M H Recorded
  note_dir base m ok (Json.str d) =
      pure (if dirname (normalize d) == base then mark m (basename d) ok else m)
  note_dir base m ok v = throw failed

  unfoldable pub recorded_in : String → Recorded → List LogRecord → M H Recorded
  unfolding note_dir
  recorded_in base m [] = pure m
  recorded_in base m (r ∷ rs) = do m' ← note_dir base m r.succeeded r.dir; recorded_in base m' rs

  remove_command : String → Command
  remove_command full = record {
    cmd = "rm";
    args = "-rf" ∷ "--" ∷ full ∷ [];
    run_as = none;
    privileged = true;
    cwd = none;
  }

  -- Exactly <backupDir>/<id>/<stamp>, nothing else.
  unfoldable pub remove_dir : String → String → M H (Unit {0})
  unfolding remove_command
  remove_dir base d =
      let full = join (base ∷ d ∷ []) in
      if not (dirname full == base) || not (is_stamp (basename full)) then pure tt else do
        r ← perform env (Call.run (remove_command full))
        if r.code == 0 then pure tt else throw failed

  unfoldable pub stamp_dirs : Option (List DirEntry) → List String
  stamp_dirs none = []
  stamp_dirs (some entries) = map (λ e. e.name) (filter (λ e. e.is_dir && is_stamp e.name) entries)

  abbrev pub base_of : String → String
  base_of id = join (inv.backup_dir ∷ id ∷ [])

  unfoldable pub prune : Dates → String → ℕ → ℕ → M H Pruning
  prune dates id daily weekly = do
    entries ← perform env (Call.readdir (base_of id))
    recs ← records id
    recorded ← recorded_in (base_of id) [] recs
    let p = planned dates recorded (stamp_dirs entries) daily weekly
    for_each p.removed (remove_dir (base_of id))
    pure p
