-- ===== src/Examples/Backups.antt =====
-- `prune` on a machine that holds three recorded backups, one of them failed, and another directory.
use open_vibe_host.Base.{
  ℕ, String, Option, true, false, none, some, List, [], ◌∷◌, ◌≡◌, refl, ◌==◌, string_eq,
  if◌then◌else◌,
}
use open_vibe_host.Base.Paths.{join, join_with, normalize, dirname, basename}
use open_vibe_host.Base.Sets.{to_set, add_all, add}
use open_vibe_host.Base.Sorting.{sort_by, insert_sorted}
use open_vibe_host.Host.{Call, Answer, DirEntry, Env, M, State, Result, ok, perform}
use open_vibe_host.Host.Json.{Json, Fields, own}
use open_vibe_host.Host.Rules.{Steps, ran}
use open_vibe_host.Host.Rules.Issued.{Issued}
use open_vibe_host.Examples.Machine.{machine, inventory, start, computing}
use open_vibe_host.Examples.Stamps.{january, first, noon, second, third}
use open_vibe_host.Retention.{
  parse_stamp, stamp_fields, text_le, keep, newest_first, is_stamp, keep_each, keep_week, has_room,
  keep_day, day_of,
}
use open_vibe_host.Base.Text.{slice_to}
use open_vibe_host.Backups.{
  LogRecord, Recorded, Pruning, records, recorded_in, stamp_dirs, base_of, prune, planned,
  good_dirs, get, mark, removals, goes, remove_dir, newest_good,
}
use open_vibe_host.Backups.Chosen.{RemovesOnly, Spares}
use open_vibe_host.Backups.Pruned.{IsPruneCall, prune-Issued, prune_lem}

abbrev dir_at : String → DirEntry
dir_at name = record { name = name; is_dir = true }

abbrev logged : String → Fields → Option Json
logged dir more = some (Json.obj (Fields.field "dir" (Json.str dir) more))

abbrev parse_log : String → Option Json
parse_log line =
    if line == "first"
    then logged "/var/backups/live/19700105-030000" Fields.end
    else if line == "second"
    then logged "/var/backups/live/19700106-030000" (Fields.field "ok" (Json.bool false) Fields.end)
    else if line == "third"
    then logged "/var/backups/live/19700113-030000" (Fields.field "ok" (Json.bool true) Fields.end)
    else none

abbrev answers : (c : Call) → ℕ → Result (Answer c)
answers (Call.readdir p) ms = ok (
    if p == "/var/backups/live"
    then some (dir_at "other" ∷ dir_at first ∷ dir_at noon ∷ dir_at second ∷ dir_at third ∷ [])
    else none)
answers (Call.read_file p) ms =
    ok (if p == "/var/lib/ovhost/backups/live.jsonl" then some "first\nsecond\nthird\n" else none)
answers c ms = (machine.answer c ms).0

abbrev holding : Env ℕ
holding = record machine { answer = λ c ms. (answers c ms, ms); parse_json = parse_log }

abbrev pruning : M ℕ Pruning
pruning = prune holding inventory january "live" 1 0

abbrev pruned : Pruning
pruned = record { kept = noon ∷ third ∷ []; removed = first ∷ second ∷ []; unrecorded = noon ∷ [] }

pruned_well : (pruning start).0 ≡ ok pruned
unfolding prune records recorded_in join join_with normalize dirname basename sort_by insert_sorted
    keep newest_first parse_stamp stamp_fields text_le to_set add_all add own computing planned
    good_dirs stamp_dirs is_stamp get mark removals goes keep_each keep_week has_room keep_day
    day_of slice_to remove_dir newest_good
pruned_well = refl

prune-Issued_example : Steps (Issued (IsPruneCall (base_of holding inventory "live"))) pruning
prune-Issued_example = prune-Issued holding inventory january "live" 1 0

prune_lem_example :
    (entries : Option (List DirEntry)) × (recs : List LogRecord) × (recorded : Recorded) × (u v
      w : State ℕ)
    × (perform holding (Call.readdir (base_of holding inventory "live")) start ≡ (ok entries, u))
    × (records holding inventory "live" u ≡ (ok recs, v))
    × (recorded_in holding inventory (base_of holding inventory "live") [] recs v
        ≡ (ok recorded, w))
    × RemovesOnly january recorded (stamp_dirs holding inventory entries) 1 0 pruned
    × Spares january recorded (stamp_dirs holding inventory entries) 1 0 pruned
prune_lem_example =
    prune_lem holding inventory january "live" 1 0 pruned start (pruning start).1
      (ran pruning start (ok pruned) pruned_well)
