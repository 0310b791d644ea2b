-- ===== src/Backups/Pruned.antt =====
-- What `prune` removes from the host, and what it leaves.
use mathlib.Core.Path.{subst}
use open_vibe_host.Base.{
  ℕ, String, Bool, true, not, ◌||◌, Option, List, [], ◌∷◌, ◌≡◌, refl, arith, ◌==◌, string_eq,
  eq_iff, nat_eq,
}
use open_vibe_host.Base.Paths.{join, dirname, basename}
use open_vibe_host.Host.{Env, State, Call, DirEntry, ok, perform, for_each, failed}
use open_vibe_host.Host.Rules.{
  Steps, Allows, Steps-if, Steps-bind, Steps-pure, Steps-throw, steps_rules, bind-ok,
}
use open_vibe_host.Host.Rules.Issued.{Issued, Issued-Allows}
use open_vibe_host.Host.Rules.Inverse.{pure-ok}
use open_vibe_host.Host.Json.{Json}
use open_vibe_host.Inventory.{Inventory}
use open_vibe_host.Retention.{Dates, is_stamp}
use open_vibe_host.Backups.{
  LogRecord, Recorded, Pruning, planned, records, note_dir, recorded_in, remove_command, remove_dir,
  stamp_dirs, base_of, prune,
}
use open_vibe_host.Backups.Chosen.{RemovesOnly, Spares, planned-Removable, planned-Spares}

-- A call that only reads, or the removal of one directory right below `base` that is named by a
-- stamp.
abbrev pub IsPruneCall : String → Call → Type 0
IsPruneCall base (Call.run c) =
    (full : String) × (c.cmd ≡ "rm")
    × (c.args ≡ "-rf" ∷ "--" ∷ full ∷ [])
    × (dirname full ≡ base)
    × (is_stamp (basename full) ≡ true)
IsPruneCall base (Call.read_file p) = Unit {0}
IsPruneCall base (Call.readdir p) = Unit {0}
IsPruneCall base _ = ⊥

module _ {H : Type 0} (env : Env H) (inv : Inventory) where
  module _ {R : State H → State H → Type 0} (id : String)
      (safe : Allows env (IsPruneCall (base_of env inv id)) R) where
    remove_dir-Steps : (d : String) → Steps R (remove_dir env inv (base_of env inv id) d)
    unfolding remove_dir remove_command
    remove_dir-Steps d =
        let base = base_of env inv id in
        let full = join (base ∷ d ∷ []) in
        Steps-if (not (dirname full == base) || not (is_stamp (basename full))) _ _
          (λ skip. Steps-pure safe.pre tt)
          (λ go.
            Steps-bind safe.pre _ _
              (safe.each (Call.run (remove_command env inv full))
                (full, refl, refl, (eq_iff (dirname full) base).0 (ground arith), ground arith))
              (λ r. search (steps_rules, safe.pre) depth 6))

    note_dir-Steps :
        (m : Recorded) (good : Bool) (v : Json)
        → Steps R (note_dir env inv (base_of env inv id) m good v)
    unfolding note_dir
    note_dir-Steps m good (Json.str d) = Steps-pure safe.pre _
    note_dir-Steps m good v = Steps-throw safe.pre failed

    recorded_in-Steps :
        (m : Recorded) (rs : List LogRecord)
        → Steps R (recorded_in env inv (base_of env inv id) m rs)
    unfolding recorded_in
    recorded_in-Steps m [] = Steps-pure safe.pre m
    recorded_in-Steps m (r ∷ rs) =
        Steps-bind safe.pre _ _ (note_dir-Steps m r.succeeded r.dir) (λ m'. recorded_in-Steps m' rs)

    pub prune-Steps :
        (dates : Dates) (daily weekly : ℕ) → Steps R (prune env inv dates id daily weekly)
    unfolding prune records
    prune-Steps dates daily weekly =
        search (remove_dir-Steps, recorded_in-Steps, steps_rules, safe.pre, safe.each) depth 12

  -- Whatever the directory and the log hold, and whether `prune` returns or throws: the only
  -- commands that it runs are `rm -rf --` of a directory right below <backupDir>/<id> whose name is a
  -- stamp.
  pub prune-Issued :
      (dates : Dates) (id : String) (daily weekly : ℕ)
      → Steps (Issued (IsPruneCall (base_of env inv id))) (prune env inv dates id daily weekly)
  prune-Issued dates id daily weekly = prune-Steps id (Issued-Allows env) dates daily weekly

  -- What a `prune` that returned reports as removed was listed and recorded, and where its record is
  -- good, the retention policy did not keep it; and of any good backup that was listed, with a
  -- stamp that is a date, one at least as new is reported as kept, if any daily backup is to be kept.
  pub prune_lem :
      (dates : Dates) (id : String) (daily weekly : ℕ) (p : Pruning) (s t : State H)
      → prune env inv dates id daily weekly s ≡ (ok p, t)
      → (entries : Option (List DirEntry)) × (recs : List LogRecord) × (recorded : Recorded) × (u v
          w : State H)
        × (perform env (Call.readdir (base_of env inv id)) s ≡ (ok entries, u))
        × (records env inv id u ≡ (ok recs, v))
        × (recorded_in env inv (base_of env inv id) [] recs v ≡ (ok recorded, w))
        × RemovesOnly dates recorded (stamp_dirs env inv entries) daily weekly p
        × Spares dates recorded (stamp_dirs env inv entries) daily weekly p
  unfolding prune
  prune_lem dates id daily weekly p s t h =
      let base = base_of env inv id in
      let (entries, u, listed, rest) = bind-ok (perform env (Call.readdir base)) _ s t p h in
      let (recs, v, read, rest') = bind-ok (records env inv id) _ u t p rest in
      let (recorded, w, noted, rest'') = bind-ok (recorded_in env inv base [] recs) _ v t p rest' in
      let dirs = stamp_dirs env inv entries in
      let plan = planned dates recorded dirs daily weekly in
      let (_, x, _, last) =
        bind-ok (for_each plan.removed (remove_dir env inv base)) _ w t p rest'' in
      let (e, _) = pure-ok plan p x t last in
      (
        entries,
        recs,
        recorded,
        u,
        v,
        w,
        listed,
        read,
        noted,
        subst (RemovesOnly dates recorded dirs daily weekly) e
            (planned-Removable dates recorded dirs daily weekly),
        subst (Spares dates recorded dirs daily weekly) e
            (planned-Spares dates recorded dirs daily weekly),
      )
