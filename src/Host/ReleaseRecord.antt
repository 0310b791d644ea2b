-- ===== src/Host/ReleaseRecord.antt =====
-- The release-log record that an operation fills in as it goes (`record` of lib/release-ops.js).
use open_vibe_host.Base.{ℕ, String, Bool, Option, List, ℤ}
use open_vibe_host.Host.Calls.{Error}

-- `record.protectedSessions`
pub record Sessions : Type 0 where
  pub count : Option ℤ
  pub label : String
  pub known : Bool
  pub checked_when : String
  pub waited_seconds : Option ℕ

-- A field that the source adds later is `none` or empty until then.
pub record Entry : Type 0 where
  pub service : String
  pub action : String
  pub from : Option String
  pub to : Option String
  pub commits : ℕ
  pub lockfile_changed : Bool
  pub installed : List String
  pub deps_verified : Option Bool
  pub restart_needed : Option Bool
  pub restarted : Bool
  pub ready : Option Bool
  pub forced : Bool
  pub built : Bool
  pub result : Option String
  pub error : Option Error
  pub protected_sessions : Option Sessions
  pub checkout_moved : Bool
  pub checkout_restored : Bool
  pub deps_repaired : List String
  pub removed_untracked : List String
  pub dropped_from_index : List String
  pub preflight_ok : Option Bool
  pub backup : List String
  pub aux_apply_pending : List String
  pub aux_restarted : List String
  -- `autoRollback.to` and `autoRollback.ready`
  pub auto_rollback : Option String
  pub rollback_ready : Option Bool
  pub started_at : Option String
  pub finished_at : Option String
  pub operator : Option String
  pub on_host : Option String
  pub units_installed : Option (List String)
  -- the fields of a release-layout service
  pub from_release : Option String
  pub to_release : Option String
  pub prepared : Option String
  pub removed_prepared : Bool
  pub switched : Bool
  pub pruned : List String
  pub socket_rebind : Option String
  pub socket_held : Option Bool
