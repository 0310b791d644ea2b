-- ===== src/Lock.antt =====
-- lib/lock.js: one operation per service at a time, by a file that holds the owner's pid.
pub mod Created
pub mod Excludes
pub mod Race
pub mod Stale
pub mod Steps
pub mod Unread
use Prim.Native.String
use open_vibe_host.Base.{
  ℕ, String, Bool, true, false, not, ◌&&◌, Option, none, some, ◌==◌, if◌then◌else◌,
}
use open_vibe_host.Host.{
  Env, M, Call, Error, locked_error, pure, throw, perform, catch, maybe, ◌>>=◌, ◌>>◌,
}
use open_vibe_host.Host.Json
use open_vibe_host.Host.Json.{Json, is_truthy}
use open_vibe_host.Inventory.{Inventory}
use open_vibe_host.Probes.{value_at}

-- What `acquire` returns; its `release` is the function below.
pub record Held : Type 0 where
  pub file : String
  pub recovered_stale : Bool

unfoldable pub lock_file : Inventory → String → String
lock_file inv id = String.◌++◌ inv.state_dir (String.◌++◌ "/locks/" (String.◌++◌ id ".lock"))

module _ {H : Type 0} (env : Env H) where
  parse_or_null : Option String → Json
  parse_or_null none = Json.null
  parse_or_null (some t) = elim (env.parse_json t) [ none ↦ Json.null | some v ↦ v ]

  -- `JSON.parse(await exec.readFile(file))`, null where either throws
  read_holder : String → M H Json
  unfolding parse_or_null
  read_holder file =
      catch (do t ← perform env (Call.read_file file); pure (parse_or_null t)) (λ _. pure Json.null)

  -- `holder && holder.pid && await exec.pidAlive(holder.pid)`
  pid_alive_if : Option Json → M H Bool
  pid_alive_if none = pure false
  pid_alive_if (some pid) =
      if is_truthy (some pid) then perform env (Call.pid_alive pid) else pure false

  holder_alive : Json → M H Bool
  unfolding pid_alive_if
  holder_alive holder = pid_alive_if (value_at env holder (some "pid"))

  take_stale : String → String → M H Held
  take_stale file body = do
    perform env (Call.remove_file file)
    made ← perform env (Call.create_exclusive file body)
    if made then pure (record { file = file; recovered_stale = true }) else throw locked_error

  unfoldable pub acquire : Inventory → String → ℕ → M H Held
  unfolding read_holder holder_alive take_stale
  acquire inv id pid = do
    t ← perform env Call.now
    let body = env.lock_text pid (env.iso_string t)
    made ← perform env (Call.create_exclusive (lock_file inv id) body)
    if made then pure (record { file = lock_file inv id; recovered_stale = false }) else do
      holder ← read_holder (lock_file inv id)
      alive ← holder_alive holder
      if alive then throw locked_error else take_stale (lock_file inv id) body

  unfoldable pub release : Held → M H (Unit {0})
  release held = perform env (Call.remove_file held.file)
