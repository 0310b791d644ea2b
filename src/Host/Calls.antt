-- ===== src/Host/Calls.antt =====
-- The calls of lib/executor.js, the one module that touches the machine, and their answers. A
-- program built on it is a function of the answers; the machine itself is not modelled. Timeouts
-- and file modes, which only the machine sees, are left out.
use open_vibe_host.Base.{ℕ, String, Bool, Option, List, ◌≡◌, refl, ◌⊎◌, inl, inr}
use open_vibe_host.Host.Json.{Json}

-- What `run(cmd, args, { as, privileged, cwd })` is given.
pub record Command : Type 0 where
  pub cmd : String
  pub args : List String
  pub run_as : Option String
  pub privileged : Bool
  pub cwd : Option String

pub record Output : Type 0 where
  pub code : ℕ
  pub stdout : String
  pub stderr : String

-- Status 0 is "no answer".
pub record Response : Type 0 where
  pub status : ℕ
  pub body : String

pub record Stat : Type 0 where
  pub is_file : Bool
  pub is_dir : Bool
  pub is_symlink : Bool
  pub mtime : ℕ

pub record DirEntry : Type 0 where
  pub name : String
  pub is_dir : Bool

pub record Listener : Type 0 where
  pub pid : Option ℕ
  pub process : Option String

pub data Call : Type 0 where
  run : Command → Call
  read_file : String → Call
  write_file : String → String → Call
  append_file : String → String → Call
  remove_file : String → Call
  symlink : String → String → Call
  readlink : String → Call
  stat : String → Call
  readdir : String → Call
  mkdir : String → Call
  create_exclusive : String → String → Call
  pid_alive : Json → Call
  http : String → Call
  psql : String → String → Call
  listeners : ℕ → Call
  sleep : ℕ → Call
  now : Call
  user_name : Call
  hostname : Call
  acquire_deploy_lock : String → String → ℕ → Call
  release_deploy_lock : Call
  mem_available : Call

abbrev pub Answer : Call → Type 0
Answer (Call.run _) = Output
Answer (Call.read_file _) = Option String
Answer (Call.write_file _ _) = Unit
Answer (Call.append_file _ _) = Unit
Answer (Call.remove_file _) = Unit
Answer (Call.symlink _ _) = Unit
Answer (Call.readlink _) = Option String
Answer (Call.stat _) = Option Stat
Answer (Call.readdir _) = Option (List DirEntry)
Answer (Call.mkdir _) = Unit
Answer (Call.create_exclusive _ _) = Bool
Answer (Call.pid_alive _) = Bool
Answer (Call.http _) = Response
Answer (Call.psql _ _) = List (List (Option Json))
Answer (Call.listeners _) = List Listener
Answer (Call.sleep _) = Unit
Answer Call.now = ℕ
Answer Call.user_name = String
Answer Call.hostname = String
Answer (Call.acquire_deploy_lock _ _ _) = Unit
Answer Call.release_deploy_lock = Unit
Answer Call.mem_available = Option ℕ

-- EXIT of lib/release-ops.js
pub data Exit : Type 0 where
  ok_exit usage validation rolled_back rollback_failed protected frozen : Exit

abbrev pub exit_code : Exit → ℕ
exit_code ok_exit = 0
exit_code usage = 1
exit_code validation = 2
exit_code rolled_back = 3
exit_code rollback_failed = 4
exit_code protected = 5
exit_code frozen = 6

-- What is thrown: an OpError with its exit code and its `result`, the other classes of the program,
-- and any other Error. Messages are left out.
pub data Error : Type 0 where
  op_error : Exit → Option String → Error
  locked_error : Error
  socket_guard_error : Error
  failed : Error

pub data Result (A : Type 0) : Type 0 where
  ok : A → Result A
  err : Error → Result A

pub Result-cases :
    {A : Type 0} (r : Result A) → ((a : A) × (r ≡ ok a)) ⊎ ((e : Error) × (r ≡ err e))
Result-cases (ok a) = inl (a, refl)
Result-cases (err e) = inr (e, refl)
