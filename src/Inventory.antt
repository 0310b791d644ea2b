-- ===== src/Inventory.antt =====
-- The entries of the host inventory, as lib/inventory.js `normaliseService` returns them: the fields
-- that the operations of this development read. Missing optional values are `none`.
use open_vibe_host.Base.{ℕ, String, Bool, Option, List}
use open_vibe_host.Host.Json.{Json}

-- A probe of kind http-json-count.
pub record HttpCount : Type 0 where
  pub url : String
  pub array : Option String
  pub where_ : List (String × Json)
  pub field : Option String
  pub add_fields : List String

pub data Probe : Type 0 where
  http_json_count : HttpCount → Probe
  postgresql_count : String → String → Probe
  other_kind : Probe

pub data ProbeKind : Type 0 where
  single : Probe → ProbeKind
  sum : List Probe → ProbeKind

pub record Protected : Type 0 where
  pub label : Option String
  pub kind : ProbeKind

pub data DrainPolicy : Type 0 where
  refuse wait report : DrainPolicy

pub record Drain : Type 0 where
  pub policy : DrainPolicy
  pub wait_max_seconds : ℕ
  pub poll_seconds : ℕ
  pub quiet_checks : ℕ

pub record Ready : Type 0 where
  pub url : String
  -- 0 is not set
  pub timeout_seconds : ℕ
  pub release : Bool
  pub all_units : Bool

pub record Install : Type 0 where
  -- the program and its arguments; never empty
  pub program : String
  pub arguments : List String
  pub always : Bool
  pub restore_lockfile : Bool
  pub lockfile : String
  pub workspace : Bool

pub record DeployGuard : Type 0 where
  pub lock_wait_seconds : ℕ
  pub min_available_mib : ℕ
  pub memory_wait_seconds : ℕ
  pub memory_poll_seconds : ℕ

pub data Strategy : Type 0 where
  git_checkout multi_app static_build pnpm_build release_layout : Strategy

-- One entry of `preflight.checks`: an argv, and the packages that it runs in, `none` for "*".
pub record Check : Type 0 where
  pub program : String
  pub arguments : List String
  pub packages : Option (List String)

pub record Preflight : Type 0 where
  pub syntax_check : Bool
  pub dirs : List String
  pub checks : List Check

pub record Auxiliary : Type 0 where
  pub unit : String
  pub restart_on : List String
  pub apply_on : List String

pub record Nginx : Type 0 where
  pub repo_vhosts : Option String
  pub repo_vhost : Option String
  pub install_on_deploy : Bool
  pub skip_vhosts : List String

pub record Service : Type 0 where
  pub id : String
  pub repo : String
  pub owner : String
  pub run_as : String
  pub remote : String
  pub branch : String
  pub strategy : Strategy
  pub managed : Bool
  pub units : List String
  pub worker_units : List String
  pub auxiliary_units : List Auxiliary
  pub socket_unit : Option String
  pub unit_sources : List (String × String)
  pub units_match : Option String
  pub install_units : Bool
  pub enable_units : Bool
  pub ready : Option Ready
  pub packages : List String
  pub skip_packages : List String
  pub remove_untracked_lockfiles : Bool
  pub generated : List String
  pub no_restart_paths : List String
  pub preflight : Preflight
  pub install : Install
  -- each step is a program and its arguments
  pub build : List (String × List String)
  pub nginx : Option Nginx
  pub databases : List String
  pub backup_on_change : List String
  pub release_files : Option String
  pub protected : Option Protected
  pub drain : Drain
  pub deploy_guard : DeployGuard
  -- auto, gated or manual
  pub deploy_policy : String

pub record Inventory : Type 0 where
  pub state_dir : String
  pub backup_dir : String
  pub deploy_guard : DeployGuard
  pub sites_available : String
  pub sites_enabled : String
  pub nginx_bin : String
