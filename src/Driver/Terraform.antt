-- ===== src/Driver/Terraform.antt =====
-- crates/nclav-driver/src/terraform.rs: `TerraformBackend`, which runs terraform or tofu for a partition.
-- The file system, the processes, the clock and the parser of JSON are those of a `Host`; paths are
-- texts, joined as on Unix.
pub mod Hcl
pub mod Workspace
pub mod Process
pub mod Operations
pub mod Keeping
pub mod Recording
pub mod Examples
use nclav.Base.Effects.{Eff}
use nclav.Base.{
  ℕ, ℤ, String, ◌<>◌, Bool, true, false, ◌||◌, Option, none, some, unwrap_or, List, Map, Result, ok,
  err, if◌then◌else◌, ◌==◌, string_eq,
}
use nclav.Base.Texts.{Text, starts_with_slash, ends_with}
use nclav.Domain.{Partition, PartitionBackend, TerraformConfig, terraform, open_tofu}
use nclav.Store.{IacRun, StoreError, Json}
use nclav.Driver.{DriverError}

-- `Command::new(binary)` with its arguments, directory and the variables set for it.
pub record Command : Type 0 where
  pub binary : String
  pub args : List String
  pub current_dir : String
  pub env : Map String String

-- What the code uses of tokio, of std::fs and of the clock. `P` is the type of running processes. A process
-- keeps its state in the store `S`, by its requests to the API, so its calls take and return the store too.
pub record Host (V S W P : Type 0) : Type 0 where
  pub env_var : String → W → Option String × W
  pub create_dir_all : String → W → Result String (Unit {0}) × W
  -- the names in a directory, each of which may be unreadable
  pub read_dir : String → W → Result String (List (Result String String)) × W
  pub write : String → Text → W → Result String (Unit {0}) × W
  pub remove_file : String → W → Result String (Unit {0}) × W
  pub canonicalize : String → W → Result String String × W
  -- `symlink(target, link)`
  pub symlink : String → String → W → Result String (Unit {0}) × W
  pub exists : String → W → Bool × W
  -- `symlink_metadata`: whether what stands there is a symbolic link
  pub symlink_metadata : String → W → Result String Bool × W
  pub spawn : Command → S × W → Result String P × (S × W)
  -- the lines of both streams as they arrive, or `none` when the seconds are over
  pub collect : P → ℕ → S × W → Option (List String) × (S × W)
  -- the ends of the two tasks that read the streams
  pub join_readers : P → S × W → Unit {0} × (S × W)
  pub kill : P → S × W → Unit {0} × (S × W)
  -- the exit code, which a process ended by a signal does not have
  pub wait : P → S × W → Result String (Option ℤ) × (S × W)
  pub now : W → ℕ × W
  pub new_uuid : W → ℕ × W
  -- `{:?}` of a text
  pub debug : String → Text
  -- `serde_json::from_str`
  pub from_str : String → Result String V

-- Of its store the backend calls `upsert_iac_run`.
pub record TerraformBackend (V S : Type 0) : Type 0 where
  pub api_base : String
  pub auth_token : String
  pub upsert_iac_run : IacRun → S → Result (StoreError V) (Unit {0}) × S
  pub test_mode : Bool
  pub workspace_root : Option String

-- An operation of the backend, which may change the store and the world outside.
abbrev pub Act : Type 0 → Type 0 → Type 0 → Type 0
Act S W A = Eff DriverError (S × W) A

-- `base.join(name)`
unfoldable pub join : String → String → String
unfolding starts_with_slash ends_with
join base name =
    if starts_with_slash name
    then name
    else if base == "" || ends_with base "/"
    then base <> name
    else base <> "/" <> name

unfoldable pub backend_config : PartitionBackend → String × TerraformConfig
backend_config (terraform cfg) = (unwrap_or cfg.tool "terraform", cfg)
backend_config (open_tofu cfg) = (unwrap_or cfg.tool "tofu", cfg)

-- The tool and the configuration of a partition: an error is in the type, and never given.
unfoldable pub extract_tf_config : Partition → Result DriverError (String × TerraformConfig)
unfolding backend_config
extract_tf_config partition = ok (backend_config partition.backend)
