-- ===== src/Domain/Types.antt =====
-- Identifiers, clouds, export targets, backends and the records of crates/nclav-domain/src/types.rs.
use nclav.Base.{ℕ, String, ◌≡◌, ◌↔◌, Bool, true, false, Option, none, List, arith, Eq, Map}
use nclav.Domain.Auth.{ExportType, AuthType, ProducesType}

-- The newtypes `EnclaveId` and `PartitionId` wrap a text, and are compared, hashed and shown as it.
abbrev pub EnclaveId : Type 0
EnclaveId = String

abbrev pub PartitionId : Type 0
PartitionId = String

pub data CloudTarget : Type 0 where
  local gcp azure aws : CloudTarget

unfoldable pub cloud_beq : CloudTarget → CloudTarget → Bool
cloud_beq local local = true
cloud_beq gcp gcp = true
cloud_beq azure azure = true
cloud_beq aws aws = true
cloud_beq _ _ = false

pub cloud_beq_iff : (a b : CloudTarget) → (cloud_beq a b ≡ true) ↔ (a ≡ b)
unfolding cloud_beq
cloud_beq_iff a b = ground arith

instance abbrev pub cloud_eq : Eq CloudTarget
cloud_eq = record { test = cloud_beq; test_iff = cloud_beq_iff }

-- `Display`
unfoldable pub cloud_name : CloudTarget → String
cloud_name local = "local"
cloud_name gcp = "gcp"
cloud_name azure = "azure"
cloud_name aws = "aws"

pub data ExportTarget : Type 0 where
  public any_enclave vpn : ExportTarget
  enclave : EnclaveId → ExportTarget
  partition : PartitionId → ExportTarget

-- A `PathBuf` is the text of the path.
pub record TerraformConfig : Type 0 where
  pub tool : Option String
  pub source : Option String
  pub dir : String

pub data PartitionBackend : Type 0 where
  terraform open_tofu : TerraformConfig → PartitionBackend

abbrev pub default_backend : PartitionBackend
default_backend = terraform (record { tool = none; source = none; dir = "" })

-- A port is a `u16`: a number below 2 ^ 16.
pub record Export : Type 0 where
  pub name : String
  pub target_partition : PartitionId
  pub export_type : ExportType
  pub to : ExportTarget
  pub auth : AuthType
  pub hostname : Option String
  pub port : Option ℕ

pub record Import : Type 0 where
  pub from : EnclaveId
  pub export_name : String
  pub alias : String

pub record Partition : Type 0 where
  pub id : PartitionId
  pub name : String
  pub produces : Option ProducesType
  pub imports : List Import
  pub exports : List Export
  pub inputs : Map String String
  pub declared_outputs : List String
  pub backend : PartitionBackend

pub record NetworkConfig : Type 0 where
  pub vpc_cidr : Option String
  pub subnets : List String

pub record DnsConfig : Type 0 where
  pub zone : Option String

pub record Enclave : Type 0 where
  pub id : EnclaveId
  pub name : String
  pub cloud : Option CloudTarget
  pub region : String
  pub identity : Option String
  pub network : Option NetworkConfig
  pub dns : Option DnsConfig
  pub imports : List Import
  pub exports : List Export
  pub partitions : List Partition
