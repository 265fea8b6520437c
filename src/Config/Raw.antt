-- ===== src/Config/Raw.antt =====
-- crates/nclav-config/src/raw.rs and error.rs. A port is a number; an error of the file system or of
-- the YAML parser is its text.
use nclav.Base.{ℕ, String, Option, List, Map}

pub record RawNetwork : Type 0 where
  pub vpc_cidr : Option String
  pub subnets : List String

pub record RawDns : Type 0 where
  pub zone : Option String

pub record RawImport : Type 0 where
  pub from : String
  pub export_name : String
  pub alias : String

pub data RawExportTarget : Type 0 where
  simple : String → RawExportTarget
  enclave : (enclave : String) → RawExportTarget
  partition : (partition : String) → RawExportTarget

pub record RawExport : Type 0 where
  pub name : String
  pub target_partition : String
  pub export_type : String
  pub to : RawExportTarget
  pub auth : String
  pub hostname : Option String
  pub port : Option ℕ

pub record RawTerraformConfig : Type 0 where
  pub tool : Option String
  pub source : Option String

pub record RawPartition : Type 0 where
  pub id : String
  pub name : String
  pub produces : Option String
  pub imports : List RawImport
  pub exports : List RawExport
  pub inputs : Map String String
  pub declared_outputs : List String
  pub backend : String
  pub terraform : Option RawTerraformConfig

pub data ConfigError : Type 0 where
  io yaml_parse : (path source : String) → ConfigError
  conversion : (path message : String) → ConfigError
  domain : String → ConfigError
