-- ===== src/Driver.antt =====
-- crates/nclav-driver/src/driver.rs, registry.rs and error.rs: the interface of a cloud driver and
-- the choice of the driver of an enclave. `V` is the type of handles. A driver acts on the world
-- outside, `W`, which it takes and returns: what a call answers may depend on all that came before.
pub mod Registry
pub mod Local
pub mod Terraform
mod Examples
use nclav.Base.{String, ◌<>◌, Bool, Option, List, Map, Result}
use nclav.Domain.{Enclave, Export, Import, Partition, PartitionId, CloudTarget, cloud_name}

pub record ProvisionResult (V : Type 0) : Type 0 where
  pub handle : V
  pub outputs : Map String String

pub record ObservedState (V : Type 0) : Type 0 where
  pub exists : Bool
  pub healthy : Bool
  pub outputs : Map String String
  pub raw : V

pub data DriverError : Type 0 where
  provision_failed teardown_failed internal : String → DriverError
  driver_not_configured : CloudTarget → DriverError
  tf_files_with_module_source : (path file : String) → DriverError

-- `Display`
unfoldable pub driver_error_message : DriverError → String
unfolding cloud_name
driver_error_message (provision_failed m) = "provision failed: " <> m
driver_error_message (teardown_failed m) = "teardown failed: " <> m
driver_error_message (internal m) = "internal driver error: " <> m
driver_error_message (driver_not_configured c) = "driver not configured for cloud: " <> cloud_name c
driver_error_message (tf_files_with_module_source path file) =
    ".tf file '" <> file <> "' found in partition at " <> path
    <> " which uses terraform.source; remove the .tf file or remove terraform.source"

pub record OrphanedResource : Type 0 where
  pub resource_name : String
  pub resource_type : String
  pub nclav_partition : String
  pub nclav_enclave : String

pub record Driver (V W : Type 0) : Type 0 where
  pub name : String
  pub provision_enclave : Enclave → Option V → W → Result DriverError (ProvisionResult V) × W
  pub teardown_enclave : Enclave → V → W → Result DriverError (Unit {0}) × W
  pub provision_partition :
      Enclave
      → Partition
      → Map String String
      → Option V
      → W
      → Result DriverError (ProvisionResult V) × W
  pub teardown_partition : Enclave → Partition → V → W → Result DriverError (Unit {0}) × W
  pub provision_export :
      Enclave
      → Export
      → Map String String
      → Option V
      → W
      → Result DriverError (ProvisionResult V) × W
  pub provision_import :
      Enclave → Import → V → Option V → W → Result DriverError (ProvisionResult V) × W
  pub observe_enclave : Enclave → V → W → Result DriverError (ObservedState V) × W
  pub observe_partition : Enclave → Partition → V → W → Result DriverError (ObservedState V) × W
  pub list_partition_resources : Enclave → V → Partition → W → Result DriverError (List String) × W
  pub list_orphaned_resources :
      Enclave → V → List PartitionId → W → Result DriverError (List OrphanedResource) × W
  pub context_vars : Enclave → V → Map String String
  pub auth_env : Enclave → V → Map String String
