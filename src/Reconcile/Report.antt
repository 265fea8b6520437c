-- ===== src/Reconcile/Report.antt =====
-- crates/nclav-reconciler/src/report.rs, and the errors of src/error.rs.
use nclav.Base.{String, Bool, List}
use nclav.Domain.{EnclaveId, PartitionId}
use nclav.Graph.{GraphError}
use nclav.Store.{StoreError}
use nclav.Driver.{DriverError}

-- `api_base`, `auth_token` and `test_mode` only configure the Terraform backend.
pub record ReconcileRequest : Type 0 where
  pub enclaves_dir : String
  pub dry_run : Bool
  pub resources_only : Bool

pub data Change : Type 0 where
  enclave_created enclave_updated enclave_deleted : EnclaveId → Change
  partition_created partition_updated partition_deleted :
      (enclave_id : EnclaveId) (partition_id : PartitionId) → Change
  export_wired : (enclave_id : EnclaveId) (export_name : String) → Change
  import_wired : (importer_enclave : EnclaveId) (alias : String) → Change

pub record ReconcileReport : Type 0 where
  pub dry_run : Bool
  pub changes : List Change
  pub errors : List String

-- `ReconcileError`, with the panic of an index out of range. A `ConfigError` is its text.
pub data ReconcileError (V : Type 0) : Type 0 where
  config : String → ReconcileError V
  graph : GraphError → ReconcileError V
  store : StoreError V → ReconcileError V
  driver : DriverError → ReconcileError V
  internal : String → ReconcileError V
  panic : ReconcileError V
