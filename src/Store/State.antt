-- ===== src/Store/State.antt =====
-- crates/nclav-store/src/state.rs: lifecycle metadata, the states of enclaves and partitions, runs of
-- the infrastructure tool, audit events; and src/error.rs. `V` is the type of driver handles,
-- `serde_json::Value`. A `DateTime<Utc>` is the number of its instant, a `Uuid` a number.
use nclav.Base.{
  ℕ, ℤ, ◌+◌, ◌%◌, ◌^◌, String, Bool, true, false, ◌&&◌, not, Option, none, some, is_none, [], Map,
  if◌then◌else◌,
}
use nclav.Domain.{Enclave, EnclaveId, Partition, PartitionId, CloudTarget}

pub data ProvisioningStatus : Type 0 where
  pending provisioning active updating degraded error deleting deleted : ProvisioningStatus

unfoldable pub status_beq : ProvisioningStatus → ProvisioningStatus → Bool
status_beq pending pending = true
status_beq provisioning provisioning = true
status_beq active active = true
status_beq updating updating = true
status_beq degraded degraded = true
status_beq error error = true
status_beq deleting deleting = true
status_beq deleted deleted = true
status_beq _ _ = false

-- `Display`
unfoldable pub status_name : ProvisioningStatus → String
status_name pending = "pending"
status_name provisioning = "provisioning"
status_name active = "active"
status_name updating = "updating"
status_name degraded = "degraded"
status_name error = "error"
status_name deleting = "deleting"
status_name deleted = "deleted"

pub record ResourceError : Type 0 where
  pub message : String
  pub occurred_at : ℕ

pub record ResourceMeta : Type 0 where
  pub status : ProvisioningStatus
  pub created_at : Option ℕ
  pub updated_at : Option ℕ
  pub last_seen_at : Option ℕ
  pub last_error : Option ResourceError
  pub desired_hash : Option String
  pub generation : ℕ

abbrev pub default_meta : ResourceMeta
default_meta = record {
  status = pending;
  created_at = none;
  updated_at = none;
  last_seen_at = none;
  last_error = none;
  desired_hash = none;
  generation = 0;
}

-- `generation` is a `u64`, and wraps in a release build.
abbrev pub next_generation : ℕ → ℕ
next_generation g = (g + 1) % 2 ^ 64

unfoldable pub mark_active : ℕ → String → ResourceMeta → ResourceMeta
mark_active now hash m = record m {
  created_at = if is_none m.created_at then some now else m.created_at;
  updated_at = some now;
  status = active;
  last_error = none;
  desired_hash = some hash;
  generation = next_generation m.generation;
}

unfoldable pub mark_error : ℕ → String → ResourceMeta → ResourceMeta
mark_error now message m = record m {
  status = error;
  last_error = some (record { message = message; occurred_at = now });
  generation = next_generation m.generation;
}

unfoldable pub mark_seen : ℕ → Bool → ResourceMeta → ResourceMeta
unfolding status_beq
mark_seen now healthy m = record m {
  last_seen_at = some now;
  status =
      if status_beq m.status active && not healthy
      then degraded
      else if status_beq m.status degraded && healthy
      then active
      else m.status;
}

pub record PartitionState (V : Type 0) : Type 0 where
  pub desired : Partition
  pub partition_handle : Option V
  pub resolved_outputs : Map String String
  pub meta : ResourceMeta

pub record EnclaveState (V : Type 0) : Type 0 where
  pub desired : Enclave
  pub enclave_handle : Option V
  pub partitions : Map PartitionId (PartitionState V)
  pub export_handles : Map String V
  pub import_handles : Map String V
  pub meta : ResourceMeta
  pub resolved_cloud : Option CloudTarget

-- `PartitionState::new` and `EnclaveState::new`
abbrev pub new_partition_state : {V : Type 0} → Partition → PartitionState V
new_partition_state desired = record {
  desired = desired;
  partition_handle = none;
  resolved_outputs = [];
  meta = default_meta;
}

abbrev pub new_enclave_state : {V : Type 0} → Enclave → EnclaveState V
new_enclave_state desired = record {
  desired = desired;
  enclave_handle = none;
  partitions = [];
  export_handles = [];
  import_handles = [];
  meta = default_meta;
  resolved_cloud = none;
}

pub data IacOperation : Type 0 where
  provision update teardown : IacOperation

pub data IacRunStatus : Type 0 where
  running succeeded failed : IacRunStatus

-- `exit_code` is an `i32`.
pub record IacRun : Type 0 where
  pub id : ℕ
  pub enclave_id : EnclaveId
  pub partition_id : PartitionId
  pub operation : IacOperation
  pub started_at : ℕ
  pub finished_at : Option ℕ
  pub status : IacRunStatus
  pub exit_code : Option ℤ
  pub log : String
  pub reconcile_run_id : Option ℕ

pub data AuditEvent : Type 0 where
  reconcile_started : (id at : ℕ) (dry_run : Bool) → AuditEvent
  reconcile_completed : (id at changes : ℕ) (dry_run : Bool) → AuditEvent
  enclave_provisioned : (id at : ℕ) (enclave_id : EnclaveId) → AuditEvent
  partition_provisioned :
      (id at : ℕ) (enclave_id : EnclaveId) (partition_id : PartitionId) → AuditEvent
  export_wired : (id at : ℕ) (enclave_id : EnclaveId) (export_name : String) → AuditEvent
  import_wired : (id at : ℕ) (importer_enclave : EnclaveId) (export_name : String) → AuditEvent
  enclave_error : (id at : ℕ) (enclave_id : EnclaveId) (message : String) → AuditEvent
  partition_error :
      (id at : ℕ) (enclave_id : EnclaveId) (partition_id : PartitionId) (message : String)
      → AuditEvent

-- `AuditEvent::enclave_id`
unfoldable pub event_enclave_id : AuditEvent → Option EnclaveId
event_enclave_id (enclave_provisioned id at e) = some e
event_enclave_id (partition_provisioned id at e p) = some e
event_enclave_id (export_wired id at e x) = some e
event_enclave_id (import_wired id at e x) = some e
event_enclave_id (enclave_error id at e m) = some e
event_enclave_id (partition_error id at e p m) = some e
event_enclave_id _ = none

-- crates/nclav-store/src/error.rs; a serde error is its text.
pub data StoreError (V : Type 0) : Type 0 where
  enclave_not_found : String → StoreError V
  serialization : String → StoreError V
  internal : String → StoreError V
  lock_conflict : (holder : V) → StoreError V
