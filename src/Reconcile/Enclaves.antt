-- ===== src/Reconcile/Enclaves.antt =====
-- Step 7 of `reconcile` in crates/nclav-reconciler/src/reconcile.rs, for one enclave: the enclave
-- itself, its partitions, its exports.
use nclav.Base.{
  ℕ, String, ◌<>◌, Option, none, some, and_then, map_option, unwrap_or, List, [], Map, get, insert,
  Result, ok, err, string_eq,
}
use nclav.Domain.{Enclave, EnclaveId, Export}
use nclav.Store.{
  EnclaveState, new_enclave_state, ProvisioningStatus, mark_active, mark_error, updating,
  provisioning, enclave_provisioned, enclave_error, export_wired,
}
use nclav.Driver.{Driver, DriverError, ProvisionResult, driver_error_message}
use nclav.Driver.Registry.{for_enclave, resolved_cloud}
use nclav.Reconcile.Action.{
  Env, Action, pure, ◌>>=◌, ◌>>◌, write_store, outside, push_error, for_fold, for_do,
}
use nclav.Reconcile.Partitions.{provision_partitions}

-- The status while the driver is at work.
abbrev pub in_flight : {A : Type 0} → Option A → ProvisioningStatus
in_flight (some _) = updating
in_flight none = provisioning

module _ {V S W : Type 0} (env : Env V S W) where
  -- The state that is stored before the driver is called.
  unfoldable pub started_enclave : Enclave → Option (EnclaveState V) → EnclaveState V
  started_enclave enc existing =
      let enc_state = unwrap_or existing (new_enclave_state enc) in
      record enc_state {
        desired = enc;
        resolved_cloud = some (resolved_cloud env.registry enc);
        meta = record enc_state.meta { status = in_flight existing };
      }

  module _ (driver : Driver V W) (enc : Enclave) where
    unfoldable pub record_export :
        Export
        → EnclaveState V
        → Result DriverError (ProvisionResult V)
        → Action V S W (EnclaveState V)
    record_export export enc_state (ok result) = do
      let enc_state' = record enc_state {
        export_handles = insert export.name result.handle enc_state.export_handles;
      }
      id ← outside env.new_uuid
      at ← outside env.now
      write_store (env.state_store.append_event (export_wired id at enc.id export.name))
      pure enc_state'
    record_export export enc_state (err e) = do
      push_error ("export " <> enc.id <> "/" <> export.name <> ": " <> driver_error_message e)
      pure enc_state

    -- The body of the loop over the exports.
    unfoldable pub provision_export : Export → EnclaveState V → Action V S W (EnclaveState V)
    provision_export export enc_state = do
      let part_outputs =
          unwrap_or
            (map_option (λ ps. ps.resolved_outputs)
              (get export.target_partition enc_state.partitions))
            []
      result ← outside (
          driver.provision_export enc export part_outputs
            (get export.name enc_state.export_handles))
      record_export export enc_state result

    unfoldable pub provision_exports : EnclaveState V → Action V S W (EnclaveState V)
    provision_exports = for_fold provision_export enc.exports

    -- The rest of the step once the driver has answered for the enclave.
    unfoldable pub finish_enclave :
        ℕ
        → String
        → EnclaveState V
        → Result DriverError (ProvisionResult V)
        → Action V S W (Unit {0})
    finish_enclave run_id enc_hash enc_state (ok result) = do
      now ← outside env.now
      let enc_state' = record enc_state {
        enclave_handle = some result.handle;
        meta = mark_active now enc_hash enc_state.meta;
      }
      with_partitions ← provision_partitions env run_id driver enc enc_state'
      with_exports ← provision_exports with_partitions
      id ← outside env.new_uuid
      at ← outside env.now
      write_store (env.state_store.append_event (enclave_provisioned id at enc.id))
      write_store (env.state_store.upsert_enclave with_exports)
    finish_enclave run_id enc_hash enc_state (err e) = do
      now ← outside env.now
      let msg = driver_error_message e
      write_store (
          env.state_store.upsert_enclave
            (record enc_state { meta = mark_error now msg enc_state.meta }))
      id ← outside env.new_uuid
      at ← outside env.now
      write_store (env.state_store.append_event (enclave_error id at enc.id msg))
      push_error ("enclave " <> enc.id <> ": " <> msg)

  module _ (run_id : ℕ) (actual : Map EnclaveId (EnclaveState V)) where
    unfoldable pub drive_enclave :
        Enclave → Result DriverError (Driver V W) → Action V S W (Unit {0})
    drive_enclave enc (err e) = push_error ("enclave " <> enc.id <> ": " <> driver_error_message e)
    drive_enclave enc (ok driver) = do
      let existing = get enc.id actual
      let enc_state = started_enclave enc existing
      write_store (env.state_store.upsert_enclave enc_state)
      result ← outside (driver.provision_enclave enc (and_then existing (λ s. s.enclave_handle)))
      finish_enclave driver enc run_id (env.hashes.enclave_hash enc) enc_state result

    -- The body of the loop over the enclaves.
    unfoldable pub provision_enclave : Enclave → Action V S W (Unit {0})
    provision_enclave enc = drive_enclave enc (for_enclave env.registry enc)

    unfoldable pub provision_enclaves : List Enclave → Action V S W (Unit {0})
    provision_enclaves = for_do provision_enclave
