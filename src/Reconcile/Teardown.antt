-- ===== src/Reconcile/Teardown.antt =====
-- Step 6 of `reconcile` in crates/nclav-reconciler/src/reconcile.rs: the enclaves that are stored and
-- no longer desired.
use nclav.Base.{
  ℕ, String, ◌<>◌, Bool, Option, none, some, unwrap_or, List, Map, get, Result, ok, err,
  if◌then◌else◌, string_eq,
}
use nclav.Domain.{Enclave, EnclaveId, PartitionId}
use nclav.Store.{EnclaveState, PartitionState}
use nclav.Driver.{Driver, DriverError, driver_error_message}
use nclav.Driver.Registry.{for_cloud}
use nclav.Reconcile.Report.{ReconcileError}
use nclav.Reconcile.Action.{
  Env, Action, pure, throw, ◌>>=◌, ◌>>◌, write_store, outside, outside_store, push_error, for_do,
}

module _ {V S W : Type 0} (env : Env V S W) where
  -- `driver.teardown_enclave(..).await?`
  unfoldable pub driver_answer : Result DriverError (Unit {0}) → Action V S W (Unit {0})
  driver_answer (ok _) = pure tt
  driver_answer (err e) = throw (ReconcileError.driver e)

  unfoldable pub report_teardown :
      EnclaveId → PartitionId → Result DriverError (Unit {0}) → Action V S W (Unit {0})
  report_teardown id part_id (ok _) = pure tt
  report_teardown id part_id (err e) =
      push_error ("teardown " <> id <> "/" <> part_id <> ": " <> driver_error_message e)

  -- The partition's account: its failure is only logged.
  unfoldable pub cleanup_partition :
      Driver V W → Enclave → PartitionState V → Option V → Action V S W (Unit {0})
  cleanup_partition driver desired part_state none = pure tt
  cleanup_partition driver desired part_state (some handle) = do
    outside (driver.teardown_partition desired part_state.desired handle)
    pure tt

  module _ (resources_only : Bool) (run_id : ℕ) where
    unfoldable pub teardown_partition :
        Driver V W
        → EnclaveId
        → EnclaveState V
        → Map String String
        → PartitionId × PartitionState V
        → Action V S W (Unit {0})
    teardown_partition driver id existing auth_env part = do
      result ←
          outside_store
            (env.tf_backend.teardown existing.desired part.1.desired auth_env (some run_id))
      report_teardown id part.0 result
      cleanup_partition driver existing.desired part.1 part.1.partition_handle

    -- The project itself, unless only the resources are to go.
    unfoldable pub delete_project : Driver V W → EnclaveState V → V → Action V S W (Unit {0})
    delete_project driver existing handle =
        let torn_down =
          outside (driver.teardown_enclave existing.desired handle) >>= driver_answer in
        if resources_only then pure tt else torn_down

    unfoldable pub teardown_resources :
        EnclaveId
        → EnclaveState V
        → Result DriverError (Driver V W)
        → Option V
        → Action V S W (Unit {0})
    teardown_resources id existing (ok driver) (some handle) = do
      for_do (teardown_partition driver id existing (driver.auth_env existing.desired handle))
          existing.partitions
      delete_project driver existing handle
    teardown_resources id existing (ok driver) none = pure tt
    teardown_resources id existing (err e) handle = pure tt

    unfoldable pub teardown_existing : EnclaveId → Option (EnclaveState V) → Action V S W (Unit {0})
    teardown_existing id none = pure tt
    teardown_existing id (some existing) = do
      let cloud = unwrap_or existing.resolved_cloud env.registry.default_cloud
      teardown_resources id existing (for_cloud env.registry cloud) existing.enclave_handle
      write_store (env.state_store.delete_enclave id)

    -- The loop over the removed enclaves.
    unfoldable pub teardown_enclaves :
        Map EnclaveId (EnclaveState V) → List EnclaveId → Action V S W (Unit {0})
    teardown_enclaves actual = for_do (λ id. teardown_existing id (get id actual))
