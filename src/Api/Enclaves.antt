-- ===== src/Api/Enclaves.antt =====
-- crates/nclav-api/src/handlers.rs: `health`, `ready`, the two endpoints of `reconcile`, and those that read
-- and destroy enclaves and partitions.
pub mod Deletion
pub mod Reconciling
use nclav.Base.Effects.{pure, ◌>>=◌, ◌>>◌, lift, for_fold, outside}
use nclav.Base.{
  ℕ, String, ◌<>◌, Bool, true, false, Option, none, some, unwrap_or, map_option, List, [], ◌∷◌,
  ◌++◌, Map, get, Result, ok, err, map_err, unwrap_or_default, string_eq,
}
use nclav.Domain.{Enclave, EnclaveId, PartitionId}
use nclav.Store.{EnclaveState, PartitionState}
use nclav.Driver.{Driver, DriverError, driver_error_message}
use nclav.Driver.Registry.{for_cloud}
use nclav.Reconcile.Report.{ReconcileRequest, ReconcileReport}
use nclav.Reconcile.Pass.{new_report, reconcile}
use nclav.Api.{
  AppState, failed, Handler, internal_error, from_reconcile, read_store, write_store, on_backend,
  or_not_found,
}

pub record ReconcileBody : Type 0 where
  pub enclaves_dir : String
  pub resources_only : Bool

-- The answer of a deletion.
-- The answer of `delete_enclave`.
pub record DestroyedEnclave : Type 0 where
  pub destroyed : String
  pub errors : List String

-- The answer of `delete_partition`.
pub record Destroyed : Type 0 where
  pub destroyed : String
  pub errors : List String
  pub remaining_resources : List String

-- `if let Err(e) = result { errors.push(..) }`
unfoldable pub push_failure :
    {A : Type 0} → String → Result DriverError A → List String → List String
unfolding driver_error_message
push_failure prefix (ok a) errors = errors
push_failure prefix (err e) errors = errors ++ (prefix <> driver_error_message e) ∷ []

abbrev pub health : ℕ
health = 200

module _ {V S W : Type 0} (state : AppState V S W) where
  unfoldable pub ready : Handler S W ℕ
  ready = read_store state.env.state_store.list_enclaves >> pure 200

  -- `reconcile` with its `?`: a new report over the store and the world.
  unfoldable pub run_reconcile : ReconcileRequest → Handler S W ReconcileReport
  unfolding from_reconcile
  run_reconcile req t =
      let (r, run) = reconcile state.env req (new_report t.0 t.1) in
      (map_err from_reconcile r, (run.store, run.world))

  unfoldable pub post_reconcile : ReconcileBody → Handler S W ReconcileReport
  post_reconcile body = run_reconcile (record {
    enclaves_dir = body.enclaves_dir;
    dry_run = false;
    resources_only = body.resources_only;
  })

  unfoldable pub post_reconcile_dry_run : ReconcileBody → Handler S W ReconcileReport
  post_reconcile_dry_run body = run_reconcile (record {
    enclaves_dir = body.enclaves_dir;
    dry_run = true;
    resources_only = body.resources_only;
  })

  unfoldable pub list_enclaves : Handler S W (List (EnclaveState V))
  list_enclaves = read_store state.env.state_store.list_enclaves

  unfoldable pub get_enclave : EnclaveId → Handler S W (EnclaveState V)
  get_enclave id =
      read_store (state.env.state_store.get_enclave id)
      >>= or_not_found ("enclave '" <> id <> "' not found")

  -- The driver of a stored enclave.
  unfoldable pub driver_of : EnclaveState V → Handler S W (Driver V W)
  unfolding for_cloud driver_error_message
  driver_of existing = lift (
      map_err (λ e. failed (internal_error (driver_error_message e)))
        (for_cloud state.env.registry
          (unwrap_or existing.resolved_cloud state.env.registry.default_cloud)))

  -- The cleanup of a partition's service account, where there is a handle.
  unfoldable pub cleanup_partition :
      Driver V W
      → Enclave
      → PartitionState V
      → String
      → Option V
      → List String
      → Handler S W (List String)
  unfolding push_failure
  cleanup_partition driver desired part_state prefix none errors = pure errors
  cleanup_partition driver desired part_state prefix (some handle) errors = do
    cleaned ← outside (driver.teardown_partition desired part_state.desired handle)
    pure (push_failure prefix cleaned errors)

  -- The body of the loop of `delete_enclave`.
  unfoldable pub teardown_stored :
      EnclaveId
      → Driver V W
      → Enclave
      → Map String String
      → PartitionId × PartitionState V
      → List String
      → Handler S W (List String)
  unfolding push_failure
  teardown_stored id driver desired auth_env entry errors = do
    let (part_id, part_state) = entry
    torn ← on_backend (state.env.tf_backend.teardown desired part_state.desired auth_env none)
    cleanup_partition driver desired part_state ("SA cleanup " <> id <> "/" <> part_id <> ": ")
        part_state.partition_handle
        (push_failure ("teardown " <> id <> "/" <> part_id <> ": ") torn errors)

  -- The deletion of the enclave's own infrastructure, unless only the resources are to go.
  unfoldable pub teardown_project :
      EnclaveId → Bool → Driver V W → Enclave → V → List String → Handler S W (List String)
  unfolding push_failure
  teardown_project id true driver desired enc_handle errors = pure errors
  teardown_project id false driver desired enc_handle errors = do
    torn ← outside (driver.teardown_enclave desired enc_handle)
    pure (push_failure ("enclave teardown " <> id <> ": ") torn errors)

  -- What `delete_enclave` does with the handle of the enclave.
  unfoldable pub teardown_handle :
      EnclaveId → Bool → Driver V W → EnclaveState V → Option V → Handler S W (List String)
  teardown_handle id resources_only driver existing none = pure []
  teardown_handle id resources_only driver existing (some enc_handle) = do
    errors ←
        for_fold
          (teardown_stored id driver existing.desired (driver.auth_env existing.desired enc_handle))
          existing.partitions []
    teardown_project id resources_only driver existing.desired enc_handle errors

  -- The end of `delete_enclave`: the enclave leaves the store whatever the teardown met.
  unfoldable pub finish_enclave : EnclaveId → List String → Handler S W DestroyedEnclave
  finish_enclave id errors =
      write_store (state.env.state_store.delete_enclave id)
      >> pure (record { destroyed = id; errors = errors })

  unfoldable pub destroy_enclave :
      EnclaveId → Bool → EnclaveState V → Driver V W → Handler S W DestroyedEnclave
  destroy_enclave id resources_only existing driver =
      teardown_handle id resources_only driver existing existing.enclave_handle
      >>= finish_enclave id

  unfoldable pub delete_enclave : EnclaveId → (resources_only : Bool) → Handler S W DestroyedEnclave
  delete_enclave id resources_only = get_enclave id >>= λ existing.
      driver_of existing >>= destroy_enclave id resources_only existing

  -- The check after the deletion, whose error counts as an empty list.
  unfoldable pub remaining :
      Driver V W → Enclave → PartitionState V → Option V → Handler S W (List String)
  remaining driver desired part_state none = pure []
  remaining driver desired part_state (some enc_handle) = do
    listed ← outside (driver.list_partition_resources desired enc_handle part_state.desired)
    pure (unwrap_or_default listed)

  -- The teardown of one partition, with the errors that it meets.
  unfoldable pub teardown_part :
      Driver V W → EnclaveState V → PartitionState V → Handler S W (List String)
  unfolding push_failure
  teardown_part driver existing part_state = do
    let auth_env =
        unwrap_or (map_option (driver.auth_env existing.desired) existing.enclave_handle) []
    torn ←
        on_backend (state.env.tf_backend.teardown existing.desired part_state.desired auth_env none)
    cleanup_partition driver existing.desired part_state "SA cleanup: " part_state.partition_handle
        (push_failure "" torn [])

  -- The end of `delete_partition`: the partition leaves the store whatever the teardown met.
  unfoldable pub finish_partition :
      EnclaveId
      → PartitionId
      → EnclaveState V
      → PartitionState V
      → Driver V W
      → List String
      → Handler S W Destroyed
  finish_partition enc_id part_id existing part_state driver errors = do
    write_store (state.store.delete_partition enc_id part_id)
    remaining_resources ← remaining driver existing.desired part_state existing.enclave_handle
    pure (record {
      destroyed = enc_id <> "/" <> part_id;
      errors = errors;
      remaining_resources = remaining_resources;
    })

  unfoldable pub destroy_partition :
      EnclaveId
      → PartitionId
      → EnclaveState V
      → PartitionState V
      → Driver V W
      → Handler S W Destroyed
  destroy_partition enc_id part_id existing part_state driver =
      teardown_part driver existing part_state
      >>= finish_partition enc_id part_id existing part_state driver

  unfoldable pub delete_partition : EnclaveId → PartitionId → Handler S W Destroyed
  unfolding get
  delete_partition enc_id part_id = do
    existing ← get_enclave enc_id
    part_state ←
        or_not_found ("partition '" <> part_id <> "' not found in enclave '" <> enc_id <> "'")
          (get part_id existing.partitions)
    driver ← driver_of existing
    destroy_partition enc_id part_id existing part_state driver
