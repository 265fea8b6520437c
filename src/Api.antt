-- ===== src/Api.antt =====
-- crates/nclav-api: the errors of src/error.rs, the state of src/state.rs and the methods of the store that the
-- handlers call. An answer that is `Json(json!(x))` is the value `x`.
pub mod Auth
pub mod Enclaves
pub mod Memory
pub mod TfState
pub mod Graphs
pub mod Status
pub mod History
mod Examples
use nclav.Base.{
  ℕ, String, ◌<>◌, Bool, true, false, Option, none, some, map_err, List, [], ◌∷◌, ◌++◌, Result, ok,
  err,
}
use nclav.Base.Effects.{Eff, pure, throw}
use nclav.Domain.{EnclaveId, PartitionId}
use nclav.Graph.{
  GraphError, dangling_import_enclave, dangling_import_export, access_denied, type_mismatch,
  produces_export_mismatch, missing_required_output, cycle_detected, multiple,
}
use nclav.Store.{
  AuditEvent, IacRun, Json, StoreError, enclave_not_found, serialization, internal, lock_conflict,
}
use nclav.Driver.{DriverError, driver_error_message}
use nclav.Driver.Terraform.{Host, TerraformBackend}
use nclav.Driver.Terraform.Operations.{provision, teardown}
use nclav.Reconcile.Report.{ReconcileError}
use nclav.Reconcile.Action.{StateStore, Env, TfBackend}

pub record ApiError : Type 0 where
  pub status : ℕ
  pub message : String

abbrev pub bad_request : String → ApiError
bad_request msg = record { status = 400; message = msg }

abbrev pub unprocessable : String → ApiError
unprocessable msg = record { status = 422; message = msg }

abbrev pub not_found : String → ApiError
not_found msg = record { status = 404; message = msg }

abbrev pub internal_error : String → ApiError
internal_error msg = record { status = 500; message = msg }

-- `Display` of `StoreError`
unfoldable pub store_error_message : {V : Type 0} → StoreError V → String
store_error_message (enclave_not_found id) = "enclave not found: " <> id
store_error_message (serialization e) = "serialization error: " <> e
store_error_message (internal e) = "internal store error: " <> e
store_error_message (lock_conflict holder) = "state lock conflict"

-- `Display` of `GraphError`
unfoldable pub graph_error_message : GraphError → String
graph_error_message (dangling_import_enclave importer from) =
    "dangling import: enclave '" <> importer <> "' imports from unknown enclave '" <> from <> "'"
graph_error_message (dangling_import_export importer from export_name) =
    "dangling import: enclave '" <> importer <> "' imports export '" <> export_name
    <> "' which does not exist on '" <> from <> "'"
graph_error_message (access_denied importer from export_name) =
    "access denied: enclave '" <> importer <> "' is not permitted to import '" <> export_name
    <> "' from '" <> from <> "'"
graph_error_message (type_mismatch importer export_name import_type export_type) =
    "type mismatch: enclave '" <> importer <> "' imports '" <> export_name <> "' as " <> import_type
    <> " but it is " <> export_type
graph_error_message (produces_export_mismatch partition produces_type export_name export_type) =
    "produces/export mismatch: partition '" <> partition <> "' produces " <> produces_type
    <> " but is targeted by export '" <> export_name <> "' of type " <> export_type
graph_error_message (missing_required_output partition produces_type key) =
    "missing required output: partition '" <> partition <> "' produces " <> produces_type
    <> " but does not declare output '" <> key <> "'"
graph_error_message cycle_detected = "cycle detected in enclave dependency graph"
graph_error_message (multiple errors) = "multiple errors"

-- A request ends with an error, or the task that serves it panics.
pub data Failure : Type 0 where
  failed : ApiError → Failure
  panicked : Failure

-- `impl From<StoreError> for ApiError`
unfoldable pub from_store : {V : Type 0} → StoreError V → Failure
unfolding store_error_message
from_store e = failed (internal_error (store_error_message e))

-- `impl From<ReconcileError> for ApiError`: the errors of the configuration are the client's.
unfoldable pub from_reconcile : {V : Type 0} → ReconcileError V → Failure
unfolding graph_error_message store_error_message
from_reconcile (ReconcileError.graph e) =
    failed (unprocessable ("graph validation error: " <> graph_error_message e))
from_reconcile (ReconcileError.config e) = failed (unprocessable ("config error: " <> e))
from_reconcile (ReconcileError.store e) =
    failed (internal_error ("store error: " <> store_error_message e))
from_reconcile (ReconcileError.driver e) =
    failed (internal_error ("driver error: " <> driver_error_message e))
from_reconcile (ReconcileError.internal e) = failed (internal_error ("internal error: " <> e))
from_reconcile ReconcileError.panic = panicked

-- The `StateStore` behind the `Arc`: what a reconciler calls, and what only the handlers do.
pub record ApiStore (V S : Type 0) : Type 0 where
  pub state_store : StateStore V S
  pub delete_partition : EnclaveId → PartitionId → S → Result (StoreError V) (Unit {0}) × S
  pub list_events : Option EnclaveId → ℕ → S → Result (StoreError V) (List AuditEvent)
  pub get_tf_state : String → S → Result (StoreError V) (Option (List ℕ))
  pub put_tf_state : String → List ℕ → S → Result (StoreError V) (Unit {0}) × S
  pub delete_tf_state : String → S → Result (StoreError V) (Unit {0}) × S
  pub lock_tf_state : String → V → S → Result (StoreError V) (Unit {0}) × S
  pub unlock_tf_state : String → String → S → Result (StoreError V) (Unit {0}) × S
  pub upsert_iac_run : IacRun → S → Result (StoreError V) (Unit {0}) × S
  pub list_iac_runs : EnclaveId → PartitionId → S → Result (StoreError V) (List IacRun)
  pub get_iac_run : ℕ → S → Result (StoreError V) (Option IacRun)

-- A handler, which may change the store and the world outside.
abbrev pub Handler : Type 0 → Type 0 → Type 0 → Type 0
Handler S W A = Eff Failure (S × W) A

-- `state.rs`. `env` has the registry of drivers, the Terraform backend and what surrounds a reconciler.
pub record AppState (V S W : Type 0) : Type 0 where
  pub store : ApiStore V S
  pub env : Env V S W
  pub auth_token : String

module _ {V S W : Type 0} where
  -- The backend that the handlers and `reconcile` build for each request.
  unfoldable pub tf_backend :
      {P : Type 0}
      → Host V S W P
      → Json V
      → ApiStore V S
      → (api_base auth_token : String) → TfBackend V S W
  tf_backend host j store api_base auth_token =
      let self : TerraformBackend V S = record {
        api_base = api_base;
        auth_token = auth_token;
        upsert_iac_run = store.upsert_iac_run;
        test_mode = false;
        workspace_root = none;
      } in
      record { provision = provision host j self; teardown = teardown host j self }

  -- A call of the store, with `?`.
  unfoldable pub read_store : {A : Type 0} → (S → Result (StoreError V) A) → Handler S W A
  unfolding from_store
  read_store f t = (map_err from_store (f t.0), t)

  unfoldable pub write_store : {A : Type 0} → (S → Result (StoreError V) A × S) → Handler S W A
  unfolding from_store
  write_store f t = let (a, s) = f t.0 in (map_err from_store a, (s, t.1))

-- A call of the Terraform backend, which returns its result as a value.
unfoldable pub on_backend :
    {S W A : Type 0} → (S × W → Result DriverError A × (S × W)) → Handler S W (Result DriverError A)
on_backend f t = let (a, u) = f t in (ok a, u)

-- `ok_or_else(|| ApiError::not_found(msg))?`
unfoldable pub or_not_found : {S W A : Type 0} → String → Option A → Handler S W A
or_not_found msg (some a) = pure a
or_not_found msg none = throw (failed (not_found msg))
