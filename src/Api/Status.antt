-- ===== src/Api/Status.antt =====
-- crates/nclav-api/src/handlers.rs: `status` and `list_orphans`.
pub mod Counts
use nclav.Base.Effects.{pure, ◌>>=◌, for_fold, outside}
use nclav.Base.Order.{sort}
use nclav.Base.{
  ℕ, ◌+◌, String, leb, Option, none, some, unwrap_or, List, [], ◌∷◌, ◌++◌, map, flat_map, length,
  Map, get, insert, Result, ok, err, if◌then◌else◌, string_eq, unwrap_or_default,
}
use nclav.Domain.{EnclaveId, PartitionId, CloudTarget, cloud_name}
use nclav.Store.{EnclaveState, PartitionState, ResourceError, status_name}
use nclav.Driver.{Driver, DriverError, OrphanedResource}
use nclav.Driver.Registry.{for_cloud, active_clouds}
use nclav.Api.{AppState, Handler}
use nclav.Api.Enclaves.{list_enclaves}

pub record ErrorEntry : Type 0 where
  pub enclave_id : EnclaveId
  pub partition_id : Option PartitionId
  pub message : String
  pub occurred_at : ℕ

pub record StatusView : Type 0 where
  pub enclave_count : ℕ
  pub by_status : Map String ℕ
  pub last_reconciled_at : Option ℕ
  pub errors : List ErrorEntry
  pub default_cloud : CloudTarget
  pub active_drivers : List String

pub record Orphan : Type 0 where
  pub enclave : EnclaveId
  pub resource : OrphanedResource

-- `*by_status.entry(key).or_default() += 1`
unfoldable pub bump : String → Map String ℕ → Map String ℕ
unfolding get insert
bump key m = insert key (unwrap_or (get key m) 0 + 1) m

unfoldable pub error_entry : EnclaveId → Option PartitionId → Option ResourceError → List ErrorEntry
error_entry enclave partition none = []
error_entry enclave partition (some e) =
    record {
      enclave_id = enclave;
      partition_id = partition;
      message = e.message;
      occurred_at = e.occurred_at;
    }
    ∷ []

-- `iter().filter_map(f).max()`
unfoldable pub latest : List (Option ℕ) → Option ℕ
latest [] = none
latest (none ∷ os) = latest os
latest (some a ∷ os) = elim (latest os) [ none ↦ some a | some b ↦ some (if leb a b then b else a) ]

module _ {V : Type 0} where
  unfoldable pub count_statuses : List (EnclaveState V) → Map String ℕ → Map String ℕ
  unfolding bump status_name
  count_statuses [] m = m
  count_statuses (s ∷ ss) m = count_statuses ss (bump (status_name s.meta.status) m)

  unfoldable pub state_errors : EnclaveState V → List ErrorEntry
  unfolding error_entry
  state_errors s =
      error_entry s.desired.id none s.meta.last_error
      ++ flat_map
          (λ (p : PartitionId × PartitionState V).
            error_entry s.desired.id (some p.0) p.1.meta.last_error)
          s.partitions

module _ {V S W : Type 0} (state : AppState V S W) where
  unfoldable pub status_view : List (EnclaveState V) → StatusView
  unfolding count_statuses state_errors latest sort active_clouds cloud_name
  status_view enclaves = record {
    enclave_count = length enclaves;
    by_status = count_statuses enclaves [];
    last_reconciled_at = latest (map (λ (s : EnclaveState V). s.meta.updated_at) enclaves);
    errors = flat_map state_errors enclaves;
    default_cloud = state.env.registry.default_cloud;
    active_drivers = sort (map cloud_name (active_clouds state.env.registry));
  }

  unfoldable pub status : Handler S W StatusView
  status = list_enclaves state >>= λ enclaves. pure (status_view enclaves)

  -- The orphans that a driver lists for an enclave; an error counts as none.
  unfoldable pub orphans_of :
      EnclaveState V → Option V → Result DriverError (Driver V W) → Handler S W (List Orphan)
  orphans_of enc_state none driver = pure []
  orphans_of enc_state (some enc_handle) (err e) = pure []
  orphans_of enc_state (some enc_handle) (ok driver) = do
    listed ← outside (
        driver.list_orphaned_resources enc_state.desired enc_handle
          (map (λ p. p.0) enc_state.partitions))
    pure (
        map (λ o. record { enclave = enc_state.desired.id; resource = o })
          (unwrap_or_default listed))

  unfoldable pub list_orphans : Handler S W (List Orphan)
  unfolding for_cloud
  list_orphans = do
    enclaves ← list_enclaves state
    for_fold
        (λ (enc_state : EnclaveState V) orphans. do
          found ← orphans_of enc_state enc_state.enclave_handle (
              for_cloud state.env.registry
                (unwrap_or enc_state.resolved_cloud state.env.registry.default_cloud))
          pure (orphans ++ found))
        enclaves []
