-- ===== src/Reconcile/Partitions.antt =====
-- Step 7 of `reconcile` in crates/nclav-reconciler/src/reconcile.rs, for one partition.
pub mod Settled
use nclav.Base.{
  ℕ, String, ◌<>◌, Bool, true, false, Option, none, some, and_then, map_option, is_some, unwrap_or,
  List, [], ◌∷◌, map, Map, get, insert, contains_key, Result, ok, err, if◌then◌else◌, string_eq,
}
use nclav.Domain.{Enclave, Partition, PartitionId}
use nclav.Store.{
  EnclaveState, PartitionState, new_partition_state, ResourceMeta, mark_active, mark_error,
  updating, provisioning, partition_provisioned, partition_error, Json,
}
use nclav.Driver.{Driver, DriverError, ProvisionResult, driver_error_message}
use nclav.Reconcile.Action.{
  Env, Action, pure, ◌>>=◌, ◌>>◌, write_store, try_store, outside, outside_store, push_error,
  for_fold,
}
use nclav.Reconcile.Plan.{hash_unchanged, part_meta_of}
use nclav.Reconcile.Template.{Values, resolve_template}

abbrev pub message_result : {A : Type 0} → Result DriverError A → (A → A) → Result String A
message_result (ok a) f = ok (f a)
message_result (err e) f = err (driver_error_message e)

module _ {V : Type 0} where
  -- `entry(part.id).or_insert_with(|| PartitionState::new(part))`, changed by `f`
  unfoldable pub modify_partition :
      Partition → (PartitionState V → PartitionState V) → EnclaveState V → EnclaveState V
  unfolding get insert
  modify_partition part f enc_state = record enc_state {
    partitions =
        insert part.id (f (unwrap_or (get part.id enc_state.partitions) (new_partition_state part)))
          enc_state.partitions;
  }

  -- The partition state that is stored before the driver is called.
  unfoldable pub started_partition : Partition → Option (PartitionState V) → PartitionState V
  started_partition part part_existing =
      let ps = unwrap_or part_existing (new_partition_state part) in
      record ps {
        desired = part;
        meta = record ps.meta {
          status = if is_some ps.partition_handle then updating else provisioning;
        };
      }

module _ {V S W : Type 0} (env : Env V S W) where
  -- The lookups of `resolve_template` in the state of the enclave.
  abbrev pub template_values : EnclaveState V → Map String String → Values
  template_values enc_state context_vars = record {
    import_value = λ alias key. and_then (get alias enc_state.import_handles) (λ h.
        and_then (env.json.get h "outputs") (λ o. and_then (env.json.get o key) env.json.as_str));
    context_value = λ inner. get inner context_vars;
  }

  unfoldable pub resolve_inputs :
      Map String String → EnclaveState V → Map String String → Map String String
  unfolding resolve_template
  resolve_inputs inputs enc_state context_vars =
      map
        (λ (p : String × String).
          (p.0, resolve_template (template_values enc_state context_vars) p.1))
        inputs

  abbrev pub partition_sa : V → Option String
  partition_sa handle = env.json.as_str (env.json.index handle "partition_sa")

  -- The environment of Terraform: in the mode with a service-account key it acts as the partition's
  -- account.
  unfoldable pub impersonate : V → Map String String → Map String String
  unfolding contains_key insert
  impersonate handle auth_env =
      if contains_key "GOOGLE_APPLICATION_CREDENTIALS" auth_env
      then unwrap_or
          (map_option (λ sa. insert "GOOGLE_IMPERSONATE_SERVICE_ACCOUNT" sa auth_env)
            (partition_sa handle))
          auth_env
      else auth_env

  -- The handle of Terraform with the account of the partition in it.
  unfoldable pub merge_sa : V → ProvisionResult V → ProvisionResult V
  merge_sa handle result = elim (partition_sa handle) [
    | none ↦ result
    | some sa ↦ record result {
      handle = env.json.set result.handle "partition_sa" (env.json.str sa);
    }
  ]

  module _ (run_id : ℕ) (driver : Driver V W) (enc : Enclave) where
    -- The rest of the step once the driver has answered for the partition's account: the result, and
    -- the state of the enclave.
    unfoldable pub run_terraform :
        Partition
        → Map String String
        → EnclaveState V
        → Result DriverError (ProvisionResult V)
        → Action V S W (Result String (ProvisionResult V) × EnclaveState V)
    unfolding impersonate merge_sa driver_error_message
    run_terraform part resolved_inputs enc_state (err e) =
        pure (err (driver_error_message e), enc_state)
    run_terraform part resolved_inputs enc_state (ok sa_provision) = do
      let enc_state' =
          modify_partition part (λ ps. record ps { partition_handle = some sa_provision.handle })
            enc_state
      try_store (env.state_store.upsert_enclave enc_state')
      let auth_env =
          impersonate sa_provision.handle
            (unwrap_or (map_option (driver.auth_env enc) enc_state'.enclave_handle) [])
      result ←
          outside_store (env.tf_backend.provision enc part resolved_inputs auth_env (some run_id))
      pure (message_result result (merge_sa sa_provision.handle), enc_state')

    -- What is recorded of the result.
    unfoldable pub record_result :
        Partition
        → String
        → EnclaveState V
        → Result String (ProvisionResult V)
        → Action V S W (EnclaveState V)
    unfolding mark_active mark_error
    record_result part part_hash enc_state (ok result) = do
      now ← outside env.now
      let enc_state' =
          modify_partition part
            (λ ps. record ps {
              partition_handle = some result.handle;
              resolved_outputs = result.outputs;
              meta = mark_active now part_hash ps.meta;
            })
            enc_state
      id ← outside env.new_uuid
      at ← outside env.now
      write_store (env.state_store.append_event (partition_provisioned id at enc.id part.id))
      pure enc_state'
    record_result part part_hash enc_state (err msg) = do
      now ← outside env.now
      let enc_state' =
          modify_partition part (λ ps. record ps { meta = mark_error now msg ps.meta }) enc_state
      id ← outside env.new_uuid
      at ← outside env.now
      write_store (env.state_store.append_event (partition_error id at enc.id part.id msg))
      push_error ("partition " <> enc.id <> "/" <> part.id <> ": " <> msg)
      pure enc_state'

    -- A partition that has changed.
    unfoldable pub apply_partition :
        Partition → String → EnclaveState V → Action V S W (EnclaveState V)
    unfolding run_terraform record_result started_partition resolve_inputs get insert
    apply_partition part part_hash enc_state = do
      let context_vars =
          unwrap_or (map_option (driver.context_vars enc) enc_state.enclave_handle) []
      let resolved_inputs = resolve_inputs part.inputs enc_state context_vars
      let part_state = started_partition part (get part.id enc_state.partitions)
      let enc_state' = record enc_state {
        partitions = insert part.id part_state enc_state.partitions;
      }
      write_store (env.state_store.upsert_enclave enc_state')
      sa_result ←
          outside (driver.provision_partition enc part resolved_inputs part_state.partition_handle)
      (result, enc_state'') ← run_terraform part resolved_inputs enc_state' sa_result
      record_result part part_hash enc_state'' result

    -- The body of the loop over the partitions.
    unfoldable pub provision_partition : Partition → EnclaveState V → Action V S W (EnclaveState V)
    unfolding apply_partition hash_unchanged get
    provision_partition part enc_state =
        let part_hash = env.hashes.partition_hash part in
        let part_existing = get part.id enc_state.partitions in
        let changed = apply_partition part part_hash enc_state in
        if hash_unchanged (part_meta_of part_existing) part_hash then pure enc_state else changed

    unfoldable pub provision_partitions : EnclaveState V → Action V S W (EnclaveState V)
    unfolding for_fold provision_partition
    provision_partitions = for_fold provision_partition enc.partitions
