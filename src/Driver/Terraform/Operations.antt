-- ===== src/Driver/Terraform/Operations.antt =====
-- `TerraformBackend::provision`, `teardown` and `observe` of crates/nclav-driver/src/terraform.rs.

use nclav.Base.Effects.{pure, throw, ◌>>=◌, ◌>>◌, capture, lift, outside, attempt}
use nclav.Base.Texts.{int_text, trim_end_matches}
use nclav.Base.{
  ℕ, ℤ, pos, String, ◌<>◌, true, false, not, Option, some, List, [], ◌∷◌, map, Map, from_list,
  Result, ok, err, if◌then◌else◌, string_eq,
}
use nclav.Domain.{Enclave, Partition}
use nclav.Store.{IacOperation, provision as provision_op, teardown as teardown_op, Json}
use nclav.Driver.{
  DriverError, driver_error_message, internal, provision_failed, teardown_failed, ProvisionResult,
  ObservedState,
}
use nclav.Driver.Terraform.{Act, Host, TerraformBackend, extract_tf_config}
use nclav.Driver.Terraform.Workspace.{workspace_dir, prepare}
use nclav.Driver.Terraform.Process.{is_zero, run_tf, read_outputs, write_run}

module _ {V S W P : Type 0} (host : Host V S W P) (j : Json V) (self : TerraformBackend V S) where
  -- The address of the state of a partition, with the option before it.
  unfoldable pub backend_option : String → Enclave → Partition → String → String
  unfolding trim_end_matches
  backend_option option enclave partition end =
      "-backend-config="
      <> option
      <> "="
      <> trim_end_matches 0x2f self.api_base
      <> "/terraform/state/"
      <> enclave.id
      <> "/"
      <> partition.id
      <> end

  unfoldable pub init_args : Enclave → Partition → List String
  init_args enclave partition =
      "init"
      ∷ "-reconfigure"
      ∷ "-no-color"
      ∷ backend_option "address" enclave partition ""
      ∷ backend_option "lock_address" enclave partition "/lock"
      ∷ backend_option "unlock_address" enclave partition "/lock"
      ∷ "-backend-config=lock_method=POST"
      ∷ "-backend-config=unlock_method=DELETE"
      ∷ "-backend-config=username=nclav"
      ∷ []

  -- The results of `test_mode`.
  unfoldable pub test_result : Enclave → Partition → ProvisionResult V
  unfolding from_list
  test_result enclave partition = record {
    handle = j.object (
        ("backend", j.str "test")
        ∷ ("enclave_id", j.str enclave.id)
        ∷ ("partition_id", j.str partition.id)
        ∷ []);
    outputs = from_list (map (λ k. (k, "test://" <> k)) partition.declared_outputs);
  }

  module _ (enclave : Enclave) (partition : Partition) (auth_env : Map String String)
      (reconcile_run_id : Option ℕ) where
    -- A record of the run, and the error that ends the operation.
    unfoldable pub fail_run : {A : Type 0} → IacOperation → String → ℤ → DriverError → Act S W A
    fail_run operation log code e = do
      write_run host self enclave partition operation reconcile_run_id log (some code)
      throw e

    -- After a successful `apply`.
    unfoldable pub complete : String → String → String → Act S W (ProvisionResult V)
    complete binary workspace log = do
      outputs ← read_outputs host j self binary workspace partition.declared_outputs auth_env
      write_run host self enclave partition provision_op reconcile_run_id log (some (pos 0))
      pure (record {
        handle = j.object (
            ("backend", j.str binary)
            ∷ ("workspace", j.str workspace)
            ∷ ("enclave_id", j.str enclave.id)
            ∷ ("partition_id", j.str partition.id)
            ∷ []);
        outputs = outputs;
      })

    unfoldable pub after_apply :
        String → String → String → Result DriverError (ℤ × String) → Act S W (ProvisionResult V)
    unfolding driver_error_message int_text
    after_apply binary workspace log (err e) =
        let msg = driver_error_message e in
        fail_run provision_op (log <> "\n=== terraform apply ===\n" <> msg) (pos 1)
          (provision_failed ("terraform apply: " <> msg))
    after_apply binary workspace log (ok (exit, output)) =
        let log' = log <> "\n=== terraform apply ===\n" <> output in
        if not (is_zero exit)
        then fail_run provision_op log' exit
            (provision_failed ("terraform apply exited with code " <> int_text exit))
        else complete binary workspace log'

    unfoldable pub apply : String → String → String → Act S W (ProvisionResult V)
    apply binary workspace log = do
      applied ← capture (
          run_tf host self binary workspace ("apply" ∷ "-auto-approve" ∷ "-no-color" ∷ []) auth_env)
      after_apply binary workspace log applied

    unfoldable pub after_init :
        String → String → Result DriverError (ℤ × String) → Act S W (ProvisionResult V)
    unfolding driver_error_message int_text
    after_init binary workspace (err e) =
        let msg = driver_error_message e in
        fail_run provision_op msg (pos 1) (provision_failed ("terraform init: " <> msg))
    after_init binary workspace (ok (exit, output)) =
        let log = "=== terraform init ===\n" <> output in
        if not (is_zero exit)
        then fail_run provision_op log exit
            (provision_failed ("terraform init exited with code " <> int_text exit))
        else apply binary workspace log

    -- The part of `provision` after `test_mode`.
    unfoldable pub provision_run : Map String String → Act S W (ProvisionResult V)
    unfolding extract_tf_config
    provision_run resolved_inputs = do
      config ← lift (extract_tf_config partition)
      workspace ← workspace_dir host self enclave.id partition.id
      attempt (λ e. internal ("create workspace dir: " <> e)) (host.create_dir_all workspace)
      prepare host config.1 workspace enclave.id partition.id partition.declared_outputs
          resolved_inputs
      initialised ←
          capture (run_tf host self config.0 workspace (init_args enclave partition) auth_env)
      after_init config.0 workspace initialised

    unfoldable pub after_destroy : Result DriverError (ℤ × String) → Act S W (Unit {0})
    unfolding driver_error_message int_text
    after_destroy (err e) =
        let msg = driver_error_message e in
        fail_run teardown_op msg (pos 1) (teardown_failed ("terraform destroy: " <> msg))
    after_destroy (ok (exit, output)) =
        let log = "=== terraform destroy ===\n" <> output in
        if not (is_zero exit)
        then fail_run teardown_op log exit
            (teardown_failed ("terraform destroy exited with code " <> int_text exit))
        else write_run host self enclave partition teardown_op reconcile_run_id log (some (pos 0))

    unfoldable pub destroy : String → String → Act S W (Unit {0})
    destroy binary workspace = do
      destroyed ← capture (
          run_tf host self binary workspace ("destroy" ∷ "-auto-approve" ∷ "-no-color" ∷ [])
            auth_env)
      after_destroy destroyed

    unfoldable pub teardown_run : Act S W (Unit {0})
    unfolding extract_tf_config
    teardown_run = do
      config ← lift (extract_tf_config partition)
      workspace ← workspace_dir host self enclave.id partition.id
      exists ← outside (host.exists workspace)
      if not exists then pure tt else destroy config.0 workspace

  unfoldable pub provision :
      Enclave
      → Partition
      → Map String String
      → Map String String
      → Option ℕ
      → Act S W (ProvisionResult V)
  unfolding test_result
  provision enclave partition resolved_inputs auth_env reconcile_run_id =
      if self.test_mode
      then pure (test_result enclave partition)
      else provision_run enclave partition auth_env reconcile_run_id resolved_inputs

  unfoldable pub teardown : Enclave → Partition → Map String String → Option ℕ → Act S W (Unit {0})
  teardown enclave partition auth_env reconcile_run_id =
      if self.test_mode then pure tt else teardown_run enclave partition auth_env reconcile_run_id

  -- What is observed where the workspace is missing or its outputs cannot be read.
  abbrev pub absent : V → ObservedState V
  absent handle = record { exists = false; healthy = false; outputs = []; raw = handle }

  unfoldable pub observed : V → Result DriverError (Map String String) → ObservedState V
  observed handle (ok outputs) = record {
    exists = true;
    healthy = true;
    outputs = outputs;
    raw = handle;
  }
  observed handle (err e) = absent handle

  unfoldable pub observe_outputs :
      String → String → Partition → Map String String → V → Act S W (ObservedState V)
  unfolding observed
  observe_outputs binary workspace partition auth_env handle = do
    read ← capture (read_outputs host j self binary workspace partition.declared_outputs auth_env)
    pure (observed handle read)

  unfoldable pub observe : Enclave → Partition → Map String String → V → Act S W (ObservedState V)
  unfolding extract_tf_config
  observe enclave partition auth_env handle = do
    config ← lift (extract_tf_config partition)
    workspace ← workspace_dir host self enclave.id partition.id
    exists ← outside (host.exists workspace)
    if not exists
        then pure (absent handle)
        else observe_outputs config.0 workspace partition auth_env handle
