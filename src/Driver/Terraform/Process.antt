-- ===== src/Driver/Terraform/Process.antt =====
-- The processes of crates/nclav-driver/src/terraform.rs: `run_tf`, `read_outputs` and `write_run`.
use text.Mathlib.TextBridge.{of_list}
use nclav.Base.Effects.{
  pure, throw, ◌>>=◌, ◌>>◌, lift, for_fold, outside, during, attempt_during, in_store,
}
use nclav.Base.Texts.{chars, trim, lines_text, int_text}
use nclav.Base.{
  ℕ, ℤ, pos, negsuc, zero, String, ◌<>◌, Bool, true, false, not, Option, none, some, and_then,
  unwrap_or, List, [], ◌∷◌, Map, insert, map_err, if◌then◌else◌, string_eq, from_list,
}
use nclav.Domain.{Enclave, Partition}
use nclav.Store.{IacRun, IacOperation, IacRunStatus, succeeded, failed, Json}
use nclav.Driver.{internal, provision_failed}
use nclav.Driver.Terraform.{Act, Command, Host, TerraformBackend}

abbrev pub is_zero : ℤ → Bool
is_zero (pos zero) = true
is_zero _ = false

abbrev pub timeout_secs : ℕ
timeout_secs = 1800

-- `args.first().copied().unwrap_or("")`
abbrev first : List String → String
first [] = ""
first (a ∷ as') = a

-- The arm of `match exit_code` in `write_run`.
unfoldable pub run_status : Option ℤ → IacRunStatus
run_status (some (pos zero)) = succeeded
run_status _ = failed

-- The record that `write_run` builds.
unfoldable pub new_run :
    Enclave
    → Partition
    → IacOperation
    → Option ℕ
    → String
    → Option ℤ
    → (id started_at finished_at : ℕ) → IacRun
unfolding run_status
new_run enclave partition operation reconcile_run_id log exit_code id started_at finished_at =
    record {
      id = id;
      enclave_id = enclave.id;
      partition_id = partition.id;
      operation = operation;
      started_at = started_at;
      finished_at = some finished_at;
      status = run_status exit_code;
      exit_code = exit_code;
      log = log;
      reconcile_run_id = reconcile_run_id;
    }

module _ {V S W P : Type 0} (host : Host V S W P) where
  -- `.env(..)` three times and `.envs(auth_env)`: a later setting of a variable replaces an earlier one.
  unfoldable pub tf_command :
      TerraformBackend V S → String → String → List String → Map String String → Command
  tf_command self binary workspace args auth_env = record {
    binary = binary;
    args = args;
    current_dir = workspace;
    env = from_list (
        ("TF_HTTP_PASSWORD", self.auth_token)
        ∷ ("TF_IN_AUTOMATION", "1")
        ∷ ("TF_INPUT", "0")
        ∷ auth_env);
  }

  -- What follows the reading of the streams.
  unfoldable pub finish_process :
      String → List String → P → Option (List String) → Act S W (ℤ × String)
  unfolding lines_text
  finish_process binary args child none = do
    during (host.kill child)
    throw (provision_failed (binary <> " " <> first args <> " timed out after 30 minutes"))
  finish_process binary args child (some lines) = do
    status ← attempt_during (λ e. internal ("wait " <> binary <> ": " <> e)) (host.wait child)
    pure (unwrap_or status (negsuc 0), lines_text lines)

  unfoldable pub run_tf :
      TerraformBackend V S
      → String
      → String
      → List String
      → Map String String
      → Act S W (ℤ × String)
  unfolding tf_command
  run_tf self binary workspace args auth_env = do
    child ←
        attempt_during (λ e. internal ("spawn " <> binary <> ": " <> e))
          (host.spawn (tf_command self binary workspace args auth_env))
    collected ← during (host.collect child timeout_secs)
    during (host.join_readers child)
    finish_process binary args child collected

  unfoldable pub add_output :
      String → Map String String → Option String → Act S W (Map String String)
  unfolding insert
  add_output key outputs (some val) = pure (insert key val outputs)
  add_output key outputs none =
      throw (provision_failed ("declared output '" <> key <> "' missing from terraform output"))

  -- The body of the loop of `read_outputs`.
  unfoldable pub read_output : Json V → V → String → Map String String → Act S W (Map String String)
  read_output j doc key outputs =
      add_output key outputs (and_then (and_then (j.get doc key) (λ v. j.get v "value")) j.as_str)

  unfoldable pub read_outputs :
      Json V
      → TerraformBackend V S
      → String
      → String
      → List String
      → Map String String
      → Act S W (Map String String)
  unfolding trim int_text
  read_outputs j self binary workspace declared_outputs auth_env = do
    out ← run_tf self binary workspace ("output" ∷ "-json" ∷ "-no-color" ∷ []) auth_env
    if not (is_zero out.0)
        then throw (provision_failed ("terraform output exited with code " <> int_text out.0))
        else pure tt
    doc ← lift (
        map_err (λ e. provision_failed ("parse terraform output: " <> e))
          (host.from_str (of_list (trim (chars out.1)))))
    for_fold (read_output j doc) declared_outputs []

  -- The record of a run; an error of the store is only logged.
  unfoldable pub write_run :
      TerraformBackend V S
      → Enclave
      → Partition
      → IacOperation
      → Option ℕ
      → String
      → Option ℤ
      → Act S W (Unit {0})
  unfolding new_run
  write_run self enclave partition operation reconcile_run_id log exit_code = do
    id ← outside host.new_uuid
    started_at ← outside host.now
    finished_at ← outside host.now
    in_store (
        self.upsert_iac_run (
          new_run enclave partition operation reconcile_run_id log exit_code id started_at
            finished_at))
    pure tt
