-- ===== src/Driver/Terraform/Keeping.antt =====
-- The parts of the backend that leave a view of the store alone where the processes do: all but `write_run`.
use nclav.Base.Effects.Rules.{
  Keeps, keeps, Keeps->>=, Keeps-during, Keeps-attempt_during, Keeps-throw, Keeps-pure,
}
use nclav.Base.{◌≡◌, ℕ, String, Option, none, some, and_then, List, Map, Result, ok, err}
use nclav.Driver.{DriverError}
use nclav.Domain.{TerraformConfig}
use nclav.Base.Texts.{Text}
use nclav.Store.{Json}
use nclav.Driver.Terraform.{Command, Host, TerraformBackend}
use nclav.Driver.Terraform.Workspace.{
  workspace_base, workspace_dir, prepare, symlink_tf_file, symlink_entry, symlink_tf_files,
  write_file, refuse_tf, refuse_all, remove_raw, remove_all_raw, prepare_from, check_no_tf_files,
  cleanup_raw_tf_artifacts, write_backend_tf, write_module_tf, write_outputs_tf,
  cleanup_module_artifacts, remove_generated, write_tfvars,
}
use nclav.Driver.Terraform.Process.{finish_process, run_tf, add_output, read_output, read_outputs}

-- The processes leave a view of the store as it was.
pub record Spares {V S W P X : Type 0} (host : Host V S W P) (view : S → X) : Type 0 where
  pub spawn : (command : Command) (t : S × W) → view (host.spawn command t).1.0 ≡ view t.0
  pub collect :
      (child : P) (seconds : ℕ) (t : S × W) → view (host.collect child seconds t).1.0 ≡ view t.0
  pub join_readers : (child : P) (t : S × W) → view (host.join_readers child t).1.0 ≡ view t.0
  pub kill : (child : P) (t : S × W) → view (host.kill child t).1.0 ≡ view t.0
  pub wait : (child : P) (t : S × W) → view (host.wait child t).1.0 ≡ view t.0

module _ {V S W P X : Type 0} (host : Host V S W P) (view : S → X) (spares : Spares host view) where
  workspace_base-Keeps :
      (root : Option String) → Keeps DriverError S W view (workspace_base host root)
  unfolding workspace_base
  workspace_base-Keeps none = search keeps
  workspace_base-Keeps (some root) = search keeps

  pub workspace_dir-Keeps :
      (self : TerraformBackend V S) (enclave_id partition_id : String)
      → Keeps DriverError S W view (workspace_dir host self enclave_id partition_id)
  unfolding workspace_dir
  workspace_dir-Keeps self enclave_id partition_id = search (keeps, workspace_base-Keeps)

  finish_process-Keeps :
      (binary : String) (args : List String) (child : P) (out : Option (List String))
      → Keeps DriverError S W view (finish_process host binary args child out)
  unfolding finish_process
  finish_process-Keeps binary args child none =
      Keeps->>= (Keeps-during (host.kill child) (spares.kill child)) (λ _. Keeps-throw _)
  finish_process-Keeps binary args child (some lines) =
      Keeps->>= (Keeps-attempt_during _ (host.wait child) (spares.wait child)) (λ _. Keeps-pure _)

  pub run_tf-Keeps :
      (self : TerraformBackend V S) (binary workspace : String) (args : List String)
      (auth_env : Map String String)
      → Keeps DriverError S W view (run_tf host self binary workspace args auth_env)
  unfolding run_tf
  run_tf-Keeps self binary workspace args auth_env =
      Keeps->>= (Keeps-attempt_during _ (host.spawn _) (spares.spawn _)) (λ child.
        Keeps->>= (Keeps-during (host.collect child _) (spares.collect child _)) (λ collected.
          Keeps->>= (Keeps-during (host.join_readers child) (spares.join_readers child))
            (λ _. finish_process-Keeps binary args child collected)))

  symlink_tf_file-Keeps :
      (workspace source_dir name : String)
      → Keeps DriverError S W view (symlink_tf_file host workspace source_dir name)
  unfolding symlink_tf_file
  symlink_tf_file-Keeps workspace source_dir name = search keeps depth 12

  symlink_entry-Keeps :
      (workspace source_dir : String) (entry : Result String String)
      → Keeps DriverError S W view (symlink_entry host workspace source_dir entry)
  unfolding symlink_entry
  symlink_entry-Keeps workspace source_dir (ok name) = search (keeps, symlink_tf_file-Keeps)
  symlink_entry-Keeps workspace source_dir (err e) = search keeps

  write_file-Keeps :
      (workspace name : String) (content : Text)
      → Keeps DriverError S W view (write_file host workspace name content)
  unfolding write_file
  write_file-Keeps workspace name content = search keeps

  checked-Keeps :
      (dir : String) (entries : Result String (List (Result String String)))
      → Keeps DriverError S W view (refuse_all host dir entries)
  unfolding refuse_all refuse_tf
  checked-Keeps dir (ok names) = search keeps
  checked-Keeps dir (err e) = search keeps

  cleaned-Keeps :
      (workspace : String) (entries : Result String (List (Result String String)))
      → Keeps DriverError S W view (remove_all_raw host workspace entries)
  unfolding remove_all_raw remove_raw
  cleaned-Keeps workspace (ok names) = search keeps
  cleaned-Keeps workspace (err e) = search keeps

  prepare_from-Keeps :
      (source : Option String) (dir workspace enclave_id partition_id : String)
      (declared_outputs : List String) (resolved_inputs : Map String String)
      → Keeps DriverError S W view (
          prepare_from host source dir workspace enclave_id partition_id declared_outputs
            resolved_inputs)
  unfolding prepare_from check_no_tf_files cleanup_raw_tf_artifacts write_backend_tf write_module_tf
      write_outputs_tf cleanup_module_artifacts remove_generated symlink_tf_files write_tfvars
  prepare_from-Keeps (some source) dir workspace e p outs ins =
      search (keeps, checked-Keeps, cleaned-Keeps, write_file-Keeps)
  prepare_from-Keeps none dir workspace e p outs ins =
      search (keeps, symlink_entry-Keeps, write_file-Keeps)

  pub prepare-Keeps :
      (tf_config : TerraformConfig) (workspace enclave_id partition_id : String)
      (declared_outputs : List String) (resolved_inputs : Map String String)
      → Keeps DriverError S W view (
          prepare host tf_config workspace enclave_id partition_id declared_outputs resolved_inputs)
  unfolding prepare
  prepare-Keeps tf_config workspace e p outs ins =
      prepare_from-Keeps tf_config.source tf_config.dir workspace e p outs ins

  read_output-Keeps :
      (j : Json V) (doc : V) (key : String) (outputs : Map String String)
      → Keeps DriverError S W view (read_output host j doc key outputs)
  unfolding read_output add_output
  read_output-Keeps j doc key outputs =
      found (and_then (and_then (j.get doc key) (λ v. j.get v "value")) j.as_str)
    where
      found : (o : Option String) → Keeps DriverError S W view (add_output host key outputs o)
      found none = search keeps
      found (some val) = search keeps

  pub read_outputs-Keeps :
      (j : Json V) (self : TerraformBackend V S) (binary workspace : String)
      (declared_outputs : List String) (auth_env : Map String String)
      → Keeps DriverError S W view
          (read_outputs host j self binary workspace declared_outputs auth_env)
  unfolding read_outputs
  read_outputs-Keeps j self binary workspace declared_outputs auth_env =
      search (keeps, run_tf-Keeps, read_output-Keeps)
