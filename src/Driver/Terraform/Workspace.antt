-- ===== src/Driver/Terraform/Workspace.antt =====
-- The workspace of a partition in crates/nclav-driver/src/terraform.rs: `workspace_dir` and the functions that
-- generate, link and remove its files.
use text.Mathlib.TextBridge.{of_list}
use nclav.Base.Effects.{pure, throw, ◌>>=◌, ◌>>◌, when, for_do, outside, attempt}
use nclav.Base.Texts.{Text, ends_with}
use nclav.Base.{
  String, ◌<>◌, ◌&&◌, ◌||◌, Option, none, some, List, [], ◌∷◌, Map, Result, ok, err, if◌then◌else◌,
  ◌==◌, string_eq, unwrap_or, is_ok, is_true,
}
use nclav.Domain.{TerraformConfig}
use nclav.Driver.{internal, tf_files_with_module_source}
use nclav.Driver.Terraform.{Act, Host, TerraformBackend, join}
use nclav.Driver.Terraform.Hcl.{tfvars_text, module_tf_text, outputs_tf_text, backend_tf_text}

-- `entries.flatten()`
unfoldable pub flatten : List (Result String String) → List String
flatten [] = []
flatten (ok name ∷ es) = name ∷ flatten es
flatten (err e ∷ es) = flatten es

module _ {V S W P : Type 0} (host : Host V S W P) where
  -- The root of all workspaces.
  unfoldable pub workspace_base : Option String → Act S W String
  unfolding join
  workspace_base (some root) = pure root
  workspace_base none = do
    home ← outside (host.env_var "HOME")
    pure (join (unwrap_or home ".") ".nclav")

  unfoldable pub workspace_dir : TerraformBackend V S → String → String → Act S W String
  unfolding join
  workspace_dir self enclave_id partition_id = do
    base ← workspace_base self.workspace_root
    pure (join (join (join base "workspaces") enclave_id) partition_id)

  -- The body of the loop of `symlink_tf_files`, for a name that ends with `.tf`.
  unfoldable pub symlink_tf_file : String → String → String → Act S W (Unit {0})
  unfolding join
  symlink_tf_file workspace source_dir name = do
    let link = join workspace name
    let path = join source_dir name
    target ←
        attempt (λ e. internal ("canonicalize " <> of_list (host.debug path) <> ": " <> e))
          (host.canonicalize path)
    exists ← outside (host.exists link)
    metadata ← outside (host.symlink_metadata link)
    when (exists || is_ok metadata)
        (attempt (λ e. internal ("remove stale symlink: " <> e)) (host.remove_file link))
    attempt
        (λ e. internal (
          "symlink "
          <> of_list (host.debug link)
          <> " → "
          <> of_list (host.debug target)
          <> ": "
          <> e))
        (host.symlink target link)

  unfoldable pub symlink_entry : String → String → Result String String → Act S W (Unit {0})
  unfolding ends_with
  symlink_entry workspace source_dir (err e) = throw (internal e)
  symlink_entry workspace source_dir (ok name) =
      if ends_with name ".tf" then symlink_tf_file workspace source_dir name else pure tt

  unfoldable pub symlink_tf_files : String → String → Act S W (Unit {0})
  symlink_tf_files workspace source_dir = do
    entries ←
        attempt (λ e. internal ("read source dir " <> of_list (host.debug source_dir) <> ": " <> e))
          (host.read_dir source_dir)
    for_do (symlink_entry workspace source_dir) entries

  -- `std::fs::write(workspace.join(name), content)`
  unfoldable pub write_file : String → String → Text → Act S W (Unit {0})
  unfolding join
  write_file workspace name content =
      attempt (λ e. internal ("write " <> name <> ": " <> e))
        (host.write (join workspace name) content)

  unfoldable pub write_backend_tf : String → Act S W (Unit {0})
  write_backend_tf workspace = write_file workspace "nclav_backend.tf" backend_tf_text

  unfoldable pub write_tfvars : String → String → String → Map String String → Act S W (Unit {0})
  write_tfvars workspace enclave_id partition_id resolved_inputs =
      write_file workspace "nclav_context.auto.tfvars"
        (tfvars_text enclave_id partition_id resolved_inputs)

  unfoldable pub write_module_tf : String → String → Map String String → Act S W (Unit {0})
  write_module_tf workspace source resolved_inputs =
      write_file workspace "nclav_module.tf" (module_tf_text host.debug source resolved_inputs)

  unfoldable pub write_outputs_tf : String → List String → Act S W (Unit {0})
  write_outputs_tf workspace declared_outputs =
      write_file workspace "nclav_outputs.tf" (outputs_tf_text host.debug declared_outputs)

  -- The body of the loop of `check_no_tf_files`.
  unfoldable pub refuse_tf : String → String → Act S W (Unit {0})
  unfolding ends_with
  refuse_tf dir name =
      if ends_with name ".tf" then throw (tf_files_with_module_source dir name) else pure tt

  unfoldable pub refuse_all :
      String → Result String (List (Result String String)) → Act S W (Unit {0})
  unfolding flatten
  refuse_all dir (err e) = pure tt
  refuse_all dir (ok entries) = for_do (refuse_tf dir) (flatten entries)

  unfoldable pub check_no_tf_files : String → Act S W (Unit {0})
  check_no_tf_files dir = do entries ← outside (host.read_dir dir); refuse_all dir entries

  -- The body of the loop of `cleanup_raw_tf_artifacts`.
  unfoldable pub remove_raw : String → String → Act S W (Unit {0})
  unfolding join ends_with
  remove_raw workspace name = do
    let path = join workspace name
    metadata ← outside (host.symlink_metadata path)
    when (ends_with name ".tf" && is_true metadata)
        (attempt (λ e. internal ("remove stale symlink: " <> e)) (host.remove_file path))
    when (name == "nclav_context.auto.tfvars")
        (attempt (λ e. internal ("remove stale tfvars: " <> e)) (host.remove_file path))

  unfoldable pub remove_all_raw :
      String → Result String (List (Result String String)) → Act S W (Unit {0})
  unfolding flatten
  remove_all_raw workspace (err e) = pure tt
  remove_all_raw workspace (ok entries) = for_do (remove_raw workspace) (flatten entries)

  unfoldable pub cleanup_raw_tf_artifacts : String → Act S W (Unit {0})
  cleanup_raw_tf_artifacts workspace = do
    entries ← outside (host.read_dir workspace)
    remove_all_raw workspace entries

  -- The body of the loop of `cleanup_module_artifacts`.
  unfoldable pub remove_generated : String → String → Act S W (Unit {0})
  unfolding join
  remove_generated workspace name = do
    let path = join workspace name
    exists ← outside (host.exists path)
    when exists
        (attempt (λ e. internal ("remove stale " <> name <> ": " <> e)) (host.remove_file path))

  unfoldable pub cleanup_module_artifacts : String → Act S W (Unit {0})
  cleanup_module_artifacts workspace =
      for_do (remove_generated workspace) ("nclav_module.tf" ∷ "nclav_outputs.tf" ∷ [])

  -- The files that `provision` prepares in the workspace, for a module or for an own configuration.
  unfoldable pub prepare_from :
      (source : Option String) (dir workspace enclave_id partition_id : String)
      → List String
      → Map String String
      → Act S W (Unit {0})
  prepare_from (some source) dir workspace enclave_id partition_id declared_outputs
        resolved_inputs =
      do
        check_no_tf_files dir
        cleanup_raw_tf_artifacts workspace
        write_backend_tf workspace
        write_module_tf workspace source resolved_inputs
        write_outputs_tf workspace declared_outputs
  prepare_from none dir workspace enclave_id partition_id declared_outputs resolved_inputs = do
    cleanup_module_artifacts workspace
    symlink_tf_files workspace dir
    write_backend_tf workspace
    write_tfvars workspace enclave_id partition_id resolved_inputs

  unfoldable pub prepare :
      TerraformConfig
      → (workspace enclave_id partition_id : String) → List String
      → Map String String
      → Act S W (Unit {0})
  prepare tf_config = prepare_from tf_config.source tf_config.dir
