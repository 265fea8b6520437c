-- ===== src/Driver/Terraform/Examples.antt =====
-- The backend on a host where every process ends with the exit code that the world names.
use nclav.Base.Texts.{chars}
use nclav.Base.{
  ℤ, pos, String, ◌≡◌, refl, true, false, none, some, [], ◌∷◌, Map, ok, err, arith, eq_iff, get,
  insert, string_eq, ==_iff,
}
use nclav.Domain.{Enclave, Partition, terraform}
use nclav.Store.Documents.{Doc, text, documents}
use nclav.Driver.Terraform.{Command, Host, TerraformBackend}
use nclav.Driver.Terraform.Hcl.{tfvars_text, module_tf_text}
use nclav.Driver.Terraform.Hcl.Reading.{sorted_inputs, tfvars_text-injective}
use nclav.Driver.Terraform.Hcl.Sorting.{inputs_order}
use nclav.Driver.Terraform.Operations.{
  provision, teardown, provision_run, after_init, apply, after_apply, complete,
}
use nclav.Base.Texts.{starts_with_slash, ends_with}
use nclav.Base.Effects.{
  for_do, for_fold, when, pure, ◌>>=◌, outside, attempt, capture, lift, in_store, throw,
}
use nclav.Driver.Terraform.{extract_tf_config, backend_config, join}
use nclav.Driver.Terraform.Workspace.{
  workspace_dir, workspace_base, prepare, prepare_from, cleanup_module_artifacts, remove_generated,
  symlink_tf_files, symlink_entry, symlink_tf_file, write_backend_tf, write_tfvars, write_file,
}
use nclav.Driver.Terraform.Process.{
  run_tf, finish_process, read_outputs, read_output, add_output, write_run,
}
use nclav.Store.Documents.{member, members, entries}
use nclav.Store.Memory.{Inner, new_store, put_tf_state, upsert_iac_run}
use nclav.Store.Memory.Locks.{put, serve, serve_all}
use nclav.Base.Effects.{during, attempt_during}
use nclav.Driver.Terraform.Recording.InMemory.{
  ByRequests, rest, ProvisionLeaves, TeardownLeaves, provision-ProvisionLeaves,
  teardown-TeardownLeaves,
}

-- The exit code is read off the world. A process that ends puts a state.
abbrev pub host_with : {W : Type 0} → (W → ℤ) → Host Doc (Inner Doc) W Command
host_with code = record {
  env_var = λ name w. (some "/home/ci", w);
  create_dir_all = λ path w. (ok tt, w);
  read_dir = λ path w. (ok (ok "main.tf" ∷ ok "notes.md" ∷ []), w);
  write = λ path content w. (ok tt, w);
  remove_file = λ path w. (ok tt, w);
  canonicalize = λ path w. (ok path, w);
  symlink = λ target link w. (ok tt, w);
  exists = λ path w. (true, w);
  symlink_metadata = λ path w. (err "no such file", w);
  spawn = λ command t. (ok command, t);
  collect = λ child seconds t. (some ("done" ∷ []), t);
  join_readers = λ child t. (tt, t);
  kill = λ child t. (tt, t);
  wait = λ child t. (ok (some (code t.1)), (put_tf_state "shop/api" (1 ∷ []) t.0, t.1));
  now = λ w. (7, w);
  new_uuid = λ w. (3, w);
  debug = chars;
  from_str = λ json.
      ok (documents.object (("url", documents.object (("value", text "https://a") ∷ [])) ∷ []));
}

pub host_with-ByRequests : {W : Type 0} (code : W → ℤ) → ByRequests documents (host_with code)
unfolding serve_all serve
host_with-ByRequests code = record {
  spawn = λ command t. ([], refl);
  collect = λ child seconds t. ([], refl);
  join_readers = λ child t. ([], refl);
  kill = λ child t. ([], refl);
  wait = λ child t. (put "shop/api" (1 ∷ []) ∷ [], refl);
}

abbrev a_host : Host Doc (Inner Doc) ℤ Command
a_host = host_with (λ w. w)

abbrev a_backend : TerraformBackend Doc (Inner Doc)
a_backend = record {
  api_base = "http://127.0.0.1:8080/";
  auth_token = "secret";
  upsert_iac_run = λ run s. (ok tt, upsert_iac_run run s);
  test_mode = false;
  workspace_root = none;
}

abbrev a_partition : Partition
a_partition = record {
  id = "api";
  name = "API";
  produces = none;
  imports = [];
  exports = [];
  inputs = [];
  declared_outputs = "url" ∷ [];
  backend = terraform (record { tool = none; source = none; dir = "/repo/api" });
}

abbrev an_enclave : Enclave
an_enclave = record {
  id = "shop";
  name = "Shop";
  cloud = none;
  region = "eu";
  identity = none;
  network = none;
  dns = none;
  imports = [];
  exports = [];
  partitions = a_partition ∷ [];
}

abbrev some_inputs : Map String String
some_inputs = ("size", "2") ∷ ("motto", "say \"hi\"") ∷ []

abbrev other_listing : Map String String
other_listing = ("motto", "say \"hi\"") ∷ ("size", "2") ∷ []

same_file : tfvars_text "shop" "api" some_inputs ≡ tfvars_text "shop" "api" other_listing
unfolding get
same_file =
    (inputs_order chars "shop" "api" "git::m" some_inputs other_listing
      (((ground (arith, eq_iff "size" "motto")), tt), (tt, tt))
      (((ground (arith, eq_iff "motto" "size")), tt), (tt, tt))
      (λ k. ground (arith, ==_iff "size" k, ==_iff "motto" k, eq_iff "size" "motto"))).0

tfvars_text-injective_example :
    (◌≡◌ {A = String} "shop" "shop")
    × (◌≡◌ {A = String} "api" "api")
    × (sorted_inputs some_inputs ≡ sorted_inputs other_listing)
unfolding get
tfvars_text-injective_example =
    tfvars_text-injective "shop" "shop" "api" "api" some_inputs other_listing (ground arith)
      (ground arith) same_file

inputs_order_example :
    (tfvars_text "shop" "api" some_inputs ≡ tfvars_text "shop" "api" other_listing)
    × (module_tf_text chars "git::m" some_inputs ≡ module_tf_text chars "git::m" other_listing)
unfolding get
inputs_order_example =
    inputs_order chars "shop" "api" "git::m" some_inputs other_listing
      (((ground (arith, eq_iff "size" "motto")), tt), (tt, tt))
      (((ground (arith, eq_iff "motto" "size")), tt), (tt, tt))
      (λ k. ground (arith, ==_iff "size" k, ==_iff "motto" k, eq_iff "size" "motto"))

provision-ProvisionLeaves_example :
    let x =
      provision a_host documents a_backend an_enclave a_partition some_inputs []
        (some 5)
        (new_store, pos 0) in
    ProvisionLeaves an_enclave a_partition (some 5) x.0 (rest new_store) (rest x.1.0)
provision-ProvisionLeaves_example =
    provision-ProvisionLeaves a_host documents a_backend (λ run s. refl) an_enclave a_partition
      (some 5) (host_with-ByRequests (λ w. w)) [] (new_store, pos 0) refl some_inputs

teardown-TeardownLeaves_example :
    let x = teardown a_host documents a_backend an_enclave a_partition [] none (new_store, pos 1) in
    TeardownLeaves an_enclave a_partition none x.0 (rest new_store) (rest x.1.0)
teardown-TeardownLeaves_example =
    teardown-TeardownLeaves a_host documents a_backend (λ run s. refl) an_enclave a_partition none
      (host_with-ByRequests (λ w. w)) [] (new_store, pos 1) refl

-- A run whose processes succeed.
provision_succeeds :
    (provision a_host documents a_backend an_enclave a_partition some_inputs []
      (some 5)
      (new_store, pos 0)).0
    ≡ ok (record {
      handle = documents.object (
          ("backend", text "terraform")
          ∷ ("workspace", text "/home/ci/.nclav/workspaces/shop/api")
          ∷ ("enclave_id", text "shop")
          ∷ ("partition_id", text "api")
          ∷ []);
      outputs = ("url", "https://a") ∷ [];
    })
unfolding provision provision_run extract_tf_config workspace_dir workspace_base join
    starts_with_slash ends_with prepare prepare_from cleanup_module_artifacts remove_generated
    symlink_tf_files symlink_entry symlink_tf_file write_backend_tf write_tfvars write_file run_tf
    finish_process after_init apply after_apply complete read_outputs read_output add_output
    write_run for_do for_fold when pure ◌>>=◌ outside attempt during attempt_during capture lift
    in_store documents member members entries get insert backend_config throw
provision_succeeds = refl
