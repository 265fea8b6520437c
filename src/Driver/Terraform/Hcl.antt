-- ===== src/Driver/Terraform/Hcl.antt =====
-- The files that crates/nclav-driver/src/terraform.rs generates: `tfvar`, and the texts that
-- `write_tfvars`, `write_module_tf`, `write_outputs_tf` and `write_backend_tf` write.
pub mod Reading
pub mod Sorting
use nclav.Base.Texts.{Text, chars, replace}
use nclav.Base.Order.{sort}
use nclav.Base.{
  String, Bool, Option, unwrap_or, List, [], ◌∷◌, ◌++◌, map, flat_map, Map, get, string_eq,
}

abbrev pub quote : Text
quote = chars "\""

-- `value.replace('\\', "\\\\").replace('"', "\\\"")`
unfoldable pub escape : Text → Text
unfolding replace
escape value = replace 0x22 (chars "\\\"") (replace 0x5c (chars "\\\\") value)

unfoldable pub tfvar : String → String → Text
unfolding escape
tfvar key value = chars key ++ (chars " = \"" ++ (escape (chars value) ++ chars "\"\n"))

-- `keys().collect()` and `sort()`
unfoldable pub sorted_keys : Map String String → List String
unfolding sort
sorted_keys m = sort (map (λ p. p.0) m)

-- `resolved_inputs[k]`, for a key of the map
unfoldable pub value_at : Map String String → String → String
unfolding get
value_at m k = unwrap_or (get k m) ""

-- `if !resolved_inputs.is_empty() { .. }`, with what goes before the lines of the inputs
unfoldable pub inputs_text : Text → (String → String → Text) → Map String String → Text
unfolding sorted_keys value_at
inputs_text title line [] = []
inputs_text title line (p ∷ m) =
    title ++ flat_map (λ k. line k (value_at (p ∷ m) k)) (sorted_keys (p ∷ m))

-- What `write_tfvars` writes.
unfoldable pub tfvars_text : String → String → Map String String → Text
unfolding tfvar inputs_text
tfvars_text enclave_id partition_id resolved_inputs =
    chars "# Generated by nclav — do not edit\n\n"
    ++ (chars "# nclav metadata — always injected. Declare these as optional variables\n"
        ++ (chars "# and apply via local.nclav_labels on all resources you create.\n"
            ++ (tfvar "nclav_enclave" enclave_id
                ++ (tfvar "nclav_partition" partition_id
                    ++ inputs_text (chars "\n# Partition inputs (from inputs: in config.yml)\n")
                        tfvar resolved_inputs))))

-- What `write_module_tf` writes; `debug` is the format `{:?}`.
unfoldable pub module_tf_text : (debug : String → Text) → String → Map String String → Text
unfolding tfvar inputs_text
module_tf_text debug source resolved_inputs =
    chars "# Generated by nclav — do not edit\n"
    ++ (chars "module \"nclav_partition\" {\n"
        ++ ((chars "  source = " ++ (debug source ++ chars "\n"))
            ++ (inputs_text (chars "\n") (λ k v. chars "  " ++ tfvar k v) resolved_inputs
                ++ chars "}\n")))

-- What `write_outputs_tf` writes.
unfoldable pub outputs_tf_text : (debug : String → Text) → List String → Text
outputs_tf_text debug declared_outputs =
    chars "# Generated by nclav — do not edit\n"
    ++ flat_map
        (λ key.
          chars "output "
          ++ (debug key
              ++ (chars " { value = module.nclav_partition." ++ (chars key ++ chars " }\n"))))
        declared_outputs

-- What `write_backend_tf` writes.
abbrev pub backend_tf_text : Text
backend_tf_text =
    chars "# Generated by nclav — do not edit\nterraform {\n  backend \"http\" {}\n}\n"
