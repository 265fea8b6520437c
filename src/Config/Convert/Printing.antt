-- ===== src/Config/Convert/Printing.antt =====
-- How a partition is written in its configuration file, and what the conversion reads of it.
use nclav.Base.{
  String, ◌≡◌, refl, Option, none, some, map_option, unwrap_or, List, [], ◌∷◌, map, Result, ok,
  collect, transpose, string_eq, ==_iff, arith,
}
use nclav.Domain.{
  CloudTarget, cloud_name, ExportType, export_type_name, AuthType, auth_name, ProducesType,
  produces_name, ExportTarget, public, any_enclave, vpn, Export, Import, Partition,
  PartitionBackend, TerraformConfig,
}
use nclav.Config.Raw.{RawExport, RawExportTarget, RawImport, RawPartition, ConfigError}
use nclav.Config.Convert.{
  parse_cloud, parse_produces, parse_export_type, parse_auth, convert_export_target, convert_export,
  convert_import, terraform_config, convert_backend, convert_partition,
}

-- The names of the clouds are read back, and nothing else is read as a cloud.
pub parse_cloud_iff :
    (s path : String) (c : CloudTarget)
    → (parse_cloud s path ≡ ok c → s ≡ cloud_name c) × (parse_cloud (cloud_name c) path ≡ ok c)
unfolding parse_cloud cloud_name
parse_cloud_iff s path CloudTarget.local = (
  (λ h. ground (arith, ==_iff s "local", ==_iff s "gcp", ==_iff s "azure", ==_iff s "aws")),
  refl,
)
parse_cloud_iff s path CloudTarget.gcp = (
  (λ h. ground (arith, ==_iff s "local", ==_iff s "gcp", ==_iff s "azure", ==_iff s "aws")),
  refl,
)
parse_cloud_iff s path CloudTarget.azure = (
  (λ h. ground (arith, ==_iff s "local", ==_iff s "gcp", ==_iff s "azure", ==_iff s "aws")),
  refl,
)
parse_cloud_iff s path CloudTarget.aws = (
  (λ h. ground (arith, ==_iff s "local", ==_iff s "gcp", ==_iff s "azure", ==_iff s "aws")),
  refl,
)

unfoldable pub print_target : ExportTarget → RawExportTarget
print_target public = RawExportTarget.simple "public"
print_target any_enclave = RawExportTarget.simple "any_enclave"
print_target vpn = RawExportTarget.simple "vpn"
print_target (ExportTarget.enclave e) = RawExportTarget.enclave e
print_target (ExportTarget.partition p) = RawExportTarget.partition p

unfoldable pub print_export : Export → RawExport
print_export x = record {
  name = x.name;
  target_partition = x.target_partition;
  export_type = export_type_name x.export_type;
  to = print_target x.to;
  auth = auth_name x.auth;
  hostname = x.hostname;
  port = x.port;
}

unfoldable pub print_import : Import → RawImport
print_import i = record { from = i.from; export_name = i.export_name; alias = i.alias }

abbrev pub tool_of : PartitionBackend → TerraformConfig
tool_of (PartitionBackend.terraform c) = c
tool_of (PartitionBackend.open_tofu c) = c

abbrev pub backend_name : PartitionBackend → String
backend_name (PartitionBackend.terraform c) = "terraform"
backend_name (PartitionBackend.open_tofu c) = "opentofu"

unfoldable pub print_partition : Partition → RawPartition
print_partition p = record {
  id = p.id;
  name = p.name;
  produces = map_option produces_name p.produces;
  imports = map print_import p.imports;
  exports = map print_export p.exports;
  inputs = p.inputs;
  declared_outputs = p.declared_outputs;
  backend = backend_name p.backend;
  terraform =
      some (record { tool = (tool_of p.backend).tool; source = (tool_of p.backend).source });
}

module _ (path : String) where
  parse_export_type-name : (t : ExportType) → parse_export_type (export_type_name t) path ≡ ok t
  unfolding parse_export_type export_type_name
  parse_export_type-name ExportType.http = refl
  parse_export_type-name ExportType.tcp = refl
  parse_export_type-name ExportType.queue = refl

  parse_auth-name : (t : AuthType) → parse_auth (auth_name t) path ≡ ok t
  unfolding parse_auth auth_name
  parse_auth-name AuthType.none = refl
  parse_auth-name AuthType.token = refl
  parse_auth-name AuthType.oauth = refl
  parse_auth-name AuthType.mtls = refl
  parse_auth-name AuthType.native = refl

  parse_produces-print :
      (o : Option ProducesType)
      → transpose (λ s. parse_produces s path) (map_option produces_name o) ≡ ok o
  unfolding parse_produces produces_name transpose
  parse_produces-print none = refl
  parse_produces-print (some ProducesType.http) = refl
  parse_produces-print (some ProducesType.tcp) = refl
  parse_produces-print (some ProducesType.queue) = refl

  convert_export_target-print :
      (t : ExportTarget) → convert_export_target (print_target t) path ≡ ok t
  unfolding convert_export_target print_target
  convert_export_target-print public = refl
  convert_export_target-print any_enclave = refl
  convert_export_target-print vpn = refl
  convert_export_target-print (ExportTarget.enclave e) = refl
  convert_export_target-print (ExportTarget.partition p) = refl

  convert_export-print_export : (x : Export) → convert_export (print_export x) path ≡ ok x
  unfolding convert_export print_export
  convert_export-print_export x =
      rw
        (
          parse_export_type-name x.export_type,
          parse_auth-name x.auth,
          convert_export_target-print x.to,
        )
        refl

  collect-map :
      {A B : Type 0} (f : B → Result ConfigError A) (g : A → B)
      → ((a : A) → f (g a) ≡ ok a)
      → (xs : List A) → collect f (map g xs) ≡ ok xs
  unfolding collect
  collect-map f g h [] = refl
  collect-map f g h (x ∷ xs) = rw (h x, collect-map f g h xs) refl

  convert_backend-print :
      (dir : String) (p : Partition)
      → (tool_of p.backend).dir ≡ dir
      → convert_backend (print_partition p) dir path ≡ ok p.backend
  unfolding convert_backend print_partition terraform_config
  convert_backend-print dir p h = of_backend p.backend h
    where
      of_backend :
          (b : PartitionBackend)
          → (tool_of b).dir ≡ dir
          → convert_backend (print_partition (record p { backend = b })) dir path ≡ ok b
      of_backend (PartitionBackend.terraform c) h = rw (← h) refl
      of_backend (PartitionBackend.open_tofu c) h = rw (← h) refl

  -- A partition that is written to the configuration file of its directory is read back as it was.
  pub convert_partition-print_partition :
      (parent : String → Option String) (p : Partition)
      → (tool_of p.backend).dir ≡ unwrap_or (parent path) path
      → convert_partition parent (print_partition p) path ≡ ok p
  unfolding convert_partition convert_import print_import print_partition
  convert_partition-print_partition parent p h =
      rw
        (
          parse_produces-print p.produces,
          collect-map (λ i. convert_import i path) print_import (λ i. refl) p.imports,
          collect-map (λ e. convert_export e path) print_export convert_export-print_export
              p.exports,
          convert_backend-print (unwrap_or (parent path) path) p h,
        )
        refl
