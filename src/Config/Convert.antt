-- ===== src/Config/Convert.antt =====
-- The conversions of crates/nclav-config/src/loader.rs from the raw types to the domain.
use nclav.Base.{
  String, ◌<>◌, Bool, true, false, Option, none, some, and_then, unwrap_or, List, Result, ok, err,
  ◌>>=◌, collect, transpose, ◌==◌, string_eq, if◌then◌else◌,
}
use nclav.Domain.{
  CloudTarget, ExportType, AuthType, ProducesType, ExportTarget, public, any_enclave, vpn, Export,
  Import, Partition, PartitionBackend, TerraformConfig,
}
use nclav.Config.Raw.{
  RawExport, RawExportTarget, RawImport, RawPartition, RawTerraformConfig, ConfigError, conversion,
}
pub mod Printing

abbrev pub unknown : {A : Type 0} → String → String → String → Result ConfigError A
unknown path what other = err (conversion path ("unknown " <> what <> " '" <> other <> "'"))

unfoldable pub parse_cloud : String → String → Result ConfigError CloudTarget
parse_cloud s path =
    if s == "local"
    then ok CloudTarget.local
    else if s == "gcp"
    then ok CloudTarget.gcp
    else if s == "azure"
    then ok CloudTarget.azure
    else if s == "aws"
    then ok CloudTarget.aws
    else unknown path "cloud target" s

unfoldable pub parse_produces : String → String → Result ConfigError ProducesType
parse_produces s path =
    if s == "http"
    then ok ProducesType.http
    else if s == "tcp"
    then ok ProducesType.tcp
    else if s == "queue"
    then ok ProducesType.queue
    else unknown path "produces type" s

unfoldable pub parse_export_type : String → String → Result ConfigError ExportType
parse_export_type s path =
    if s == "http"
    then ok ExportType.http
    else if s == "tcp"
    then ok ExportType.tcp
    else if s == "queue"
    then ok ExportType.queue
    else unknown path "export type" s

unfoldable pub parse_auth : String → String → Result ConfigError AuthType
parse_auth s path =
    if s == "none"
    then ok AuthType.none
    else if s == "token"
    then ok AuthType.token
    else if s == "oauth"
    then ok AuthType.oauth
    else if s == "mtls"
    then ok AuthType.mtls
    else if s == "native"
    then ok AuthType.native
    else unknown path "auth type" s

unfoldable pub convert_export_target : RawExportTarget → String → Result ConfigError ExportTarget
convert_export_target (RawExportTarget.simple s) path =
    if s == "public"
    then ok public
    else if s == "any_enclave"
    then ok any_enclave
    else if s == "any-enclave"
    then ok any_enclave
    else if s == "vpn"
    then ok vpn
    else unknown path "export target" s
convert_export_target (RawExportTarget.enclave e) path = ok (ExportTarget.enclave e)
convert_export_target (RawExportTarget.partition p) path = ok (ExportTarget.partition p)

unfoldable pub convert_export : RawExport → String → Result ConfigError Export
convert_export raw path = do
  export_type ← parse_export_type raw.export_type path
  auth ← parse_auth raw.auth path
  to ← convert_export_target raw.to path
  ok (record {
    name = raw.name;
    target_partition = raw.target_partition;
    export_type = export_type;
    to = to;
    auth = auth;
    hostname = raw.hostname;
    port = raw.port;
  })

unfoldable pub convert_import : RawImport → String → Result ConfigError Import
convert_import raw path =
    ok (record { from = raw.from; export_name = raw.export_name; alias = raw.alias })

-- The configuration of Terraform or OpenTofu.
unfoldable pub terraform_config : Option RawTerraformConfig → String → TerraformConfig
terraform_config raw dir = record {
  tool = and_then raw (λ t. t.tool);
  source = and_then raw (λ t. t.source);
  dir = dir;
}

unfoldable pub convert_backend :
    RawPartition → String → String → Result ConfigError PartitionBackend
convert_backend raw dir path =
    if raw.backend == ""
    then ok (PartitionBackend.terraform (terraform_config raw.terraform dir))
    else if raw.backend == "terraform"
    then ok (PartitionBackend.terraform (terraform_config raw.terraform dir))
    else if raw.backend == "opentofu"
    then ok (PartitionBackend.open_tofu (terraform_config raw.terraform dir))
    else if raw.backend == "managed"
    then err (
        conversion path
          "backend 'managed' is no longer supported; use 'terraform' or 'opentofu' with a main.tf in the partition directory")
    else err (
        conversion path ("unknown backend '" <> raw.backend <> "'; expected terraform or opentofu"))

-- `parent` is `Path::parent`.
unfoldable pub convert_partition :
    (parent : String → Option String) → RawPartition → String → Result ConfigError Partition
convert_partition parent raw path = do
  produces ← transpose (λ s. parse_produces s path) raw.produces
  imports ← collect (λ i. convert_import i path) raw.imports
  exports ← collect (λ e. convert_export e path) raw.exports
  backend ← convert_backend raw (unwrap_or (parent path) path) path
  ok (record {
    id = raw.id;
    name = raw.name;
    produces = produces;
    imports = imports;
    exports = exports;
    inputs = raw.inputs;
    declared_outputs = raw.declared_outputs;
    backend = backend;
  })
