-- ===== src/Graph/Contract.antt =====
-- What a set of enclaves has to satisfy, in the words of the error messages of
-- crates/nclav-graph/src/error.rs.
use nclav.Base.{◌≡◌, some, List, All, Mem, find, map, Distinct, ◌==◌, string_eq}
use nclav.Domain.{
  Enclave, EnclaveId, Partition, Import, Export, ExportTarget, public, any_enclave, vpn, enclave,
  partition, ProducesType, required_outputs, export_type_of,
}

-- Who may import an export.
abbrev pub Permits : ExportTarget → EnclaveId → Type 0
Permits public importer = Unit
Permits any_enclave importer = Unit
Permits vpn importer = Unit
Permits (enclave allowed_id) importer = allowed_id ≡ importer
Permits (partition p) importer = ⊥

-- The import names an export of a listed enclave that the importer may use.
pub record Importable (enclaves : List Enclave) (importer : EnclaveId) (imp : Import) : Type 0 where
  pub source : Enclave
  pub export : Export
  pub listed : Mem source enclaves
  pub source_id : source.id ≡ imp.from
  pub offered : Mem export source.exports
  pub export_name : export.name ≡ imp.export_name
  pub permitted : Permits export.to importer

-- Each output that the partition's type requires is declared.
abbrev pub OutputsDeclared : Partition → Type 0
OutputsDeclared part =
    (produces : ProducesType)
    → part.produces ≡ some produces
    → All (λ key. Mem key part.declared_outputs) (required_outputs produces)

-- An export has the type of what its target produces.
abbrev pub ExportMatches : Enclave → Export → Type 0
ExportMatches enc export =
    (part : Partition) (produces : ProducesType)
    → find (λ p. p.id == export.target_partition) enc.partitions ≡ some part
    → part.produces ≡ some produces
    → export_type_of produces ≡ export.export_type

pub record EnclaveOk (enclaves : List Enclave) (enc : Enclave) : Type 0 where
  pub outputs : All OutputsDeclared enc.partitions
  pub exports : All (ExportMatches enc) enc.exports
  pub imports : All (Importable enclaves enc.id) enc.imports
  pub partition_imports : All (λ part. All (Importable enclaves enc.id) part.imports) enc.partitions

abbrev pub HasDistinctIds : List Enclave → Type 0
HasDistinctIds enclaves = Distinct (map (λ e. e.id) enclaves)

abbrev pub HasDistinctExports : List Enclave → Type 0
HasDistinctExports enclaves = All (λ e. Distinct (map (λ (x : Export). x.name) e.exports)) enclaves
