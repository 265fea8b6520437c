-- ===== src/Graph/Checks.antt =====
-- The checks of `validate` in crates/nclav-graph/src/validate.rs that come before cycle detection.
use nclav.Base.{
  String, Option, none, some, List, [], ◌∷◌, ◌++◌, Bool, true, false, Map, get, from_list, Result,
  ok, err, ◌>>=◌, any, find, map, for_each, if◌then◌else◌, ◌==◌, not, string_eq,
}
use nclav.Domain.{
  Enclave, EnclaveId, Partition, PartitionId, Import, Export, ExportTarget, public, any_enclave,
  vpn, enclave, partition, ProducesType, required_outputs, export_type_of, export_type_beq,
  export_type_name, produces_name, export_type_eq,
}

mutual
  pub data GraphError : Type 0 where
    dangling_import_enclave : (importer from : EnclaveId) → GraphError
    dangling_import_export : (importer from : EnclaveId) (export_name : String) → GraphError
    access_denied : (importer from : EnclaveId) (export_name : String) → GraphError
    type_mismatch :
        (importer : EnclaveId) (export_name import_type export_type : String) → GraphError
    produces_export_mismatch :
        (partition : PartitionId) (produces_type export_name export_type : String) → GraphError
    missing_required_output : (partition : PartitionId) (produces_type key : String) → GraphError
    cycle_detected : GraphError
    multiple : GraphErrors → GraphError

  -- `Vec<GraphError>` inside `GraphError`
  pub data GraphErrors : Type 0 where
    nil : GraphErrors
    cons : GraphError → GraphErrors → GraphErrors

unfoldable pub graph_errors : List GraphError → GraphErrors
graph_errors [] = nil
graph_errors (e ∷ es) = cons e (graph_errors es)

pub record CrossEnclaveWiring : Type 0 where
  pub importer_enclave : EnclaveId
  pub importer_partition : Option PartitionId
  pub exporter_enclave : EnclaveId
  pub export_name : String

-- The two vectors that `validate` fills.
pub record Checks : Type 0 where
  pub errors : List GraphError
  pub wiring : List CrossEnclaveWiring

abbrev pub no_checks : Checks
no_checks = record { errors = []; wiring = [] }

unfoldable pub push_error : GraphError → Checks → Checks
push_error e s = record s { errors = s.errors ++ e ∷ [] }

unfoldable pub push_result : Result GraphError CrossEnclaveWiring → Checks → Checks
unfolding push_error
push_result (ok w) s = record s { wiring = s.wiring ++ w ∷ [] }
push_result (err e) s = push_error e s

abbrev pub EnclaveMap : Type 0
EnclaveMap = Map EnclaveId Enclave

unfoldable pub permits : ExportTarget → EnclaveId → Bool
permits public importer = true
permits any_enclave importer = true
permits vpn importer = true
permits (enclave allowed_id) importer = allowed_id == importer
permits (partition p) importer = false

-- `ok_or_else`
abbrev pub ok_or {ℓ} : {A : Type ℓ} → Option A → GraphError → Result GraphError A
ok_or none e = err e
ok_or (some a) e = ok a

abbrev pub guard : Bool → GraphError → Result GraphError (Unit {0})
guard true e = ok tt
guard false e = err e

unfoldable pub check_import_partition :
    Enclave → PartitionId → Import → EnclaveMap → Result GraphError CrossEnclaveWiring
unfolding permits find get
check_import_partition importer_enc partition_id imp by_id = do
  source ← ok_or (get imp.from by_id) (dangling_import_enclave importer_enc.id imp.from)
  export ←
      ok_or (find (λ e. e.name == imp.export_name) source.exports)
        (dangling_import_export importer_enc.id imp.from imp.export_name)
  _ ←
      guard (permits export.to importer_enc.id)
        (access_denied importer_enc.id imp.from imp.export_name)
  let partition_id_opt = if partition_id == "" then none else some partition_id
  ok (record {
    importer_enclave = importer_enc.id;
    importer_partition = partition_id_opt;
    exporter_enclave = imp.from;
    export_name = imp.export_name;
  })

unfoldable pub check_import : Enclave → Import → EnclaveMap → Result GraphError CrossEnclaveWiring
unfolding check_import_partition
check_import importer_enc imp by_id = do
  w ← check_import_partition importer_enc "" imp by_id
  ok (record w { importer_partition = none })

-- One required key of a partition.
unfoldable pub check_key : Partition → ProducesType → String → Checks → Checks
unfolding any push_error produces_name
check_key part produces key s =
    if any (λ o. o == key) part.declared_outputs
    then s
    else push_error (missing_required_output part.id (produces_name produces) key) s

unfoldable pub check_required : Partition → Option ProducesType → Checks → Checks
unfolding for_each check_key required_outputs
check_required part none s = s
check_required part (some produces) s =
    for_each (check_key part produces) (required_outputs produces) s

unfoldable pub check_outputs : Partition → Checks → Checks
unfolding check_required
check_outputs part s = check_required part part.produces s

unfoldable pub check_produces : Partition → Export → Option ProducesType → Checks → Checks
unfolding push_error export_type_of export_type_beq export_type_name produces_name
check_produces part export none s = s
check_produces part export (some produces) s =
    if not (export_type_of produces == export.export_type)
    then push_error
        (produces_export_mismatch part.id (produces_name produces) export.name
          (export_type_name export.export_type))
        s
    else s

unfoldable pub check_target : Export → Option Partition → Checks → Checks
unfolding check_produces
check_target export none s = s
check_target export (some part) s = check_produces part export part.produces s

unfoldable pub check_export : Enclave → Export → Checks → Checks
unfolding check_target find
check_export enc export s =
    check_target export (find (λ p. p.id == export.target_partition) enc.partitions) s

-- The body of the loop over the enclaves.
unfoldable pub check_enclave : EnclaveMap → Enclave → Checks → Checks
unfolding for_each check_outputs check_export check_import check_import_partition push_result
check_enclave by_id enc s =
    let outputs = for_each check_outputs enc.partitions s in
    let exports = for_each (check_export enc) enc.exports outputs in
    let imports = for_each (λ i. push_result (check_import enc i by_id)) enc.imports exports in
    for_each
      (λ part.
        for_each (λ i. push_result (check_import_partition enc part.id i by_id)) part.imports)
      enc.partitions imports

unfoldable pub enclave_map : List Enclave → EnclaveMap
unfolding from_list
enclave_map enclaves = from_list (map (λ e. (e.id, e)) enclaves)

unfoldable pub check_all : List Enclave → Checks
unfolding check_enclave enclave_map
check_all enclaves = for_each (check_enclave (enclave_map enclaves)) enclaves no_checks
