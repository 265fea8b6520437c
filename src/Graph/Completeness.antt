-- ===== src/Graph/Completeness.antt =====
-- Enclaves that keep the contract pass the checks, where identifiers and export names differ.
use nclav.Base.{
  ◌≡◌, refl, ap, subst, Option, none, some, List, [], ◌∷◌, Result, ok, All, All-map, All-at, Mem,
  here, there, any_of_mem, find, find_of_mem, flat_map, flat_map-nil, map, get, get-from_list_mem,
  if◌then◌else◌, ◌==◌, string_eq,
}
use nclav.Domain.{
  Enclave, EnclaveId, Partition, PartitionId, Import, Export, ProducesType, required_outputs,
  export_type_of, export_type_eq,
}
use nclav.Graph.Checks.{
  GraphError, enclave_map, CrossEnclaveWiring, check_import, check_import_partition,
}
use nclav.Graph.Reference.{
  missing_key, missing_keys, output_errors, mismatch, target_errors, export_errors, result_errors,
  enclave_errors,
}
use nclav.Graph.Contract.{Importable, EnclaveOk, HasDistinctIds, HasDistinctExports}
use nclav.Graph.Soundness.{permits_of_Permits}

missing_keys_complete :
    (part : Partition) (o : Option ProducesType)
    → ((produces : ProducesType)
        → o ≡ some produces
        → All (λ key. Mem key part.declared_outputs) (required_outputs produces))
    → missing_keys part o ≡ []
missing_keys_complete part none h = refl
missing_keys_complete part (some q) h = flat_map-nil (missing_key part q) (required_outputs q) (
    All-map {Q = λ key. missing_key part q key ≡ []}
      (λ key m. rw (any_of_mem key part.declared_outputs m)) (required_outputs q) (h q refl))

mismatch_complete :
    (part : Partition) (export : Export) (o : Option ProducesType)
    → ((produces : ProducesType) → o ≡ some produces → export_type_of produces ≡ export.export_type)
    → mismatch part export o ≡ []
mismatch_complete part export none h = refl
mismatch_complete part export (some q) h =
    rw ((export_type_eq.test_iff (export_type_of q) export.export_type).1 (h q refl))

target_errors_complete :
    (export : Export) (target : Option Partition)
    → ((part : Partition) (produces : ProducesType)
        → target ≡ some part
        → part.produces ≡ some produces
        → export_type_of produces ≡ export.export_type)
    → target_errors export target ≡ []
target_errors_complete export none h = refl
target_errors_complete export (some part) h =
    mismatch_complete part export part.produces (λ produces e. h part produces refl e)

module _ (enclaves : List Enclave) (ids : HasDistinctIds enclaves)
    (names : HasDistinctExports enclaves) where
  get-enclave_map :
      (source : Enclave) → Mem source enclaves → get source.id (enclave_map enclaves) ≡ some source
  unfolding enclave_map
  get-enclave_map source m =
      get-from_list_mem source.id source (map (λ e. (e.id, e)) enclaves) (mem-pairs m)
        (rw (keys enclaves) ids)
    where
      mem-pairs :
          {es : List Enclave}
          → Mem source es
          → Mem {A = EnclaveId × Enclave} (source.id, source) (map (λ e. (e.id, e)) es)
      mem-pairs here = here
      mem-pairs (there n) = there (mem-pairs n)

      keys :
          (es : List Enclave)
          → map (λ (p : EnclaveId × Enclave). p.0) (map (λ (e : Enclave). (e.id, e)) es)
            ≡ map (λ e. e.id) es
      keys [] = refl
      keys (e ∷ es) = ap (λ l. e.id ∷ l) (keys es)

  check_import_partition_complete :
      (enc : Enclave) (id : PartitionId) (imp : Import)
      → Importable enclaves enc.id imp
      → (w : CrossEnclaveWiring) × (check_import_partition enc id imp (enclave_map enclaves) ≡ ok w)
  unfolding check_import_partition
  check_import_partition_complete enc id imp i =
      let found : get imp.from (enclave_map enclaves) ≡ some i.source =
        subst (λ k. get k (enclave_map enclaves) ≡ some i.source) i.source_id
          (get-enclave_map i.source i.listed) in
      let offers : find (λ e. e.name == imp.export_name) i.source.exports ≡ some i.export =
        subst (λ k. find (λ (e : Export). e.name == k) i.source.exports ≡ some i.export)
          i.export_name
          (find_of_mem (λ e. e.name) i.export i.source.exports i.offered
            (All-at _ i.listed names)) in
      (
        record {
          importer_enclave = enc.id;
          importer_partition = if id == "" then none else some id;
          exporter_enclave = imp.from;
          export_name = imp.export_name;
        },
        rw (found, offers, permits_of_Permits i.export.to enc.id i.permitted) refl,
      )

  result_errors-nil :
      (r : Result GraphError CrossEnclaveWiring)
      → (w : CrossEnclaveWiring) × (r ≡ ok w)
      → result_errors r ≡ []
  result_errors-nil r (w, e) = rw e

  check_import_complete :
      (enc : Enclave) (imp : Import)
      → Importable enclaves enc.id imp
      → (w : CrossEnclaveWiring) × (check_import enc imp (enclave_map enclaves) ≡ ok w)
  unfolding check_import
  check_import_complete enc imp i =
      let (w, e) = check_import_partition_complete enc "" imp i in
      (record w { importer_partition = none }, rw e)

  -- An enclave that keeps the contract has no error.
  pub enclave_errors_complete :
      (enc : Enclave) → EnclaveOk enclaves enc → enclave_errors (enclave_map enclaves) enc ≡ []
  enclave_errors_complete enc c = rw (outs, exps, imps, parts) refl
    where
      outs : flat_map output_errors enc.partitions ≡ []
      outs =
          flat_map-nil output_errors enc.partitions (
            All-map (λ part d. missing_keys_complete part part.produces d) enc.partitions c.outputs)

      exps : flat_map (export_errors enc) enc.exports ≡ []
      exps =
          flat_map-nil (export_errors enc) enc.exports
            (All-map (λ export m. target_errors_complete export _ m) enc.exports c.exports)

      imps :
          flat_map (λ i. result_errors (check_import enc i (enclave_map enclaves))) enc.imports ≡ []
      imps = flat_map-nil _ enc.imports (
          All-map (λ i h. result_errors-nil _ (check_import_complete enc i h)) enc.imports
            c.imports)

      parts :
          flat_map
            (λ (part : Partition).
              flat_map
                (λ i. result_errors (check_import_partition enc part.id i (enclave_map enclaves)))
                part.imports)
            enc.partitions
          ≡ []
      parts = flat_map-nil _ enc.partitions (
          All-map
            (λ part h. flat_map-nil _ part.imports (
              All-map (λ i g. result_errors-nil _ (check_import_partition_complete enc part.id i g))
                part.imports h))
            enc.partitions c.partition_imports)
