-- ===== src/Graph/Wiring.antt =====
-- The wiring that a valid set of enclaves gets: one entry for each import, in order.
use nclav.Base.{
  ◌≡◌, refl, ap₂, Option, none, some, List, [], ◌∷◌, ◌++◌, Result, ok, >>=-eq-ok, All, All-append,
  Mem, flat_map, flat_map-eq-nil, map, get, find, if◌then◌else◌, ◌==◌, string_eq,
}
use nclav.Domain.{Enclave, Partition, PartitionId, Import}
use nclav.Graph.Checks.{
  GraphError, CrossEnclaveWiring, EnclaveMap, permits, ok_or, guard, check_import,
  check_import_partition,
}
use nclav.Graph.Reference.{
  result_errors, result_wiring, enclave_errors, enclave_wiring, output_errors, export_errors,
}
use nclav.Graph.Contract.{Importable, EnclaveOk}
use nclav.Graph.Soundness.{append-eq-nil, result_errors-eq-nil}
use nclav.Graph.Ordering.{Wired}

abbrev pub wire : Enclave → Option PartitionId → Import → CrossEnclaveWiring
wire enc part imp = record {
  importer_enclave = enc.id;
  importer_partition = part;
  exporter_enclave = imp.from;
  export_name = imp.export_name;
}

-- A partition whose identifier is the empty text is entered like the enclave itself.
abbrev pub part_entry : PartitionId → Option PartitionId
part_entry id = if id == "" then none else some id

abbrev pub part_wires : Enclave → Partition → List CrossEnclaveWiring
part_wires enc part = map (wire enc (part_entry part.id)) part.imports

abbrev pub wires : Enclave → List CrossEnclaveWiring
wires enc = map (wire enc none) enc.imports ++ flat_map (part_wires enc) enc.partitions

module _ (by_id : EnclaveMap) (enc : Enclave) where
  check_import_partition-wire :
      (id : PartitionId) (imp : Import) {w : CrossEnclaveWiring}
      → check_import_partition enc id imp by_id ≡ ok w
      → w ≡ wire enc (part_entry id) imp
  unfolding check_import_partition
  check_import_partition-wire id imp h =
      let (source, _, h₁) = >>=-eq-ok (ok_or (get imp.from by_id) _) _ h in
      let (export, _, h₂) =
        >>=-eq-ok (ok_or (find (λ e. e.name == imp.export_name) source.exports) _) _ h₁ in
      let (u, _, h₃) = >>=-eq-ok (guard (permits export.to enc.id) _) _ h₂ in cc

  check_import-wire :
      (imp : Import) {w : CrossEnclaveWiring}
      → check_import enc imp by_id ≡ ok w
      → w ≡ wire enc none imp
  unfolding check_import
  check_import-wire imp h =
      let (v, e, h₁) = >>=-eq-ok (check_import_partition enc "" imp by_id) _ h in
      let eq = check_import_partition-wire "" imp e in cc

flat_map-wiring :
    (check : Import → Result GraphError CrossEnclaveWiring) (f : Import → CrossEnclaveWiring)
    → ((i : Import) (w : CrossEnclaveWiring) → check i ≡ ok w → w ≡ f i)
    → (is : List Import) → All (λ i. result_errors (check i) ≡ []) is
    → flat_map (λ i. result_wiring (check i)) is ≡ map f is
flat_map-wiring check f h [] clean = refl
flat_map-wiring check f h (i ∷ is) clean =
    let (w, e) = result_errors-eq-nil (check i) clean.0 in
    rw e (ap₂ (λ a l. a ∷ l) (h i w e) (flat_map-wiring check f h is clean.1))

module _ (by_id : EnclaveMap) (enc : Enclave) where
  part_wiring :
      (parts : List Partition)
      → All
          (λ (part : Partition).
            flat_map (λ i. result_errors (check_import_partition enc part.id i by_id)) part.imports
            ≡ [])
          parts
      → flat_map
          (λ (part : Partition).
            flat_map (λ i. result_wiring (check_import_partition enc part.id i by_id)) part.imports)
          parts
        ≡ flat_map (part_wires enc) parts
  part_wiring [] h = refl
  part_wiring (part ∷ parts) h =
      ap₂ (λ (a b : List CrossEnclaveWiring). a ++ b)
        (flat_map-wiring _ _ (λ i w. check_import_partition-wire by_id enc part.id i) part.imports
          (flat_map-eq-nil _ part.imports h.0))
        (part_wiring parts h.1)

  -- An enclave without errors has one entry for each of its imports.
  pub enclave_wiring-eq : enclave_errors by_id enc ≡ [] → enclave_wiring by_id enc ≡ wires enc
  enclave_wiring-eq h =
      let (_, h₁) = append-eq-nil (flat_map output_errors enc.partitions) _ h in
      let (_, h₂) = append-eq-nil (flat_map (export_errors enc) enc.exports) _ h₁ in
      let (imps, parts) = append-eq-nil _ _ h₂ in
      ap₂ (λ (a b : List CrossEnclaveWiring). a ++ b)
        (flat_map-wiring _ _ (λ i w. check_import-wire by_id enc i) enc.imports
          (flat_map-eq-nil _ enc.imports imps))
        (part_wiring enc.partitions (flat_map-eq-nil _ enc.partitions parts))

module _ (enclaves : List Enclave) (enc : Enclave) (m : Mem enc enclaves) where
  wires-Wired_of :
      (part : Option PartitionId) (is : List Import)
      → All (Importable enclaves enc.id) is
      → All (Wired enclaves) (map (wire enc part) is)
  wires-Wired_of part [] h = tt
  wires-Wired_of part (i ∷ is) h = (
    record {
      importer = enc;
      importer_listed = m;
      importer_id = refl;
      exporter = h.0.source;
      exporter_listed = h.0.listed;
      exporter_id = h.0.source_id;
    },
    wires-Wired_of part is h.1,
  )

  part_wires-Wired :
      (parts : List Partition)
      → All (λ part. All (Importable enclaves enc.id) part.imports) parts
      → All (Wired enclaves) (flat_map (part_wires enc) parts)
  part_wires-Wired [] h = tt
  part_wires-Wired (part ∷ parts) h =
      All-append (Wired enclaves) (part_wires enc part) _
        (wires-Wired_of (part_entry part.id) part.imports h.0) (part_wires-Wired parts h.1)

  -- Both ends of the entries of a sound enclave are listed.
  pub wires-Wired : EnclaveOk enclaves enc → All (Wired enclaves) (wires enc)
  wires-Wired c =
      All-append (Wired enclaves) (map (wire enc none) enc.imports) _
        (wires-Wired_of none enc.imports c.imports)
        (part_wires-Wired enc.partitions c.partition_imports)
