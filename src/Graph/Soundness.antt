-- ===== src/Graph/Soundness.antt =====
-- No error is collected exactly when every enclave keeps the contract.
use nclav.Base.{
  if◌then◌else◌, ◌≡◌, refl, subst, Bool, true, false, Option, none, some, List, [], ◌∷◌, ◌++◌,
  Result, ok, err, >>=-eq-ok, All, All-map, Mem, here, there, find, find-mem, mem_of_any, flat_map,
  flat_map-eq-nil, map, get, get-from_list, ◌==◌, ==_iff, string_eq, arith,
}
use nclav.Domain.{
  Enclave, EnclaveId, Partition, PartitionId, Import, Export, ExportTarget, public, any_enclave,
  vpn, enclave, partition, ProducesType, required_outputs, produces_name, export_type_of,
  export_type_eq,
}
use nclav.Graph.Checks.{
  GraphError, missing_required_output, enclave_map, CrossEnclaveWiring, permits, check_import,
  check_import_partition, ok_or, guard,
}
use nclav.Graph.Reference.{
  missing_key, missing_keys, output_errors, mismatch, export_errors, result_errors, enclave_errors,
}
use nclav.Graph.Contract.{Permits, Importable, ExportMatches, EnclaveOk}

pub Permits-of_permits :
    (to : ExportTarget) (importer : EnclaveId) → permits to importer ≡ true → Permits to importer
unfolding permits
Permits-of_permits (enclave a) importer h = (==_iff a importer).0 h
Permits-of_permits (partition p) importer h = cc
Permits-of_permits public importer h = tt
Permits-of_permits any_enclave importer h = tt
Permits-of_permits vpn importer h = tt

pub permits_of_Permits :
    (to : ExportTarget) (importer : EnclaveId) → Permits to importer → permits to importer ≡ true
unfolding permits
permits_of_Permits (enclave a) importer h = (==_iff a importer).1 h
permits_of_Permits (partition p) importer h = absurd h
permits_of_Permits public importer h = refl
permits_of_Permits any_enclave importer h = refl
permits_of_Permits vpn importer h = refl

pub append-eq-nil {ℓ} : {A : Type ℓ} (xs ys : List A) → xs ++ ys ≡ [] → (xs ≡ []) × (ys ≡ [])
append-eq-nil [] ys h = (refl, h)
append-eq-nil (x ∷ xs) ys h = cc

mem-enclave_map :
    (id : EnclaveId) (source : Enclave) (enclaves : List Enclave)
    → get id (enclave_map enclaves) ≡ some source
    → Mem source enclaves × (source.id ≡ id)
unfolding enclave_map
mem-enclave_map id source enclaves h =
    pairs enclaves (get-from_list id source (map (λ e. (e.id, e)) enclaves) h)
  where
    pairs :
        (es : List Enclave) {p : EnclaveId × Enclave}
        → Mem p (map (λ (e : Enclave). (e.id, e)) es)
        → Mem p.1 es × (p.1.id ≡ p.0)
    pairs [] m = elim m [ ]
    pairs (e ∷ es) here = (here, refl)
    pairs (e ∷ es) (there m) = let (n, eq) = pairs es m in (there n, eq)

pub ok_or-eq-ok {ℓ} :
    {A : Type ℓ} (o : Option A) (e : GraphError) {a : A} → ok_or o e ≡ ok a → o ≡ some a
ok_or-eq-ok none e h = cc
ok_or-eq-ok (some a) e h = cc

pub guard-eq-ok : (b : Bool) (e : GraphError) {u : Unit {0}} → guard b e ≡ ok u → b ≡ true
guard-eq-ok true e h = refl
guard-eq-ok false e h = cc

-- A checked import has its source, its export and the permission.
check_import_partition-eq-ok :
    (enclaves : List Enclave) (enc : Enclave) (id : PartitionId) (imp : Import)
    {w : CrossEnclaveWiring}
    → check_import_partition enc id imp (enclave_map enclaves) ≡ ok w
    → Importable enclaves enc.id imp
unfolding check_import_partition
check_import_partition-eq-ok enclaves enc id imp h =
    let (source, got, h₁) = >>=-eq-ok (ok_or (get imp.from (enclave_map enclaves)) _) _ h in
    let (export, offers, h₂) =
      >>=-eq-ok (ok_or (find (λ e. e.name == imp.export_name) source.exports) _) _ h₁ in
    let (u, may, h₃) = >>=-eq-ok (guard (permits export.to enc.id) _) _ h₂ in
    let (listed, source_id) = mem-enclave_map imp.from source enclaves (ok_or-eq-ok _ _ got) in
    let (offered, named) =
      find-mem (λ e. e.name == imp.export_name) source.exports (ok_or-eq-ok _ _ offers) in
    record {
      source = source;
      export = export;
      listed = listed;
      source_id = source_id;
      offered = offered;
      export_name = (==_iff export.name imp.export_name).0 named;
      permitted = Permits-of_permits export.to enc.id (guard-eq-ok _ _ may);
    }

if-eq-nil {ℓ} : {A : Type ℓ} (b : Bool) (x : A) → (if b then [] else x ∷ []) ≡ [] → b ≡ true
if-eq-nil b x h = ground arith

pub result_errors-eq-nil :
    (r : Result GraphError CrossEnclaveWiring)
    → result_errors r ≡ []
    → (w : CrossEnclaveWiring) × (r ≡ ok w)
result_errors-eq-nil (ok w) h = (w, refl)
result_errors-eq-nil (err e) h = cc

missing_keys_sound :
    (part : Partition) (o : Option ProducesType)
    → missing_keys part o ≡ []
    → (produces : ProducesType) → o ≡ some produces
    → All (λ key. Mem key part.declared_outputs) (required_outputs produces)
missing_keys_sound part none h produces e = cc
missing_keys_sound part (some q) h produces e =
    let same : q ≡ produces = cc in
    subst (λ p. All (λ key. Mem key part.declared_outputs) (required_outputs p)) same
      (All-map
        (λ key k.
          mem_of_any key part.declared_outputs
            (if-eq-nil _ (missing_required_output part.id (produces_name q) key) k))
        (required_outputs q) (flat_map-eq-nil (missing_key part q) (required_outputs q) h))

mismatch_sound :
    (part : Partition) (export : Export) (o : Option ProducesType)
    → mismatch part export o ≡ []
    → (produces : ProducesType) → o ≡ some produces
    → export_type_of produces ≡ export.export_type
mismatch_sound part export none h produces e = cc
mismatch_sound part export (some q) h produces e =
    let same : q ≡ produces = cc in
    rw (← same) (ground (arith, export_type_eq.test_iff (export_type_of q) export.export_type))

export_errors_sound :
    (enc : Enclave) (export : Export) → export_errors enc export ≡ [] → ExportMatches enc export
export_errors_sound enc export h part produces found e =
    mismatch_sound part export part.produces (rw found at h) produces e

module _ (enclaves : List Enclave) (enc : Enclave) where
  check_import_sound :
      (imp : Import)
      → result_errors (check_import enc imp (enclave_map enclaves)) ≡ []
      → Importable enclaves enc.id imp
  unfolding check_import
  check_import_sound imp h =
      let (w, e) = result_errors-eq-nil (check_import enc imp (enclave_map enclaves)) h in
      let (v, e', _) = >>=-eq-ok (check_import_partition enc "" imp (enclave_map enclaves)) _ e in
      check_import_partition-eq-ok enclaves enc "" imp e'

  check_import_partition_sound :
      (id : PartitionId) (imp : Import)
      → result_errors (check_import_partition enc id imp (enclave_map enclaves)) ≡ []
      → Importable enclaves enc.id imp
  check_import_partition_sound id imp h =
      check_import_partition-eq-ok enclaves enc id imp (result_errors-eq-nil _ h).1

  -- An enclave without errors keeps the contract.
  pub enclave_errors_sound : enclave_errors (enclave_map enclaves) enc ≡ [] → EnclaveOk enclaves enc
  enclave_errors_sound h =
      let (outs, h₁) = append-eq-nil (flat_map output_errors enc.partitions) _ h in
      let (exps, h₂) = append-eq-nil (flat_map (export_errors enc) enc.exports) _ h₁ in
      let (imps, parts) = append-eq-nil _ _ h₂ in
      record {
        outputs =
            All-map (λ part e. missing_keys_sound part part.produces e) enc.partitions
              (flat_map-eq-nil output_errors enc.partitions outs);
        exports =
            All-map (export_errors_sound enc) enc.exports
              (flat_map-eq-nil (export_errors enc) enc.exports exps);
        imports = All-map check_import_sound enc.imports (flat_map-eq-nil _ enc.imports imps);
        partition_imports =
            All-map
              (λ part e.
                All-map (check_import_partition_sound part.id) part.imports
                  (flat_map-eq-nil _ part.imports e))
              enc.partitions (flat_map-eq-nil _ enc.partitions parts);
      }
