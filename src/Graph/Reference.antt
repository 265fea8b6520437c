-- ===== src/Graph/Reference.antt =====
-- What the loops of `check_all` collect, written as two lists that no state runs through.
use mathlib.Core.List.{append-nil, append_assoc}
use nclav.Base.{
  String, ◌≡◌, refl, ap, ◌∙◌, subst, Bool, true, false, Option, none, some, List, [], ◌∷◌, ◌++◌,
  Result, ok, err, find, any, not, flat_map, for_each, if◌then◌else◌, ◌==◌, string_eq,
}
use nclav.Domain.{
  Enclave, Partition, Export, required_outputs, produces_name, export_type_name, export_type_of,
  export_type_eq, ProducesType,
}
use nclav.Graph.Checks.{
  GraphError, missing_required_output, produces_export_mismatch, CrossEnclaveWiring, Checks,
  no_checks, EnclaveMap, push_error, push_result, check_import, check_import_partition, check_key,
  check_required, check_outputs, check_produces, check_target, check_export, check_enclave,
  check_all, enclave_map,
}

abbrev pub missing_key : Partition → ProducesType → String → List GraphError
missing_key part produces key =
    if any (λ o. o == key) part.declared_outputs
    then []
    else missing_required_output part.id (produces_name produces) key ∷ []

abbrev pub missing_keys : Partition → Option ProducesType → List GraphError
missing_keys part none = []
missing_keys part (some produces) = flat_map (missing_key part produces) (required_outputs produces)

abbrev pub output_errors : Partition → List GraphError
output_errors part = missing_keys part part.produces

abbrev pub mismatch : Partition → Export → Option ProducesType → List GraphError
mismatch part export none = []
mismatch part export (some produces) =
    if not (export_type_of produces == export.export_type)
    then produces_export_mismatch part.id (produces_name produces) export.name
        (export_type_name export.export_type)
      ∷ []
    else []

abbrev pub target_errors : Export → Option Partition → List GraphError
target_errors export none = []
target_errors export (some part) = mismatch part export part.produces

abbrev pub export_errors : Enclave → Export → List GraphError
export_errors enc export =
    target_errors export (find (λ p. p.id == export.target_partition) enc.partitions)

abbrev pub result_errors : Result GraphError CrossEnclaveWiring → List GraphError
result_errors (ok w) = []
result_errors (err e) = e ∷ []

abbrev pub result_wiring : Result GraphError CrossEnclaveWiring → List CrossEnclaveWiring
result_wiring (ok w) = w ∷ []
result_wiring (err e) = []

module _ (by_id : EnclaveMap) (enc : Enclave) where
  abbrev pub import_errors : List GraphError
  import_errors =
      flat_map (λ i. result_errors (check_import enc i by_id)) enc.imports
      ++ flat_map
          (λ (part : Partition).
            flat_map (λ i. result_errors (check_import_partition enc part.id i by_id)) part.imports)
          enc.partitions

  abbrev pub enclave_wiring : List CrossEnclaveWiring
  enclave_wiring =
      flat_map (λ i. result_wiring (check_import enc i by_id)) enc.imports
      ++ flat_map
          (λ (part : Partition).
            flat_map (λ i. result_wiring (check_import_partition enc part.id i by_id)) part.imports)
          enc.partitions

  abbrev pub enclave_errors : List GraphError
  enclave_errors =
      flat_map output_errors enc.partitions
      ++ (flat_map (export_errors enc) enc.exports ++ import_errors)

-- A step adds these errors and this wiring behind what is there.
record Appends (f : Checks → Checks) (es : List GraphError) (ws : List CrossEnclaveWiring)
    : Type 0 where
  at : (s : Checks) → f s ≡ record { errors = s.errors ++ es; wiring = s.wiring ++ ws }

Appends-nothing : (f : Checks → Checks) → ((s : Checks) → f s ≡ s) → Appends f [] []
Appends-nothing f h = record { at = λ s. simp append-nil (h s) }

Appends-then :
    {f g : Checks → Checks} {es es' : List GraphError} {ws ws' : List CrossEnclaveWiring}
    → Appends f es ws
    → Appends g es' ws'
    → Appends (λ s. g (f s)) (es ++ es') (ws ++ ws')
Appends-then {g = g} hf hg = record { at = λ s. ap g (hf.at s) ∙ hg.at _ ∙ simp append_assoc }

Appends-for_each {ℓ} :
    {A : Type ℓ} (body : A → Checks → Checks) (f : A → List GraphError)
    (g : A → List CrossEnclaveWiring)
    → ((x : A) → Appends (body x) (f x) (g x))
    → (xs : List A) → Appends (for_each body xs) (flat_map f xs) (flat_map g xs)
unfolding for_each
Appends-for_each body f g h [] = Appends-nothing _ (λ s. refl)
Appends-for_each body f g h (x ∷ xs) = Appends-then (h x) (Appends-for_each body f g h xs)

Appends-push_error : (e : GraphError) → Appends (push_error e) (e ∷ []) []
unfolding push_error
Appends-push_error e = record { at = λ s. simp append-nil }

Appends-push_result :
    (r : Result GraphError CrossEnclaveWiring)
    → Appends (push_result r) (result_errors r) (result_wiring r)
unfolding push_result push_error
Appends-push_result (ok w) = record { at = λ s. simp append-nil }
Appends-push_result (err e) = record { at = λ s. simp append-nil }

Appends-if :
    (b : Bool) (e : GraphError)
    → Appends (λ s. if b then s else push_error e s) (if b then [] else e ∷ []) []
Appends-if true e = Appends-nothing _ (λ s. refl)
Appends-if false e = Appends-push_error e

flat_map-empty {ℓ} :
    {A : Type ℓ} (xs : List A) → flat_map {B = CrossEnclaveWiring} (λ (x : A). []) xs ≡ []
flat_map-empty [] = refl
flat_map-empty (x ∷ xs) = flat_map-empty xs

Appends-quiet {ℓ} :
    {A : Type ℓ} (body : A → Checks → Checks) (f : A → List GraphError)
    → ((x : A) → Appends (body x) (f x) [])
    → (xs : List A) → Appends (for_each body xs) (flat_map f xs) []
Appends-quiet {A = A} body f h xs =
    let all : Appends (for_each body xs) (flat_map f xs) (flat_map (λ (x : A). []) xs) =
      Appends-for_each body f (λ x. []) h xs in
    subst (Appends (for_each body xs) (flat_map f xs)) (flat_map-empty xs) all

Appends-check_key :
    (part : Partition) (produces : ProducesType) (key : String)
    → Appends (check_key part produces key) (missing_key part produces key) []
unfolding check_key
Appends-check_key part produces key = Appends-if (any (λ o. o == key) part.declared_outputs) _

Appends-check_required :
    (part : Partition) (produces : Option ProducesType)
    → Appends (check_required part produces) (missing_keys part produces) []
unfolding check_required
Appends-check_required part none = Appends-nothing _ (λ s. refl)
Appends-check_required part (some produces) =
    Appends-quiet (check_key part produces) _ (Appends-check_key part produces)
      (required_outputs produces)

Appends-check_outputs : (part : Partition) → Appends (check_outputs part) (output_errors part) []
unfolding check_outputs
Appends-check_outputs part = Appends-check_required part part.produces

Appends-unless :
    (b : Bool) (e : GraphError)
    → Appends (λ s. if b then push_error e s else s) (if b then e ∷ [] else []) []
Appends-unless true e = Appends-push_error e
Appends-unless false e = Appends-nothing _ (λ s. refl)

Appends-check_produces :
    (part : Partition) (export : Export) (produces : Option ProducesType)
    → Appends (check_produces part export produces) (mismatch part export produces) []
unfolding check_produces
Appends-check_produces part export none = Appends-nothing _ (λ s. refl)
Appends-check_produces part export (some produces) =
    Appends-unless (not (export_type_of produces == export.export_type)) _

Appends-check_target :
    (export : Export) (target : Option Partition)
    → Appends (check_target export target) (target_errors export target) []
unfolding check_target
Appends-check_target export none = Appends-nothing _ (λ s. refl)
Appends-check_target export (some part) = Appends-check_produces part export part.produces

Appends-check_export :
    (enc : Enclave) (export : Export)
    → Appends (check_export enc export) (export_errors enc export) []
unfolding check_export
Appends-check_export enc export = Appends-check_target export _

module _ (by_id : EnclaveMap) (enc : Enclave) where
  Appends-partition_imports :
      (part : Partition)
      → Appends
          (λ s.
            for_each (λ i. push_result (check_import_partition enc part.id i by_id)) part.imports s)
          (flat_map (λ i. result_errors (check_import_partition enc part.id i by_id)) part.imports)
          (flat_map (λ i. result_wiring (check_import_partition enc part.id i by_id)) part.imports)
  Appends-partition_imports part =
      Appends-for_each _ _ _ (λ i. Appends-push_result (check_import_partition enc part.id i by_id))
        part.imports

  Appends-check_enclave :
      Appends (check_enclave by_id enc) (enclave_errors by_id enc) (enclave_wiring by_id enc)
  unfolding check_enclave
  Appends-check_enclave =
      Appends-then (Appends-quiet check_outputs output_errors Appends-check_outputs enc.partitions)
        (Appends-then
          (Appends-quiet (check_export enc) (export_errors enc) (Appends-check_export enc)
            enc.exports)
          (Appends-then
            (Appends-for_each _ _ _ (λ i. Appends-push_result (check_import enc i by_id))
              enc.imports)
            (Appends-for_each _ _ _ Appends-partition_imports enc.partitions)))

-- The checks collect exactly the reference lists, enclave by enclave.
pub check_all-eq :
    (enclaves : List Enclave)
    → check_all enclaves ≡ record {
      errors = flat_map (enclave_errors (enclave_map enclaves)) enclaves;
      wiring = flat_map (enclave_wiring (enclave_map enclaves)) enclaves;
    }
unfolding check_all
check_all-eq enclaves =
    (Appends-for_each _ _ _ (Appends-check_enclave (enclave_map enclaves)) enclaves).at no_checks
