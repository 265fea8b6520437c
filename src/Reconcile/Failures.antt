-- ===== src/Reconcile/Failures.antt =====
-- Which errors end a run of `reconcile`: those of the drivers are reported and the run goes on.
use nclav.Base.{
  ℕ, String, Bool, true, false, Bool-cases, inl, inr, Option, none, some, List, Map, Result, ok,
  err, contains_key, string_eq,
}
use nclav.Domain.{Enclave, EnclaveId, Export, Import}
use nclav.Store.{EnclaveState}
use nclav.Driver.{Driver, DriverError, ProvisionResult}
use nclav.Driver.Registry.{for_enclave}
use nclav.Reconcile.Contract.{
  Ends, IsStore, getting, upserting, appending, Ends->>=, Ends-weaken, Ends-outside,
  Ends-push_error, Ends-pure, Ends-write_store, Ends-write_store_last, Ends-read_store, Ends-for_do,
  Ends-for_fold,
}
use nclav.Reconcile.Report.{ReconcileError}
use nclav.Reconcile.Action.{Env, Run, push_error}
use nclav.Reconcile.Partitions.{provision_partitions}
use nclav.Reconcile.Partitions.Settled.{provision_partition-Done}
use nclav.Reconcile.Enclaves.{
  record_export, provision_export, provision_exports, finish_enclave, drive_enclave,
  provision_enclave, provision_enclaves,
}
use nclav.Reconcile.Imports.{
  record_import, wire_to, wire_import, store_changed, wire_stored, wire_with, wire_imports,
  all_imports,
}

-- Anything may hold where the action ends.
abbrev Any : {A B : Type 0} → A → B → Type 0
Any a b = Unit {0}

push_error-Ends :
    {V S W : Type 0} (E : ReconcileError V → Type 0) (msg : String) (r : Run S W)
    → Ends E Any (push_error msg r)
unfolding Ends push_error
push_error-Ends E msg r = tt

module _ {V S W : Type 0} (env : Env V S W) where
  module _ (driver : Driver V W) (enc : Enclave) where
    record_export-IsStore :
        (export : Export) (st : EnclaveState V) (result : Result DriverError (ProvisionResult V))
        (r : Run S W)
        → Ends (IsStore env.state_store) Any (record_export env driver enc export st result r)
    unfolding record_export
    record_export-IsStore export st (ok result) r = Ends-outside _ _ _ _ _ (
        Ends-outside _ _ _ _ _
          (Ends-write_store _ _ _ _ _ (λ e f. appending f) (λ a. Ends-pure _ _ _ _ tt)))
    record_export-IsStore export st (err e) r = Ends-push_error _ _ _ _ _ (Ends-pure _ _ _ _ tt)

    provision_exports-IsStore :
        (st : EnclaveState V) (r : Run S W)
        → Ends (IsStore env.state_store) Any (provision_exports env driver enc st r)
    unfolding provision_exports provision_export
    provision_exports-IsStore st r =
        Ends-for_fold _ _ Any
          (λ export st r _. Ends-outside _ _ _ _ _ (record_export-IsStore export st _ _))
          enc.exports st r tt

    provision_partitions-IsStore :
        (run_id : ℕ) (st : EnclaveState V) (r : Run S W)
        → Ends (IsStore env.state_store) Any (provision_partitions env run_id driver enc st r)
    unfolding provision_partitions
    provision_partitions-IsStore run_id st r =
        Ends-for_fold _ _ Any
          (λ part st r _.
            Ends-weaken _ _ _ _ (provision_partition-Done env run_id driver enc part st r)
              (λ _ _ _. tt))
          enc.partitions st r tt

    finish_enclave-IsStore :
        (run_id : ℕ) (hash : String) (st : EnclaveState V)
        (result : Result DriverError (ProvisionResult V)) (r : Run S W)
        → Ends (IsStore env.state_store) Any (finish_enclave env driver enc run_id hash st result r)
    unfolding finish_enclave
    finish_enclave-IsStore run_id hash st (ok result) r = Ends-outside _ _ _ _ _ (
        Ends->>= _ _ _ _ _ _ (provision_partitions-IsStore run_id _ _) (λ st' r' _.
          Ends->>= _ _ _ _ _ _ (provision_exports-IsStore st' r') (λ st'' r'' _.
            Ends-outside _ _ _ _ _ (
              Ends-outside _ _ _ _ _ (
                Ends-write_store _ _ _ _ _ (λ e f. appending f)
                  (λ a. Ends-write_store_last _ _ _ _ (λ e f. upserting f) tt))))))
    finish_enclave-IsStore run_id hash st (err e) r = Ends-outside _ _ _ _ _ (
        Ends-write_store _ _ _ _ _ (λ e f. upserting f)
          (λ a. Ends-outside _ _ _ _ _ (
            Ends-outside _ _ _ _ _
              (Ends-write_store _ _ _ _ _ (λ e f. appending f) (λ a. push_error-Ends _ _ _)))))

  drive_enclave-IsStore :
      (run_id : ℕ) (actual : Map EnclaveId (EnclaveState V)) (enc : Enclave)
      (d : Result DriverError (Driver V W)) (r : Run S W)
      → Ends (IsStore env.state_store) Any (drive_enclave env run_id actual enc d r)
  unfolding drive_enclave
  drive_enclave-IsStore run_id actual enc (err e) r = push_error-Ends _ _ _
  drive_enclave-IsStore run_id actual enc (ok d) r =
      Ends-write_store _ _ _ _ _ (λ e f. upserting f)
        (λ a. Ends-outside _ _ _ _ _ (finish_enclave-IsStore d enc run_id _ _ _ _))

  -- The provisioning of the enclaves ends for no other error than one that a call of the store has
  -- answered: what a driver or Terraform answers, and a missing driver, does not end it.
  pub provision_enclaves-IsStore :
      (run_id : ℕ) (actual : Map EnclaveId (EnclaveState V)) (ordered : List Enclave) (r : Run S W)
      → Ends
          (IsStore env.state_store)
          (λ _ _. Unit {0})
          (provision_enclaves env run_id actual ordered r)
  unfolding provision_enclaves provision_enclave
  provision_enclaves-IsStore run_id actual ordered r =
      Ends-for_do _ _ (λ _. Unit {0})
        (λ enc r _. drive_enclave-IsStore run_id actual enc (for_enclave env.registry enc) r)
        ordered r tt

  record_import-IsStore :
      (driver : Driver V W) (enc : Enclave) (imp : Import) (s : EnclaveState V × Bool)
      (result : Result DriverError (ProvisionResult V)) (r : Run S W)
      → Ends (IsStore env.state_store) Any (record_import env driver enc imp s result r)
  unfolding record_import
  record_import-IsStore driver enc imp s (ok result) r = Ends-outside _ _ _ _ _ (
      Ends-outside _ _ _ _ _
        (Ends-write_store _ _ _ _ _ (λ e f. appending f) (λ a. Ends-pure _ _ _ _ tt)))
  record_import-IsStore driver enc imp s (err e) r =
      Ends-push_error _ _ _ _ _ (Ends-pure _ _ _ _ tt)

  wire_to-IsStore :
      (driver : Driver V W) (enc : Enclave) (imp : Import) (s : EnclaveState V × Bool)
      (handle : Option V) (r : Run S W)
      → Ends (IsStore env.state_store) Any (wire_to env driver enc imp s handle r)
  unfolding wire_to
  wire_to-IsStore driver enc imp s none r = Ends-pure _ _ _ _ tt
  wire_to-IsStore driver enc imp s (some h) r =
      Ends-outside _ _ _ _ _ (record_import-IsStore driver enc imp s _ _)

  wire_import-IsStore :
      (driver : Driver V W) (enc : Enclave) (imp : Import) (s : EnclaveState V × Bool) (r : Run S W)
      → Ends (IsStore env.state_store) Any (wire_import env driver enc imp s r)
  unfolding wire_import
  wire_import-IsStore driver enc imp s r =
      elim (Bool-cases (contains_key imp.alias s.0.import_handles)) [
        | inl e ↦ rw e (Ends-pure _ _ _ _ tt)
        | inr e ↦ rw e (
            Ends-read_store _ _ _ _ _ (λ e f. getting f)
              (λ x. wire_to-IsStore driver enc imp s _ r))
      ]

  store_changed-IsStore :
      (driver : Driver V W) (enc : Enclave) (s : EnclaveState V × Bool) (r : Run S W)
      → Ends (IsStore env.state_store) Any (store_changed env driver enc s r)
  unfolding store_changed
  store_changed-IsStore driver enc (st, true) r =
      Ends-write_store_last _ _ _ _ (λ e f. upserting f) tt
  store_changed-IsStore driver enc (st, false) r = Ends-pure _ _ _ _ tt

  wire_stored-IsStore :
      (driver : Driver V W) (enc : Enclave) (stored : Option (EnclaveState V)) (r : Run S W)
      → Ends (IsStore env.state_store) Any (wire_stored env driver enc stored r)
  unfolding wire_stored
  wire_stored-IsStore driver enc none r = Ends-pure _ _ _ _ tt
  wire_stored-IsStore driver enc (some st) r =
      Ends->>= _ _ _ _ _ _
        (Ends-for_fold _ _ Any (λ imp s r _. wire_import-IsStore driver enc imp s r)
          (all_imports enc) (st, false) r tt)
        (λ s r' _. store_changed-IsStore driver enc s r')

  wire_with-IsStore :
      (enc : Enclave) (d : Result DriverError (Driver V W)) (r : Run S W)
      → Ends (IsStore env.state_store) Any (wire_with env enc d r)
  unfolding wire_with
  wire_with-IsStore enc (err e) r = Ends-pure _ _ _ _ tt
  wire_with-IsStore enc (ok d) r =
      Ends-read_store _ _ _ _ _ (λ e f. getting f) (λ stored. wire_stored-IsStore d enc stored r)

  -- The wiring of the imports ends for no other error than one that a call of the store has answered.
  pub wire_imports-IsStore :
      (ordered : List Enclave) (r : Run S W)
      → Ends (IsStore env.state_store) (λ _ _. Unit {0}) (wire_imports env ordered r)
  unfolding wire_imports
  wire_imports-IsStore ordered r =
      Ends-for_do _ _ (λ _. Unit {0})
        (λ enc r _. wire_with-IsStore enc (for_enclave env.registry enc) r) ordered r tt
