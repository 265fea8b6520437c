-- ===== src/Reconcile/ResourcesOnly.antt =====
-- A run that keeps the projects, `resources_only`: no driver can end it.
use nclav.Base.{ℕ, String, true, Option, none, some, List, Map, Result, ok, err}
use nclav.Domain.{Enclave, EnclaveId, PartitionId}
use nclav.Store.{EnclaveState, PartitionState}
use nclav.Driver.{Driver, DriverError}
use nclav.Reconcile.Report.{Change}
use nclav.Reconcile.Action.{Env, Run, pure, push_error}
use nclav.Reconcile.Contract.{
  Ends, IsStore, deleting, appending, Ends->>=, Ends-outside, Ends-outside_store, Ends-pure,
  Ends-write_store, Ends-write_store_last, Ends-for_do,
}
use nclav.Reconcile.Teardown.{
  report_teardown, cleanup_partition, teardown_partition, delete_project, teardown_resources,
  teardown_existing, teardown_enclaves,
}
use nclav.Reconcile.Failures.{provision_enclaves-IsStore, wire_imports-IsStore}
use nclav.Reconcile.Pass.{converge}

abbrev Any : {A B : Type 0} → A → B → Type 0
Any a b = Unit {0}

module _ {V S W : Type 0} (env : Env V S W) where
  report_teardown-IsStore :
      (id : EnclaveId) (part_id : PartitionId) (x : Result DriverError (Unit {0})) (r : Run S W)
      → Ends (IsStore env.state_store) Any (report_teardown env id part_id x r)
  unfolding report_teardown Ends pure push_error
  report_teardown-IsStore id part_id (ok a) r = tt
  report_teardown-IsStore id part_id (err e) r = tt

  cleanup_partition-IsStore :
      (d : Driver V W) (enc : Enclave) (ps : PartitionState V) (handle : Option V) (r : Run S W)
      → Ends (IsStore env.state_store) Any (cleanup_partition env d enc ps handle r)
  unfolding cleanup_partition
  cleanup_partition-IsStore d enc ps none r = Ends-pure _ _ _ _ tt
  cleanup_partition-IsStore d enc ps (some h) r = Ends-outside _ _ _ _ _ (Ends-pure _ _ _ _ tt)

  module _ (run_id : ℕ) where
    teardown_partition-IsStore :
        (d : Driver V W) (id : EnclaveId) (st : EnclaveState V) (auth_env : Map String String)
        (part : PartitionId × PartitionState V) (r : Run S W)
        → Ends
            (IsStore env.state_store)
            Any
            (teardown_partition env true run_id d id st auth_env part r)
    unfolding teardown_partition
    teardown_partition-IsStore d id st auth_env part r = Ends-outside_store _ _ _ _ _ (
        Ends->>= _ _ _ _ _ _ (report_teardown-IsStore id part.0 _ _)
          (λ _ r' _. cleanup_partition-IsStore d _ _ _ r'))

    teardown_resources-IsStore :
        (id : EnclaveId) (st : EnclaveState V) (d : Result DriverError (Driver V W))
        (handle : Option V) (r : Run S W)
        → Ends (IsStore env.state_store) Any (teardown_resources env true run_id id st d handle r)
    unfolding teardown_resources delete_project
    teardown_resources-IsStore id st (ok d) (some h) r =
        Ends->>= _ _ _ _ _ _
          (Ends-for_do _ _ (λ _. Unit {0}) (λ part r _. teardown_partition-IsStore d id st _ part r)
            st.partitions r tt)
          (λ _ r' _. Ends-pure _ _ _ _ tt)
    teardown_resources-IsStore id st (ok d) none r = Ends-pure _ _ _ _ tt
    teardown_resources-IsStore id st (err e) h r = Ends-pure _ _ _ _ tt

    teardown_existing-IsStore :
        (id : EnclaveId) (st : Option (EnclaveState V)) (r : Run S W)
        → Ends (IsStore env.state_store) Any (teardown_existing env true run_id id st r)
    unfolding teardown_existing
    teardown_existing-IsStore id none r = Ends-pure _ _ _ _ tt
    teardown_existing-IsStore id (some st) r =
        Ends->>= _ _ _ _ _ _ (teardown_resources-IsStore id st _ _ r)
          (λ _ r' _. Ends-write_store_last _ _ _ _ (λ e f. deleting f) tt)

    teardown_enclaves-IsStore :
        (actual : Map EnclaveId (EnclaveState V)) (ids : List EnclaveId) (r : Run S W)
        → Ends (IsStore env.state_store) Any (teardown_enclaves env true run_id actual ids r)
    unfolding teardown_enclaves
    teardown_enclaves-IsStore actual ids r =
        Ends-for_do _ _ (λ _. Unit {0}) (λ id r _. teardown_existing-IsStore id _ r) ids r tt

  pub converge-IsStore :
      (enclaves ordered : List Enclave) (actual : Map EnclaveId (EnclaveState V))
      (changes : List Change) (r : Run S W)
      → Ends (IsStore env.state_store) Any (converge env true enclaves ordered actual changes r)
  unfolding converge
  converge-IsStore enclaves ordered actual changes r = Ends-outside _ _ _ _ _ (
      Ends-outside _ _ _ _ _ (
        Ends-write_store _ _ _ _ _ (λ e f. appending f)
          (λ a. Ends->>= _ _ _ _ _ _ (teardown_enclaves-IsStore _ actual _ _) (λ _ r' _.
            Ends->>= _ _ _ _ _ _ (provision_enclaves-IsStore env _ actual ordered r') (λ _ r'' _.
              Ends->>= _ _ _ _ _ _ (wire_imports-IsStore env ordered r'') (λ _ r''' _.
                Ends-outside _ _ _ _ _ (Ends-write_store_last _ _ _ _ (λ e f. appending f) tt)))))))
