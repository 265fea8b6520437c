-- ===== src/Reconcile/Reliable.antt =====
-- Runs over a store whose calls succeed.
use nclav.Base.{
  ◌≡◌, ◌≢◌, refl, Bool, true, false, Bool-cases, inl, inr, some, List, Map, Result, ok, err,
}
use nclav.Domain.{Enclave, EnclaveId}
use nclav.Graph.{ResolvedGraph, validate}
use nclav.Store.{EnclaveState, AuditEvent, StoreError}
use nclav.Reconcile.Report.{ReconcileError, ReconcileRequest, ReconcileReport, Change}
use nclav.Reconcile.Action.{StateStore, Env, Run}
use nclav.Reconcile.Contract.{
  Ends, IsStore, getting, upserting, deleting, appending, Ends->>=, Ends-outside, Ends-lift_ok,
  Ends-read_store,
}
use nclav.Reconcile.ResourcesOnly.{converge-IsStore}
use nclav.Reconcile.Pass.{reconcile, validate_enclaves, load_states, diff, gate, finish}

pub record Reliable {V S : Type 0} (st : StateStore V S) : Type 0 where
  pub lists : (s : S) (e : StoreError V) → st.list_enclaves s ≢ err e
  pub gets : (id : EnclaveId) (s : S) (e : StoreError V) → st.get_enclave id s ≢ err e
  pub upserts :
      (state : EnclaveState V) (s : S) (e : StoreError V) → (st.upsert_enclave state s).0 ≢ err e
  pub deletes : (id : EnclaveId) (s : S) (e : StoreError V) → (st.delete_enclave id s).0 ≢ err e
  pub appends :
      (event : AuditEvent) (s : S) (e : StoreError V) → (st.append_event event s).0 ≢ err e

never : {V S : Type 0} {st : StateStore V S} {e : ReconcileError V} → Reliable st → IsStore st e → ⊥
never ok_store (getting f) = ok_store.gets _ _ _ f
never ok_store (upserting f) = ok_store.upserts _ _ _ f
never ok_store (deleting f) = ok_store.deletes _ _ _ f
never ok_store (appending f) = ok_store.appends _ _ _ f

Ends-never :
    {V S W A : Type 0} (st : StateStore V S) (P : A → Run S W → Type 0)
    (x : Result (ReconcileError V) A × Run S W)
    → Reliable st
    → Ends (IsStore st) P x
    → Ends (λ _. ⊥) P x
unfolding Ends
Ends-never st P (ok a, r) ok_store h = h
Ends-never st P (err e, r) ok_store h = never ok_store h

Ends-returns :
    {V S W A : Type 0} (P : A → Run S W → Type 0) (x : Result (ReconcileError V) A × Run S W)
    → Ends (λ _. ⊥) P x
    → (a : A) × (r : Run S W) × (x ≡ (ok a, r))
unfolding Ends
Ends-returns P (ok a, r) h = (a, r, refl)
Ends-returns P (err e, r) h = elim h [ ]

abbrev Any : {A B : Type 0} → A → B → Type 0
Any a b = Unit {0}

finish-Ends :
    {V S W : Type 0} (E : ReconcileError V → Type 0) (dry_run : Bool) (changes : List Change)
    (r : Run S W)
    → Ends E Any (finish dry_run changes r)
unfolding Ends finish
finish-Ends E dry_run changes r = tt

module _ {V S W : Type 0} (env : Env V S W) (ok_store : Reliable env.state_store) where
  gate-Ends :
      (req : ReconcileRequest) (enclaves ordered : List Enclave)
      (actual : Map EnclaveId (EnclaveState V)) (changes : List Change) (r : Run S W)
      → req.resources_only ≡ true
      → Ends (λ _. ⊥) Any (gate env req enclaves ordered actual changes r)
  unfolding gate
  gate-Ends req enclaves ordered actual changes r h = elim (Bool-cases req.dry_run) [
    | inl e ↦ rw e (finish-Ends _ true changes r)
    | inr e ↦
        rw (e, h)
          (Ends->>= _ Any _ _ _ _
            (Ends-never env.state_store Any _ ok_store
              (converge-IsStore env enclaves ordered actual changes r))
            (λ _ r' _. finish-Ends _ false changes r'))
  ]

  reconcile-Ends :
      (req : ReconcileRequest) (r : Run S W) (enclaves : List Enclave) (resolved : ResolvedGraph)
      → req.resources_only ≡ true
      → (env.load_enclaves req.enclaves_dir r.world).0 ≡ ok enclaves
      → validate env.petgraph enclaves ≡ some (ok resolved)
      → Ends (λ _. ⊥) Any (reconcile env req r)
  unfolding reconcile validate_enclaves load_states diff
  reconcile-Ends req r enclaves resolved h loaded valid = Ends-outside _ _ _ _ _ (
      rw loaded (
        Ends-lift_ok _ _ _ _ _ (
          rw valid (
            Ends-lift_ok _ _ _ _ _ (
              Ends-read_store _ _ _ _ _ (λ e f. ok_store.lists _ _ f)
                (λ stored. gate-Ends req enclaves _ _ _ _ h))))))

  -- Over a store whose calls succeed, a run with `resources_only`, dry or not, on a configuration that
  -- loads and that `validate` accepts returns a report, whatever the drivers and Terraform answer.
  pub reconcile-returns :
      (req : ReconcileRequest) (r : Run S W) (enclaves : List Enclave) (resolved : ResolvedGraph)
      → req.resources_only ≡ true
      → (env.load_enclaves req.enclaves_dir r.world).0 ≡ ok enclaves
      → validate env.petgraph enclaves ≡ some (ok resolved)
      → (report : ReconcileReport) × (r' : Run S W) × (reconcile env req r ≡ (ok report, r'))
  reconcile-returns req r enclaves resolved h loaded valid =
      Ends-returns Any _ (reconcile-Ends req r enclaves resolved h loaded valid)
