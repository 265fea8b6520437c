-- ===== src/Driver/Terraform/Recording/InMemory.antt =====
-- The Terraform backend over the store of crates/nclav-store/src/memory.rs. A process reaches the store by the
-- requests of Terraform's HTTP backend, which crates/nclav-api/src/handlers.rs serves.
use nclav.Base.{
  ℕ, ℤ, pos, ◌≡◌, refl, sym, ap, ◌∙◌, ◌⊎◌, inl, inr, String, Bool, true, false, Option, none, some,
  List, [], ◌∷◌, Map, get, insert, remove, if◌then◌else◌, Result, ok, err, ◌==◌, string_eq, nat_eq,
  ◌||◌,
}
use nclav.Domain.{Enclave, Partition}
use nclav.Store.{
  IacRun, IacOperation, StoreError, lock_conflict, Json, provision as provision_op,
  teardown as teardown_op,
}
use nclav.Store.Memory.{
  Inner, held_id, put_tf_state, delete_tf_state, lock_tf_state, unlock_tf_state, upsert_iac_run,
}
use nclav.Store.Memory.Locks.{Request, lock, unlock, put, delete, or_unchanged, serve, serve_all}
use nclav.Driver.{DriverError, ProvisionResult}
use nclav.Driver.Terraform.{Command, Host, TerraformBackend}
use nclav.Driver.Terraform.Keeping.{Spares}
use nclav.Driver.Terraform.Process.{is_zero}
use nclav.Driver.Terraform.Operations.{provision, teardown}
use nclav.Driver.Terraform.Recording.{IsRunOf, Recorded, RecordedFailure, Provisioned, TornDown}
use nclav.Driver.Terraform.Recording.Provisioning.{provision-Provisioned}
use nclav.Driver.Terraform.Recording.TearingDown.{teardown-TornDown}

-- The second store is the first after requests for states and locks, of any keys and in any order.
abbrev pub Served : {V : Type 0} → Json V → Inner V → Inner V → Type 0
Served {V} j s s' = (requests : List (Request V)) × (s' ≡ serve_all j requests s)

-- What a process does to the store, while it starts, runs or ends, are requests to the state backend.
pub record ByRequests {V W P : Type 0} (j : Json V) (host : Host V (Inner V) W P) : Type 0 where
  pub spawn : (command : Command) (t : Inner V × W) → Served j t.0 (host.spawn command t).1.0
  pub collect :
      (child : P) (seconds : ℕ) (t : Inner V × W) → Served j t.0 (host.collect child seconds t).1.0
  pub join_readers : (child : P) (t : Inner V × W) → Served j t.0 (host.join_readers child t).1.0
  pub kill : (child : P) (t : Inner V × W) → Served j t.0 (host.kill child t).1.0
  pub wait : (child : P) (t : Inner V × W) → Served j t.0 (host.wait child t).1.0

-- The parts of the store other than states and locks.
pub record Rest (V : Type 0) : Type 0 where
  pub enclaves : Map String (nclav.Store.EnclaveState V)
  pub events : List nclav.Store.AuditEvent
  pub iac_runs : Map ℕ IacRun

abbrev pub rest : {V : Type 0} → Inner V → Rest V
rest s = record { enclaves = s.enclaves; events = s.events; iac_runs = s.iac_runs }

abbrev pub with_run : {V : Type 0} → IacRun → Rest V → Rest V
with_run run r = record r { iac_runs = insert run.id run r.iac_runs }

module _ {V : Type 0} (j : Json V) where
  rest-or_unchanged :
      (key : String) (info : V) (s : Inner V)
      → rest (or_unchanged (lock_tf_state key info s) s) ≡ rest s
  unfolding lock_tf_state
  rest-or_unchanged key info s = by_lock (get key s.tf_locks)
    where
      by_lock :
          (o : Option V)
          → let r : Result (StoreError V) (Inner V) = elim o [
            | some existing ↦ err (lock_conflict existing)
            | none ↦ ok (record s { tf_locks = insert key info s.tf_locks })
          ] in
            rest (or_unchanged r s) ≡ rest s
      by_lock none = refl
      by_lock (some existing) = refl

  rest-unlock_tf_state :
      (key lock_id : String) (s : Inner V) → rest (unlock_tf_state j key lock_id s) ≡ rest s
  unfolding unlock_tf_state
  rest-unlock_tf_state key lock_id s = by_lock (get key s.tf_locks)
    where
      by_test :
          (b : Bool)
          → rest (if b then record s { tf_locks = remove key s.tf_locks } else s) ≡ rest s
      by_test true = refl
      by_test false = refl

      by_lock :
          (o : Option V)
          → let r : Inner V = elim o [
            | none ↦ s
            | some existing ↦
                if lock_id == "" || held_id j existing == lock_id
                then record s { tf_locks = remove key s.tf_locks }
                else s
          ] in
            rest r ≡ rest s
      by_lock none = refl
      by_lock (some existing) = by_test (lock_id == "" || held_id j existing == lock_id)

  rest-serve : (r : Request V) (s : Inner V) → rest (serve j r s) ≡ rest s
  unfolding serve put_tf_state delete_tf_state
  rest-serve (lock key info) s = rest-or_unchanged key info s
  rest-serve (unlock key id) s = rest-unlock_tf_state key id s
  rest-serve (put key state) s = refl
  rest-serve (delete key) s = refl

  rest-serve_all : (rs : List (Request V)) (s : Inner V) → rest (serve_all j rs s) ≡ rest s
  unfolding serve_all
  rest-serve_all [] s = refl
  rest-serve_all (r ∷ rs) s = rest-serve_all rs (serve j r s) ∙ rest-serve r s

  rest-Served : (s : Inner V) {s' : Inner V} → Served j s s' → rest s' ≡ rest s
  rest-Served s (rs, e) = ap rest e ∙ rest-serve_all rs s

-- Requests to the state backend spare the rest of the store.
pub ByRequests-Spares :
    {V W P : Type 0} (j : Json V) (host : Host V (Inner V) W P)
    → ByRequests j host
    → Spares host (rest {V = V})
ByRequests-Spares j host h = record {
  spawn = λ command t. rest-Served j t.0 (h.spawn command t);
  collect = λ child seconds t. rest-Served j t.0 (h.collect child seconds t);
  join_readers = λ child t. rest-Served j t.0 (h.join_readers child t);
  kill = λ child t. rest-Served j t.0 (h.kill child t);
  wait = λ child t. rest-Served j t.0 (h.wait child t);
}

-- The runs of the second store are those of the first with one run of the operation, which ended with `code`.
pub record HasRun (enclave : Enclave) (partition : Partition) (reconcile_run_id : Option ℕ)
    (operation : IacOperation) (code : ℤ) {V : Type 0} (before after : Rest V) : Type 0 where
  pub run : IacRun
  pub is_run : IsRunOf enclave partition reconcile_run_id operation code run
  pub stored : after ≡ with_run run before

abbrev pub HasFailedRun :
    Enclave → Partition → Option ℕ → IacOperation → {V : Type 0} → Rest V → Rest V → Type 0
HasFailedRun enclave partition reconcile_run_id operation before after =
    (code : ℤ) × (is_zero code ≡ false)
    × HasRun enclave partition reconcile_run_id operation code before after

-- What `provision` leaves: after a success a succeeded run, after a failure nothing new or a failed run.
abbrev pub ProvisionLeaves :
    Enclave
    → Partition
    → Option ℕ
    → {V A : Type 0} → Result DriverError A
    → Rest V
    → Rest V
    → Type 0
ProvisionLeaves enc part id (ok result) before after =
    HasRun enc part id provision_op (pos 0) before after
ProvisionLeaves enc part id (err e) before after =
    (after ≡ before) ⊎ HasFailedRun enc part id provision_op before after

-- What `teardown` leaves: after a success nothing new or a succeeded run, after a failure a failed run.
abbrev pub TeardownLeaves :
    Enclave
    → Partition
    → Option ℕ
    → {V A : Type 0} → Result DriverError A
    → Rest V
    → Rest V
    → Type 0
TeardownLeaves enc part id (ok result) before after =
    (after ≡ before) ⊎ HasRun enc part id teardown_op (pos 0) before after
TeardownLeaves enc part id (err e) before after = HasFailedRun enc part id teardown_op before after

-- The backend's store is the one in memory.
abbrev pub OverMemory : {V : Type 0} → TerraformBackend V (Inner V) → Type 0
OverMemory {V} self =
    (run : IacRun) (s : Inner V) → self.upsert_iac_run run s ≡ (ok tt, upsert_iac_run run s)

module _ {V W P : Type 0} (host : Host V (Inner V) W P) (j : Json V)
    (self : TerraformBackend V (Inner V)) (over : OverMemory self) (enclave : Enclave)
    (partition : Partition) (id : Option ℕ) where
  HasRun-Recorded :
      (operation : IacOperation) (code : ℤ) (s s' : Inner V)
      → Recorded host j self rest enclave partition id operation code s s'
      → HasRun enclave partition id operation code (rest s) (rest s')
  unfolding Recorded upsert_iac_run
  HasRun-Recorded operation code s s' (run, is, (before, answer, (same, done))) = record {
    run = run;
    is_run = is;
    stored =
        ap (λ (x : _ × Inner V). rest x.1) (sym done ∙ over run before) ∙ ap (with_run run) same;
  }

  HasFailedRun-RecordedFailure :
      (operation : IacOperation) (s s' : Inner V)
      → RecordedFailure host j self rest enclave partition id operation s s'
      → HasFailedRun enclave partition id operation (rest s) (rest s')
  unfolding RecordedFailure
  HasFailedRun-RecordedFailure operation s s' (code, failing, recorded) =
      (code, failing, HasRun-Recorded operation code s s' recorded)

  ProvisionLeaves-Provisioned :
      (r : Result DriverError (ProvisionResult V)) (s s' : Inner V)
      → Provisioned host j self rest enclave partition id s r s'
      → ProvisionLeaves enclave partition id r (rest s) (rest s')
  unfolding Provisioned
  ProvisionLeaves-Provisioned (ok a) s s' h = HasRun-Recorded _ _ s s' h
  ProvisionLeaves-Provisioned (err e) s s' (inl h) = inl h
  ProvisionLeaves-Provisioned (err e) s s' (inr h) = inr (HasFailedRun-RecordedFailure _ s s' h)

  TeardownLeaves-TornDown :
      (r : Result DriverError (Unit {0})) (s s' : Inner V)
      → TornDown host j self rest enclave partition id s r s'
      → TeardownLeaves enclave partition id r (rest s) (rest s')
  unfolding TornDown
  TeardownLeaves-TornDown (ok a) s s' (inl h) = inl h
  TeardownLeaves-TornDown (ok a) s s' (inr h) = inr (HasRun-Recorded _ _ s s' h)
  TeardownLeaves-TornDown (err e) s s' h = HasFailedRun-RecordedFailure _ s s' h

  module _ (requests : ByRequests j host) (auth_env : Map String String) (t : Inner V × W)
      (live : self.test_mode ≡ false) where
    -- Over the store in memory and outside the test mode, where processes change the store only by requests
    -- for Terraform states and locks: a success of `provision` adds a succeeded run of the partition with
    -- exit code 0 to the stored runs; a failure adds a failed run with another code, or none. Nothing else
    -- of the enclaves, the events and the runs changes.
    pub provision-ProvisionLeaves :
        (resolved_inputs : Map String String)
        → let x = provision host j self enclave partition resolved_inputs auth_env id t in
          ProvisionLeaves enclave partition id x.0 (rest t.0) (rest x.1.0)
    provision-ProvisionLeaves resolved_inputs = ProvisionLeaves-Provisioned _ t.0 _ (
        provision-Provisioned host j self rest (ByRequests-Spares j host requests) enclave partition
          id auth_env resolved_inputs t live)

    -- Over the store in memory and outside the test mode, where processes change the store only by requests
    -- for Terraform states and locks: a success of `teardown` adds a succeeded run of the partition with
    -- exit code 0 to the stored runs, or none; every failure adds a failed run with another code. Nothing
    -- else of the enclaves, the events and the runs changes.
    pub teardown-TeardownLeaves :
        let x = teardown host j self enclave partition auth_env id t in
        TeardownLeaves enclave partition id x.0 (rest t.0) (rest x.1.0)
    teardown-TeardownLeaves = TeardownLeaves-TornDown _ t.0 _ (
        teardown-TornDown host j self rest (ByRequests-Spares j host requests) enclave partition id
          auth_env t live)
