-- ===== src/Reconcile/DryRun.antt =====
-- What a dry run leaves alone, and what it foretells.
use nclav.Base.{◌≡◌, refl, true, false, List, Result, ok, err, Map, Bool-cases, inl, inr}
use nclav.Domain.{Enclave, EnclaveId}
use nclav.Graph.{validate}
use nclav.Store.{EnclaveState}
use nclav.Reconcile.Report.{Change, ReconcileRequest, ReconcileReport, ReconcileError}
use nclav.Reconcile.Contract.{Ends, Ends->>=, Ends-any}
use nclav.Reconcile.Action.{
  Env, Run, Action, ◌>>=◌, ◌>>◌, throw, lift, outside, read_store, and_then_do, store_result,
}
use nclav.Reconcile.Pass.{
  reconcile, gate, converge, finish, validate_enclaves, load_states, diff, config_result,
  graph_result,
}

module _ {V S W : Type 0} where
  keep-and_then_do :
      {A B : Type 0} (x : Result (ReconcileError V) A) (f : A → Action V S W B) (r : Run S W)
      → ((a : A) → (f a r).1 ≡ r)
      → (and_then_do x f r).1 ≡ r
  unfolding throw
  keep-and_then_do (ok a) f r k = k a
  keep-and_then_do (err e) f r k = refl

  -- How a dry run's end, the first, foretells the second: the same error in the same state, or, where
  -- the second ends with a report, the same changes.
  unfoldable pub Foretells :
      Result (ReconcileError V) ReconcileReport × Run S W
      → Result (ReconcileError V) ReconcileReport × Run S W
      → Type 0
  Foretells (err e, r) y = y ≡ (err e, r)
  Foretells (ok report, r) y =
      Ends (λ _. Unit {0}) (λ report' _. report'.changes ≡ report.changes) y

  foretell-and_then_do :
      {A : Type 0} (x : Result (ReconcileError V) A) (f g : A → Action V S W ReconcileReport)
      (r : Run S W)
      → ((a : A) → Foretells (f a r) (g a r))
      → Foretells (and_then_do x f r) (and_then_do x g r)
  unfolding Foretells throw
  foretell-and_then_do (ok a) f g r k = k a
  foretell-and_then_do (err e) f g r k = refl

module _ {V S W : Type 0} (env : Env V S W) where
  gate-dry_run :
      (req : ReconcileRequest) (enclaves ordered : List Enclave)
      (actual : Map EnclaveId (EnclaveState V)) (changes : List Change) (r : Run S W)
      → req.dry_run ≡ true
      → (gate env req enclaves ordered actual changes r).1 ≡ r
  unfolding gate finish
  gate-dry_run req enclaves ordered actual changes r h = rw h refl

  -- A dry run leaves the store as it is, and the world as reading the configuration left it, whether
  -- it returns a report or an error; no error is added to the report.
  pub reconcile-dry_run :
      (req : ReconcileRequest) (r : Run S W)
      → req.dry_run ≡ true
      → (reconcile env req r).1
        ≡ record r { world = (env.load_enclaves req.enclaves_dir r.world).1 }
  unfolding reconcile validate_enclaves load_states diff validate ◌>>=◌ outside lift read_store
  reconcile-dry_run req r h =
      let loaded = env.load_enclaves req.enclaves_dir r.world in
      let r' : Run S W = record r { world = loaded.1 } in
      keep-and_then_do (config_result loaded.0) (validate_enclaves env req) r' (λ enclaves.
        keep-and_then_do (graph_result (validate env.petgraph enclaves))
          (load_states env req enclaves) r'
          (λ resolved.
            keep-and_then_do (store_result (env.state_store.list_enclaves r.store))
              (diff env req enclaves resolved) r' (λ stored. gate-dry_run req enclaves _ _ _ r' h)))

  finish-changes :
      (x : Action V S W (Unit {0})) (changes : List Change) (r : Run S W)
      → Ends (λ _. Unit {0}) (λ report _. report.changes ≡ changes) ((x >> finish false changes) r)
  unfolding finish Ends
  finish-changes x changes r = Ends->>= _ (λ _ _. Unit {0}) _ _ _ _ (Ends-any _) (λ _ _ _. refl)

  gate-Foretells :
      (req : ReconcileRequest) (enclaves ordered : List Enclave)
      (actual : Map EnclaveId (EnclaveState V)) (changes : List Change) (r : Run S W)
      → Foretells
          (gate env (record req { dry_run = true }) enclaves ordered actual changes r)
          (gate env req enclaves ordered actual changes r)
  unfolding gate finish Foretells Ends
  gate-Foretells req enclaves ordered actual changes r = elim (Bool-cases req.dry_run) [
    | inl e ↦ rw e refl
    | inr e ↦
        rw e (
          finish-changes (converge env req.resources_only enclaves ordered actual changes) changes
            r)
  ]

  -- A dry run foretells the run of the same request from the same state: where it fails, the run fails
  -- with the same error in the same state; where it gives a report, a run that ends gives one with the
  -- same changes.
  pub reconcile-Foretells :
      (req : ReconcileRequest) (r : Run S W)
      → Foretells (reconcile env (record req { dry_run = true }) r) (reconcile env req r)
  unfolding reconcile validate_enclaves load_states diff validate ◌>>=◌ outside lift read_store
  reconcile-Foretells req r =
      let dry : ReconcileRequest = record req { dry_run = true } in
      let loaded = env.load_enclaves req.enclaves_dir r.world in
      let r' : Run S W = record r { world = loaded.1 } in
      foretell-and_then_do (config_result loaded.0) (validate_enclaves env dry)
        (validate_enclaves env req) r'
        (λ enclaves.
          foretell-and_then_do (graph_result (validate env.petgraph enclaves))
            (load_states env dry enclaves) (load_states env req enclaves) r'
            (λ resolved.
              foretell-and_then_do (store_result (env.state_store.list_enclaves r.store))
                (diff env dry enclaves resolved) (diff env req enclaves resolved) r'
                (λ stored. gate-Foretells req enclaves _ _ _ r')))
