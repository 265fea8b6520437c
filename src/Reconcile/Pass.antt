-- ===== src/Reconcile/Pass.antt =====
-- `reconcile` in crates/nclav-reconciler/src/reconcile.rs, its steps in their order.
use nclav.Base.{
  [], String, Bool, true, false, Option, none, some, List, length, Map, Result, ok, err,
  if◌then◌else◌,
}
use nclav.Domain.{Enclave, EnclaveId}
use nclav.Graph.{GraphError, ResolvedGraph, validate}
use nclav.Store.{EnclaveState, reconcile_started, reconcile_completed}
use nclav.Reconcile.Report.{ReconcileRequest, ReconcileReport, ReconcileError, Change}
use nclav.Reconcile.Plan.{ordered_desired, actual_states, removed_ids, plan}
use nclav.Reconcile.Action.{Run, Env, Action, lift, ◌>>=◌, ◌>>◌, read_store, write_store, outside}
use nclav.Reconcile.Teardown.{teardown_enclaves}
use nclav.Reconcile.Enclaves.{provision_enclaves}
use nclav.Reconcile.Imports.{wire_imports}

abbrev pub config_result : {V A : Type 0} → Result String A → Result (ReconcileError V) A
config_result (ok a) = ok a
config_result (err e) = err (ReconcileError.config e)

-- An index out of range in `validate` is a panic.
abbrev pub graph_result :
    {V : Type 0}
    → Option (Result GraphError ResolvedGraph)
    → Result (ReconcileError V) ResolvedGraph
graph_result none = err ReconcileError.panic
graph_result (some (ok g)) = ok g
graph_result (some (err e)) = err (ReconcileError.graph e)

-- `ReconcileReport::new`: a run starts without errors.
abbrev pub new_report : {S W : Type 0} → S → W → Run S W
new_report store world = record { store = store; world = world; errors = [] }

-- The report that is returned, with the errors pushed so far.
unfoldable pub finish : {V S W : Type 0} → Bool → List Change → Action V S W ReconcileReport
finish dry_run changes r =
    (ok (record { dry_run = dry_run; changes = changes; errors = r.errors }), r)

module _ {V S W : Type 0} (env : Env V S W) where
  -- Steps 5 to 9, past the gate of a dry run.
  unfoldable pub converge :
      Bool
      → List Enclave
      → List Enclave
      → Map EnclaveId (EnclaveState V)
      → List Change
      → Action V S W (Unit {0})
  converge resources_only enclaves ordered actual changes = do
    run_id ← outside env.new_uuid
    at ← outside env.now
    write_store (env.state_store.append_event (reconcile_started run_id at false))
    teardown_enclaves env resources_only run_id actual (removed_ids enclaves actual)
    provision_enclaves env run_id actual ordered
    wire_imports env ordered
    at ← outside env.now
    write_store
        (env.state_store.append_event (reconcile_completed run_id at (length changes) false))

  -- Step 5: a dry run ends with the changes.
  unfoldable pub gate :
      ReconcileRequest
      → List Enclave
      → List Enclave
      → Map EnclaveId (EnclaveState V)
      → List Change
      → Action V S W ReconcileReport
  gate req enclaves ordered actual changes =
      let converged =
        converge req.resources_only enclaves ordered actual changes >> finish false changes in
      if req.dry_run then finish true changes else converged

  -- Step 4, on the stored states.
  unfoldable pub diff :
      ReconcileRequest
      → List Enclave
      → ResolvedGraph
      → List (EnclaveState V)
      → Action V S W ReconcileReport
  diff req enclaves resolved stored =
      let actual = actual_states stored in
      let ordered = ordered_desired resolved.topo_order enclaves in
      gate req enclaves ordered actual (plan env.hashes enclaves ordered actual)

  -- Step 3.
  unfoldable pub load_states :
      ReconcileRequest → List Enclave → ResolvedGraph → Action V S W ReconcileReport
  load_states req enclaves resolved =
      read_store env.state_store.list_enclaves >>= diff req enclaves resolved

  -- Step 2.
  unfoldable pub validate_enclaves : ReconcileRequest → List Enclave → Action V S W ReconcileReport
  validate_enclaves req enclaves =
      lift (graph_result (validate env.petgraph enclaves)) >>= load_states req enclaves

  unfoldable pub reconcile : ReconcileRequest → Action V S W ReconcileReport
  reconcile req = do
    loaded ← outside (env.load_enclaves req.enclaves_dir)
    lift (config_result loaded) >>= validate_enclaves req
