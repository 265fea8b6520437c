-- ===== src/Graph/Order.antt =====
-- Cycle detection and the topological order of `validate` in crates/nclav-graph/src/validate.rs.
-- Indexing a `HashMap` or a graph out of range panics: `none`.
use nclav.Base.{
  ℕ, ◌+◌, Option, none, some, List, [], ◌∷◌, Map, get, from_list, Result, ok, err, length,
  get_elem?, if◌then◌else◌, ◌==◌, string_eq,
}
use nclav.Domain.{Enclave, EnclaveId}
use nclav.Graph.Interface.{Petgraph}
use nclav.Graph.Checks.{
  GraphError, cycle_detected, multiple, graph_errors, CrossEnclaveWiring, Checks, check_all,
}

pub record ResolvedGraph : Type 0 where
  pub topo_order : List EnclaveId
  pub cross_enclave_wiring : List CrossEnclaveWiring

-- `enclaves.iter().map(|e| (&e.id, graph.add_node(&e.id)))`
unfoldable pub number_nodes : ℕ → List Enclave → List (EnclaveId × ℕ)
number_nodes i [] = []
number_nodes i (e ∷ es) = (e.id, i) ∷ number_nodes (i + 1) es

unfoldable pub node_map : List Enclave → Map EnclaveId ℕ
unfolding number_nodes from_list
node_map enclaves = from_list (number_nodes 0 enclaves)

infixl 5 ◌>>=?◌
abbrev pub ◌>>=?◌ {ℓ κ} : {A : Type ℓ} {B : Type κ} → Option A → (A → Option B) → Option B
none >>=? f = none
some a >>=? f = f a

-- The loop that adds the edges.
unfoldable pub edges : Map EnclaveId ℕ → List CrossEnclaveWiring → Option (List (ℕ × ℕ))
unfolding get
edges nodes [] = some []
edges nodes (w ∷ ws) =
    let rest = edges nodes ws in
    if w.exporter_enclave == w.importer_enclave
    then rest
    else (get w.exporter_enclave nodes >>=? λ from.
        get w.importer_enclave nodes >>=? λ to. rest >>=? λ es. some ((from, to) ∷ es))

-- `topo.iter().map(|idx| NodeId(graph[*idx].to_string()))`
unfoldable pub node_names : List Enclave → List ℕ → Option (List EnclaveId)
node_names enclaves [] = some []
node_names enclaves (i ∷ order) =
    let rest = node_names enclaves order in
    get_elem? enclaves i >>=? λ e. rest >>=? λ names. some (e.id ∷ names)

module _ (p : Petgraph) where
  unfoldable pub resolve_order :
      List Enclave → List CrossEnclaveWiring → Option (Result GraphError ResolvedGraph)
  unfolding edges node_names node_map
  resolve_order enclaves wiring = edges (node_map enclaves) wiring >>=? λ es.
      if p.is_cyclic_directed (length enclaves) es
      then some (err cycle_detected)
      else elim (p.toposort (length enclaves) es) [
        | none ↦ some (err cycle_detected)
        | some topo ↦ node_names enclaves topo >>=? λ names.
            some (ok (record { topo_order = names; cross_enclave_wiring = wiring }))
      ]

  -- The returns of `validate` after the checks.
  unfoldable pub conclude : Checks → List Enclave → Option (Result GraphError ResolvedGraph)
  unfolding resolve_order graph_errors
  conclude s enclaves = elim s.errors [
    | [] ↦ resolve_order enclaves s.wiring
    | e ∷ [] ↦ some (err e)
    | e ∷ f ∷ rest ↦ some (err (multiple (graph_errors (e ∷ f ∷ rest))))
  ]

  unfoldable pub validate : List Enclave → Option (Result GraphError ResolvedGraph)
  unfolding conclude check_all
  validate enclaves = conclude (check_all enclaves) enclaves
