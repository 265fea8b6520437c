-- ===== src/Graph/Verdicts.antt =====
-- What `validate` returns, and when.
use nclav.Base.{
  ℕ, suc, ◌≡◌, ◌≢◌, refl, ap₂, ◌∙◌, subst, subst₂, false, Bool-cases, inl, inr, some, List, [], ◌∷◌,
  ◌++◌, Result, ok, err, All, All-map, All-append, Mem, here, there, length, get_elem?, flat_map,
  flat_map-eq-nil, flat_map-nil, string_eq, arith,
}
use nclav.Domain.{Enclave}
use nclav.Graph.Interface.{Petgraph, PetgraphLaws, Before}
use nclav.Graph.Checks.{
  GraphError, cycle_detected, multiple, graph_errors, CrossEnclaveWiring, Checks, check_all,
  EnclaveMap, enclave_map,
}
use nclav.Graph.Order.{
  ResolvedGraph, node_map, edges, node_names, resolve_order, conclude, validate,
}
use nclav.Graph.Reference.{enclave_errors, enclave_wiring, check_all-eq}
use nclav.Graph.Contract.{EnclaveOk, HasDistinctIds, HasDistinctExports}
use nclav.Graph.Soundness.{enclave_errors_sound}
use nclav.Graph.Completeness.{enclave_errors_complete}
use nclav.Graph.Wiring.{wires, enclave_wiring-eq, wires-Wired}
use nclav.Graph.Ordering.{
  node_names-mem, get_elem?-lt, Wired, edges_total, edges-HasEdges, edges-HasEdge, node_names_total,
  node_names-Before, get-node_map,
}

module _ (p : Petgraph) where
  -- What an accepted graph was made from.
  resolve_order-eq-ok :
      (es : List Enclave) (ws : List CrossEnclaveWiring) {r : ResolvedGraph}
      → resolve_order p es ws ≡ some (ok r)
      → (l : List (ℕ × ℕ)) × (order : List ℕ) × (edges (node_map es) ws ≡ some l)
        × (p.is_cyclic_directed (length es) l ≡ false)
        × (p.toposort (length es) l ≡ some order)
        × (node_names es order ≡ some r.topo_order)
        × (r.cross_enclave_wiring ≡ ws)
  unfolding resolve_order
  resolve_order-eq-ok es ws h = ground arith

module _ (p : Petgraph) (laws : PetgraphLaws p) where
  -- The returns of the part after the checks, none of which is a panic.
  pub resolve_order_total :
      (es : List Enclave) (ws : List CrossEnclaveWiring)
      → All (Wired es) ws
      → (r : Result GraphError ResolvedGraph) × (resolve_order p es ws ≡ some r)
  unfolding resolve_order
  resolve_order_total es ws h =
      let (l, e) = edges_total es ws h in
      elim (Bool-cases (p.is_cyclic_directed (length es) l)) [
        | inl t ↦ (err cycle_detected, rw (e, t) refl)
        | inr t ↦
            let (order, sorted) = laws.acyclic_sorts (length es) l t in
            let (names, n) =
              node_names_total es order (laws.order_nodes (length es) l order sorted) in
            (
              ok (record { topo_order = names; cross_enclave_wiring = ws }),
              rw (e, t, sorted, n) refl,
            )
      ]

conclude-eq-ok :
    (p : Petgraph) (s : Checks) (es : List Enclave) {r : ResolvedGraph}
    → conclude p s es ≡ some (ok r)
    → (s.errors ≡ []) × (resolve_order p es s.wiring ≡ some (ok r))
unfolding conclude
conclude-eq-ok p s es h = ground arith

abbrev reference : List Enclave → Checks
reference es = record {
  errors = flat_map (enclave_errors (enclave_map es)) es;
  wiring = flat_map (enclave_wiring (enclave_map es)) es;
}

-- An accepted set has no error, and its order comes from the reference wiring.
validate-eq-ok :
    (p : Petgraph) (es : List Enclave) {r : ResolvedGraph}
    → validate p es ≡ some (ok r)
    → All (λ e. enclave_errors (enclave_map es) e ≡ []) es
      × (resolve_order p es (flat_map (enclave_wiring (enclave_map es)) es) ≡ some (ok r))
unfolding validate
validate-eq-ok p es {r} h =
    let (clean, order) =
      conclude-eq-ok p (reference es) es {r = r}
        (subst (λ s. conclude p s es ≡ some (ok r)) (check_all-eq es) h) in
    (flat_map-eq-nil _ es clean, order)

flat_map-wires :
    (by_id : EnclaveMap) (es : List Enclave)
    → All (λ e. enclave_errors by_id e ≡ []) es
    → flat_map (enclave_wiring by_id) es ≡ flat_map wires es
flat_map-wires by_id [] h = refl
flat_map-wires by_id (e ∷ es) h =
    ap₂ (λ (a b : List CrossEnclaveWiring). a ++ b) (enclave_wiring-eq by_id e h.0)
      (flat_map-wires by_id es h.1)

flat_map-Wired :
    (all es : List Enclave)
    → All (EnclaveOk all) es
    → ((e : Enclave) → Mem e es → Mem e all)
    → All (Wired all) (flat_map wires es)
flat_map-Wired all [] h sub = tt
flat_map-Wired all (e ∷ es) h sub =
    All-append (Wired all) (wires e) _ (wires-Wired all e (sub e here) h.0)
      (flat_map-Wired all es h.1 (λ d m. sub d (there m)))

-- `validate` accepts only sets in which every enclave keeps the contract: each import names an export
-- of a listed enclave that permits the importer, each required output is declared, and each export
-- has the type of what its target produces.
pub validate-EnclaveOk :
    (p : Petgraph) (es : List Enclave) (r : ResolvedGraph)
    → validate p es ≡ some (ok r)
    → All (EnclaveOk es) es
validate-EnclaveOk p es r h =
    All-map (λ e clean. enclave_errors_sound es e clean) es (validate-eq-ok p es h).0

-- The wiring of an accepted set has exactly one entry for each import of an enclave or of one of its
-- partitions, in the order of the enclaves.
pub validate-wiring :
    (p : Petgraph) (es : List Enclave) (r : ResolvedGraph)
    → validate p es ≡ some (ok r)
    → r.cross_enclave_wiring ≡ flat_map wires es
validate-wiring p es r h =
    let (clean, order) = validate-eq-ok p es h in
    let (_, _, _, _, _, _, same) = resolve_order-eq-ok p es _ order in
    same ∙ flat_map-wires (enclave_map es) es clean

get_elem?-of_mem {ℓ} :
    {A : Type ℓ} {a : A} {xs : List A} → Mem a xs → (i : ℕ) × (get_elem? xs i ≡ some a)
get_elem?-of_mem here = (0, refl)
get_elem?-of_mem (there m) = let (i, e) = get_elem?-of_mem m in (suc i, e)

module _ (p : Petgraph) (laws : PetgraphLaws p) (es : List Enclave) where
  conclude_total :
      (errors : List GraphError) (ws : List CrossEnclaveWiring)
      → (errors ≡ [] → All (Wired es) ws)
      → (r : Result GraphError ResolvedGraph) × (conclude p
            (record { errors = errors; wiring = ws })
            es
          ≡ some r)
  unfolding conclude
  conclude_total [] ws h = resolve_order_total p laws es ws (h refl)
  conclude_total (e ∷ []) ws h = (err e, refl)
  conclude_total (e ∷ f ∷ rest) ws h = (err (multiple (graph_errors (e ∷ f ∷ rest))), refl)

  -- Whatever the enclaves are, and with a sort that keeps petgraph's laws, `validate` returns: indexing
  -- the map of nodes and the graph never panics.
  pub validate_total : (r : Result GraphError ResolvedGraph) × (validate p es ≡ some r)
  unfolding validate
  validate_total = rw (check_all-eq es) (
      conclude_total (reference es).errors (reference es).wiring (λ clean.
        let fine = flat_map-eq-nil _ es clean in
        rw (flat_map-wires (enclave_map es) es fine)
          (flat_map-Wired es es (All-map (enclave_errors_sound es) es fine) (λ e m. m))))

  -- With a sort that keeps petgraph's laws: in the topological order of an accepted set, an enclave
  -- that exports something stands before each other enclave that imports it.
  pub validate-Before :
      (r : ResolvedGraph)
      → validate p es ≡ some (ok r)
      → (w : CrossEnclaveWiring) → Mem w r.cross_enclave_wiring
      → w.exporter_enclave ≢ w.importer_enclave
      → Before w.exporter_enclave w.importer_enclave r.topo_order
  validate-Before r h w m apart =
      let (clean, order) = validate-eq-ok p es h in
      let (l, topo, es_l, _, sorted, named, same) = resolve_order-eq-ok p es _ order in
      let q = edges-HasEdge es w _ es_l (subst (Mem w) same m) apart in
      let (a, fa, ia) = get-node_map es w.exporter_enclave q.from q.from_node in
      let (b, fb, ib) = get-node_map es w.importer_enclave q.to q.to_node in
      let first =
        laws.order_edges (length es) l topo sorted (edges-HasEdges es _ es_l) q.from q.to q.edge in
      subst₂ (λ x y. Before x y r.topo_order) ia ib
        (node_names-Before es topo named q.from q.to a b fa fb first)

  -- With a sort that keeps petgraph's laws, every enclave of an accepted set stands in its topological
  -- order.
  pub validate-mem-topo_order :
      (r : ResolvedGraph)
      → validate p es ≡ some (ok r)
      → (e : Enclave) → Mem e es
      → Mem e.id r.topo_order
  validate-mem-topo_order r h e m =
      let (clean, order) = validate-eq-ok p es h in
      let (l, topo, _, _, sorted, named, _) = resolve_order-eq-ok p es _ order in
      let (i, f) = get_elem?-of_mem m in
      node_names-mem es topo named i e
        (laws.order_full (length es) l topo sorted i (get_elem?-lt es i f)) f

  resolve_order_complete :
      (ws : List CrossEnclaveWiring)
      → All (Wired es) ws
      → ((l : List (ℕ × ℕ))
          → edges (node_map es) ws ≡ some l
          → p.is_cyclic_directed (length es) l ≡ false)
      → (r : ResolvedGraph) × (resolve_order p es ws ≡ some (ok r))
  unfolding resolve_order
  resolve_order_complete ws wired acyclic =
      let (l, joined) = edges_total es ws wired in
      let (topo, sorted) = laws.acyclic_sorts (length es) l (acyclic l joined) in
      let (order, named) = node_names_total es topo (laws.order_nodes (length es) l topo sorted) in
      (
        record { topo_order = order; cross_enclave_wiring = ws },
        rw (joined, acyclic l joined, sorted, named) refl,
      )

  -- With a sort that keeps petgraph's laws, `validate` accepts a set with distinct identifiers and export
  -- names in which every enclave keeps the contract, provided that petgraph finds no cycle in the graph
  -- of its imports.
  pub validate_complete :
      HasDistinctIds es
      → HasDistinctExports es
      → All (EnclaveOk es) es
      → ((l : List (ℕ × ℕ))
          → edges (node_map es) (flat_map wires es) ≡ some l
          → p.is_cyclic_directed (length es) l ≡ false)
      → (r : ResolvedGraph) × (validate p es ≡ some (ok r))
  unfolding validate conclude
  validate_complete ids names good acyclic =
      let clean = All-map (λ e c. enclave_errors_complete es ids names e c) es good in
      let ours : check_all es ≡ record { errors = []; wiring = flat_map wires es } =
        check_all-eq es ∙ (λ i. record {
          errors = flat_map-nil _ es clean i;
          wiring = flat_map-wires (enclave_map es) es clean i;
        }) in
      rw ours
        (resolve_order_complete (flat_map wires es) (flat_map-Wired es es good (λ e m. m)) acyclic)
