-- ===== src/Graph/Ordering.antt =====
-- Indexing never panics, and exporters stand before importers in the topological order.
use nclav.Base.{
  ℕ, zero, suc, ◌+◌, ◌<◌, ◌≡◌, ◌≢◌, refl, ap, subst, Bool-cases, inl, inr, ◌⊎◌, some, List, [], ◌∷◌,
  All, Mem, here, there, length, get_elem?, get, get-from_list, get-from_list_total, ◌==◌, ==_iff,
  string_eq, arith,
}
use nclav.Domain.{Enclave, EnclaveId}
use nclav.Graph.Interface.{Before, HasEdges}
use nclav.Graph.Checks.{CrossEnclaveWiring}
use nclav.Graph.Order.{number_nodes, node_map, edges, node_names}

-- A numbered node is the enclave at its index.
mem-number_nodes :
    (es : List Enclave) (i : ℕ) {p : EnclaveId × ℕ}
    → Mem p (number_nodes i es)
    → (k : ℕ) × (p.1 ≡ i + k) × (e : Enclave) × (get_elem? es k ≡ some e) × (e.id ≡ p.0)
unfolding number_nodes
mem-number_nodes [] i m = elim m [ ]
mem-number_nodes (e ∷ es) i here = (0, omega arith, e, refl, refl)
mem-number_nodes (e ∷ es) i (there m) =
    let (k, eq, e', found, same) = mem-number_nodes es (i + 1) m in
    (suc k, omega arith, e', found, same)

pub get_elem?-lt {ℓ} :
    {A : Type ℓ} (xs : List A) (i : ℕ) {a : A} → get_elem? xs i ≡ some a → i < length xs
get_elem?-lt [] i h = cc
get_elem?-lt (x ∷ xs) zero h = omega arith
get_elem?-lt (x ∷ xs) (suc i) h = omega (arith, get_elem?-lt xs i h)

-- The enclave that the map of nodes names.
pub get-node_map :
    (es : List Enclave) (id : EnclaveId) (i : ℕ)
    → get id (node_map es) ≡ some i
    → (e : Enclave) × (get_elem? es i ≡ some e) × (e.id ≡ id)
unfolding node_map
get-node_map es id i h =
    let (k, eq, e, found, same) =
      mem-number_nodes es 0 (get-from_list id i (number_nodes 0 es) h) in
    let eq' : k ≡ i = omega arith in (e, rw eq' at found, same)

-- The map of nodes has every listed enclave.
node_map-listed :
    (es : List Enclave) (e : Enclave) → Mem e es → (i : ℕ) × (get e.id (node_map es) ≡ some i)
unfolding node_map
node_map-listed es e m =
    let (k, numbered) = number 0 m in get-from_list_total e.id k (number_nodes 0 es) numbered
  where
    number :
        {l : List Enclave} (i : ℕ)
        → Mem e l
        → (k : ℕ) × Mem {A = EnclaveId × ℕ} (e.id, k) (number_nodes i l)
    number i here = (i, here)
    number i (there n) = let (k, n') = number (i + 1) n in (k, there n')

-- Both ends of a wiring are listed enclaves.
pub record Wired (es : List Enclave) (w : CrossEnclaveWiring) : Type 0 where
  pub importer : Enclave
  pub importer_listed : Mem importer es
  pub importer_id : importer.id ≡ w.importer_enclave
  pub exporter : Enclave
  pub exporter_listed : Mem exporter es
  pub exporter_id : exporter.id ≡ w.exporter_enclave

-- `node_map[..]` finds both ends of each wiring.
pub edges_total :
    (es : List Enclave) (ws : List CrossEnclaveWiring)
    → All (Wired es) ws
    → (l : List (ℕ × ℕ)) × (edges (node_map es) ws ≡ some l)
unfolding edges
edges_total es [] h = ([], refl)
edges_total es (w ∷ ws) h =
    let (l, rest) = edges_total es ws h.1 in
    elim (Bool-cases (w.exporter_enclave == w.importer_enclave)) [
      | inl t ↦ (l, rw t rest)
      | inr t ↦
          let (i, gi) = node_map-listed es h.0.exporter h.0.exporter_listed in
          let (j, gj) = node_map-listed es h.0.importer h.0.importer_listed in
          let gi' : get w.exporter_enclave (node_map es) ≡ some i =
            subst (λ k. get k (node_map es) ≡ some i) h.0.exporter_id gi in
          let gj' : get w.importer_enclave (node_map es) ≡ some j =
            subst (λ k. get k (node_map es) ≡ some j) h.0.importer_id gj in
          ((i, j) ∷ l, rw (t, gi', gj', rest) refl)
    ]

-- The edge of a wiring between two enclaves is among the edges.
pub record HasEdge (es : List Enclave) (w : CrossEnclaveWiring) (l : List (ℕ × ℕ)) : Type 0 where
  pub from : ℕ
  pub to : ℕ
  pub from_node : get w.exporter_enclave (node_map es) ≡ some from
  pub to_node : get w.importer_enclave (node_map es) ≡ some to
  pub edge : Mem (from, to) l

edges-cons :
    (es : List Enclave) (w : CrossEnclaveWiring) (ws : List CrossEnclaveWiring) {l : List (ℕ × ℕ)}
    → edges (node_map es) (w ∷ ws) ≡ some l
    → (w.exporter_enclave ≡ w.importer_enclave) × (edges (node_map es) ws ≡ some l)
      ⊎ ((from : ℕ) × (to : ℕ) × (r : List (ℕ × ℕ)) × (edges (node_map es) ws ≡ some r)
          × (l ≡ (from, to) ∷ r)
          × (get w.exporter_enclave (node_map es) ≡ some from)
          × (get w.importer_enclave (node_map es) ≡ some to))
unfolding edges
edges-cons es w ws h = ground (arith, ==_iff w.exporter_enclave w.importer_enclave)

pub edges-HasEdge :
    (es : List Enclave) (w : CrossEnclaveWiring) (ws : List CrossEnclaveWiring) {l : List (ℕ × ℕ)}
    → edges (node_map es) ws ≡ some l
    → Mem w ws
    → w.exporter_enclave ≢ w.importer_enclave
    → HasEdge es w l
edges-HasEdge es w [] h m apart = elim m [ ]
edges-HasEdge es w (v ∷ ws) h here apart = elim (edges-cons es w ws h) [
  | inl (same, _) ↦ absurd (apart same)
  | inr (i, j, r, e, eq, gi, gj) ↦ record {
    from = i;
    to = j;
    from_node = gi;
    to_node = gj;
    edge = rw eq here;
  }
]
edges-HasEdge es w (v ∷ ws) {l} h (there m) apart = elim (edges-cons es v ws h) [
  | inl (_, e) ↦ edges-HasEdge es w ws e m apart
  | inr (i, j, r, e, eq, _, _) ↦
      let q = edges-HasEdge es w ws e m apart in
      record {
        from = q.from;
        to = q.to;
        from_node = q.from_node;
        to_node = q.to_node;
        edge = rw eq (there q.edge);
      }
]

-- Edges join nodes of the graph.
pub edges-HasEdges :
    (es : List Enclave) (ws : List CrossEnclaveWiring) {l : List (ℕ × ℕ)}
    → edges (node_map es) ws ≡ some l
    → HasEdges (length es) l
unfolding edges
edges-HasEdges es [] {l} h = let e : l ≡ [] = cc in rw e tt
edges-HasEdges es (w ∷ ws) {l} h = elim (edges-cons es w ws h) [
  | inl (_, e) ↦ edges-HasEdges es ws e
  | inr (i, j, r, e, eq, gi, gj) ↦
      let (a, fa, _) = get-node_map es w.exporter_enclave i gi in
      let (b, fb, _) = get-node_map es w.importer_enclave j gj in
      rw eq ((get_elem?-lt es i fa, get_elem?-lt es j fb), edges-HasEdges es ws e)
]

get_elem?-total {ℓ} :
    {A : Type ℓ} (xs : List A) (i : ℕ) → i < length xs → (a : A) × (get_elem? xs i ≡ some a)
get_elem?-total [] i h = absurd (omega arith)
get_elem?-total (x ∷ xs) zero h = (x, refl)
get_elem?-total (x ∷ xs) (suc i) h = get_elem?-total xs i (omega arith)

-- Every node of the order has a name.
pub node_names_total :
    (es : List Enclave) (order : List ℕ)
    → All (λ i. i < length es) order
    → (names : List EnclaveId) × (node_names es order ≡ some names)
unfolding node_names
node_names_total es [] h = ([], refl)
node_names_total es (i ∷ order) h =
    let (names, e) = node_names_total es order h.1 in
    let (enc, f) = get_elem?-total es i h.0 in (enc.id ∷ names, rw (f, e) refl)

node_names-cons :
    (es : List Enclave) (i : ℕ) (order : List ℕ) {names : List EnclaveId}
    → node_names es (i ∷ order) ≡ some names
    → (e : Enclave) × (r : List EnclaveId) × (get_elem? es i ≡ some e)
      × (node_names es order ≡ some r)
      × (names ≡ e.id ∷ r)
unfolding node_names
node_names-cons es i order h = ground arith

pub node_names-mem :
    (es : List Enclave) (order : List ℕ) {names : List EnclaveId}
    → node_names es order ≡ some names
    → (j : ℕ) (e : Enclave) → Mem j order
    → get_elem? es j ≡ some e
    → Mem e.id names
node_names-mem es [] h j e m f = elim m [ ]
node_names-mem es (i ∷ order) h i' e here f =
    let (d, r, g, _, eq) = node_names-cons es i order h in
    let same : e ≡ d = cc in rw (eq, same) here
node_names-mem es (i ∷ order) h j e (there m) f =
    let (d, r, g, rest, eq) = node_names-cons es i order h in
    rw eq (there (node_names-mem es order rest j e m f))

pub node_names-Before :
    (es : List Enclave) (order : List ℕ) {names : List EnclaveId}
    → node_names es order ≡ some names
    → (i j : ℕ) (a b : Enclave) → get_elem? es i ≡ some a
    → get_elem? es j ≡ some b
    → Before i j order
    → Before a.id b.id names
node_names-Before es [] h i j a b fa fb q = absurd q
node_names-Before es (k ∷ order) h i j a b fa fb (inl (e, m)) =
    let (d, r, g, rest, eq) = node_names-cons es k order h in
    let fa' : get_elem? es k ≡ some a = rw e fa in
    let same : d ≡ a = cc in
    rw eq (inl (ap (λ (x : Enclave). x.id) same, node_names-mem es order rest j b m fb))
node_names-Before es (k ∷ order) h i j a b fa fb (inr q) =
    let (d, r, g, rest, eq) = node_names-cons es k order h in
    rw eq (inr (node_names-Before es order rest i j a b fa fb q))
