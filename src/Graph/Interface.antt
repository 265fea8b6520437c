-- ===== src/Graph/Interface.antt =====
-- What crates/nclav-graph calls of the crate petgraph: a directed graph is its number of nodes, which
-- `add_node` counts from 0, and the list of edges in the order of `add_edge`.
use nclav.Base.{ℕ, ◌<◌, ◌≡◌, Bool, false, Option, some, List, ◌∷◌, [], All, Mem, ◌⊎◌}

-- `toposort` returns `Err(Cycle)` as `none`.
pub record Petgraph : Type 0 where
  pub is_cyclic_directed : ℕ → List (ℕ × ℕ) → Bool
  pub toposort : ℕ → List (ℕ × ℕ) → Option (List ℕ)

-- `a` stands in the list, and `b` somewhere behind it.
abbrev pub Before : {A : Type 0} → A → A → List A → Type 0
Before a b [] = ⊥
Before a b (x ∷ xs) = (x ≡ a) × Mem b xs ⊎ Before a b xs

-- The edges join nodes of the graph.
abbrev pub HasEdges : ℕ → List (ℕ × ℕ) → Type 0
HasEdges n edges = All (λ e. (e.0 < n) × (e.1 < n)) edges

-- The documented behaviour: a topological order has each node, and only nodes of the graph; the
-- source of an edge stands before its target; a graph without a cycle has such an order.
pub record PetgraphLaws (p : Petgraph) : Type 0 where
  pub order_nodes :
      (n : ℕ) (edges : List (ℕ × ℕ)) (order : List ℕ)
      → p.toposort n edges ≡ some order
      → All (λ i. i < n) order
  pub order_full :
      (n : ℕ) (edges : List (ℕ × ℕ)) (order : List ℕ)
      → p.toposort n edges ≡ some order
      → (i : ℕ) → i < n
      → Mem i order
  pub order_edges :
      (n : ℕ) (edges : List (ℕ × ℕ)) (order : List ℕ)
      → p.toposort n edges ≡ some order
      → HasEdges n edges
      → (a b : ℕ) → Mem (a, b) edges
      → Before a b order
  pub acyclic_sorts :
      (n : ℕ) (edges : List (ℕ × ℕ))
      → p.is_cyclic_directed n edges ≡ false
      → (order : List ℕ) × (p.toposort n edges ≡ some order)
