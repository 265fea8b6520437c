-- ===== src/Graph/Forward.antt =====
-- A graph library for tests: it sorts the graphs whose edges all lead to a later node.
use nclav.Base.{
  ℕ, zero, suc, ◌+◌, ◌<◌, ◌≤◌, ◌≡◌, Bool, true, ◌&&◌, not, inl, inr, ◌⊎◌, none, some, List, [], ◌∷◌,
  All, Mem, here, there, if◌then◌else◌, ltb, arith,
}
use nclav.Graph.Interface.{Petgraph, PetgraphLaws, Before, HasEdges}

all_forward : List (ℕ × ℕ) → Bool
all_forward [] = true
all_forward ((a, b) ∷ es) = ltb a b && all_forward es

-- i, i + 1, …, n nodes in all
range : ℕ → ℕ → List ℕ
range i zero = []
range i (suc n) = i ∷ range (i + 1) n

unfoldable pub forward : Petgraph
unfolding all_forward range
forward = record {
  is_cyclic_directed = λ n es. not (all_forward es);
  toposort = λ n es. if all_forward es then some (range 0 n) else none;
}

All-range : (i n m : ℕ) → i + n ≤ m → All (λ k. k < m) (range i n)
unfolding range
All-range i zero m h = tt
All-range i (suc n) m h = (omega arith, All-range (i + 1) n m (omega arith))

mem-range : (i n k : ℕ) → i ≤ k → k < i + n → Mem k (range i n)
unfolding range
mem-range i zero k h l = absurd (omega arith)
mem-range i (suc n) k h l = elim (cases i k h) [
  | inl e ↦ rw e here
  | inr q ↦ there (mem-range (i + 1) n k q (omega arith))
]
  where
    cases : (i k : ℕ) → i ≤ k → (k ≡ i) ⊎ (i + 1 ≤ k)
    cases i k h = grind arith

Before-range : (i n a b : ℕ) → i ≤ a → a < b → b < i + n → Before a b (range i n)
unfolding range
Before-range i zero a b h l m = absurd (omega arith)
Before-range i (suc n) a b h l m = elim (cases i a h) [
  | inl e ↦ inl (e, mem-range (i + 1) n b (omega arith) (omega arith))
  | inr q ↦ inr (Before-range (i + 1) n a b q l (omega arith))
]
  where
    cases : (i k : ℕ) → i ≤ k → (i ≡ k) ⊎ (i + 1 ≤ k)
    cases i k h = grind arith

all_forward-mem : (es : List (ℕ × ℕ)) (a b : ℕ) → all_forward es ≡ true → Mem (a, b) es → a < b
unfolding all_forward
all_forward-mem [] a b h m = elim m [ ]
all_forward-mem (e ∷ es) a b h here = ground arith
all_forward-mem ((c, d) ∷ es) a b h (there m) = all_forward-mem es a b (ground arith) m

HasEdges-mem : (n : ℕ) (es : List (ℕ × ℕ)) (a b : ℕ) → HasEdges n es → Mem (a, b) es → b < n
HasEdges-mem n [] a b h m = elim m [ ]
HasEdges-mem n (e ∷ es) a b h here = h.0.1
HasEdges-mem n (e ∷ es) a b h (there m) = HasEdges-mem n es a b h.1 m

toposort-eq :
    (n : ℕ) (es : List (ℕ × ℕ)) (order : List ℕ)
    → forward.toposort n es ≡ some order
    → (all_forward es ≡ true) × (order ≡ range 0 n)
unfolding forward
toposort-eq n es order h = ground arith

pub forward_laws : PetgraphLaws forward
unfolding forward
forward_laws = record {
  order_nodes =
      λ n es order h. let (_, e) = toposort-eq n es order h in rw e (All-range 0 n n (omega arith));
  order_full = λ n es order h i l.
      let (_, e) = toposort-eq n es order h in rw e (mem-range 0 n i (omega arith) (omega arith));
  order_edges = λ n es order h bound a b m.
      let (f, e) = toposort-eq n es order h in
      let lt = all_forward-mem es a b f m in
      let top = HasEdges-mem n es a b bound m in
      rw e (Before-range 0 n a b (omega arith) lt (omega arith));
  acyclic_sorts = λ n es h. (range 0 n, ground arith);
}
