-- ===== src/Base/Assoc.antt =====
-- `HashMap` as an association list. Its iteration order, which the source leaves open, is the order
-- of the list, and every statement holds for any list.
use mathlib.Core.Path.{◌≡◌, refl, sym, ◌∙◌, subst}
use mathlib.Core.Logic.{◌≢◌, ◌⊎◌, inl, inr}
use mathlib.Core.Bool.{Bool}
use mathlib.Core.Option.{Option, none, some}
use mathlib.Core.List.{List, [], ◌∷◌, map}
use native.Mathlib.Omega.{arith}
use nclav.Base.Tests.{if◌then◌else◌, Eq, ◌==◌, ==_iff, eq_self, Bool-cases}
use nclav.Base.Lists.{Mem, here, there, All, Distinct}
use nclav.Base.Fallible.{is_some}

abbrev pub Map {ℓ κ} : Type ℓ → Type κ → Type (ℓ ⊔ κ)
Map K V = List (K × V)

module _ {ℓ κ} {K : Type ℓ} {V : Type κ} ⦃e : Eq K⦄ where
  unfoldable pub get : K → Map K V → Option V
  get k [] = none
  get k ((j, v) ∷ m) = if j == k then some v else get k m

  unfoldable pub insert : K → V → Map K V → Map K V
  insert k v [] = (k, v) ∷ []
  insert k v ((j, w) ∷ m) = if j == k then (k, v) ∷ m else (j, w) ∷ insert k v m

  unfoldable pub remove : K → Map K V → Map K V
  remove k [] = []
  remove k ((j, w) ∷ m) = let rest = remove k m in if j == k then rest else (j, w) ∷ rest

  unfoldable pub contains_key : K → Map K V → Bool
  unfolding get
  contains_key k m = is_some (get k m)

  from_list_onto : Map K V → List (K × V) → Map K V
  from_list_onto m [] = m
  from_list_onto m ((k, v) ∷ l) = from_list_onto (insert k v m) l

  -- `iter.collect::<HashMap<_, _>>()`: a later entry replaces an earlier one.
  unfoldable pub from_list : List (K × V) → Map K V
  unfolding from_list_onto insert
  from_list l = from_list_onto [] l

  pub get-insert :
      (k j : K) (v : V) (m : Map K V) → get j (insert k v m) ≡ (if k == j then some v else get j m)
  unfolding get insert
  get-insert k j v [] = refl
  get-insert k j v ((i, w) ∷ m) =
      ground (arith, ==_iff k j, ==_iff i k, ==_iff i j, get-insert k j v m)

  pub get-remove : (k j : K) (m : Map K V) → get j (remove k m) ≡ (if k == j then none else get j m)
  unfolding get remove
  get-remove k j [] = ground arith
  get-remove k j ((i, w) ∷ m) = ground (arith, ==_iff k j, ==_iff i k, ==_iff i j, get-remove k j m)

  pub get-insert_self : (k : K) (v : V) (m : Map K V) → get k (insert k v m) ≡ some v
  get-insert_self k v m = simp (get-insert, eq_self)

  pub get-mem : (k : K) (m : Map K V) {v : V} → get k m ≡ some v → Mem (k, v) m
  unfolding get
  get-mem k [] h = cc
  get-mem k ((j, w) ∷ m) {v} h = elim (Bool-cases (j == k)) [
    | inl t ↦
        let same : ◌≡◌ {A = K × V} (j, w) (k, v) = ground (arith, ==_iff j k) in
        subst (λ q. Mem q ((j, w) ∷ m)) same here
    | inr t ↦ there (get-mem k m (ground arith))
  ]

  get-from_list_onto :
      (k : K) (v : V) (l : List (K × V)) (m : Map K V)
      → get k (from_list_onto m l) ≡ some v
      → (get k m ≡ some v) ⊎ Mem (k, v) l
  unfolding from_list_onto
  get-from_list_onto k v [] m h = inl h
  get-from_list_onto k v ((j, w) ∷ l) m h = elim (get-from_list_onto k v l (insert j w m) h) [
    | inr n ↦ inr (there n)
    | inl g ↦ elim (Bool-cases (j == k)) [
      | inl t ↦
          let same : ◌≡◌ {A = K × V} (j, w) (k, v) =
            ground (arith, ==_iff j k, get-insert j k w m) in
          inr (subst (λ q. Mem q ((j, w) ∷ l)) same here)
      | inr t ↦ inl (ground (arith, get-insert j k w m))
    ]
  ]

  -- What a collected map holds was among the pairs.
  pub get-from_list :
      (k : K) (v : V) (l : List (K × V)) → get k (from_list l) ≡ some v → Mem (k, v) l
  unfolding from_list get
  get-from_list k v l h = elim (get-from_list_onto k v l [] h) [
    | inl g ↦ absurd (none≢some g)
    | inr n ↦ n
  ]
    where
      none≢some : ◌≡◌ {A = Option V} none (some v) → ⊥
      none≢some g = cc

  get-from_list_onto_ne :
      (k : K) (l : List (K × V)) (m : Map K V)
      → All (λ p. p.0 ≢ k) l
      → get k (from_list_onto m l) ≡ get k m
  unfolding from_list_onto
  get-from_list_onto_ne k [] m h = refl
  get-from_list_onto_ne k ((j, w) ∷ l) m h =
      get-from_list_onto_ne k l (insert j w m) h.1 ∙ ground (arith, get-insert j k w m, ==_iff j k)

  get-from_list_onto_mem :
      (k : K) (v : V) (l : List (K × V)) (m : Map K V)
      → Mem (k, v) l
      → Distinct (map (λ p. p.0) l)
      → get k (from_list_onto m l) ≡ some v
  unfolding from_list_onto
  get-from_list_onto_mem k v [] m n d = elim n [ ]
  get-from_list_onto_mem k v ((j, w) ∷ l) m here d =
      get-from_list_onto_ne k l (insert k v m) (apart l d.0) ∙ get-insert_self k v m
    where
      apart : (q : List (K × V)) → All (λ i. k ≢ i) (map (λ p. p.0) q) → All (λ p. p.0 ≢ k) q
      apart [] h = tt
      apart (x ∷ q) h = ((λ e. h.0 (sym e)), apart q h.1)
  get-from_list_onto_mem k v ((j, w) ∷ l) m (there n) d =
      get-from_list_onto_mem k v l (insert j w m) n d.1

  -- Where the keys differ, a collected map holds every pair.
  pub get-from_list_mem :
      (k : K) (v : V) (l : List (K × V))
      → Mem (k, v) l
      → Distinct (map (λ p. p.0) l)
      → get k (from_list l) ≡ some v
  unfolding from_list
  get-from_list_mem k v l n d = get-from_list_onto_mem k v l [] n d

  get-from_list_onto_total :
      (k : K) (l : List (K × V)) (m : Map K V) {v : V}
      → (get k m ≡ some v) ⊎ Mem (k, v) l
      → (w : V) × (get k (from_list_onto m l) ≡ some w)
  unfolding from_list_onto
  get-from_list_onto_total k [] m {v = v} (inl h) = (v, h)
  get-from_list_onto_total k [] m (inr n) = elim n [ ]
  get-from_list_onto_total k ((j, w) ∷ l) m {v = v} (inl h) = elim (Bool-cases (j == k)) [
    | inl t ↦
        get-from_list_onto_total k l (insert j w m) {v = w}
          (inl (ground (arith, get-insert j k w m)))
    | inr t ↦
        get-from_list_onto_total k l (insert j w m) {v = v}
          (inl (ground (arith, get-insert j k w m)))
  ]
  get-from_list_onto_total k ((j, w) ∷ l) m (inr here) =
      get-from_list_onto_total k l (insert k w m) (inl (get-insert_self k w m))
  get-from_list_onto_total k ((j, w) ∷ l) m (inr (there n)) =
      get-from_list_onto_total k l (insert j w m) (inr n)

  -- A collected map has each key.
  pub get-from_list_total :
      (k : K) (v : V) (l : List (K × V)) → Mem (k, v) l → (w : V) × (get k (from_list l) ≡ some w)
  unfolding from_list
  get-from_list_total k v l n = get-from_list_onto_total k l [] (inr n)

  get-from_list_onto_same :
      (k : K) (l : List (K × V)) (m : Map K V)
      → Distinct (map (λ p. p.0) l)
      → get k m ≡ none
      → get k (from_list_onto m l) ≡ get k l
  unfolding from_list_onto get
  get-from_list_onto_same k [] m d h = h
  get-from_list_onto_same k ((j, w) ∷ l) m d h = elim (Bool-cases (j == k)) [
    | inl t ↦
        let same : j ≡ k = (==_iff j k).0 t in
        get-from_list_onto_ne k l (insert j w m) (rw (sym same) (apart l d.0))
        ∙ ground (arith, get-insert j k w m)
    | inr t ↦
        get-from_list_onto_same k l (insert j w m) d.1 (ground (arith, get-insert j k w m))
        ∙ ground arith
  ]
    where
      apart : (q : List (K × V)) → All (λ i. j ≢ i) (map (λ p. p.0) q) → All (λ p. p.0 ≢ j) q
      apart [] a = tt
      apart (x ∷ q) a = ((λ e. a.0 (sym e)), apart q a.1)

  -- Pairs with different keys are found in their collected map as in their list.
  pub get-from_list_same :
      (k : K) (l : List (K × V)) → Distinct (map (λ p. p.0) l) → get k (from_list l) ≡ get k l
  unfolding from_list get
  get-from_list_same k l d = get-from_list_onto_same k l [] d refl
