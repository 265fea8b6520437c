-- ===== src/Base/Lists.antt =====
-- Vectors: lists measured by native numbers, predicates on all their members, `find` and `for`.
use Prim.Native.Nat.{ℕ, zero, suc, ◌+◌, ◌-◌, ◌≤◌, min}
use mathlib.Core.Path.{◌≡◌, refl, subst}
use mathlib.Core.Logic.{◌⊎◌, ◌≢◌, inl, inr}
use mathlib.Core.Bool.{Bool, true, false, ◌||◌}
use mathlib.Core.Option.{Option, none, some}
use mathlib.Core.List.{List, [], ◌∷◌, ◌++◌, map}
use native.Mathlib.Omega.{arith}
use nclav.Base.Tests.{if◌then◌else◌, Eq, ◌==◌, ==_iff, Bool-cases}

module _ {ℓ} {A : Type ℓ} where
  abbrev pub length : List A → ℕ
  length [] = 0
  length (x ∷ xs) = suc (length xs)

  abbrev pub take : ℕ → List A → List A
  take zero xs = []
  take (suc n) [] = []
  take (suc n) (x ∷ xs) = x ∷ take n xs

  abbrev pub drop : ℕ → List A → List A
  drop zero xs = xs
  drop (suc n) [] = []
  drop (suc n) (x ∷ xs) = drop n xs

  abbrev pub get_elem? : List A → ℕ → Option A
  get_elem? [] i = none
  get_elem? (x ∷ xs) zero = some x
  get_elem? (x ∷ xs) (suc i) = get_elem? xs i

  -- `iter().find(p)`
  unfoldable pub find : (A → Bool) → List A → Option A
  find p [] = none
  find p (x ∷ xs) = if p x then some x else find p xs

  -- `iter().any(p)`
  unfoldable pub any : (A → Bool) → List A → Bool
  any p [] = false
  any p (x ∷ xs) = p x || any p xs

  -- `iter().filter(p)`
  unfoldable pub filter : (A → Bool) → List A → List A
  filter p [] = []
  filter p (x ∷ xs) = let rest = filter p xs in if p x then x ∷ rest else rest

  pub length-append : (xs ys : List A) → length (xs ++ ys) ≡ length xs + length ys
  length-append [] ys = omega arith
  length-append (x ∷ xs) ys = omega (arith, length-append xs ys)

  abbrev pub All {κ} : (A → Type κ) → List A → Type κ
  All P [] = Unit
  All P (x ∷ xs) = P x × All P xs

  pub data Mem (a : A) : List A → Type ℓ where
    here : {xs : List A} → Mem a (a ∷ xs)
    there : {x : A} {xs : List A} → Mem a xs → Mem a (x ∷ xs)

  pub All-append {κ} : (P : A → Type κ) (xs ys : List A) → All P xs → All P ys → All P (xs ++ ys)
  All-append P [] ys hx hy = hy
  All-append P (x ∷ xs) ys hx hy = (hx.0, All-append P xs ys hx.1 hy)

  pub All-split {κ} : (P : A → Type κ) (xs ys : List A) → All P (xs ++ ys) → All P xs × All P ys
  All-split P [] ys h = (tt, h)
  All-split P (x ∷ xs) ys h = let (hx, hy) = All-split P xs ys h.1 in ((h.0, hx), hy)

  pub All-at {κ} : (P : A → Type κ) {a : A} {xs : List A} → Mem a xs → All P xs → P a
  All-at P here h = h.0
  All-at P (there m) h = All-at P m h.1

  pub All-map {κ μ} :
      {P : A → Type κ} {Q : A → Type μ} (f : (a : A) → P a → Q a) (xs : List A)
      → All P xs
      → All Q xs
  All-map f [] h = tt
  All-map f (x ∷ xs) h = (f x h.0, All-map f xs h.1)

  pub All-intro {κ} : {P : A → Type κ} (f : (a : A) → P a) (xs : List A) → All P xs
  All-intro f [] = tt
  All-intro f (x ∷ xs) = (f x, All-intro f xs)

-- `for x in xs { body }` over a mutable state
module _ {ℓ κ} {A : Type ℓ} {S : Type κ} where
  unfoldable pub for_each : (A → S → S) → List A → S → S
  for_each body [] s = s
  for_each body (x ∷ xs) s = for_each body xs (body x s)

  -- An invariant of the loop.
  pub for_each_inv {μ} :
      (P : S → Type μ) (body : A → S → S)
      → ((x : A) (s : S) → P s → P (body x s))
      → (xs : List A) (s : S) → P s
      → P (for_each body xs s)
  unfolding for_each
  for_each_inv P body keep [] s h = h
  for_each_inv P body keep (x ∷ xs) s h = for_each_inv P body keep xs (body x s) (keep x s h)

module _ {ℓ κ} {A : Type ℓ} {B : Type κ} where
  abbrev pub flat_map : (A → List B) → List A → List B
  flat_map f [] = []
  flat_map f (x ∷ xs) = f x ++ flat_map f xs

  pub flat_map-eq-nil : (f : A → List B) (xs : List A) → flat_map f xs ≡ [] → All (λ x. f x ≡ []) xs
  flat_map-eq-nil f [] h = tt
  flat_map-eq-nil f (x ∷ xs) h =
      let (hx, hxs) = append-eq-nil (f x) (flat_map f xs) h in (hx, flat_map-eq-nil f xs hxs)
    where
      append-eq-nil : (ys zs : List B) → ys ++ zs ≡ [] → (ys ≡ []) × (zs ≡ [])
      append-eq-nil [] zs e = (refl, e)
      append-eq-nil (y ∷ ys) zs e = cc

  pub flat_map-nil : (f : A → List B) (xs : List A) → All (λ x. f x ≡ []) xs → flat_map f xs ≡ []
  flat_map-nil f [] h = refl
  flat_map-nil f (x ∷ xs) h = rw (h.0, flat_map-nil f xs h.1)

  pub mem-flat_map :
      {b : B} (f : A → List B) (xs : List A)
      → Mem b (flat_map f xs)
      → (a : A) × Mem a xs × Mem b (f a)
  mem-flat_map f [] m = elim m [ ]
  mem-flat_map {b} f (x ∷ xs) m = elim (mem-append (f x) m) [
    | inl m' ↦ (x, here, m')
    | inr m' ↦ let (a, ma, mb) = mem-flat_map f xs m' in (a, there ma, mb)
  ]
    where
      mem-append : (ys : List B) {zs : List B} → Mem b (ys ++ zs) → Mem b ys ⊎ Mem b zs
      mem-append [] n = inr n
      mem-append (y ∷ ys) here = inl here
      mem-append (y ∷ ys) (there n) = elim (mem-append ys n) [
        | inl k ↦ inl (there k)
        | inr k ↦ inr k
      ]

module _ {ℓ} {A : Type ℓ} where
  pub find-mem : (p : A → Bool) (xs : List A) {a : A} → find p xs ≡ some a → Mem a xs × (p a ≡ true)
  unfolding find
  find-mem p [] h = cc
  find-mem p (x ∷ xs) {a} h = elim (Bool-cases (p x)) [
    | inl e ↦ let eq : x ≡ a = ground arith in (subst (λ b. Mem b (x ∷ xs)) eq here, rw (← eq) e)
    | inr e ↦ let (m, pa) = find-mem p xs {a = a} (ground arith) in (there m, pa)
  ]

  -- The elements differ pairwise.
  abbrev pub Distinct : List A → Type ℓ
  Distinct [] = Unit
  Distinct (x ∷ xs) = All (λ y. x ≢ y) xs × Distinct xs

module _ {ℓ} {A : Type ℓ} ⦃e : Eq A⦄ where
  pub mem_of_any : (a : A) (xs : List A) → any (λ o. o == a) xs ≡ true → Mem a xs
  unfolding any
  mem_of_any a [] h = cc
  mem_of_any a (x ∷ xs) h = elim (Bool-cases (x == a)) [
    | inl e ↦ subst (λ b. Mem b (x ∷ xs)) ((==_iff x a).0 e) here
    | inr e ↦ there (mem_of_any a xs (ground arith))
  ]

  pub any_of_mem : (a : A) (xs : List A) → Mem a xs → any (λ o. o == a) xs ≡ true
  unfolding any
  any_of_mem a [] m = elim m [ ]
  any_of_mem a (x ∷ xs) here = ground (arith, ==_iff a a)
  any_of_mem a (x ∷ xs) (there m) = ground (arith, any_of_mem a xs m)

module _ {ℓ κ} {A : Type ℓ} {K : Type κ} ⦃e : Eq K⦄ (key : A → K) where
  -- Where keys differ, a search for a key finds its only element.
  pub find_of_mem :
      (a : A) (xs : List A)
      → Mem a xs
      → Distinct (map key xs)
      → find (λ x. key x == key a) xs ≡ some a
  unfolding find
  find_of_mem a [] m d = elim m [ ]
  find_of_mem a (x ∷ xs) here d = ground (arith, ==_iff (key a) (key a))
  find_of_mem a (x ∷ xs) (there m) d =
      ground (arith, ==_iff (key x) (key a), All-at _ (mem-map m) d.0, find_of_mem a xs m d.1)
    where
      mem-map : {ys : List A} → Mem a ys → Mem (key a) (map key ys)
      mem-map here = here
      mem-map (there n) = there (mem-map n)

module _ {ℓ κ} {A : Type ℓ} {B : Type κ} where
  pub mem-map : (f : A → B) {a : A} {xs : List A} → Mem a xs → Mem (f a) (map f xs)
  mem-map f here = here
  mem-map f (there m) = there (mem-map f m)

module _ {ℓ} {A : Type ℓ} where
  pub take-append-drop : (n : ℕ) (xs : List A) → take n xs ++ drop n xs ≡ xs
  take-append-drop zero xs = refl
  take-append-drop (suc n) [] = refl
  take-append-drop (suc n) (x ∷ xs) = rw (take-append-drop n xs)

  pub length-drop : (n : ℕ) (xs : List A) → length (drop n xs) ≡ length xs - n
  length-drop zero xs = omega arith
  length-drop (suc n) [] = omega arith
  length-drop (suc n) (x ∷ xs) = omega (arith, length-drop n xs)

  pub length-take-le : (n : ℕ) (xs : List A) → length (take n xs) ≤ n
  length-take-le zero xs = omega arith
  length-take-le (suc n) [] = omega arith
  length-take-le (suc n) (x ∷ xs) = omega (arith, length-take-le n xs)

  pub drop-append : (n : ℕ) (xs ys : List A) → n ≤ length xs → drop n (xs ++ ys) ≡ drop n xs ++ ys
  drop-append zero xs ys h = refl
  drop-append (suc n) [] ys h = absurd (omega arith)
  drop-append (suc n) (x ∷ xs) ys h = drop-append n xs ys (omega arith)

  pub filter-append :
      (p : A → Bool) (xs ys : List A) → filter p (xs ++ ys) ≡ filter p xs ++ filter p ys
  unfolding filter
  filter-append p [] ys = refl
  filter-append p (x ∷ xs) ys = ground (arith, filter-append p xs ys)

  pub All-filter : (p : A → Bool) (xs : List A) → All (λ x. p x ≡ true) (filter p xs)
  unfolding filter
  All-filter p [] = tt
  All-filter p (x ∷ xs) = elim (Bool-cases (p x)) [
    | inl e ↦ rw e (e, All-filter p xs)
    | inr e ↦ rw e (All-filter p xs)
  ]

  pub mem-filter :
      (p : A → Bool) (xs : List A) {a : A} → Mem a xs → p a ≡ true → Mem a (filter p xs)
  unfolding filter
  mem-filter p [] m h = elim m [ ]
  mem-filter p (x ∷ xs) here h = rw h here
  mem-filter p (x ∷ xs) (there m) h = elim (Bool-cases (p x)) [
    | inl e ↦ rw e (there (mem-filter p xs m h))
    | inr e ↦ rw e (mem-filter p xs m h)
  ]

  pub mem-cons : {a b : A} {xs : List A} → Mem a (b ∷ xs) → (a ≡ b) ⊎ Mem a xs
  mem-cons here = inl refl
  mem-cons (there n) = inr n

  pub mem_of_mem-filter : (p : A → Bool) (xs : List A) {a : A} → Mem a (filter p xs) → Mem a xs
  unfolding filter
  mem_of_mem-filter p [] m = elim m [ ]
  mem_of_mem-filter p (x ∷ xs) m = elim (Bool-cases (p x)) [
    | inl e ↦ elim (mem-cons (rw e at m)) [
      | inl same ↦ rw same here
      | inr n ↦ there (mem_of_mem-filter p xs n)
    ]
    | inr e ↦ there (mem_of_mem-filter p xs (rw e at m))
  ]

  pub mem-append : (xs : List A) {ys : List A} {a : A} → Mem a (xs ++ ys) → Mem a xs ⊎ Mem a ys
  mem-append [] m = inr m
  mem-append (x ∷ xs) here = inl here
  mem-append (x ∷ xs) (there m) = elim (mem-append xs m) [ inl n ↦ inl (there n) | inr n ↦ inr n ]

  pub mem-append_left : {a : A} {xs : List A} (ys : List A) → Mem a xs → Mem a (xs ++ ys)
  mem-append_left ys here = here
  mem-append_left ys (there m) = there (mem-append_left ys m)

  pub mem-append_right : {a : A} (xs : List A) {ys : List A} → Mem a ys → Mem a (xs ++ ys)
  mem-append_right [] m = m
  mem-append_right (x ∷ xs) m = there (mem-append_right xs m)

  pub length-take : (n : ℕ) (xs : List A) → length (take n xs) ≡ min n (length xs)
  length-take zero xs = omega arith
  length-take (suc n) [] = omega arith
  length-take (suc n) (x ∷ xs) = omega (arith, length-take n xs)

-- A property of the images, read at the members.
pub All-of_map {ℓ κ μ} :
    {A : Type ℓ} {B : Type κ} (P : B → Type μ) (f : A → B) (xs : List A)
    → All P (map f xs)
    → All (λ x. P (f x)) xs
All-of_map P f [] h = tt
All-of_map P f (x ∷ xs) h = (h.0, All-of_map P f xs h.1)
