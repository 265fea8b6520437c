-- ===== src/Base/Order.antt =====
-- The order of texts, by the numbers of their characters, which is Rust's order of `String`, and
-- `sort` on lists of texts.
use Prim.Native.Nat.{ℕ, Ordering, compare as compare_ℕ}
use Prim.Native.Char.{code}
use Prim.Native.String.compare as cmp
use Prim.Native.String.{String, compare, then as first}
use mathlib.Core.Path.{◌≡◌, refl, sym, ◌∙◌, ap₂, subst}
use mathlib.Core.Logic.{◌≢◌, ◌⊎◌, inl, inr}
use mathlib.Core.Bool.{Bool, true, false}
use mathlib.Core.List.{List, [], ◌∷◌}
use native.Mathlib.Omega.{arith}
use text.Mathlib.TextEquality.{path_by_compare}
use nclav.Base.Tests.{if◌then◌else◌}
use nclav.Base.Lists.{Mem, here, there, mem-cons, All, All-map, All-at, Distinct}

abbrev Before : String → String → Type 0
Before s t = compare s t ≡ Ordering.lt

first_lt :
    (o p : Ordering)
    → first o p ≡ Ordering.lt
    → (o ≡ Ordering.lt) ⊎ ((o ≡ Ordering.eq) × (p ≡ Ordering.lt))
first_lt Ordering.lt p h = inl refl
first_lt Ordering.eq p h = inr (refl, h)
first_lt Ordering.gt p h = cc

first_gt :
    (o p : Ordering)
    → first o p ≡ Ordering.gt
    → (o ≡ Ordering.gt) ⊎ ((o ≡ Ordering.eq) × (p ≡ Ordering.gt))
first_gt Ordering.gt p h = inl refl
first_gt Ordering.eq p h = inr (refl, h)
first_gt Ordering.lt p h = cc

gt≢lt : Ordering.gt ≡ Ordering.lt → ⊥
gt≢lt e = cc

number_trans :
    (a b c : ℕ) (r : Ordering)
    → (compare_ℕ a b ≡ Ordering.lt) ⊎ (compare_ℕ a b ≡ Ordering.eq)
    → (compare_ℕ b c ≡ Ordering.lt) ⊎ (compare_ℕ b c ≡ Ordering.eq)
    → (compare_ℕ a b ≡ Ordering.eq → compare_ℕ b c ≡ Ordering.eq → r ≡ Ordering.lt)
    → first (compare_ℕ a c) r ≡ Ordering.lt
number_trans a b c r (inl h) (inl k) f =
    let l : compare_ℕ a c ≡ Ordering.lt = ground arith in rw l refl
number_trans a b c r (inl h) (inr k) f =
    let l : compare_ℕ a c ≡ Ordering.lt = ground arith in rw l refl
number_trans a b c r (inr h) (inl k) f =
    let l : compare_ℕ a c ≡ Ordering.lt = ground arith in rw l refl
number_trans a b c r (inr h) (inr k) f =
    let l : compare_ℕ a c ≡ Ordering.eq = ground arith in rw l (f h k)

either :
    {o p : Ordering}
    → (o ≡ Ordering.lt) ⊎ ((o ≡ Ordering.eq) × (p ≡ Ordering.lt))
    → (o ≡ Ordering.lt) ⊎ (o ≡ Ordering.eq)
either (inl h) = inl h
either (inr h) = inr h.0

when_equal :
    {o p : Ordering}
    → (o ≡ Ordering.lt) ⊎ ((o ≡ Ordering.eq) × (p ≡ Ordering.lt))
    → o ≡ Ordering.eq
    → p ≡ Ordering.lt
when_equal (inl h) e = cc
when_equal (inr h) e = h.1

pub Before-trans : (s t u : String) → Before s t → Before t u → Before s u
Before-trans String.[] String.[] u h k = k
Before-trans String.[] (String.◌∷◌ d t) String.[] h k = absurd (gt≢lt (sym (cmp.cons-nil d t) ∙ k))
Before-trans String.[] (String.◌∷◌ d t) (String.◌∷◌ e u) h k = cmp.nil-cons e u
Before-trans (String.◌∷◌ c s) String.[] u h k = absurd (gt≢lt (sym (cmp.cons-nil c s) ∙ h))
Before-trans (String.◌∷◌ c s) (String.◌∷◌ d t) String.[] h k =
    absurd (gt≢lt (sym (cmp.cons-nil d t) ∙ k))
Before-trans (String.◌∷◌ c s) (String.◌∷◌ d t) (String.◌∷◌ e u) h k =
    let p =
      first_lt (compare_ℕ (code c) (code d)) (compare s t) (sym (cmp.cons-cons c d s t) ∙ h) in
    let q =
      first_lt (compare_ℕ (code d) (code e)) (compare t u) (sym (cmp.cons-cons d e t u) ∙ k) in
    cmp.cons-cons c e s u
    ∙ number_trans (code c) (code d) (code e) (compare s u) (either p) (either q)
        (λ a b. Before-trans s t u (when_equal p a) (when_equal q b))

Before-irrefl : (s : String) → Before s s → ⊥
Before-irrefl String.[] h = cc
Before-irrefl (String.◌∷◌ c s) h =
    elim (first_lt (compare_ℕ (code c) (code c)) (compare s s) (sym (cmp.cons-cons c c s s) ∙ h)) [
      | inl e ↦ ground arith
      | inr e ↦ Before-irrefl s e.1
    ]

Before-of_gt : (s t : String) → compare s t ≡ Ordering.gt → Before t s
Before-of_gt String.[] String.[] h = cc
Before-of_gt String.[] (String.◌∷◌ d t) h = cmp_lt (sym (cmp.nil-cons d t) ∙ h)
  where
    cmp_lt : Ordering.lt ≡ Ordering.gt → Before (String.◌∷◌ d t) ""
    cmp_lt e = cc
Before-of_gt (String.◌∷◌ c s) String.[] h = cmp.nil-cons c s
Before-of_gt (String.◌∷◌ c s) (String.◌∷◌ d t) h =
    cmp.cons-cons d c t s
    ∙ elim (first_gt (compare_ℕ (code c) (code d)) (compare s t)
        (sym (cmp.cons-cons c d s t) ∙ h)) [
          | inl e ↦ let l : compare_ℕ (code d) (code c) ≡ Ordering.lt = ground arith in rw l refl
          | inr e ↦
              let l : compare_ℕ (code d) (code c) ≡ Ordering.eq = ground arith in
              rw l (Before-of_gt s t e.1)
        ]

-- `a <= b`
abbrev pub str_leb : String → String → Bool
str_leb s t = elim (compare s t) [ Ordering.gt ↦ false | _ ↦ true ]

unfoldable pub insert_text : String → List String → List String
insert_text s [] = s ∷ []
insert_text s (t ∷ ts) = let rest = insert_text s ts in if str_leb s t then s ∷ t ∷ ts else t ∷ rest

-- `sort()`
unfoldable pub sort : List String → List String
unfolding insert_text
sort [] = []
sort (s ∷ ts) = insert_text s (sort ts)

-- Each text comes before all that follow it.
abbrev pub Ascending : List String → Type 0
Ascending [] = Unit
Ascending (s ∷ ts) = All (Before s) ts × Ascending ts

leb-cases :
    (s t : String)
    → (Before s t ⊎ (s ≡ t)) × (str_leb s t ≡ true) ⊎ Before t s × (str_leb s t ≡ false)
leb-cases s t = split (compare s t) refl
  where
    split :
        (o : Ordering)
        → compare s t ≡ o
        → (Before s t ⊎ (s ≡ t)) × (str_leb s t ≡ true) ⊎ Before t s × (str_leb s t ≡ false)
    split Ordering.lt e = inl (inl e, rw (str_leb, e) refl)
    split Ordering.eq e = inl (inr (path_by_compare s t e), rw (str_leb, e) refl)
    split Ordering.gt e = inr (Before-of_gt s t e, rw (str_leb, e) refl)

All-insert_text :
    (P : String → Type 0) (s : String) (ts : List String)
    → P s
    → All P ts
    → All P (insert_text s ts)
unfolding insert_text
All-insert_text P s [] p h = (p, tt)
All-insert_text P s (t ∷ ts) p h = elim (leb-cases s t) [
  | inl e ↦ rw e.1 (p, h)
  | inr e ↦ rw e.1 (h.0, All-insert_text P s ts p h.1)
]

-- What holds of all members holds of all members of the sorted list.
pub All-sort : (P : String → Type 0) (ts : List String) → All P ts → All P (sort ts)
unfolding sort
All-sort P [] h = tt
All-sort P (t ∷ ts) h = All-insert_text P t (sort ts) h.0 (All-sort P ts h.1)

insert_text-Ascending :
    (s : String) (ts : List String)
    → All (λ t. s ≢ t) ts
    → Ascending ts
    → Ascending (insert_text s ts)
unfolding insert_text
insert_text-Ascending s [] n a = (tt, tt)
insert_text-Ascending s (t ∷ ts) n a = elim (leb-cases s t) [
  | inl (inl b, e) ↦ rw e ((b, All-map {P = Before t} (λ u c. Before-trans s t u b c) ts a.0), a)
  | inl (inr same, e) ↦ absurd (n.0 same)
  | inr (b, e) ↦ rw e (All-insert_text (Before t) s ts b a.0, insert_text-Ascending s ts n.1 a.1)
]

pub sort-Ascending : (ts : List String) → Distinct ts → Ascending (sort ts)
unfolding sort
sort-Ascending [] d = tt
sort-Ascending (t ∷ ts) d =
    insert_text-Ascending t (sort ts) (All-sort (λ u. t ≢ u) ts d.0) (sort-Ascending ts d.1)

mem-insert_text :
    {a : String} (s : String) (ts : List String) → Mem a (s ∷ ts) → Mem a (insert_text s ts)
unfolding insert_text
mem-insert_text s [] m = m
mem-insert_text {a} s (t ∷ ts) m = elim (leb-cases s t) [
  | inl e ↦ rw e.1 m
  | inr e ↦ rw e.1 (elim (mem-cons m) [
    | inl same ↦ there (mem-insert_text s ts (subst (λ b. Mem b (s ∷ ts)) (sym same) here))
    | inr n ↦ elim (mem-cons n) [
      | inl same ↦ subst (λ b. Mem b (t ∷ insert_text s ts)) (sym same) here
      | inr k ↦ there (mem-insert_text s ts (there k))
    ]
  ])
]

pub mem-sort : {a : String} (ts : List String) → Mem a ts → Mem a (sort ts)
unfolding sort
mem-sort [] m = m
mem-sort (t ∷ ts) here = mem-insert_text t (sort ts) here
mem-sort (t ∷ ts) (there m) = mem-insert_text t (sort ts) (there (mem-sort ts m))

pub mem_of_mem-sort : {a : String} (ts : List String) → Mem a (sort ts) → Mem a ts
mem_of_mem-sort ts m = All-at (λ b. Mem b ts) m (All-sort (λ b. Mem b ts) ts (members ts))
  where
    members : (us : List String) → All (λ b. Mem b us) us
    members [] = tt
    members (u ∷ us) = (here, All-map {P = λ b. Mem b us} (λ b n. there n) us (members us))

-- Ascending lists with the same members are equal.
Ascending-unique :
    (xs ys : List String)
    → Ascending xs
    → Ascending ys
    → ((a : String) → Mem a xs → Mem a ys)
    → ((a : String) → Mem a ys → Mem a xs)
    → xs ≡ ys
Ascending-unique [] [] a b f g = refl
Ascending-unique [] (y ∷ ys) a b f g = elim (g y here) [ ]
Ascending-unique (x ∷ xs) [] a b f g = elim (f x here) [ ]
Ascending-unique (x ∷ xs) (y ∷ ys) a b f g =
    let same = heads (mem-cons (f x here)) (mem-cons (g y here)) in
    ap₂ (λ h t. h ∷ t) same
      (Ascending-unique xs ys a.1 b.1
        (λ u m.
          rest y (λ e. Before-irrefl x (subst (Before x) (e ∙ sym same) (All-at (Before x) m a.0)))
            (mem-cons (f u (there m))))
        (λ u m.
          rest x (λ e. Before-irrefl y (subst (Before y) (e ∙ same) (All-at (Before y) m b.0)))
            (mem-cons (g u (there m)))))
  where
    heads : (x ≡ y) ⊎ Mem x ys → (y ≡ x) ⊎ Mem y xs → x ≡ y
    heads (inl e) n = e
    heads (inr m) (inl e) = sym e
    heads (inr m) (inr n) =
        absurd
          (Before-irrefl x (Before-trans x y x (All-at (Before x) n a.0) (All-at (Before y) m b.0)))

    rest :
        {u : String} {vs : List String} (v : String) → (u ≡ v → ⊥) → (u ≡ v) ⊎ Mem u vs → Mem u vs
    rest v n (inl e) = absurd (n e)
    rest v n (inr m) = m

-- Lists without repetition that have the same members are sorted to the same list.
pub sort_unique :
    (xs ys : List String)
    → Distinct xs
    → Distinct ys
    → ((a : String) → Mem a xs → Mem a ys)
    → ((a : String) → Mem a ys → Mem a xs)
    → sort xs ≡ sort ys
sort_unique xs ys d e f g =
    Ascending-unique (sort xs) (sort ys) (sort-Ascending xs d) (sort-Ascending ys e)
      (λ a m. mem-sort ys (f a (mem_of_mem-sort xs m)))
      (λ a m. mem-sort xs (g a (mem_of_mem-sort ys m)))
