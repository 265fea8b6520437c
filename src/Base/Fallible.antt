-- ===== src/Base/Fallible.antt =====
-- Rust's `Result` and the `?` operator, and the combinators of `Option` that the source uses.
use mathlib.Core.Path.{◌≡◌, refl}
use mathlib.Core.Logic.{◌⊎◌, inl, inr}
use mathlib.Core.Option.{Option, none, some}
use mathlib.Core.Bool.{Bool, true, false}
use mathlib.Core.List.{List, [], ◌∷◌}

pub data Result {ℓ κ} (E : Type ℓ) (A : Type κ) : Type (ℓ ⊔ κ) where
  ok : A → Result E A
  err : E → Result E A

infixl 5 ◌>>=◌
abbrev pub ◌>>=◌ {ℓ κ μ} :
    {E : Type μ} {A : Type ℓ} {B : Type κ} → Result E A → (A → Result E B) → Result E B
ok a >>= f = f a
err e >>= f = err e

-- `result.map_err(f)`
abbrev pub map_err {ℓ κ μ} :
    {E : Type ℓ} {F : Type κ} {A : Type μ} → (E → F) → Result E A → Result F A
map_err f (ok a) = ok a
map_err f (err e) = err (f e)

abbrev pub is_ok {ℓ κ} : {E : Type ℓ} {A : Type κ} → Result E A → Bool
is_ok (ok a) = true
is_ok (err e) = false

-- `result.unwrap_or(false)`
abbrev pub is_true {ℓ} : {E : Type ℓ} → Result E Bool → Bool
is_true (ok b) = b
is_true (err e) = false

-- `result.unwrap_or_default()` of a vector
abbrev pub unwrap_or_default {ℓ κ} : {E : Type ℓ} {A : Type κ} → Result E (List A) → List A
unwrap_or_default (ok xs) = xs
unwrap_or_default (err e) = []

pub Result-cases {ℓ κ} :
    {E : Type ℓ} {A : Type κ} (r : Result E A) → ((a : A) × (r ≡ ok a)) ⊎ ((e : E) × (r ≡ err e))
Result-cases (ok a) = inl (a, refl)
Result-cases (err e) = inr (e, refl)

module _ {ℓ κ μ} {E : Type μ} {A : Type ℓ} {B : Type κ} where
  -- Inversion of a successful `?`.
  pub >>=-eq-ok :
      {y : B} (m : Result E A) (f : A → Result E B)
      → (m >>= f) ≡ ok y
      → (x : A) × (m ≡ ok x) × (f x ≡ ok y)
  >>=-eq-ok (err e) f h = cc
  >>=-eq-ok (ok x) f h = (x, refl, h)

  -- `iter.map(f).collect::<Result<Vec<_>, _>>()`: the first error ends it.
  unfoldable pub collect : (A → Result E B) → List A → Result E (List B)
  collect f [] = ok []
  collect f (x ∷ xs) = let rest = collect f xs in f x >>= λ y. rest >>= λ ys. ok (y ∷ ys)

  -- `opt.map(f).transpose()`
  unfoldable pub transpose : (A → Result E B) → Option A → Result E (Option B)
  transpose f none = ok none
  transpose f (some a) = f a >>= λ b. ok (some b)

-- `map_or(false, p)` and `is_some`, `is_none`
module _ {ℓ} {A : Type ℓ} where
  abbrev pub is_some_and : Option A → (A → Bool) → Bool
  is_some_and none p = false
  is_some_and (some a) p = p a

  abbrev pub is_some : Option A → Bool
  is_some none = false
  is_some (some a) = true

  abbrev pub is_none : Option A → Bool
  is_none none = true
  is_none (some a) = false

  abbrev pub unwrap_or : Option A → A → A
  unwrap_or none d = d
  unwrap_or (some a) d = a

module _ {ℓ κ} {A : Type ℓ} {B : Type κ} where
  abbrev pub and_then : Option A → (A → Option B) → Option B
  and_then none f = none
  and_then (some a) f = f a

  abbrev pub map_option : (A → B) → Option A → Option B
  map_option f none = none
  map_option f (some a) = some (f a)
