-- ===== src/Base/Effects.antt =====
-- Code that may fail and changes a state `T`: what was done before a `?` fails stays done.
pub mod Rules
use mathlib.Core.Bool.{Bool, true, false}
use mathlib.Core.List.{List, [], ◌∷◌}
use nclav.Base.Fallible.{Result, ok, err, map_err}

abbrev pub Eff : Type 0 → Type 0 → Type 0 → Type 0
Eff E T A = T → Result E A × T

module _ {E T : Type 0} where
  unfoldable pub pure : {A : Type 0} → A → Eff E T A
  pure a s = (ok a, s)

  unfoldable pub throw : {A : Type 0} → E → Eff E T A
  throw e s = (err e, s)

  abbrev pub and_then_do : {A B : Type 0} → Result E A → (A → Eff E T B) → Eff E T B
  and_then_do (ok a) f = f a
  and_then_do (err e) f = throw e

  infixl 5 ◌>>=◌ ◌>>◌
  unfoldable pub ◌>>=◌ : {A B : Type 0} → Eff E T A → (A → Eff E T B) → Eff E T B
  ◌>>=◌ m f = λ s. let (a, s') = m s in and_then_do a f s'

  abbrev pub ◌>>◌ : {A B : Type 0} → Eff E T A → Eff E T B → Eff E T B
  m >> n = m >>= λ _. n

  -- The result as a value, in place of `?`.
  unfoldable pub capture : {A : Type 0} → Eff E T A → Eff E T (Result E A)
  capture m s = let (a, s') = m s in (ok a, s')

  -- `?` on a result that is at hand
  unfoldable pub lift : {A : Type 0} → Result E A → Eff E T A
  lift a s = (a, s)

  -- A call that may change the whole state, and returns its result as a value.
  unfoldable pub during : {A : Type 0} → (T → A × T) → Eff E T A
  during f t = let (a, u) = f t in (ok a, u)

  -- The same with `map_err(wrap)?`
  unfoldable pub attempt_during : {F A : Type 0} → (F → E) → (T → Result F A × T) → Eff E T A
  attempt_during wrap f t = let (a, u) = f t in (map_err wrap a, u)

  -- `if b { body }`
  unfoldable pub when : Bool → Eff E T (Unit {0}) → Eff E T (Unit {0})
  when true body = body
  when false body = λ s. (ok tt, s)

  unfoldable pub for_do : {A : Type 0} → (A → Eff E T (Unit {0})) → List A → Eff E T (Unit {0})
  for_do body [] = pure tt
  for_do body (x ∷ xs) = body x >> for_do body xs

  -- `for x in xs { s = body(x, s) }`
  unfoldable pub for_fold : {A B : Type 0} → (A → B → Eff E T B) → List A → B → Eff E T B
  for_fold body [] b = pure b
  for_fold body (x ∷ xs) b = body x b >>= for_fold body xs

-- A state of two parts: the store and the world outside.
module _ {E S W : Type 0} where
  -- A call of the world, which returns its result as a value.
  unfoldable pub outside : {A : Type 0} → (W → A × W) → Eff E (S × W) A
  outside f t = let (a, w) = f t.1 in (ok a, (t.0, w))

  -- `f().map_err(wrap)?`
  unfoldable pub attempt : {F A : Type 0} → (F → E) → (W → Result F A × W) → Eff E (S × W) A
  attempt wrap f t = let (a, w) = f t.1 in (map_err wrap a, (t.0, w))

  unfoldable pub in_store : {A : Type 0} → (S → A × S) → Eff E (S × W) A
  in_store f t = let (a, s) = f t.0 in (ok a, (s, t.1))
