-- ===== src/Reconcile/Template.antt =====
-- `resolve_template` of crates/nclav-reconciler/src/reconcile.rs. A text is the list of its
-- characters, and a position counts characters, where the source counts the bytes of UTF-8: both cut
-- the text at the same places, since every cut is found by a search for ASCII brackets.
pub mod Rendering
pub mod Termination
mod Examples
use Prim.Native.Char.{code}
use Prim.Native.String.{String}
use text.Mathlib.TextBridge.{of_list}
use nclav.Base.Texts.{Text, chars, trim}
use nclav.Base.{
  ℕ, zero, suc, ◌+◌, ◌-◌, Bool, true, false, ◌&&◌, ◌||◌, Option, none, some, unwrap_or, List, [],
  ◌∷◌, ◌++◌, length, take, drop, map_option, if◌then◌else◌, ◌==◌, nat_eq, leb,
}

abbrev pub opening : ℕ
opening = 0x7b

abbrev pub closing : ℕ
closing = 0x7d

-- The text begins with two of the bracket `b`.
unfoldable pub starts_pair : ℕ → Text → Bool
starts_pair b [] = false
starts_pair b (c ∷ []) = false
starts_pair b (c ∷ d ∷ t) = code c == b && code d == b

-- `find("{{")` and `find("}}")`
unfoldable pub find_pair : ℕ → Text → Option ℕ
unfolding starts_pair
find_pair b [] = none
find_pair b (c ∷ t) =
    let rest = map_option suc (find_pair b t) in if starts_pair b (c ∷ t) then some 0 else rest

-- `splitn(2, '.')` where it gives two parts
unfoldable pub split_dot : Text → Option (Text × Text)
split_dot [] = none
split_dot (c ∷ t) =
    let rest = map_option (λ (p : Text × Text). (c ∷ p.0, p.1)) (split_dot t) in
    if code c == 0x2e then some ([], t) else rest

-- `result[i..j]`
abbrev pub slice : ℕ → ℕ → Text → Text
slice i j t = take (j - i) (drop i t)

-- The two searches of one round: `abs_start` and `abs_end`.
unfoldable pub find_token : Text → ℕ → Option (ℕ × ℕ)
unfolding find_pair
find_token result search_start = elim (find_pair opening (drop search_start result)) [
  | none ↦ none
  | some start ↦ elim (find_pair closing (drop (search_start + start) result)) [
    | none ↦ none
    | some end ↦ some (search_start + start, search_start + start + end + 2)
  ]
]

-- The lookups of a token: in the outputs of an import's handle, and in `context_vars`.
pub record Values : Type 0 where
  pub import_value : String → String → Option String
  pub context_value : String → Option String

-- The text that replaces the token with the content `inner`, if it has one.
unfoldable pub token_value : Values → Text → Option Text
unfolding split_dot
token_value values inner = elim (split_dot inner) [
  | some (alias, key) ↦ map_option chars (values.import_value (of_list alias) (of_list key))
  | none ↦ map_option chars (values.context_value (of_list inner))
]

-- The replacement, if there is one, and where the next search starts.
unfoldable pub after_token : Text → ℕ → ℕ → Option Text → Text × ℕ
after_token result abs_start abs_end (some val) =
    (take abs_start result ++ (val ++ drop abs_end result), abs_start + length val)
after_token result abs_start abs_end none = (result, abs_end)

-- One round of the loop; `none` is the `break`.
unfoldable pub round : Values → Text → ℕ → Option (Text × ℕ)
round values result search_start = elim (find_token result search_start) [
  | none ↦ none
  | some (abs_start, abs_end) ↦ some (
      after_token result abs_start abs_end
        (token_value values (trim (slice (abs_start + 2) (abs_end - 2) result))))
]

-- The loop, on fuel; `none` means that the fuel ran out.
unfoldable pub resolve_loop : Values → ℕ → Text → ℕ → Option Text
resolve_loop values zero result search_start = none
resolve_loop values (suc fuel) result search_start = elim (round values result search_start) [
  | none ↦ some result
  | some (next, start) ↦ resolve_loop values fuel next start
]

-- One more round than there are characters is fuel enough.
unfoldable pub resolve_template : Values → String → String
unfolding resolve_loop round after_token find_token token_value trim
resolve_template values template =
    of_list (unwrap_or (resolve_loop values (length (chars template) + 1) (chars template) 0) [])
