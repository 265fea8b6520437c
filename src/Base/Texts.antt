-- ===== src/Base/Texts.antt =====
-- Texts as lists of characters, and the methods of `str` that the source uses.
use Prim.Native.Char.{Char, code}
use Prim.Native.String.{String}
use Prim.Native.String.append
use mathlib.Core.Bool.{Bool, false, ◌||◌, ◌&&◌}
use mathlib.Core.List.{List, [], ◌∷◌, ◌++◌, reverse}
use text.Mathlib.TextEquality.{Char-path}
use text.Mathlib.TextBridge.{of_list}
use mathlib.Core.Option.{Option, none, some}
use mathlib.Core.Path.{◌∙◌, subst, ◌≡◌, refl, ap, ap₂}
use mathlib.Core.Logic.{inl, inr}
use native.Mathlib.Omega.{arith}
use nclav.Base.Lists.{get_elem?, All}
use nclav.Base.Fallible.{unwrap_or, map_option, is_some}
use nclav.Base.Int.{ℤ, pos, negsuc}
use Prim.Native.Nat.{ℕ, zero, suc, ◌+◌, ◌/◌, ◌%◌}
use nclav.Base.Tests.{
  ◌<>◌, ltb, leb, if◌then◌else◌, ◌==◌, string_eq, nat_eq, eq_self, ==_iff, Option-cases, Bool-cases,
}

abbrev pub Text : Type 0
Text = List Char

abbrev pub chars : String → Text
chars String.[] = []
chars (String.◌∷◌ c s) = c ∷ chars s

-- `replace(c, by)` for a character
unfoldable pub replace : ℕ → Text → Text → Text
replace n by [] = []
replace n by (c ∷ t) = let rest = replace n by t in if code c == n then by ++ rest else c ∷ rest

unfoldable pub ends_with : String → String → Bool
ends_with String.[] suffix = suffix == ""
ends_with (String.◌∷◌ c s) suffix = String.◌∷◌ c s == suffix || ends_with s suffix

-- `trim_end_matches(c)`
unfoldable pub trim_end_matches : ℕ → String → String
trim_end_matches n String.[] = ""
trim_end_matches n (String.◌∷◌ c s) =
    let rest = trim_end_matches n s in if rest == "" && code c == n then "" else String.◌∷◌ c rest

-- The property White_Space of Unicode, by which `trim` cuts.
unfoldable pub is_whitespace : ℕ → Bool
is_whitespace c =
    leb 0x9 c && leb c 0xd
    || c == 0x20
    || c == 0x85
    || c == 0xa0
    || c == 0x1680
    || leb 0x2000 c && leb c 0x200a
    || c == 0x2028
    || c == 0x2029
    || c == 0x202f
    || c == 0x205f
    || c == 0x3000

unfoldable pub trim_start : Text → Text
unfolding is_whitespace
trim_start [] = []
trim_start (c ∷ t) = let rest = trim_start t in if is_whitespace (code c) then rest else c ∷ t

unfoldable pub trim : Text → Text
unfolding trim_start
trim t = reverse (trim_start (reverse (trim_start t)))

-- `lines joined by`: each line with the end of line after it
unfoldable pub lines_text : List String → String
lines_text [] = ""
lines_text (l ∷ ls) = l <> ("\n" <> lines_text ls)

abbrev digit : ℕ → String
digit n =
    unwrap_or (get_elem? ("0" ∷ "1" ∷ "2" ∷ "3" ∷ "4" ∷ "5" ∷ "6" ∷ "7" ∷ "8" ∷ "9" ∷ []) n) ""

unfoldable decimal_on : ℕ → ℕ → String
decimal_on zero n = ""
decimal_on (suc fuel) n =
    let rest = decimal_on fuel (n / 10) in if ltb n 10 then digit n else rest <> digit (n % 10)

-- `Display` of an `i32`, which has at most ten digits.
unfoldable pub int_text : ℤ → String
unfolding decimal_on
int_text (pos n) = decimal_on 10 n
int_text (negsuc n) = "-" <> decimal_on 10 (n + 1)

unfoldable pub starts_with_slash : String → Bool
starts_with_slash String.[] = false
starts_with_slash (String.◌∷◌ c s) = code c == 0x2f

unfoldable pub strip_prefix : Text → Text → Option Text
strip_prefix t [] = some t
strip_prefix [] (d ∷ p) = none
strip_prefix (c ∷ t) (d ∷ p) =
    let rest = strip_prefix t p in if code c == code d then rest else none

-- `split_once(c)`
unfoldable pub split_once : ℕ → Text → Option (Text × Text)
split_once n [] = none
split_once n (c ∷ t) =
    let rest = map_option (λ (p : Text × Text). (c ∷ p.0, p.1)) (split_once n t) in
    if code c == n then some ([], t) else rest

pub of_list-chars : (s : String) → of_list (chars s) ≡ s
of_list-chars String.[] = refl
of_list-chars (String.◌∷◌ c s) = ap (λ t. String.◌∷◌ c t) (of_list-chars s)

pub chars-of_list : (t : Text) → chars (of_list t) ≡ t
chars-of_list [] = refl
chars-of_list (c ∷ t) = ap (λ u. c ∷ u) (chars-of_list t)

pub strip_prefix-eq : (t p rest : Text) → strip_prefix t p ≡ some rest → t ≡ p ++ rest
unfolding strip_prefix
strip_prefix-eq [] [] rest h = ground arith
strip_prefix-eq (c ∷ t) [] rest h = ground arith
strip_prefix-eq [] (d ∷ p) rest h = cc
strip_prefix-eq (c ∷ t) (d ∷ p) rest h = elim (Bool-cases (code c == code d)) [
  | inl e ↦
      let g : strip_prefix t p ≡ some rest = ground arith in
      ap₂ (λ x xs. x ∷ xs) (Char-path c d ((==_iff (code c) (code d)).0 e))
        (strip_prefix-eq t p rest g)
  | inr e ↦ absurd (ground arith)
]

pub strip_prefix-append : (p rest : Text) → strip_prefix (p ++ rest) p ≡ some rest
unfolding strip_prefix
strip_prefix-append [] [] = refl
strip_prefix-append [] (c ∷ rest) = refl
strip_prefix-append (c ∷ p) rest = rw (eq_self (code c)) (strip_prefix-append p rest)

-- The text is `before`, a character `n` that is the first of them, and `after`.
abbrev pub Cut : ℕ → Text → Text → Text → Type 0
Cut n t before after =
    (c : Char) × (code c ≡ n) × (t ≡ before ++ c ∷ after) × All (λ b. (code b == n) ≡ false) before

Cut-cons :
    (n : ℕ) (c : Char) (t before after : Text)
    → (code c == n) ≡ false
    → Cut n t before after
    → Cut n (c ∷ t) (c ∷ before) after
Cut-cons n c t before after h (d, is_n, cut, free) = (d, is_n, ap (λ u. c ∷ u) cut, (h, free))

-- What `split_once` gives is such a cut.
pub split_once-Cut :
    (n : ℕ) (t before after : Text) → split_once n t ≡ some (before, after) → Cut n t before after
unfolding split_once
split_once-Cut n [] before after h = cc
split_once-Cut n (c ∷ t) before after h = elim (Bool-cases (code c == n)) [
  | inl e ↦
      let g : ◌≡◌ {A = Text × Text} ([], t) (before, after) = ground arith in
      subst (λ q. Cut n (c ∷ t) q.0 q.1) g (c, (==_iff (code c) n).0 e, refl, tt)
  | inr e ↦ elim (Option-cases (split_once n t)) [
    | inl f ↦ absurd (ground arith)
    | inr ((b, a), f) ↦
        let g : ◌≡◌ {A = Text × Text} (c ∷ b, a) (before, after) = ground arith in
        subst (λ q. Cut n (c ∷ t) q.0 q.1) g (Cut-cons n c t b a e (split_once-Cut n t b a f))
  ]
]

pub split_once-append :
    (c : Char) (before after : Text)
    → All (λ b. (code b == code c) ≡ false) before
    → split_once (code c) (before ++ c ∷ after) ≡ some (before, after)
unfolding split_once
split_once-append c [] after h = rw (eq_self (code c)) refl
split_once-append c (b ∷ before) after h = rw (h.0, split_once-append c before after h.1) refl

pub chars-append : (s t : String) → chars (s <> t) ≡ chars s ++ chars t
chars-append String.[] t = ap chars (append.nil t)
chars-append (String.◌∷◌ c s) t = ap chars (append.cons c s t) ∙ ap (λ u. c ∷ u) (chars-append s t)

unfoldable pub starts_with : String → String → Bool
unfolding strip_prefix
starts_with s prefix = is_some (strip_prefix (chars s) (chars prefix))
