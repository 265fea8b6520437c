-- ===== src/Reconcile/Template/Rendering.antt =====
-- `resolve_template` against templates taken apart into literals and tokens.
use Prim.Native.Char.{Char, code}
use Prim.Native.String.{String}
use text.Mathlib.TextBridge.{of_list}
use nclav.Base.{
  ℕ, zero, suc, ◌+◌, ◌-◌, ◌≤◌, ◌<◌, ◌≡◌, refl, sym, ap, ap₂, ◌∙◌, subst, true, false, ◌&&◌, Option,
  none, some, unwrap_or, List, [], ◌∷◌, ◌++◌, append_assoc, length, length-append, take, drop, All,
  ◌==◌, nat_eq, arith,
}
use nclav.Base.Texts.{trim, Text, chars}
use nclav.Reconcile.Template.{
  opening, closing, starts_pair, find_pair, slice, find_token, Values, token_value, after_token,
  round, resolve_loop, resolve_template,
}

-- The bracket does not stand twice in a row.
abbrev pub Apart : ℕ → Text → Type 0
Apart b [] = Unit
Apart b (c ∷ []) = Unit
Apart b (c ∷ d ∷ t) = ((code c == b && code d == b) ≡ false) × Apart b (d ∷ t)

starts_pair-false :
    (b : ℕ) (c : Char) (t : Text) → (code c == b) ≡ false → starts_pair b (c ∷ t) ≡ false
unfolding starts_pair
starts_pair-false b c [] h = refl
starts_pair-false b c (d ∷ t) h = rw h

find_pair-none : (b : ℕ) (t : Text) → Apart b t → find_pair b t ≡ none
unfolding find_pair starts_pair
find_pair-none b [] h = refl
find_pair-none b (c ∷ []) h = refl
find_pair-none b (c ∷ d ∷ t) h = rw (h.0, find_pair-none b (d ∷ t) h.1) refl

find_pair-at :
    (b : ℕ) (l : Text) (c d : Char) (t : Text)
    → Apart b (l ++ c ∷ [])
    → (code c == b) ≡ true
    → (code d == b) ≡ true
    → find_pair b (l ++ c ∷ d ∷ t) ≡ some (length l)
unfolding find_pair starts_pair
find_pair-at b [] c d t h hc hd = rw (hc, hd) refl
find_pair-at b (x ∷ []) c d t h hc hd = rw (h.0, find_pair-at b [] c d t h.1 hc hd) refl
find_pair-at b (x ∷ y ∷ l) c d t h hc hd = rw (h.0, find_pair-at b (y ∷ l) c d t h.1 hc hd) refl

drop-length {ℓ} : {A : Type ℓ} (xs ys : List A) → drop (length xs) (xs ++ ys) ≡ ys
drop-length [] ys = refl
drop-length (x ∷ xs) ys = drop-length xs ys

take-length {ℓ} : {A : Type ℓ} (xs ys : List A) → take (length xs) (xs ++ ys) ≡ xs
take-length [] ys = refl
take-length (x ∷ xs) ys = ap (λ l. x ∷ l) (take-length xs ys)

-- A template is literals, each with a token behind it, and a last literal.
abbrev pub bracketed : Text → Text → Text
bracketed t rest = chars "{{" ++ (t ++ (chars "}}" ++ rest))

abbrev pub print : List (Text × Text) → Text → Text
print [] last = last
print ((literal, token) ∷ parts) last = literal ++ bracketed token (print parts last)

-- A literal has no pair of opening brackets, also with the bracket that follows it, and a token no pair of
-- closing ones.
abbrev pub IsPlain : List (Text × Text) → Type 0
IsPlain = All (λ p. Apart opening (p.0 ++ chars "{") × Apart closing (p.1 ++ chars "}"))

abbrev pub replacement : Values → Text → Text
replacement values token = unwrap_or (token_value values (trim token)) (bracketed token [])

abbrev pub render : Values → List (Text × Text) → Text → Text
render values [] last = last
render values ((literal, token) ∷ parts) last =
    literal ++ (replacement values token ++ render values parts last)

drop-add {ℓ} : {A : Type ℓ} (xs ys : List A) (n : ℕ) → drop (length xs + n) (xs ++ ys) ≡ drop n ys
drop-add [] ys n = let e : 0 + n ≡ n = omega arith in rw e
drop-add (x ∷ xs) ys n =
    let e : suc (length xs) + n ≡ suc (length xs + n) = omega arith in rw e (drop-add xs ys n)

-- What one round reads at a token that stands behind `pre`.
module _ (pre t r : Text) (closed : Apart closing (t ++ chars "}")) where
  close_at : find_pair closing (bracketed t r) ≡ some (suc (suc (length t)))
  unfolding find_pair starts_pair
  close_at =
      rw
        (
          starts_pair-false closing "{" (t ++ (chars "}}" ++ r)) refl,
          find_pair-at closing t "}" "}" r closed refl refl,
        )
        refl

  inner_at :
      slice (length pre + 2) (length pre + suc (suc (length t)) + 2 - 2) (pre ++ bracketed t r) ≡ t
  inner_at =
      let n : length pre + suc (suc (length t)) + 2 - 2 - (length pre + 2) ≡ length t =
        omega arith in
      rw (n, drop-add pre (bracketed t r) 2) (take-length t (chars "}}" ++ r))

  rest_at : drop (length pre + suc (suc (length t)) + 2) (pre ++ bracketed t r) ≡ r
  rest_at =
      let n : length pre + suc (suc (length t)) + 2 ≡ length pre + suc (suc (length t + 2)) =
        omega arith in
      rw (n, drop-add pre (bracketed t r) (suc (suc (length t + 2))))
        (drop-add t (chars "}}" ++ r) 2)

module _ (values : Values) where
  -- What a round leaves behind a token: the text up to the next search, and that behind it.
  abbrev pub kept : Text → Text
  kept t = unwrap_or (token_value values (trim t)) (bracketed t [])

  bracketed-append : (t r : Text) → bracketed t r ≡ bracketed t [] ++ r
  bracketed-append t r = rw (append_assoc t (chars "}}") r) refl

  length-bracketed : (t : Text) → length (bracketed t []) ≡ suc (suc (length t)) + 2
  length-bracketed t = omega (arith, length-append t (chars "}}"))

  find_token-of :
      (result : Text) (s start end : ℕ)
      → find_pair opening (drop s result) ≡ some start
      → find_pair closing (drop (s + start) result) ≡ some end
      → find_token result s ≡ some (s + start, s + start + end + 2)
  unfolding find_token
  find_token-of result s start end h k = ground arith

  round-of :
      (result : Text) (s a b : ℕ)
      → find_token result s ≡ some (a, b)
      → round values result s
        ≡ some (after_token result a b (token_value values (trim (slice (a + 2) (b - 2) result))))
  unfolding round
  round-of result s a b h = ground arith

  after_token-at :
      (pre t r : Text)
      → Apart closing (t ++ chars "}")
      → (o : Option Text)
      → after_token (pre ++ bracketed t r) (length pre) (length pre + suc (suc (length t)) + 2) o
        ≡ ((pre ++ unwrap_or o (bracketed t [])) ++ r, length (pre ++ unwrap_or o (bracketed t [])))
  unfolding after_token
  after_token-at pre t r closed (some val) = λ i. (
    (ap₂ (λ (x y : Text). x ++ (val ++ y)) (take-length pre (bracketed t r))
            (rest_at pre t r closed)
          ∙ sym (append_assoc pre val r))
        i,
    sym (length-append pre val) i,
  )
  after_token-at pre t r closed none = λ i. (
    (ap (λ (x : Text). pre ++ x) (bracketed-append t r) ∙ sym (append_assoc pre (bracketed t []) r))
        i,
    let n : length pre + suc (suc (length t)) + 2 ≡ length (pre ++ bracketed t []) =
          omega (arith, length-append pre (bracketed t []), length-bracketed t) in
        n i,
  )

  module _ (done literal t r : Text) (plain : Apart opening (literal ++ chars "{"))
      (closed : Apart closing (t ++ chars "}")) where
    find_token-at :
        find_token (done ++ (literal ++ bracketed t r)) (length done)
        ≡ some (length (done ++ literal), length (done ++ literal) + suc (suc (length t)) + 2)
    find_token-at =
        let pre = done ++ literal in
        let start : length done + length literal ≡ length pre = sym (length-append done literal) in
        let opens : find_pair opening (drop (length done) (done ++ (literal ++ bracketed t r)))
            ≡ some (length literal) =
          rw (drop-length done (literal ++ bracketed t r))
            (find_pair-at opening literal "{" "{" (t ++ (chars "}}" ++ r)) plain refl refl) in
        let closes : find_pair closing
              (drop (length done + length literal) (done ++ (literal ++ bracketed t r)))
            ≡ some (suc (suc (length t))) =
          rw (start, ← append_assoc done literal (bracketed t r), drop-length pre (bracketed t r))
            (close_at pre t r closed) in
        rw start at
          (find_token-of _ (length done) (length literal) (suc (suc (length t))) opens closes)

    -- One round at a token moves behind it, with its replacement in its place.
    round-at :
        round values (done ++ (literal ++ bracketed t r)) (length done)
        ≡ some ((done ++ literal ++ kept t) ++ r, length (done ++ literal ++ kept t))
    round-at =
        let pre = done ++ literal in
        let whole : done ++ (literal ++ bracketed t r) ≡ pre ++ bracketed t r =
          sym (append_assoc done literal (bracketed t r)) in
        let stop = length pre + suc (suc (length t)) + 2 in
        let step : round values (pre ++ bracketed t r) (length done)
            ≡ some (
                after_token (pre ++ bracketed t r) (length pre) stop (
                  token_value values
                    (trim (slice (length pre + 2) (stop - 2) (pre ++ bracketed t r))))) =
          round-of (pre ++ bracketed t r) (length done) (length pre) stop (
            subst (λ x. find_token x (length done) ≡ some (length pre, stop)) whole
              find_token-at) in
        rw whole (
          step
          ∙ ap
              (λ x. some (
                after_token (pre ++ bracketed t r) (length pre) stop (token_value values (trim x))))
              (inner_at pre t r closed)
          ∙ ap (λ x. some x) (after_token-at pre t r closed (token_value values (trim t))))

  pub resolve_loop-next :
      (f : ℕ) (result next : Text) (s start : ℕ)
      → round values result s ≡ some (next, start)
      → resolve_loop values (suc f) result s ≡ resolve_loop values f next start
  unfolding resolve_loop
  resolve_loop-next f result next s start h = ground arith

  resolve_loop-end :
      (f : ℕ) (done last : Text)
      → Apart opening last
      → resolve_loop values (suc f) (done ++ last) (length done) ≡ some (done ++ last)
  unfolding resolve_loop round find_token
  resolve_loop-end f done last h =
      let none_left : find_pair opening (drop (length done) (done ++ last)) ≡ none =
        rw (drop-length done last) (find_pair-none opening last h) in
      ground arith

  -- From the end of what is done, the loop renders the rest, in one round for each token.
  resolve_loop-render :
      (parts : List (Text × Text)) (last done : Text) (f : ℕ)
      → IsPlain parts
      → Apart opening last
      → length parts < f
      → resolve_loop values f (done ++ print parts last) (length done)
        ≡ some (done ++ render values parts last)
  resolve_loop-render [] last done zero p l h = absurd (omega arith)
  resolve_loop-render [] last done (suc f) p l h = resolve_loop-end f done last l
  resolve_loop-render (part ∷ parts) last done zero p l h = absurd (omega arith)
  resolve_loop-render ((literal, t) ∷ parts) last done (suc f) p l h =
      resolve_loop-next f _ _ _ _ (round-at done literal t (print parts last) p.0.0 p.0.1)
      ∙ resolve_loop-render parts last (done ++ literal ++ kept t) f p.1 l (omega arith)
      ∙ simp append_assoc

length-print-le :
    (parts : List (Text × Text)) (last : Text) → length parts ≤ length (print parts last)
length-print-le [] last = omega arith
length-print-le ((literal, t) ∷ parts) last = omega (
  arith,
  length-print-le parts last,
  length-append literal (bracketed t (print parts last)),
  length-append t (chars "}}" ++ print parts last),
)

-- Resolving a template keeps its literals, and puts in the place of each token the value that its
-- trimmed content has: the output of an import if it has a dot, a context variable if not. A token
-- without a value stays as it was written, and inserted values are not searched for tokens. This is for
-- templates in which no literal has two opening brackets in a row, or one at its end before a token, and no
-- token two closing brackets in a row, or one at its end.
pub resolve_template-render :
    (values : Values) (template : String) (parts : List (Text × Text)) (last : Text)
    → chars template ≡ print parts last
    → IsPlain parts
    → Apart opening last
    → resolve_template values template ≡ of_list (render values parts last)
unfolding resolve_template
resolve_template-render values template parts last written plain end =
    let fits : length parts ≤ length (chars template) = rw written (length-print-le parts last) in
    let rendered : resolve_loop values (length (chars template) + 1) (chars template) 0
        ≡ some (render values parts last) =
      subst
        (λ x.
          resolve_loop values (length (chars template) + 1) x 0 ≡ some (render values parts last))
        (sym written)
        (resolve_loop-render values parts last [] (length (chars template) + 1) plain end
          (omega arith)) in
    ap (λ (o : Option Text). of_list (unwrap_or o [])) rendered
