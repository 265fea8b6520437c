-- ===== src/Reconcile/Template/Termination.antt =====
-- The loop of `resolve_template` ends on every template.
use nclav.Base.{
  ℕ, zero, suc, ◌+◌, ◌-◌, ◌≤◌, ◌<◌, ◌≡◌, ◌∙◌, Option-cases, inl, inr, Option, none, some, [], ◌∷◌,
  ◌++◌, length, length-append, length-take, length-drop, take, drop, arith,
}
use nclav.Reconcile.Template.Rendering.{resolve_loop-next}
use nclav.Base.Texts.{trim, Text}
use nclav.Reconcile.Template.{
  slice, opening, closing, starts_pair, find_pair, find_token, Values, token_value, after_token,
  round, resolve_loop,
}

find_pair-bound : (b : ℕ) (t : Text) (i : ℕ) → find_pair b t ≡ some i → i + 2 ≤ length t
unfolding find_pair starts_pair
find_pair-bound b [] i h = cc
find_pair-bound b (c ∷ []) i h = ground arith
find_pair-bound b (c ∷ d ∷ t) i h = grind (arith, find_pair-bound b (d ∷ t) (i - 1))

find_token-eq-some :
    (result : Text) (s a b : ℕ)
    → find_token result s ≡ some (a, b)
    → (start : ℕ) × (end : ℕ) × (find_pair opening (drop s result) ≡ some start)
      × (find_pair closing (drop (s + start) result) ≡ some end)
      × (a ≡ s + start)
      × (b ≡ s + start + end + 2)
unfolding find_token
find_token-eq-some result s a b h = ground arith

find_token-bound :
    (result : Text) (s a b : ℕ)
    → s ≤ length result
    → find_token result s ≡ some (a, b)
    → (s ≤ a) × (a + 2 ≤ b) × (b ≤ length result)
find_token-bound result s a b fits h =
    let (start, end, opens, closes, ea, eb) = find_token-eq-some result s a b h in
    let low = find_pair-bound opening (drop s result) start opens in
    let high = find_pair-bound closing (drop (s + start) result) end closes in
    omega (arith, length-drop s result, length-drop (s + start) result)

module _ (values : Values) where
  after_token-shrinks :
      (result : Text) (s a b : ℕ) (o : Option Text)
      → s ≤ a
      → a + 2 ≤ b
      → b ≤ length result
      → ((after_token result a b o).1 ≤ length (after_token result a b o).0)
        × (length (after_token result a b o).0 - (after_token result a b o).1 < length result - s)
  unfolding after_token
  after_token-shrinks result s a b (some val) h k l = omega (
    arith,
    length-append (take a result) (val ++ drop b result),
    length-append val (drop b result),
    length-take a result,
    length-drop b result,
  )
  after_token-shrinks result s a b none h k l = omega arith

  round-eq-some :
      (result next : Text) (s start : ℕ)
      → round values result s ≡ some (next, start)
      → (a : ℕ) × (b : ℕ) × (o : Option Text) × (find_token result s ≡ some (a, b))
        × (next ≡ (after_token result a b o).0)
        × (start ≡ (after_token result a b o).1)
  unfolding round
  round-eq-some result next s start h = elim (Option-cases (find_token result s)) [
    | inl e ↦ absurd (none≢some (ground arith))
    | inr ((a, b), e) ↦ (
      a,
      b,
      token_value values (trim (slice (a + 2) (b - 2) result)),
      e,
      ground arith,
      ground arith,
    )
  ]
    where
      none≢some : ◌≡◌ {A = Option (Text × ℕ)} none (some (next, start)) → ⊥
      none≢some e = cc

  resolve_loop-break :
      (f : ℕ) (result : Text) (s : ℕ)
      → round values result s ≡ none
      → resolve_loop values (suc f) result s ≡ some result
  unfolding resolve_loop
  resolve_loop-break f result s h = ground arith

  -- Whatever the template and the values, the loop returns, if its fuel is more than what is left to
  -- search.
  resolve_loop_total_from :
      (f : ℕ) (result : Text) (s : ℕ)
      → s ≤ length result
      → length result - s < f
      → (t : Text) × (resolve_loop values f result s ≡ some t)
  unfolding resolve_loop
  resolve_loop_total_from zero result s fits h = absurd (omega arith)
  resolve_loop_total_from (suc f) result s fits h = elim (Option-cases (round values result s)) [
    | inl e ↦ (result, resolve_loop-break f result s e)
    | inr ((next, start), e) ↦
        let (a, b, o, found, en, es) = round-eq-some result next s start e in
        let (h₁, h₂, h₃) = find_token-bound result s a b fits found in
        let (fits', less) = after_token-shrinks result s a b o h₁ h₂ h₃ in
        let fits'' : start ≤ length next = rw (en, es) fits' in
        let (t, done) = resolve_loop_total_from f next start fits'' (rw (en, es) (omega arith)) in
        (t, resolve_loop-next values f result next s start e ∙ done)
  ]

  -- One more round than the template has characters is enough, whatever the values: the loop of
  -- `resolve_template` ends.
  pub resolve_loop_total :
      (template : Text)
      → (t : Text) × (resolve_loop values (length template + 1) template 0 ≡ some t)
  resolve_loop_total template =
      resolve_loop_total_from (length template + 1) template 0 (omega arith) (omega arith)
