-- ===== src/Base/Effects/Rules.antt =====
-- What holds after an action: of its result and state, and the actions that leave the store alone.
use mathlib.Core.Path.{◌≡◌, refl, sym, ap, subst, ◌∙◌}
use mathlib.Core.Bool.{Bool, true, false}
use mathlib.Core.List.{List, [], ◌∷◌}
use nclav.Base.Tests.{if◌then◌else◌}
use nclav.Base.Fallible.{Result, ok, err}
use nclav.Base.Effects.{
  Eff, pure, throw, and_then_do, ◌>>=◌, capture, lift, when, for_do, for_fold, outside, attempt,
  during, attempt_during,
}

module _ {E T : Type 0} {A B : Type 0} where
  -- `P` holds after `m >>= f` where `Q` holds after `m`, `f` takes `Q` to `P`, and the errors of `m` have `P`.
  pub >>=-post :
      (Q : Result E A → T → Type 0) (P : Result E B → T → Type 0) (m : Eff E T A)
      (f : A → Eff E T B) (t : T)
      → Q (m t).0 (m t).1
      → ((a : A) (u : T) → Q (ok a) u → P (f a u).0 (f a u).1)
      → ((e : E) (u : T) → Q (err e) u → P (err e) u)
      → P ((m >>= f) t).0 ((m >>= f) t).1
  unfolding ◌>>=◌ throw
  >>=-post Q P m f t h k l = split (m t) h
    where
      split :
          (x : Result E A × T) → Q x.0 x.1 → P (and_then_do x.0 f x.1).0 (and_then_do x.0 f x.1).1
      split (ok a, u) q = k a u q
      split (err e, u) q = l e u q

-- A block goes on where its first action succeeds.
>>=-ok :
    {E T A B : Type 0} (m : Eff E T A) (f : A → Eff E T B) {t u : T} {a : A}
    → m t ≡ (ok a, u)
    → (m >>= f) t ≡ f a u
unfolding ◌>>=◌
>>=-ok m f h = ap (λ x. and_then_do x.0 f x.1) h

pub ok-post :
    {E T A B : Type 0} (P : Result E B × T → Type 0) (m : Eff E T A) (f : A → Eff E T B) {t u : T}
    {a : A}
    → m t ≡ (ok a, u)
    → P (f a u)
    → P ((m >>= f) t)
ok-post P m f h p = subst P (sym (>>=-ok m f h)) p

-- The part `view` of the store is left as it was.
pub record Keeps (E S W : Type 0) {X : Type 0} (view : S → X) {A : Type 0} (m : Eff E (S × W) A)
    : Type 0 where
  pub at : (t : S × W) → view (m t).1.0 ≡ view t.0

module _ {E S W X : Type 0} {view : S → X} where
  pub Keeps-pure : {A : Type 0} (a : A) → Keeps E S W view (pure a)
  unfolding pure
  Keeps-pure a = record { at = λ t. refl }

  pub Keeps-throw : {A : Type 0} (e : E) → Keeps E S W view {A = A} (throw e)
  unfolding throw
  Keeps-throw e = record { at = λ t. refl }

  pub Keeps-lift : {A : Type 0} (r : Result E A) → Keeps E S W view (lift r)
  unfolding lift
  Keeps-lift r = record { at = λ t. refl }

  pub Keeps-outside : {A : Type 0} (f : W → A × W) → Keeps E S W view (outside f)
  unfolding outside
  Keeps-outside f = record { at = λ t. refl }

  pub Keeps-attempt :
      {F A : Type 0} (wrap : F → E) (f : W → Result F A × W) → Keeps E S W view (attempt wrap f)
  unfolding attempt
  Keeps-attempt wrap f = record { at = λ t. refl }

  pub Keeps-during :
      {A : Type 0} (f : S × W → A × (S × W))
      → ((t : S × W) → view (f t).1.0 ≡ view t.0)
      → Keeps E S W view (during f)
  unfolding during
  Keeps-during f h = record { at = h }

  pub Keeps-attempt_during :
      {F A : Type 0} (wrap : F → E) (f : S × W → Result F A × (S × W))
      → ((t : S × W) → view (f t).1.0 ≡ view t.0)
      → Keeps E S W view (attempt_during wrap f)
  unfolding attempt_during
  Keeps-attempt_during wrap f h = record { at = h }

  pub Keeps->>= :
      {A B : Type 0} {m : Eff E (S × W) A} {f : A → Eff E (S × W) B}
      → Keeps E S W view m
      → ((a : A) → Keeps E S W view (f a))
      → Keeps E S W view (m >>= f)
  Keeps->>= {m} {f} h k = record {
    at = λ t.
        >>=-post (λ r u. view u.0 ≡ view t.0) (λ r u. view u.0 ≡ view t.0) m f t (h.at t)
          (λ a u e. (k a).at u ∙ e) (λ e u q. q);
  }

  pub Keeps-capture :
      {A : Type 0} {m : Eff E (S × W) A} → Keeps E S W view m → Keeps E S W view (capture m)
  unfolding capture
  Keeps-capture h = record { at = h.at }

  pub Keeps-when :
      (b : Bool) {body : Eff E (S × W) (Unit {0})}
      → Keeps E S W view body
      → Keeps E S W view (when b body)
  unfolding when
  Keeps-when true h = h
  Keeps-when false h = record { at = λ t. refl }

  pub Keeps-if :
      {A : Type 0} (b : Bool) {m n : Eff E (S × W) A}
      → Keeps E S W view m
      → Keeps E S W view n
      → Keeps E S W view (if b then m else n)
  Keeps-if true h k = h
  Keeps-if false h k = k

  pub Keeps-for_do :
      {A : Type 0} {body : A → Eff E (S × W) (Unit {0})} (xs : List A)
      → ((x : A) → Keeps E S W view (body x))
      → Keeps E S W view (for_do body xs)
  unfolding for_do
  Keeps-for_do [] h = Keeps-pure tt
  Keeps-for_do (x ∷ xs) h = Keeps->>= (h x) (λ _. Keeps-for_do xs h)

  pub Keeps-for_fold :
      {A B : Type 0} {body : A → B → Eff E (S × W) B} (xs : List A) (b : B)
      → ((x : A) (c : B) → Keeps E S W view (body x c))
      → Keeps E S W view (for_fold body xs b)
  unfolding for_fold
  Keeps-for_fold [] b h = Keeps-pure b
  Keeps-for_fold (x ∷ xs) b h = Keeps->>= (h x b) (λ c. Keeps-for_fold xs c h)

module _ {E S W X : Type 0} (view : S → X) {A B : Type 0} where
  -- After a part that leaves the view of the store alone, `P` of the result and the store is left to the
  -- rest, or to the error.
  pub keep-post :
      (s : S) (P : Result E B → S → Type 0) (m : Eff E (S × W) A) (f : A → Eff E (S × W) B)
      → Keeps E S W view m
      → ((e : E) (u : S) → view u ≡ view s → P (err e) u)
      → ((a : A) (u : S × W) → view u.0 ≡ view s → P (f a u).0 (f a u).1.0)
      → (t : S × W) → view t.0 ≡ view s
      → P ((m >>= f) t).0 ((m >>= f) t).1.0
  keep-post s P m f h onerr rest t same =
      >>=-post (λ r u. view u.0 ≡ view s) (λ r u. P r u.0) m f t (h.at t ∙ same) rest
        (λ e u q. onerr e u.0 q)

pub ruleset keeps = (
  Keeps-pure, Keeps-throw, Keeps-lift, Keeps-outside, Keeps-attempt, Keeps->>=, Keeps-capture,
  Keeps-when, Keeps-if, Keeps-for_do, Keeps-for_fold,
)

-- The action succeeds, and leaves the part `view` of the store as it was.
pub record Completes (E S W : Type 0) {X : Type 0} (view : S → X) {A : Type 0} (m : Eff E (S × W) A)
    : Type 0 where
  pub result : (t : S × W) → (a : A) × ((m t).0 ≡ ok a)
  pub kept : (t : S × W) → view (m t).1.0 ≡ view t.0

module _ {E S W X : Type 0} (view : S → X) where
  pub Completes-pure : {A : Type 0} (a : A) → Completes E S W view (pure a)
  unfolding pure
  Completes-pure a = record { result = λ t. (a, refl); kept = λ t. refl }

  pub Completes-outside : {A : Type 0} (f : W → A × W) → Completes E S W view (outside f)
  unfolding outside
  Completes-outside f = record { result = λ t. ((f t.1).0, refl); kept = λ t. refl }

  and_then_do-ok :
      {A B : Type 0} {r : Result E A} {a : A} (f : A → Eff E (S × W) B) (u : S × W)
      → r ≡ ok a
      → and_then_do r f u ≡ f a u
  and_then_do-ok f u h = ap (λ r. and_then_do r f u) h

  -- The rest of a block runs where the first action ended.
  pub Completes-step :
      {A B : Type 0} {m : Eff E (S × W) A} (f : A → Eff E (S × W) B)
      → Completes E S W view m
      → (t : S × W) → (a : A) × (u : S × W) × ((m >>= f) t ≡ f a u) × (view u.0 ≡ view t.0)
  unfolding ◌>>=◌
  Completes-step {m} f h t =
      let (a, e) = h.result t in (a, (m t).1, and_then_do-ok f (m t).1 e, h.kept t)

  pub Completes-post :
      {A B : Type 0} (P : Result E B × (S × W) → Type 0) (m : Eff E (S × W) A)
      (f : A → Eff E (S × W) B)
      → Completes E S W view m
      → (t : S × W) → ((a : A) (u : S × W) → view u.0 ≡ view t.0 → P (f a u))
      → P ((m >>= f) t)
  Completes-post P m f h t rest =
      let (a, u, e, same) = Completes-step f h t in subst P (sym e) (rest a u same)

  pub Completes->>= :
      {A B : Type 0} {m : Eff E (S × W) A} {f : A → Eff E (S × W) B}
      → Completes E S W view m
      → ((a : A) → Completes E S W view (f a))
      → Completes E S W view (m >>= f)
  Completes->>= {f} h k = record {
    result = λ t.
        let (a, u, e, same) = Completes-step f h t in
        let (b, g) = (k a).result u in (b, ap (λ x. x.0) e ∙ g);
    kept = λ t.
        let (a, u, e, same) = Completes-step f h t in ap (λ x. view x.1.0) e ∙ (k a).kept u ∙ same;
  }

  pub Completes-for_fold :
      {A B : Type 0} {body : A → B → Eff E (S × W) B} (xs : List A) (b : B)
      → ((x : A) (c : B) → Completes E S W view (body x c))
      → Completes E S W view (for_fold body xs b)
  unfolding for_fold
  Completes-for_fold [] b h = Completes-pure b
  Completes-for_fold (x ∷ xs) b h = Completes->>= (h x b) (λ c. Completes-for_fold xs c h)

pub ruleset completes = (Completes-pure, Completes-outside, Completes->>=, Completes-for_fold)
