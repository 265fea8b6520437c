-- ===== src/Reconcile/Contract.antt =====
-- What holds where an action of the reconciler ends: `P` of its result and the run, or `E` of the error
-- that ends it.
use nclav.Base.{◌≡◌, refl, String, Result, Result-cases, inl, inr, ok, err, List, ◌∷◌, [], ◌++◌}
use nclav.Reconcile.Report.{ReconcileError}
use nclav.Domain.{EnclaveId}
use nclav.Store.{StoreError, EnclaveState, AuditEvent}
use nclav.Reconcile.Action.{
  lift, StateStore, Run, Action, pure, throw, store_result, and_then_do, ◌>>=◌, read_store,
  write_store, try_store, outside, outside_store, push_error, for_fold, for_do,
}

unfoldable pub Ends :
    {V S W A : Type 0}
    → (ReconcileError V → Type 0)
    → (A → Run S W → Type 0)
    → Result (ReconcileError V) A × Run S W
    → Type 0
Ends E P (ok a, r) = P a r
Ends E P (err e, r) = E e

-- The error is what a call of the store has answered.
pub data IsStore {V S : Type 0} (st : StateStore V S) : ReconcileError V → Type 0 where
  getting :
      {id : EnclaveId} {s : S} {e : StoreError V}
      → st.get_enclave id s ≡ err e
      → IsStore st (ReconcileError.store e)
  upserting :
      {state : EnclaveState V} {s : S} {e : StoreError V}
      → (st.upsert_enclave state s).0 ≡ err e
      → IsStore st (ReconcileError.store e)
  deleting :
      {id : EnclaveId} {s : S} {e : StoreError V}
      → (st.delete_enclave id s).0 ≡ err e
      → IsStore st (ReconcileError.store e)
  appending :
      {event : AuditEvent} {s : S} {e : StoreError V}
      → (st.append_event event s).0 ≡ err e
      → IsStore st (ReconcileError.store e)

-- The error is not a driver's.
unfoldable pub NotDriver : {V : Type 0} → ReconcileError V → Type 0
NotDriver (ReconcileError.driver e) = ⊥
NotDriver _ = Unit

module _ {V S W : Type 0} (E : ReconcileError V → Type 0) where
  Ends-and_then_do :
      {A B : Type 0} (P : A → Run S W → Type 0) (Q : B → Run S W → Type 0)
      (x : Result (ReconcileError V) A × Run S W) (f : A → Action V S W B)
      → Ends E P x
      → ((a : A) (r : Run S W) → P a r → Ends E Q (f a r))
      → Ends E Q (and_then_do x.0 f x.1)
  unfolding Ends throw
  Ends-and_then_do P Q (ok a, r) f h k = k a r h
  Ends-and_then_do P Q (err e, r) f h k = h

  pub Ends->>= :
      {A B : Type 0} (P : A → Run S W → Type 0) (Q : B → Run S W → Type 0) (m : Action V S W A)
      (f : A → Action V S W B) (r : Run S W)
      → Ends E P (m r)
      → ((a : A) (r' : Run S W) → P a r' → Ends E Q (f a r'))
      → Ends E Q ((m >>= f) r)
  unfolding ◌>>=◌
  Ends->>= P Q m f r h k = Ends-and_then_do P Q (m r) f h k

  pub Ends-weaken :
      {A : Type 0} (P Q : A → Run S W → Type 0) (x : Result (ReconcileError V) A × Run S W)
      → Ends E P x
      → ((a : A) (r : Run S W) → P a r → Q a r)
      → Ends E Q x
  unfolding Ends
  Ends-weaken P Q (ok a, r) h k = k a r h
  Ends-weaken P Q (err e, r) h k = h

  -- The steps of an action, one rule each.
  pub Ends-outside :
      {A B : Type 0} (Q : B → Run S W → Type 0) (f : W → A × W) (k : A → Action V S W B)
      (r : Run S W)
      → Ends E Q (k (f r.world).0 (record r { world = (f r.world).1 }))
      → Ends E Q ((outside f >>= k) r)
  unfolding ◌>>=◌ outside
  Ends-outside Q f k r h = h

  pub Ends-outside_store :
      {A B : Type 0} (Q : B → Run S W → Type 0) (f : S × W → A × (S × W)) (k : A → Action V S W B)
      (r : Run S W)
      → Ends E Q (
          k
            (f (r.store, r.world)).0
            (record r { store = (f (r.store, r.world)).1.0; world = (f (r.store, r.world)).1.1 }))
      → Ends E Q ((outside_store f >>= k) r)
  unfolding ◌>>=◌ outside_store
  Ends-outside_store Q f k r h = h

  pub Ends-try_store :
      {A B : Type 0} (Q : B → Run S W → Type 0) (f : S → Result (StoreError V) A × S)
      (k : Unit {0} → Action V S W B) (r : Run S W)
      → Ends E Q (k tt (record r { store = (f r.store).1 }))
      → Ends E Q ((try_store f >>= k) r)
  unfolding ◌>>=◌ try_store
  Ends-try_store Q f k r h = h

  pub Ends-push_error :
      {B : Type 0} (Q : B → Run S W → Type 0) (msg : String) (k : Unit {0} → Action V S W B)
      (r : Run S W)
      → Ends E Q (k tt (record r { errors = r.errors ++ msg ∷ [] }))
      → Ends E Q ((push_error msg >>= k) r)
  unfolding ◌>>=◌ push_error
  Ends-push_error Q msg k r h = h

  pub Ends-pure :
      {A : Type 0} (Q : A → Run S W → Type 0) (a : A) (r : Run S W) → Q a r → Ends E Q (pure a r)
  unfolding Ends pure
  Ends-pure Q a r h = h

  -- A call of the store, where its error is one that the contract allows.
  Ends-store_result :
      {A B : Type 0} (Q : B → Run S W → Type 0) (x : Result (StoreError V) A)
      (k : A → Action V S W B) (r : Run S W)
      → ((e : StoreError V) → x ≡ err e → E (ReconcileError.store e))
      → ((a : A) → Ends E Q (k a r))
      → Ends E Q (and_then_do (store_result x) k r)
  unfolding Ends throw
  Ends-store_result Q (ok a) k r allowed h = h a
  Ends-store_result Q (err e) k r allowed h = allowed e refl

  pub Ends-write_store :
      {A B : Type 0} (Q : B → Run S W → Type 0) (f : S → Result (StoreError V) A × S)
      (k : A → Action V S W B) (r : Run S W)
      → ((e : StoreError V) → (f r.store).0 ≡ err e → E (ReconcileError.store e))
      → ((a : A) → Ends E Q (k a (record r { store = (f r.store).1 })))
      → Ends E Q ((write_store f >>= k) r)
  unfolding ◌>>=◌ write_store
  Ends-write_store Q f k r allowed h = Ends-store_result Q (f r.store).0 k _ allowed h

  pub Ends-read_store :
      {A B : Type 0} (Q : B → Run S W → Type 0) (f : S → Result (StoreError V) A)
      (k : A → Action V S W B) (r : Run S W)
      → ((e : StoreError V) → f r.store ≡ err e → E (ReconcileError.store e))
      → ((a : A) → Ends E Q (k a r))
      → Ends E Q ((read_store f >>= k) r)
  unfolding ◌>>=◌ read_store
  Ends-read_store Q f k r allowed h = Ends-store_result Q (f r.store) k r allowed h

  -- A call of the store that ends the action.
  pub Ends-write_store_last :
      {A : Type 0} (Q : Run S W → Type 0) (f : S → Result (StoreError V) A × S) (r : Run S W)
      → ((e : StoreError V) → (f r.store).0 ≡ err e → E (ReconcileError.store e))
      → Q (record r { store = (f r.store).1 })
      → Ends E (λ _. Q) (write_store f r)
  unfolding write_store Ends
  Ends-write_store_last Q f r allowed h = elim (Result-cases (f r.store).0) [
    | inl (a, e) ↦ rw e h
    | inr (x, e) ↦ rw e (allowed x e)
  ]

  pub Ends-lift_ok :
      {A B : Type 0} (Q : B → Run S W → Type 0) (a : A) (k : A → Action V S W B) (r : Run S W)
      → Ends E Q (k a r)
      → Ends E Q ((lift (ok a) >>= k) r)
  unfolding ◌>>=◌ lift
  Ends-lift_ok Q a k r h = h

  -- A loop keeps what each of its rounds keeps.
  pub Ends-for_do :
      {A : Type 0} (body : A → Action V S W (Unit {0})) (P : Run S W → Type 0)
      → ((x : A) (r : Run S W) → P r → Ends E (λ _. P) (body x r))
      → (xs : List A) (r : Run S W) → P r
      → Ends E (λ _. P) (for_do body xs r)
  unfolding Ends for_do pure
  Ends-for_do body P step [] r h = h
  Ends-for_do body P step (x ∷ xs) r h =
      Ends->>= (λ _. P) (λ _. P) (body x) (λ _. for_do body xs) r (step x r h)
        (λ _ r' h'. Ends-for_do body P step xs r' h')

  pub Ends-for_fold :
      {A B : Type 0} (body : A → B → Action V S W B) (P : B → Run S W → Type 0)
      → ((x : A) (b : B) (r : Run S W) → P b r → Ends E P (body x b r))
      → (xs : List A) (b : B) (r : Run S W) → P b r
      → Ends E P (for_fold body xs b r)
  unfolding Ends for_fold pure
  Ends-for_fold body P step [] b r h = h
  Ends-for_fold body P step (x ∷ xs) b r h =
      Ends->>= P P (body x b) (for_fold body xs) r (step x b r h)
        (λ b' r' h'. Ends-for_fold body P step xs b' r' h')

pub Ends-any :
    {V S W A : Type 0} (x : Result (ReconcileError V) A × Run S W)
    → Ends (λ _. Unit {0}) (λ _ _. Unit {0}) x
unfolding Ends
Ends-any (ok a, r) = tt
Ends-any (err e, r) = tt
