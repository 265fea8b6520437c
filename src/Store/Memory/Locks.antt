-- ===== src/Store/Memory/Locks.antt =====
-- The lock protocol of the Terraform state backend, as methods of crates/nclav-store/src/memory.rs.
use nclav.Base.{
  ℕ, String, ◌≡◌, ◌≢◌, refl, ap, true, false, Bool-cases, ◌||◌, inl, inr, ◌⊎◌, none, some, List, [],
  ◌∷◌, All, get, insert, remove, get-insert, get-remove, get-insert_self, Result, ok, err, ◌==◌,
  ==_iff, string_eq, arith,
}
use nclav.Store.Value.{Json}
use nclav.Store.State.{StoreError, lock_conflict}
use nclav.Store.Memory.{
  Inner, put_tf_state, delete_tf_state, lock_tf_state, unlock_tf_state, held_id,
}

-- The requests that concern the state of a key, from any client.
pub data Request (V : Type 0) : Type 0 where
  lock : (key : String) (lock_info : V) → Request V
  unlock : (key lock_id : String) → Request V
  put : (key : String) (state : List ℕ) → Request V
  delete : (key : String) → Request V

abbrev pub or_unchanged : {V : Type 0} → Result (StoreError V) (Inner V) → Inner V → Inner V
or_unchanged (ok t) s = t
or_unchanged (err e) s = s

module _ {V : Type 0} where
  pub lock_busy :
      (key : String) (holder info : V) (s : Inner V)
      → get key s.tf_locks ≡ some holder
      → lock_tf_state key info s ≡ err (lock_conflict holder)
  unfolding lock_tf_state
  lock_busy key holder info s h = ground arith

  pub lock_free :
      (key : String) (info : V) (s : Inner V)
      → get key s.tf_locks ≡ none
      → lock_tf_state key info s ≡ ok (record s { tf_locks = insert key info s.tf_locks })
  unfolding lock_tf_state
  lock_free key info s h = ground arith

module _ {V : Type 0} (j : Json V) where
  unfoldable pub serve : Request V → Inner V → Inner V
  serve (lock key info) s = or_unchanged (lock_tf_state key info s) s
  serve (unlock key id) s = unlock_tf_state j key id s
  serve (put key state) s = put_tf_state key state s
  serve (delete key) s = delete_tf_state key s

  unfoldable pub serve_all : List (Request V) → Inner V → Inner V
  unfolding serve
  serve_all [] s = s
  serve_all (r ∷ rs) s = serve_all rs (serve r s)

  -- The requests that free a lock of `key` held with `holder`: an unlock with its identifier or with
  -- the empty one, and the deletion of the state.
  abbrev pub Frees : String → V → Request V → Type 0
  Frees key holder (lock k info) = ⊥
  Frees key holder (unlock k id) = (k ≡ key) × ((id ≡ "") ⊎ (held_id j holder ≡ id))
  Frees key holder (put k state) = ⊥
  Frees key holder (delete k) = k ≡ key

  lock-eq-ok :
      (key : String) (info : V) (s t : Inner V)
      → lock_tf_state key info s ≡ ok t
      → (get key s.tf_locks ≡ none) × (t.tf_locks ≡ insert key info s.tf_locks)
  unfolding lock_tf_state
  lock-eq-ok key info s t h = ground arith

  unlock_granted :
      (key id : String) (holder : V) (s : Inner V)
      → get key s.tf_locks ≡ some holder
      → (id == "" || held_id j holder == id) ≡ true
      → unlock_tf_state j key id s ≡ record s { tf_locks = remove key s.tf_locks }
  unfolding unlock_tf_state
  unlock_granted key id holder s h may = ground arith

  unlock_refused :
      (key id : String) (holder : V) (s : Inner V)
      → get key s.tf_locks ≡ some holder
      → (id == "" || held_id j holder == id) ≡ false
      → get key (unlock_tf_state j key id s).tf_locks ≡ some holder
  unfolding unlock_tf_state
  unlock_refused key id holder s h may = ground arith

  serve-holder :
      (key : String) (holder : V) (r : Request V) (s : Inner V)
      → get key s.tf_locks ≡ some holder
      → ¬ Frees key holder r
      → get key (serve r s).tf_locks ≡ some holder
  unfolding serve lock_tf_state unlock_tf_state put_tf_state delete_tf_state
  serve-holder key holder (lock k info) s h free =
      ground (arith, get-insert k key info s.tf_locks, ==_iff k key)
  serve-holder key holder (unlock k id) s h free = elim (Bool-cases (k == key)) [
    | inl e ↦
        let same : k ≡ key = (==_iff k key).0 e in
        let kept : (id == "" || held_id j holder == id) ≡ false =
          ground (arith, free, ==_iff id "", ==_iff (held_id j holder) id) in
        rw same (unlock_refused key id holder s h kept)
    | inr e ↦ ground (arith, get-remove k key s.tf_locks)
  ]
  serve-holder key holder (put k state) s h free = h
  serve-holder key holder (delete k) s h free =
      ground (arith, get-remove k key s.tf_locks, ==_iff k key)

  -- While a key is locked, whatever the clients request: until a request frees it, the holder stays
  -- the same, and every attempt to lock the key fails, names the holder and changes nothing.
  pub lock-serve_all :
      (key : String) (holder info : V) (rs : List (Request V)) (s : Inner V)
      → get key s.tf_locks ≡ some holder
      → All (λ r. ¬ Frees key holder r) rs
      → (get key (serve_all rs s).tf_locks ≡ some holder)
        × (lock_tf_state key info (serve_all rs s) ≡ err (lock_conflict holder))
        × (serve (lock key info) (serve_all rs s) ≡ serve_all rs s)
  unfolding serve_all lock_tf_state serve
  lock-serve_all key holder info [] s h free =
      let busy = lock_busy key holder info s h in (h, busy, rw busy refl)
  lock-serve_all key holder info (r ∷ rs) s h free =
      lock-serve_all key holder info rs (serve r s) (serve-holder key holder r s h free.0) free.1

  -- A lock that was taken is freed by its own identifier: after the unlock the key has no lock, the
  -- next client gets it, and the locks of the other keys are what they were before.
  pub unlock-lock :
      (key : String) (info next : V) (s t : Inner V)
      → lock_tf_state key info s ≡ ok t
      → (get key (unlock_tf_state j key (held_id j info) t).tf_locks ≡ none)
        × ((u : Inner V) × (lock_tf_state key next (unlock_tf_state j key (held_id j info) t)
              ≡ ok u)
            × (get key u.tf_locks ≡ some next))
        × ((k : String)
            → key ≢ k
            → get k (unlock_tf_state j key (held_id j info) t).tf_locks ≡ get k s.tf_locks)
  unlock-lock key info next s t h =
      let (absent, taken) = lock-eq-ok key info s t h in
      let held : get key t.tf_locks ≡ some info = rw taken (get-insert_self key info s.tf_locks) in
      let freed = unlock_tf_state j key (held_id j info) t in
      let own : (held_id j info == "" || held_id j info == held_id j info) ≡ true =
        ground (arith, ==_iff (held_id j info) (held_id j info)) in
      let unlocked : freed.tf_locks ≡ remove key t.tf_locks =
        ap (λ (x : Inner V). x.tf_locks) (unlock_granted key (held_id j info) info t held own) in
      let gone : get key freed.tf_locks ≡ none =
        rw unlocked (ground (arith, get-remove key key t.tf_locks, ==_iff key key)) in
      (
        gone,
        (
          record freed { tf_locks = insert key next freed.tf_locks },
          lock_free key next freed gone,
          get-insert_self key next freed.tf_locks,
        ),
        λ k other.
            rw (unlocked, taken)
              (ground (
                arith,
                get-remove key k (insert key info s.tf_locks),
                get-insert key k info s.tf_locks,
                ==_iff key k,
              )),
      )

  -- An unlock with another identifier, neither empty nor the holder's, changes nothing.
  pub unlock_foreign :
      (key id : String) (holder : V) (s : Inner V)
      → get key s.tf_locks ≡ some holder
      → id ≢ ""
      → held_id j holder ≢ id
      → unlock_tf_state j key id s ≡ s
  unfolding unlock_tf_state
  unlock_foreign key id holder s h not_empty other =
      ground (arith, ==_iff id "", ==_iff (held_id j holder) id)
