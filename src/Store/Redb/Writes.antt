-- ===== src/Store/Redb/Writes.antt =====
-- The writes of crates/nclav-store/src/redb_store.rs against those of `InMemoryStore`, where the tables
-- hold what the maps do.
use nclav.Base.Effects.{pure, throw}
use nclav.Base.{
  ◌≡◌, refl, ap, String, Bool, true, false, ◌||◌, Option, none, some, get, insert, remove,
  get-insert, get-remove, ◌==◌, inl, inr, string_eq, Result, ok, if◌then◌else◌, Bool-cases, arith,
}
use nclav.Domain.{EnclaveId}
use nclav.Store.Value.{Json}
use nclav.Store.State.{EnclaveState, StoreError}
use nclav.Store.Memory.{Inner, held_id}
use nclav.Store.Memory
use nclav.Store.Memory.Locks.{lock_busy, lock_free}
use nclav.Store.Redb.Refinement.{After}
use nclav.Store.Redb.{Bytes, Serde, Tables, Disk, DiskLaws, Txn, change}
use nclav.Store.Redb.Enclaves.{upsert_enclave, delete_enclave}
use nclav.Store.Redb.TfState.{
  put_tf_state, delete_tf_state, lock_in, lock_tf_state, unlock_in, unlock_tf_state,
}
use nclav.Store.Redb.Represents.{
  RoundTrip, Represents, Refines, Bad, Done, Holds-insert, Holds-remove, atomic, next, last,
  encoded, encoded_before, after_read_lock,
}

module _ {V W : Type 0} (sd : Serde V) (disk : Disk W) (laws : DiskLaws disk) (t : Tables)
    (s : Inner V) (rep : Represents sd t s) where
  put_tf_state-Refines :
      (key : String) (state : Bytes) (w : W)
      → Refines sd disk
          (ok (Memory.put_tf_state key state s))
          t
          (put_tf_state sd disk key state (t, w))
  unfolding put_tf_state Memory.put_tf_state
  put_tf_state-Refines key state w = atomic sd disk _ laws _ t w (λ v. next sd disk _ _ _ t v (λ x.
      last sd disk _ _ t x (
        _,
        (
          refl,
          record {
            enclaves = rep.enclaves;
            tf_state = λ j. elim (Bool-cases (key == j)) [
              | inl y ↦ simp (laws.get-insert, get-insert, y)
              | inr n ↦ simp (laws.get-insert, get-insert, n, rep.tf_state j)
            ];
            tf_locks = rep.tf_locks;
          },
        ),
      )))

  delete_tf_state-Refines :
      (key : String) (w : W)
      → Refines sd disk (ok (Memory.delete_tf_state key s)) t (delete_tf_state sd disk key (t, w))
  unfolding delete_tf_state Memory.delete_tf_state
  delete_tf_state-Refines key w = atomic sd disk _ laws _ t w (λ v. next sd disk _ _ _ t v (λ x.
      next sd disk _ _ _ t x (λ y. next sd disk _ _ _ _ y (λ z. last sd disk _ _ _ z (
        _,
        (
          refl,
          record {
            enclaves = rep.enclaves;
            tf_state = λ j. elim (Bool-cases (key == j)) [
              | inl y ↦ simp (laws.get-remove, get-remove, y)
              | inr n ↦ simp (laws.get-remove, get-remove, n, rep.tf_state j)
            ];
            tf_locks = Holds-remove disk laws _ _ _ key rep.tf_locks;
          },
        ),
      )))))

  delete_enclave-Refines :
      (id : EnclaveId) (w : W)
      → Refines sd disk (ok (Memory.delete_enclave id s)) t (delete_enclave sd disk id (t, w))
  unfolding delete_enclave Memory.delete_enclave
  delete_enclave-Refines id w = atomic sd disk _ laws _ t w (λ v. next sd disk _ _ _ t v (λ x.
      last sd disk _ _ t x (
        _,
        (
          refl,
          record {
            enclaves = Holds-remove disk laws _ _ _ id rep.enclaves;
            tf_state = rep.tf_state;
            tf_locks = rep.tf_locks;
          },
        ),
      )))

-- The memory's unlock, by what the map has.
module _ {V : Type 0} (key : String) (s : Inner V) where
  unlock_tf_state-none :
      (j : Json V) (lock_id : String)
      → get key s.tf_locks ≡ none
      → Memory.unlock_tf_state j key lock_id s ≡ s
  unfolding Memory.unlock_tf_state
  unlock_tf_state-none j lock_id h = ground arith

  unlock_tf_state-some :
      (j : Json V) (lock_id : String) (a : V)
      → get key s.tf_locks ≡ some a
      → Memory.unlock_tf_state j key lock_id s ≡ (
          if lock_id == "" || held_id j a == lock_id
          then record s { tf_locks = remove key s.tf_locks }
          else s)
  unfolding Memory.unlock_tf_state
  unlock_tf_state-some j lock_id a h = ground arith

module _ {V W : Type 0} (sd : Serde V) (disk : Disk W) (laws : DiskLaws disk)
    (state_law : RoundTrip sd.state_to_vec sd.state_from_slice)
    (value_law : RoundTrip sd.value_to_vec sd.value_from_slice) (t : Tables) (s : Inner V)
    (rep : Represents sd t s) where
  upsert_enclave-Refines :
      (state : EnclaveState V) (w : W)
      → Refines sd disk (ok (Memory.upsert_enclave state s)) t (upsert_enclave sd disk state (t, w))
  unfolding upsert_enclave Memory.upsert_enclave
  upsert_enclave-Refines state w = encoded_before sd disk _ _ _ t w (λ b e.
      atomic sd disk _ laws _ t w (λ v. next sd disk _ _ _ t v (λ x. last sd disk _ _ t x (
        _,
        (
          refl,
          record {
            enclaves =
                Holds-insert disk laws _ _ _ state.desired.id state b (state_law state b e)
                  rep.enclaves;
            tf_state = rep.tf_state;
            tf_locks = rep.tf_locks;
          },
        ),
      ))))

  lock_in-After :
      (key : String) (lock_info : V) (o : Option V) (w : W)
      → get key s.tf_locks ≡ o
      → let spec = Memory.lock_tf_state key lock_info s in
        After
          (Bad sd disk spec)
          (Done sd disk spec)
          (lock_in sd disk key lock_info o (t, w)).0
          (lock_in sd disk key lock_info o (t, w)).1
  unfolding lock_in throw
  lock_in-After key lock_info (some a) w h = inr (lock_busy key a lock_info s h)
  lock_in-After key lock_info none w h = encoded sd disk _ _ _ t w (λ b e. last sd disk _ _ t w (
    record s { tf_locks = insert key lock_info s.tf_locks },
    (
      lock_free key lock_info s h,
      record {
        enclaves = rep.enclaves;
        tf_state = rep.tf_state;
        tf_locks =
            Holds-insert disk laws _ _ _ key lock_info b (value_law lock_info b e) rep.tf_locks;
      },
    ),
  ))

  lock_tf_state-Refines :
      (key : String) (lock_info : V) (w : W)
      → Refines sd disk
          (Memory.lock_tf_state key lock_info s)
          t
          (lock_tf_state sd disk key lock_info (t, w))
  unfolding lock_tf_state
  lock_tf_state-Refines key lock_info w =
      atomic sd disk _ laws _ t w
        (λ v. after_read_lock sd disk _ _ key t s v rep (λ x. lock_in-After key lock_info _ x refl))

  unlock_in-After :
      (j : Json V) (key lock_id : String) (o : Option V) (w : W)
      → get key s.tf_locks ≡ o
      → let spec = ok (Memory.unlock_tf_state j key lock_id s) in
        After
          (Bad sd disk spec)
          (Done sd disk spec)
          (unlock_in sd disk j key lock_id o (t, w)).0
          (unlock_in sd disk j key lock_id o (t, w)).1
  unfolding unlock_in pure
  unlock_in-After j key lock_id none w h =
      (s, (ap ok (unlock_tf_state-none key s j lock_id h), rep))
  unlock_in-After j key lock_id (some a) w h =
      choose (lock_id == "" || held_id j a == lock_id) (unlock_tf_state-some key s j lock_id a h)
    where
      choose :
          (b : Bool)
          → Memory.unlock_tf_state j key lock_id s
            ≡ (if b then record s { tf_locks = remove key s.tf_locks } else s)
          → let spec = ok (Memory.unlock_tf_state j key lock_id s) in
            let run =
              if b
              then change {V = V} disk (λ u. record u { tf_locks = disk.remove key u.tf_locks })
              else pure tt in
            After (Bad sd disk spec) (Done sd disk spec) (run (t, w)).0 (run (t, w)).1
      choose true e = last sd disk _ _ t w (
        record s { tf_locks = remove key s.tf_locks },
        (
          ap ok e,
          record {
            enclaves = rep.enclaves;
            tf_state = rep.tf_state;
            tf_locks = Holds-remove disk laws _ _ _ key rep.tf_locks;
          },
        ),
      )
      choose false e = (s, (ap ok e, rep))

  unlock_tf_state-Refines :
      (j : Json V) (key lock_id : String) (w : W)
      → Refines sd disk
          (ok (Memory.unlock_tf_state j key lock_id s))
          t
          (unlock_tf_state sd disk j key lock_id (t, w))
  unfolding unlock_tf_state
  unlock_tf_state-Refines j key lock_id w =
      atomic sd disk _ laws _ t w (λ v.
        after_read_lock sd disk _ _ key t s v rep (λ x. unlock_in-After j key lock_id _ x refl))

-- A write of the store.
pub data Write (V : Type 0) : Type 0 where
  to_enclave : EnclaveState V → Write V
  no_enclave : EnclaveId → Write V
  to_tf_state : (key : String) (state : Bytes) → Write V
  no_tf_state : (key : String) → Write V
  lock : (key : String) (lock_info : V) → Write V
  unlock : (key lock_id : String) → Write V

abbrev pub in_memory : {V : Type 0} → Json V → Write V → Inner V → Result (StoreError V) (Inner V)
in_memory j (to_enclave state) s = ok (Memory.upsert_enclave state s)
in_memory j (no_enclave id) s = ok (Memory.delete_enclave id s)
in_memory j (to_tf_state key state) s = ok (Memory.put_tf_state key state s)
in_memory j (no_tf_state key) s = ok (Memory.delete_tf_state key s)
in_memory j (lock key lock_info) s = Memory.lock_tf_state key lock_info s
in_memory j (unlock key lock_id) s = ok (Memory.unlock_tf_state j key lock_id s)

abbrev pub on_disk : {V W : Type 0} → Serde V → Disk W → Json V → Write V → Txn V W (Unit {0})
on_disk sd disk j (to_enclave state) = upsert_enclave sd disk state
on_disk sd disk j (no_enclave id) = delete_enclave sd disk id
on_disk sd disk j (to_tf_state key state) = put_tf_state sd disk key state
on_disk sd disk j (no_tf_state key) = delete_tf_state sd disk key
on_disk sd disk j (lock key lock_info) = lock_tf_state sd disk key lock_info
on_disk sd disk j (unlock key lock_id) = unlock_tf_state sd disk j key lock_id

-- Where redb keeps its laws, the codec reads back what it wrote, and the tables hold what the maps of the memory
-- store do: each write of an enclave, of a Terraform state or of its lock ends in one of three ways, whichever
-- call of the disk fails. It succeeds as the memory store does, and the new tables hold what its new maps do;
-- or it is refused with the error of the memory store; or it fails with an error that the disk gave, or one of
-- the codec. In the last two ways the tables are as they were.
pub write-Refines :
    {V W : Type 0} (sd : Serde V) (disk : Disk W) (j : Json V)
    → DiskLaws disk
    → RoundTrip sd.state_to_vec sd.state_from_slice
    → RoundTrip sd.value_to_vec sd.value_from_slice
    → (r : Write V) (t : Tables) (s : Inner V) (w : W) → Represents sd t s
    → Refines sd disk (in_memory j r s) t (on_disk sd disk j r (t, w))
write-Refines sd disk j laws sl vl (to_enclave state) t s w rep =
    upsert_enclave-Refines sd disk laws sl vl t s rep state w
write-Refines sd disk j laws sl vl (no_enclave id) t s w rep =
    delete_enclave-Refines sd disk laws t s rep id w
write-Refines sd disk j laws sl vl (to_tf_state key state) t s w rep =
    put_tf_state-Refines sd disk laws t s rep key state w
write-Refines sd disk j laws sl vl (no_tf_state key) t s w rep =
    delete_tf_state-Refines sd disk laws t s rep key w
write-Refines sd disk j laws sl vl (lock key info) t s w rep =
    lock_tf_state-Refines sd disk laws sl vl t s rep key info w
write-Refines sd disk j laws sl vl (unlock key id) t s w rep =
    unlock_tf_state-Refines sd disk laws sl vl t s rep j key id w
