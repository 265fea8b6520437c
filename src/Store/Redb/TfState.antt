-- ===== src/Store/Redb/TfState.antt =====
-- The methods of `RedbStore` for the Terraform states and their locks, in crates/nclav-store/src/redb_store.rs.
use nclav.Base.Effects.{pure, throw, ◌>>=◌, ◌>>◌}
use nclav.Base.{String, ◌||◌, Option, none, some, get, ◌==◌, string_eq, nat_eq, if◌then◌else◌}
use nclav.Store.Value.{Json}
use nclav.Store.State.{lock_conflict}
use nclav.Store.Memory.{held_id}
use nclav.Store.Redb.{Bytes, Serde, Disk, Txn, touch, look, change, write_txn, serde, decode_option}

module _ {V W : Type 0} (sd : Serde V) (disk : Disk W) where
  unfoldable pub get_tf_state : String → Txn V W (Option Bytes)
  unfolding get
  get_tf_state key = do touch disk; touch disk; look disk (λ t. get key t.tf_state)

  unfoldable pub put_tf_state : String → Bytes → Txn V W (Unit {0})
  unfolding write_txn
  put_tf_state key state =
      write_txn disk
        (do touch disk; change disk (λ t. record t { tf_state = disk.insert key state t.tf_state }))

  unfoldable pub delete_tf_state : String → Txn V W (Unit {0})
  unfolding write_txn
  delete_tf_state key = write_txn disk (do
    touch disk
    change disk (λ t. record t { tf_state = disk.remove key t.tf_state })
    touch disk
    change disk (λ t. record t { tf_locks = disk.remove key t.tf_locks }))

  -- The body of `lock_tf_state`, after the reading of the table.
  unfoldable pub lock_in : String → V → Option V → Txn V W (Unit {0})
  unfolding serde
  lock_in key lock_info (some existing) = throw (lock_conflict existing)
  lock_in key lock_info none = do
    bytes ← serde (sd.value_to_vec lock_info)
    change disk (λ t. record t { tf_locks = disk.insert key bytes t.tf_locks })

  unfoldable pub read_lock : String → Txn V W (Option V)
  unfolding get decode_option
  read_lock key = do
    touch disk
    existing_bytes ← look disk (λ t. get key t.tf_locks)
    decode_option sd.value_from_slice existing_bytes

  unfoldable pub lock_tf_state : String → V → Txn V W (Unit {0})
  unfolding write_txn
  lock_tf_state key lock_info = write_txn disk (read_lock key >>= lock_in key lock_info)

  unfoldable pub unlock_in : Json V → String → String → Option V → Txn V W (Unit {0})
  unfolding held_id
  unlock_in j key lock_id none = pure tt
  unlock_in j key lock_id (some existing) =
      if lock_id == "" || held_id j existing == lock_id
      then change disk (λ t. record t { tf_locks = disk.remove key t.tf_locks })
      else pure tt

  unfoldable pub unlock_tf_state : Json V → String → String → Txn V W (Unit {0})
  unfolding write_txn
  unlock_tf_state j key lock_id = write_txn disk (read_lock key >>= unlock_in j key lock_id)
