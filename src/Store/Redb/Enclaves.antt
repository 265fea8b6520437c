-- ===== src/Store/Redb/Enclaves.antt =====
-- The methods of `RedbStore` for enclaves and partitions, in crates/nclav-store/src/redb_store.rs.
use nclav.Base.Effects.{pure, throw, ◌>>=◌, ◌>>◌, for_fold}
use nclav.Base.{
  String, Option, none, some, List, [], ◌∷◌, ◌++◌, get, insert, remove, string_eq, nat_eq,
}
use nclav.Domain.{EnclaveId, PartitionId}
use nclav.Store.State.{EnclaveState, PartitionState, enclave_not_found}
use nclav.Store.Redb.{Bytes, Serde, Disk, Txn, touch, look, change, write_txn, serde, decode_option}

module _ {V W : Type 0} (sd : Serde V) (disk : Disk W) where
  unfoldable pub get_enclave : EnclaveId → Txn V W (Option (EnclaveState V))
  unfolding get decode_option
  get_enclave id = do
    touch disk
    touch disk
    found ← look disk (λ t. get id t.enclaves)
    decode_option sd.state_from_slice found

  -- The body of the loop of `list_enclaves`.
  unfoldable pub push_state :
      String × Bytes → List (EnclaveState V) → Txn V W (List (EnclaveState V))
  unfolding serde
  push_state entry results = do
    touch disk
    state ← serde (sd.state_from_slice entry.1)
    pure (results ++ state ∷ [])

  unfoldable pub list_enclaves : Txn V W (List (EnclaveState V))
  unfolding push_state for_fold
  list_enclaves = do
    touch disk
    touch disk
    entries ← look disk (λ t. t.enclaves)
    for_fold push_state entries []

  unfoldable pub upsert_enclave : EnclaveState V → Txn V W (Unit {0})
  unfolding serde write_txn
  upsert_enclave state = do
    bytes ← serde (sd.state_to_vec state)
    write_txn disk (do
      touch disk
      change disk (λ t. record t { enclaves = disk.insert state.desired.id bytes t.enclaves }))

  unfoldable pub delete_enclave : EnclaveId → Txn V W (Unit {0})
  unfolding write_txn
  delete_enclave id =
      write_txn disk
        (do touch disk; change disk (λ t. record t { enclaves = disk.remove id t.enclaves }))

  -- Each of the two transactions of `upsert_partition` is atomic, not both together.
  unfoldable pub upsert_partition_in :
      EnclaveId → PartitionState V → Option (EnclaveState V) → Txn V W (Unit {0})
  unfolding insert
  upsert_partition_in enclave_id state none = throw (enclave_not_found enclave_id)
  upsert_partition_in enclave_id state (some enc) =
      upsert_enclave (record enc { partitions = insert state.desired.id state enc.partitions })

  unfoldable pub upsert_partition : EnclaveId → PartitionState V → Txn V W (Unit {0})
  upsert_partition enclave_id state =
      get_enclave enclave_id >>= upsert_partition_in enclave_id state

  unfoldable pub delete_partition_in : PartitionId → Option (EnclaveState V) → Txn V W (Unit {0})
  unfolding remove
  delete_partition_in partition_id none = pure tt
  delete_partition_in partition_id (some enc) =
      upsert_enclave (record enc { partitions = remove partition_id enc.partitions })

  unfoldable pub delete_partition : EnclaveId → PartitionId → Txn V W (Unit {0})
  delete_partition enclave_id partition_id =
      get_enclave enclave_id >>= delete_partition_in partition_id
