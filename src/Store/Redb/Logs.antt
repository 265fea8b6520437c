-- ===== src/Store/Redb/Logs.antt =====
-- The methods of `RedbStore` for the audit events and the runs, in crates/nclav-store/src/redb_store.rs.
use nclav.Base.Effects.{pure, ◌>>=◌, ◌>>◌, for_fold}
use nclav.Base.Order.{str_leb}
use nclav.Base.Texts.{starts_with}
use nclav.Base.{
  ℕ, ◌+◌, ◌-◌, ◌%◌, ◌^◌, String, ◌<>◌, Bool, ◌&&◌, is_none, Option, none, some, unwrap_or, List, [],
  ◌∷◌, ◌++◌, filter, length, drop, take, get, string_eq, nat_eq, ok, if◌then◌else◌,
}
use mathlib.Core.List.{reverse}
use nclav.Domain.{EnclaveId, PartitionId}
use nclav.Store.State.{AuditEvent, IacRun}
use nclav.Store.Memory.{concerns}
use nclav.Store.Redb.{Bytes, Serde, Disk, Txn, touch, look, change, write_txn, serde, decode_option}

module _ {V W : Type 0} (sd : Serde V) (disk : Disk W) where
  -- `event_seq` is a `u64`, which wraps in a release build.
  unfoldable pub append_event : AuditEvent → Txn V W (Unit {0})
  unfolding serde get write_txn
  append_event event = do
    bytes ← serde (sd.event_to_vec event)
    write_txn disk (do
      touch disk
      seq ← look disk (λ t. unwrap_or (get "event_seq" t.meta) 0)
      let new_seq = (seq + 1) % 2 ^ 64
      change disk (λ t. record t { meta = disk.insert "event_seq" new_seq t.meta })
      touch disk
      change disk (λ t. record t { events = disk.insert new_seq bytes t.events }))

  -- The body of the loop of `list_events`.
  unfoldable pub push_event :
      Option EnclaveId → ℕ × Bytes → List AuditEvent → Txn V W (List AuditEvent)
  unfolding serde concerns
  push_event enclave_id entry all = do
    touch disk
    event ← serde (sd.event_from_slice entry.1)
    pure (if concerns enclave_id event then all ++ event ∷ [] else all)

  unfoldable pub list_events : Option EnclaveId → ℕ → Txn V W (List AuditEvent)
  unfolding push_event for_fold
  list_events enclave_id limit = do
    touch disk
    touch disk
    entries ← look disk (λ t. t.events)
    all ← for_fold (push_event enclave_id) entries []
    pure (drop (length all - limit) all)

  unfoldable pub index_key : IacRun → String
  index_key run =
      run.enclave_id
      <> "/"
      <> run.partition_id
      <> "/"
      <> sd.rfc3339 run.started_at
      <> "/"
      <> sd.uuid_text run.id

  unfoldable pub upsert_iac_run : IacRun → Txn V W (Unit {0})
  unfolding serde index_key write_txn
  upsert_iac_run run = do
    bytes ← serde (sd.run_to_vec run)
    let run_id = sd.uuid_text run.id
    write_txn disk (do
      touch disk
      change disk (λ t. record t { iac_runs = disk.insert run_id bytes t.iac_runs })
      touch disk
      change disk (λ t. record t {
        iac_runs_by_part = disk.insert (index_key run) run_id t.iac_runs_by_part;
      }))

  -- `entry.ok()`: an entry that cannot be read is left out.
  unfoldable pub readable : Txn V W Bool
  readable t = let (fault, w) = disk.fault t.1 in (ok (is_none fault), (t.0, w))

  -- The `filter_map` of `list_iac_runs`.
  unfoldable pub run_ids : String → String × String → List String → Txn V W (List String)
  unfolding readable starts_with
  run_ids prefix entry ids = do
    good ← readable
    pure (if good && starts_with entry.0 prefix then ids ++ entry.1 ∷ [] else ids)

  -- The body of the last loop of `list_iac_runs`.
  unfoldable pub read_run : String → List IacRun → Txn V W (List IacRun)
  unfolding get decode_option
  read_run id runs = do
    found ← look disk (λ t. get id t.iac_runs)
    run ← decode_option sd.run_from_slice found
    pure (elim run [ none ↦ runs | some r ↦ runs ++ r ∷ [] ])

  unfoldable pub list_iac_runs : EnclaveId → PartitionId → Txn V W (List IacRun)
  unfolding filter run_ids for_fold read_run
  list_iac_runs enclave_id partition_id = do
    touch disk
    touch disk
    touch disk
    let prefix = enclave_id <> "/" <> partition_id <> "/"
    entries ←
        look disk (λ t. filter (λ (e : String × String). str_leb prefix e.0) t.iac_runs_by_part)
    ids ← for_fold (run_ids prefix) entries []
    for_fold read_run (take 100 (reverse ids)) []

  unfoldable pub get_iac_run : ℕ → Txn V W (Option IacRun)
  unfolding get decode_option
  get_iac_run run_id = do
    touch disk
    touch disk
    found ← look disk (λ t. get (sd.uuid_text run_id) t.iac_runs)
    decode_option sd.run_from_slice found
