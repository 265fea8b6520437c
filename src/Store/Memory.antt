-- ===== src/Store/Memory.antt =====
-- crates/nclav-store/src/memory.rs: `InMemoryStore`. Each method is a function of the guarded `Inner`;
-- a method that writes returns the new one. The lock is held for a whole method, so a concurrent
-- history of calls is a sequence of them.
pub mod Locks
pub mod Events
pub mod Runs
use nclav.Base.{
  ℕ, ◌-◌, String, Bool, true, false, ◌&&◌, ◌||◌, Option, none, some, unwrap_or, is_some_and, List,
  [], ◌∷◌, ◌++◌, map, Map, get, insert, remove, filter, length, drop, take, ltb, Result, ok, err,
  if◌then◌else◌, ◌==◌, string_eq, nat_eq,
}
use nclav.Domain.{EnclaveId, PartitionId}
use nclav.Store.Value.{Json}
use nclav.Store.State.{
  EnclaveState, PartitionState, AuditEvent, event_enclave_id, IacRun, StoreError, enclave_not_found,
  lock_conflict,
}

pub record Inner (V : Type 0) : Type 0 where
  pub enclaves : Map EnclaveId (EnclaveState V)
  pub events : List AuditEvent
  pub tf_state : Map String (List ℕ)
  pub tf_locks : Map String V
  pub iac_runs : Map ℕ IacRun

-- `values().cloned().collect()`
abbrev pub values : {K : Type 0} {A : Type 0} → Map K A → List A
values m = map (λ p. p.1) m

-- The stable `sort_by` that puts later `started_at` first: an element goes behind those that are at
-- least as late.
unfoldable pub insert_run : IacRun → List IacRun → List IacRun
insert_run r [] = r ∷ []
insert_run r (q ∷ rs) = if ltb r.started_at q.started_at then q ∷ insert_run r rs else r ∷ q ∷ rs

unfoldable pub sort_runs : List IacRun → List IacRun
unfolding insert_run
sort_runs [] = []
sort_runs (r ∷ rs) = insert_run r (sort_runs rs)

-- The test of `filter` in `list_events`.
unfoldable pub concerns : Option EnclaveId → AuditEvent → Bool
unfolding event_enclave_id
concerns none ev = true
concerns (some eid) ev = is_some_and (event_enclave_id ev) (λ id. id == eid)

module _ {V : Type 0} where
  abbrev pub new_store : Inner V
  new_store = record { enclaves = []; events = []; tf_state = []; tf_locks = []; iac_runs = [] }

  unfoldable pub get_enclave : EnclaveId → Inner V → Option (EnclaveState V)
  unfolding get
  get_enclave id s = get id s.enclaves

  unfoldable pub list_enclaves : Inner V → List (EnclaveState V)
  list_enclaves s = values s.enclaves

  unfoldable pub upsert_enclave : EnclaveState V → Inner V → Inner V
  unfolding insert
  upsert_enclave state s = record s { enclaves = insert state.desired.id state s.enclaves }

  unfoldable pub delete_enclave : EnclaveId → Inner V → Inner V
  unfolding remove
  delete_enclave id s = record s { enclaves = remove id s.enclaves }

  unfoldable pub upsert_partition :
      EnclaveId → PartitionState V → Inner V → Result (StoreError V) (Inner V)
  unfolding get insert
  upsert_partition enclave_id state s = elim (get enclave_id s.enclaves) [
    | none ↦ err (enclave_not_found enclave_id)
    | some enc ↦ ok (record s {
      enclaves =
          insert enclave_id
            (record enc { partitions = insert state.desired.id state enc.partitions }) s.enclaves;
    })
  ]

  unfoldable pub delete_partition : EnclaveId → PartitionId → Inner V → Inner V
  unfolding get insert remove
  delete_partition enclave_id partition_id s = elim (get enclave_id s.enclaves) [
    | none ↦ s
    | some enc ↦ record s {
      enclaves =
          insert enclave_id (record enc { partitions = remove partition_id enc.partitions })
            s.enclaves;
    }
  ]

  unfoldable pub append_event : AuditEvent → Inner V → Inner V
  append_event event s = record s { events = s.events ++ event ∷ [] }

  unfoldable pub list_events : Option EnclaveId → ℕ → Inner V → List AuditEvent
  unfolding filter concerns
  list_events enclave_id limit s =
      let filtered = filter (concerns enclave_id) s.events in
      drop (length filtered - limit) filtered

  unfoldable pub get_tf_state : String → Inner V → Option (List ℕ)
  unfolding get
  get_tf_state key s = get key s.tf_state

  unfoldable pub put_tf_state : String → List ℕ → Inner V → Inner V
  unfolding insert
  put_tf_state key state s = record s { tf_state = insert key state s.tf_state }

  unfoldable pub delete_tf_state : String → Inner V → Inner V
  unfolding remove
  delete_tf_state key s = record s {
    tf_state = remove key s.tf_state;
    tf_locks = remove key s.tf_locks;
  }

  unfoldable pub lock_tf_state : String → V → Inner V → Result (StoreError V) (Inner V)
  unfolding get insert
  lock_tf_state key lock_info s = elim (get key s.tf_locks) [
    | some existing ↦ err (lock_conflict existing)
    | none ↦ ok (record s { tf_locks = insert key lock_info s.tf_locks })
  ]

  -- The identifier of a stored lock, `existing["ID"].as_str().unwrap_or("")`.
  unfoldable pub held_id : Json V → V → String
  held_id j existing = unwrap_or (j.as_str (j.index existing "ID")) ""

  unfoldable pub unlock_tf_state : Json V → String → String → Inner V → Inner V
  unfolding get remove held_id
  unlock_tf_state j key lock_id s = elim (get key s.tf_locks) [
    | none ↦ s
    | some existing ↦
        if lock_id == "" || held_id j existing == lock_id
        then record s { tf_locks = remove key s.tf_locks }
        else s
  ]

  unfoldable pub upsert_iac_run : IacRun → Inner V → Inner V
  unfolding insert
  upsert_iac_run run s = record s { iac_runs = insert run.id run s.iac_runs }

  unfoldable pub list_iac_runs : EnclaveId → PartitionId → Inner V → List IacRun
  unfolding filter sort_runs
  list_iac_runs enclave_id partition_id s = take 100 (
      sort_runs (
        filter (λ r. r.enclave_id == enclave_id && r.partition_id == partition_id)
          (values s.iac_runs)))

  unfoldable pub get_iac_run : ℕ → Inner V → Option IacRun
  unfolding get
  get_iac_run run_id s = get run_id s.iac_runs
