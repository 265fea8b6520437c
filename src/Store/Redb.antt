-- ===== src/Store/Redb.antt =====
-- crates/nclav-store/src/redb_store.rs: `RedbStore`. A redb table is a map; a read lists it in the order of
-- the map. Each call of redb may fail, as the `Disk` says. A `Uuid` is shown by the parameter of `Serde`.
pub mod Enclaves
pub mod TfState
pub mod Logs
pub mod Refinement
pub mod Represents
pub mod Writes
use nclav.Base.Effects.{Eff, pure, throw, ◌>>=◌, ◌>>◌, lift, for_fold}
use nclav.Base.Order.{str_leb}
use nclav.Base.Texts.{starts_with}
use nclav.Base.{
  ◌≡◌, get, if◌then◌else◌, ◌==◌, ◌≡◌, ℕ, ◌+◌, ◌-◌, ◌%◌, ◌^◌, String, ◌<>◌, Bool, true, false, ◌||◌,
  ◌&&◌, is_none, Option, none, some, unwrap_or, map_option, List, [], ◌∷◌, ◌++◌, map, filter,
  length, drop, take, Map, get, insert, remove, Eq, ◌==◌, string_eq, nat_eq, leb, Result, ok, err,
  map_err, collect, if◌then◌else◌,
}
use mathlib.Core.List.{reverse}
use nclav.Domain.{EnclaveId, PartitionId}
use nclav.Store.Value.{Json}
use nclav.Store.State.{
  EnclaveState, PartitionState, AuditEvent, IacRun, StoreError, enclave_not_found, serialization,
  internal, lock_conflict,
}
use nclav.Store.Memory.{concerns, held_id}

abbrev pub Bytes : Type 0
Bytes = List ℕ

-- `to_vec` and `from_slice` of serde_json, with an error's text, and the texts of the keys.
pub record Serde (V : Type 0) : Type 0 where
  pub state_to_vec : EnclaveState V → Result String Bytes
  pub state_from_slice : Bytes → Result String (EnclaveState V)
  pub event_to_vec : AuditEvent → Result String Bytes
  pub event_from_slice : Bytes → Result String AuditEvent
  pub value_to_vec : V → Result String Bytes
  pub value_from_slice : Bytes → Result String V
  pub run_to_vec : IacRun → Result String Bytes
  pub run_from_slice : Bytes → Result String IacRun
  pub uuid_text : ℕ → String
  pub rfc3339 : ℕ → String

-- The tables of the constants at the head of the file.
pub record Tables : Type 0 where
  pub enclaves : Map String Bytes
  pub events : Map ℕ Bytes
  pub meta : Map String ℕ
  pub tf_state : Map String Bytes
  pub tf_locks : Map String Bytes
  pub iac_runs : Map String Bytes
  pub iac_runs_by_part : Map String String

-- What the code uses of the crate redb, on a disk `W`.
pub record Disk (W : Type 0) : Type 1 where
  -- whether the next call fails, and with which error
  pub fault : W → Option String × W
  -- `table.insert(k, v)` and `table.remove(k)`
  pub insert : {K A : Type 0} ⦃e : Eq K⦄ → K → A → Map K A → Map K A
  pub remove : {K A : Type 0} ⦃e : Eq K⦄ → K → Map K A → Map K A
  -- the tables after a write transaction that does not commit: from those before it and those in it
  pub dropped : (before during : Tables) → Tables

-- The documented behaviour of redb: a table is a map, and a transaction that is dropped without a commit is
-- undone.
pub record DiskLaws {W : Type 0} (disk : Disk W) : Type 1 where
  pub get-insert :
      {K A : Type 0} ⦃e : Eq K⦄ (k j : K) (v : A) (m : Map K A)
      → get j (disk.insert k v m) ≡ (if k == j then some v else get j m)
  pub get-remove :
      {K A : Type 0} ⦃e : Eq K⦄ (k j : K) (m : Map K A)
      → get j (disk.remove k m) ≡ (if k == j then none else get j m)
  pub dropped-before : (before during : Tables) → disk.dropped before during ≡ before

abbrev pub Txn : Type 0 → Type 0 → Type 0 → Type 0
Txn V W A = Eff (StoreError V) (Tables × W) A

module _ {V W : Type 0} (disk : Disk W) where
  unfoldable pub answered :
      {A : Type 0}
      → (Tables → A × Tables)
      → Tables
      → Option String × W
      → Result (StoreError V) A × (Tables × W)
  answered f t (some e, w) = (err (internal e), (t, w))
  answered f t (none, w) = let (a, tables) = f t in (ok a, (tables, w))

  -- A call of redb, with `map_err(|e| StoreError::Internal(e.to_string()))?`.
  unfoldable pub call : {A : Type 0} → (Tables → A × Tables) → Txn V W A
  unfolding answered
  call f t = answered f t.0 (disk.fault t.1)

  -- A call that changes no table: `begin_read`, `open_table` and the like.
  abbrev pub touch : Txn V W (Unit {0})
  touch = call (λ t. (tt, t))

  abbrev pub look : {A : Type 0} → (Tables → A) → Txn V W A
  look f = call (λ t. (f t, t))

  abbrev pub change : (Tables → Tables) → Txn V W (Unit {0})
  change f = call (λ t. (tt, f t))

  -- What a write transaction leaves: its tables where it committed, and else what redb makes of it.
  unfoldable pub committed :
      {A : Type 0}
      → Tables
      → Result (StoreError V) A × (Tables × W)
      → Result (StoreError V) A × (Tables × W)
  committed before (ok a, u) = (ok a, u)
  committed before (err e, u) = (err e, (disk.dropped before u.0, u.1))

  -- `begin_write`, a body and `commit`
  unfoldable pub write_txn : {A : Type 0} → Txn V W A → Txn V W A
  unfolding committed
  write_txn body t = committed t.0 ((touch >> (body >>= λ a. touch >> pure a)) t)

-- `serde_json` with its `?`
unfoldable pub serde : {V W A : Type 0} → Result String A → Txn V W A
serde r = lift (map_err serialization r)

-- `guard.map(|g| from_slice(g.value())).transpose()?`
unfoldable pub decode_option :
    {V W A : Type 0} → (Bytes → Result String A) → Option Bytes → Txn V W (Option A)
unfolding serde
decode_option from_slice none = pure none
decode_option from_slice (some bytes) = serde (from_slice bytes) >>= λ a. pure (some a)
