-- ===== src/Api/TfState.antt =====
-- crates/nclav-api/src/handlers.rs: the HTTP state backend of Terraform, which keeps one state and one lock
-- for each partition.
pub mod Separation
use nclav.Base.Effects.{pure, ◌>>◌}
use nclav.Base.{ℕ, String, ◌<>◌, Option, none, some, and_then, unwrap_or, List, Result, ok, err}
use nclav.Domain.{EnclaveId, PartitionId}
use nclav.Store.{Json, StoreError, lock_conflict}
use nclav.Api.{ApiError, ApiStore, Handler, internal_error, store_error_message, write_store}

-- A response: a status alone, with bytes, with a JSON document, or an `ApiError`.
pub data Reply (V : Type 0) : Type 0 where
  status_only : ℕ → Reply V
  bytes : ℕ → List ℕ → Reply V
  json : ℕ → V → Reply V
  failure : ApiError → Reply V

-- `format!("{}/{}", enc, part)`
abbrev pub state_key : EnclaveId → PartitionId → String
state_key enc part = enc <> "/" <> part

unfoldable pub get_reply : {V : Type 0} → Result (StoreError V) (Option (List ℕ)) → Reply V
unfolding store_error_message
get_reply (ok (some state)) = bytes 200 state
get_reply (ok none) = status_only 204
get_reply (err e) = failure (internal_error (store_error_message e))

unfoldable pub lock_reply : {V : Type 0} → Result (StoreError V) (Unit {0}) → Reply V
unfolding store_error_message
lock_reply (ok done) = status_only 200
lock_reply (err (lock_conflict holder)) = json 409 holder
lock_reply (err e) = failure (internal_error (store_error_message e))

-- The identifier in the body of an unlock: empty where the body is no JSON, or has none.
unfoldable pub unlock_id :
    {V : Type 0} → Json V → (from_slice : List ℕ → Option V) → List ℕ → String
unlock_id j from_slice body =
    unwrap_or (and_then (and_then (from_slice body) (λ v. j.get v "ID")) j.as_str) ""

module _ {V S : Type 0} (store : ApiStore V S) where
  unfoldable pub get_tf_state : EnclaveId → PartitionId → S → Reply V
  unfolding get_reply
  get_tf_state enc part s = get_reply (store.get_tf_state (state_key enc part) s)

  unfoldable pub lock_tf_state : EnclaveId → PartitionId → V → S → Reply V × S
  unfolding lock_reply
  lock_tf_state enc part lock_info s =
      let (r, s') = store.lock_tf_state (state_key enc part) lock_info s in (lock_reply r, s')

  module _ {W : Type 0} where
    unfoldable pub put_tf_state : EnclaveId → PartitionId → List ℕ → Handler S W ℕ
    put_tf_state enc part body =
        write_store (store.put_tf_state (state_key enc part) body) >> pure 200

    unfoldable pub delete_tf_state : EnclaveId → PartitionId → Handler S W ℕ
    delete_tf_state enc part = write_store (store.delete_tf_state (state_key enc part)) >> pure 200

    unfoldable pub unlock_tf_state :
        Json V → (from_slice : List ℕ → Option V) → EnclaveId → PartitionId → List ℕ → Handler S W ℕ
    unfolding unlock_id
    unlock_tf_state j from_slice enc part body =
        write_store (store.unlock_tf_state (state_key enc part) (unlock_id j from_slice body))
        >> pure 200
