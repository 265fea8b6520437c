-- ===== src/Api/Memory.antt =====
-- The methods that the handlers call, on the store of crates/nclav-store/src/memory.rs.
use nclav.Base.{ok, err}
use nclav.Store.{Json}
use nclav.Store.Memory.{
  Inner, get_enclave, list_enclaves, upsert_enclave, delete_enclave, delete_partition, append_event,
  list_events, get_tf_state, put_tf_state, delete_tf_state, lock_tf_state, unlock_tf_state,
  upsert_iac_run, list_iac_runs, get_iac_run,
}
use nclav.Api.{ApiStore}

abbrev pub memory_store : {V : Type 0} → Json V → ApiStore V (Inner V)
memory_store j = record {
  state_store = record {
    list_enclaves = λ s. ok (list_enclaves s);
    get_enclave = λ id s. ok (get_enclave id s);
    upsert_enclave = λ state s. (ok tt, upsert_enclave state s);
    delete_enclave = λ id s. (ok tt, delete_enclave id s);
    append_event = λ event s. (ok tt, append_event event s);
  };
  delete_partition = λ enc part s. (ok tt, delete_partition enc part s);
  list_events = λ id limit s. ok (list_events id limit s);
  get_tf_state = λ key s. ok (get_tf_state key s);
  put_tf_state = λ key bytes s. (ok tt, put_tf_state key bytes s);
  delete_tf_state = λ key s. (ok tt, delete_tf_state key s);
  lock_tf_state =
      λ key info s. elim (lock_tf_state key info s) [ ok s' ↦ (ok tt, s') | err e ↦ (err e, s) ];
  unlock_tf_state = λ key id s. (ok tt, unlock_tf_state j key id s);
  upsert_iac_run = λ run s. (ok tt, upsert_iac_run run s);
  list_iac_runs = λ enc part s. ok (list_iac_runs enc part s);
  get_iac_run = λ id s. ok (get_iac_run id s);
}
