-- ===== src/Api/Enclaves/Deletion.antt =====
-- The deletions over the store of crates/nclav-store/src/memory.rs, with the Terraform backend that the
-- handlers build.
use nclav.Base.Effects.Rules.{ok-post, Completes-post, Completes, completes}
use nclav.Base.Effects.{pure, ◌>>=◌, lift}
use nclav.Base.{
  String, ◌<>◌, ◌≡◌, refl, ap, ◌∙◌, inl, inr, Option, none, some, unwrap_or, List, Map, get, insert,
  remove, subst, Result, ok, err, map_err, string_eq,
}
use nclav.Domain.{Enclave, EnclaveId, Partition, PartitionId}
use nclav.Store.{EnclaveState, PartitionState, Json}
use nclav.Store.Memory.{
  Inner, upsert_iac_run, delete_enclave as delete_stored,
  delete_partition as delete_stored_partition, get_enclave as get_stored,
}
use nclav.Driver.{Driver, DriverError, driver_error_message}
use nclav.Driver.Registry.{for_cloud}
use nclav.Driver.Terraform.{Host}
use nclav.Driver.Terraform.Recording.InMemory.{
  ByRequests, Rest, rest, TeardownLeaves, teardown-TeardownLeaves,
}
use nclav.Reconcile.Action.{Env}
use nclav.Api.{
  AppState, Failure, Handler, failed, internal_error, read_store, write_store, tf_backend,
  on_backend, or_not_found,
}
use nclav.Api.Memory.{memory_store}
use nclav.Api.Enclaves.{
  Destroyed, DestroyedEnclave, get_enclave, driver_of, cleanup_partition, finish_partition,
  destroy_partition, delete_enclave, remaining, teardown_part, delete_partition,
}

-- The state of the server over the store in memory.
abbrev pub memory_app :
    {V W P : Type 0}
    → Host V (Inner V) W P
    → Json V
    → Env V (Inner V) W
    → (api_base auth_token : String) → AppState V (Inner V) W
memory_app host j env api_base auth_token = record {
  store = memory_store j;
  env = record env {
    state_store = (memory_store j).state_store;
    tf_backend = tf_backend host j (memory_store j) api_base auth_token;
  };
  auth_token = auth_token;
}

-- A success, with some errors listed.
abbrev pub EnclaveAnswer : String → Result Failure DestroyedEnclave → Type 0
EnclaveAnswer destroyed r =
    (errors : List String) × (r ≡ ok (record { destroyed = destroyed; errors = errors }))

-- A success, with some errors and some remaining resources listed.
abbrev pub PartitionAnswer : String → Result Failure Destroyed → Type 0
PartitionAnswer destroyed r =
    (errors : List String) × (remaining_resources : List String) × (r
      ≡ ok (record {
        destroyed = destroyed;
        errors = errors;
        remaining_resources = remaining_resources;
      }))

-- The answer, and the enclaves that are left.
abbrev pub Deleted :
    {V W A : Type 0}
    → (Result Failure A → Type 0)
    → Map EnclaveId (EnclaveState V)
    → Result Failure A × (Inner V × W)
    → Type 0
Deleted Answer enclaves x = Answer x.0 × (x.1.0.enclaves ≡ enclaves)

-- The enclaves after a partition has left its enclave.
abbrev pub without :
    {V : Type 0}
    → EnclaveId
    → PartitionId
    → EnclaveState V
    → Map EnclaveId (EnclaveState V)
    → Map EnclaveId (EnclaveState V)
without enc_id part_id existing enclaves =
    insert enc_id (record existing { partitions = remove part_id existing.partitions }) enclaves

-- What `teardown` leaves has the enclaves of before.
TeardownLeaves-enclaves :
    {V : Type 0} (enclave : Enclave) (partition : Partition) (r : Result DriverError (Unit {0}))
    (before after : Rest V)
    → TeardownLeaves enclave partition none r before after
    → after.enclaves ≡ before.enclaves
TeardownLeaves-enclaves enclave partition (ok done) before after (inl e) =
    ap (λ (x : Rest _). x.enclaves) e
TeardownLeaves-enclaves enclave partition (ok done) before after (inr h) =
    ap (λ (x : Rest _). x.enclaves) h.stored
TeardownLeaves-enclaves enclave partition (err f) before after (code, failing, h) =
    ap (λ (x : Rest _). x.enclaves) h.stored

module _ {V W P : Type 0} (host : Host V (Inner V) W P) (j : Json V) (requests : ByRequests j host)
    (env : Env V (Inner V) W) (api_base auth_token : String) where
  abbrev app : AppState V (Inner V) W
  app = memory_app host j env api_base auth_token

  -- The part that succeeds and keeps the enclaves.
  abbrev Settles : {A : Type 0} → Handler (Inner V) W A → Type 0
  Settles m = Completes Failure (Inner V) W (λ (s : Inner V). s.enclaves) m

  backend-Settles :
      (enclave : Enclave) (partition : Partition) (auth_env : Map String String)
      → Settles (on_backend (app.env.tf_backend.teardown enclave partition auth_env none))
  unfolding on_backend tf_backend upsert_iac_run
  backend-Settles enclave partition auth_env = record {
    result = λ t. (_, refl);
    kept = λ t. TeardownLeaves-enclaves enclave partition _ (rest t.0) _ (
        teardown-TeardownLeaves host j _ (λ run u. refl) enclave partition none requests auth_env t
          refl);
  }

  cleanup-Settles :
      (driver : Driver V W) (desired : Enclave) (part_state : PartitionState V) (prefix : String)
      (handle : Option V) (errors : List String)
      → Settles (cleanup_partition app driver desired part_state prefix handle errors)
  unfolding cleanup_partition
  cleanup-Settles driver desired part_state prefix none errors = search completes
  cleanup-Settles driver desired part_state prefix (some handle) errors = search completes

  teardown_part-Settles :
      (driver : Driver V W) (existing : EnclaveState V) (part_state : PartitionState V)
      → Settles (teardown_part app driver existing part_state)
  unfolding teardown_part
  teardown_part-Settles driver existing part_state =
      search (completes, backend-Settles, cleanup-Settles)

  remaining-Settles :
      (driver : Driver V W) (desired : Enclave) (part_state : PartitionState V) (h : Option V)
      → Settles (remaining app driver desired part_state h)
  unfolding remaining
  remaining-Settles driver desired part_state none = search completes
  remaining-Settles driver desired part_state (some h) = search completes

  get_enclave-stored :
      (id : EnclaveId) (existing : EnclaveState V) (t : Inner V × W)
      → get id t.0.enclaves ≡ some existing
      → get_enclave app id t ≡ (ok existing, t)
  unfolding get_enclave read_store get_stored or_not_found pure ◌>>=◌
  get_enclave-stored id existing t h =
      ap (λ o. or_not_found ("enclave '" <> id <> "' not found") o t) h

  driver_of-registered :
      (existing : EnclaveState V) (driver : Driver V W) (t : Inner V × W)
      → for_cloud env.registry (unwrap_or existing.resolved_cloud env.registry.default_cloud)
        ≡ ok driver
      → driver_of app existing t ≡ (ok driver, t)
  unfolding driver_of lift
  driver_of-registered existing driver t h =
      ap (λ r. (map_err (λ e. failed (internal_error (driver_error_message e))) r, t)) h

  partition_left :
      (enc_id : EnclaveId) (part_id : PartitionId) (existing : EnclaveState V) (s : Inner V)
      → get enc_id s.enclaves ≡ some existing
      → (delete_stored_partition enc_id part_id s).enclaves
        ≡ without enc_id part_id existing s.enclaves
  unfolding delete_stored_partition
  partition_left enc_id part_id existing s stored = rw (delete_stored_partition, stored) refl

  found_partition :
      {o : Option (PartitionState V)} (missing : String) (part_state : PartitionState V)
      (t : Inner V × W)
      → o ≡ some part_state
      → or_not_found missing o t ≡ (ok part_state, t)
  unfolding or_not_found pure
  found_partition missing part_state t h = ap (λ o. or_not_found missing o t) h

  finish_partition-Deleted :
      (enc_id : EnclaveId) (part_id : PartitionId) (existing : EnclaveState V)
      (part_state : PartitionState V) (driver : Driver V W) (errors : List String) (u : Inner V × W)
      → get enc_id u.0.enclaves ≡ some existing
      → Deleted
          (PartitionAnswer (enc_id <> "/" <> part_id))
          (without enc_id part_id existing u.0.enclaves)
          (finish_partition app enc_id part_id existing part_state driver errors u)
  unfolding finish_partition write_store pure
  finish_partition-Deleted enc_id part_id existing part_state driver errors u stored =
      let key = enc_id <> "/" <> part_id in
      let P = Deleted (PartitionAnswer key) (without enc_id part_id existing u.0.enclaves) in
      let left : Inner V × W = (delete_stored_partition enc_id part_id u.0, u.1) in
      let rest : List String → Handler (Inner V) W Destroyed = λ remaining_resources.
        pure (record {
          destroyed = key;
          errors = errors;
          remaining_resources = remaining_resources;
        }) in
      let listing = remaining app driver existing.desired part_state existing.enclave_handle in
      ok-post P (write_store (app.store.delete_partition enc_id part_id)) (λ _. listing >>= rest)
        {t = u} {u = left} refl
        (Completes-post _ P listing rest
          (remaining-Settles driver existing.desired part_state existing.enclave_handle) left
          (λ found v same.
            ((errors, found, refl), same ∙ partition_left enc_id part_id existing u.0 stored)))

  -- Where processes change the store only by requests for Terraform states and locks: a stored partition of an
  -- enclave whose cloud has a driver leaves the store, and nothing else of the enclaves changes, whatever the drivers and the processes answer.
  pub delete_partition-remove :
      (enc_id : EnclaveId) (part_id : PartitionId) (existing : EnclaveState V)
      (part_state : PartitionState V) (driver : Driver V W) (t : Inner V × W)
      → get enc_id t.0.enclaves ≡ some existing
      → get part_id existing.partitions ≡ some part_state
      → for_cloud env.registry (unwrap_or existing.resolved_cloud env.registry.default_cloud)
        ≡ ok driver
      → Deleted
          (PartitionAnswer (enc_id <> "/" <> part_id))
          (without enc_id part_id existing t.0.enclaves)
          (delete_partition app enc_id part_id t)
  unfolding delete_partition destroy_partition
  delete_partition-remove enc_id part_id existing part_state driver t stored found registered =
      let key = enc_id <> "/" <> part_id in
      let P = Deleted (PartitionAnswer key) (without enc_id part_id existing t.0.enclaves) in
      let missing = "partition '" <> part_id <> "' not found in enclave '" <> enc_id <> "'" in
      ok-post P (get_enclave app enc_id)
        (λ e. or_not_found missing (get part_id e.partitions) >>= λ p.
          driver_of app e >>= destroy_partition app enc_id part_id e p)
        (get_enclave-stored enc_id existing t stored)
        (ok-post P (or_not_found missing (get part_id existing.partitions))
          (λ p. driver_of app existing >>= destroy_partition app enc_id part_id existing p)
          (found_partition missing part_state t found)
          (ok-post P (driver_of app existing)
            (destroy_partition app enc_id part_id existing part_state)
            (driver_of-registered existing driver t registered)
            (Completes-post _ P (teardown_part app driver existing part_state)
              (finish_partition app enc_id part_id existing part_state driver)
              (teardown_part-Settles driver existing part_state) t
              (λ errors u same.
                subst
                  (λ m.
                    Deleted (PartitionAnswer key) (without enc_id part_id existing m)
                      (finish_partition app enc_id part_id existing part_state driver errors u))
                  same
                  (finish_partition-Deleted enc_id part_id existing part_state driver errors u
                    (ap (get enc_id) same ∙ stored))))))
