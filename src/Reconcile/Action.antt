-- ===== src/Reconcile/Action.antt =====
-- The effects of `reconcile`: the store and the world outside, which every `await` may change, and the
-- errors of the report. A `?` that fails ends the run where it stands, and what was done stays done.
use nclav.Base.{ℕ, String, Option, List, [], ◌∷◌, ◌++◌, Map, Result, ok, err}
use nclav.Domain.{Enclave, EnclaveId, Partition}
use nclav.Graph.{Petgraph}
use nclav.Store.{EnclaveState, AuditEvent, StoreError, Json}
use nclav.Driver.{DriverError, ProvisionResult}
use nclav.Driver.Registry.{DriverRegistry}
use nclav.Reconcile.Report.{ReconcileError}
use nclav.Reconcile.Plan.{Hashes}

-- The `StateStore` behind the `Arc`, of which `reconcile` calls these methods.
pub record StateStore (V S : Type 0) : Type 0 where
  pub list_enclaves : S → Result (StoreError V) (List (EnclaveState V))
  pub get_enclave : EnclaveId → S → Result (StoreError V) (Option (EnclaveState V))
  pub upsert_enclave : EnclaveState V → S → Result (StoreError V) (Unit {0}) × S
  pub delete_enclave : EnclaveId → S → Result (StoreError V) (Unit {0}) × S
  pub append_event : AuditEvent → S → Result (StoreError V) (Unit {0}) × S

-- What a run asks of `TerraformBackend`, which runs a process and records the runs in the store.
pub record TfBackend (V S W : Type 0) : Type 0 where
  pub provision :
      Enclave
      → Partition
      → Map String String
      → Map String String
      → Option ℕ
      → S × W
      → Result DriverError (ProvisionResult V) × (S × W)
  pub teardown :
      Enclave
      → Partition
      → Map String String
      → Option ℕ
      → S × W
      → Result DriverError (Unit {0}) × (S × W)

-- What surrounds a run.
pub record Env (V S W : Type 0) : Type 0 where
  pub json : Json V
  pub hashes : Hashes
  pub petgraph : Petgraph
  pub state_store : StateStore V S
  pub registry : DriverRegistry V W
  pub tf_backend : TfBackend V S W
  -- `nclav_config::load_enclaves`, which reads files
  pub load_enclaves : String → W → Result String (List Enclave) × W
  -- `Utc::now()` and `Uuid::new_v4()`
  pub now : W → ℕ × W
  pub new_uuid : W → ℕ × W

pub record Run (S W : Type 0) : Type 0 where
  pub store : S
  pub world : W
  pub errors : List String

abbrev pub Action : Type 0 → Type 0 → Type 0 → Type 0 → Type 0
Action V S W A = Run S W → Result (ReconcileError V) A × Run S W

abbrev pub store_result : {V A : Type 0} → Result (StoreError V) A → Result (ReconcileError V) A
store_result (ok a) = ok a
store_result (err e) = err (ReconcileError.store e)

module _ {V S W : Type 0} where
  unfoldable pub pure : {A : Type 0} → A → Action V S W A
  pure a r = (ok a, r)

  unfoldable pub throw : {A : Type 0} → ReconcileError V → Action V S W A
  throw e r = (err e, r)

  abbrev pub and_then_do :
      {A B : Type 0} → Result (ReconcileError V) A → (A → Action V S W B) → Action V S W B
  and_then_do (ok a) f = f a
  and_then_do (err e) f = throw e

  infixl 5 ◌>>=◌ ◌>>◌
  unfoldable pub ◌>>=◌ : {A B : Type 0} → Action V S W A → (A → Action V S W B) → Action V S W B
  ◌>>=◌ m f = λ r. let (a, r') = m r in and_then_do a f r'

  abbrev pub ◌>>◌ : {A B : Type 0} → Action V S W A → Action V S W B → Action V S W B
  m >> n = m >>= λ _. n

  -- A call of the store, with `?` and with its error left aside.
  unfoldable pub read_store : {A : Type 0} → (S → Result (StoreError V) A) → Action V S W A
  read_store f r = (store_result (f r.store), r)

  unfoldable pub write_store : {A : Type 0} → (S → Result (StoreError V) A × S) → Action V S W A
  write_store f r = let (a, s) = f r.store in (store_result a, record r { store = s })

  unfoldable pub try_store :
      {A : Type 0} → (S → Result (StoreError V) A × S) → Action V S W (Unit {0})
  try_store f r = let (a, s) = f r.store in (ok tt, record r { store = s })

  -- A call of the world, which returns its result as a value.
  unfoldable pub outside : {A : Type 0} → (W → A × W) → Action V S W A
  outside f r = let (a, w) = f r.world in (ok a, record r { world = w })

  unfoldable pub outside_store : {A : Type 0} → (S × W → A × (S × W)) → Action V S W A
  outside_store f r =
      let (a, sw) = f (r.store, r.world) in (ok a, record r { store = sw.0; world = sw.1 })

  -- `?` on a result that is at hand
  unfoldable pub lift : {A : Type 0} → Result (ReconcileError V) A → Action V S W A
  lift a r = (a, r)

  -- `report.errors.push(msg)`
  unfoldable pub push_error : String → Action V S W (Unit {0})
  push_error msg r = (ok tt, record r { errors = r.errors ++ msg ∷ [] })

  -- `for x in xs { s = body(x, s) }`
  unfoldable pub for_fold : {A B : Type 0} → (A → B → Action V S W B) → List A → B → Action V S W B
  for_fold body [] b = pure b
  for_fold body (x ∷ xs) b = body x b >>= for_fold body xs

  unfoldable pub for_do :
      {A : Type 0} → (A → Action V S W (Unit {0})) → List A → Action V S W (Unit {0})
  for_do body [] = pure tt
  for_do body (x ∷ xs) = body x >> for_do body xs
