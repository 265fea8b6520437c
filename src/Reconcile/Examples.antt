-- ===== src/Reconcile/Examples.antt =====
-- The laws of the reconciler at a small configuration: one enclave with two partitions, the store of
-- crates/nclav-store/src/memory.rs, and a driver that answers every call with a handle.
use nclav.Base.{
  ℕ, suc, String, ◌≡◌, ◌≢◌, ◌↔◌, refl, true, false, none, some, [], ◌∷◌, map, All, Mem, ok, arith,
  eq_iff, unwrap_or, string_eq,
}
use nclav.Domain.{Import, Enclave, EnclaveId, Partition, local, default_backend}
use nclav.Graph.Forward.{forward}
use nclav.Graph.{validate}
use nclav.Reconcile.Reliable.{Reliable, reconcile-returns}
use nclav.Store.{EnclaveState}
use nclav.Store.Documents.{Doc, text, documents}
use nclav.Store.Memory.{
  Inner, new_store, list_enclaves, get_enclave, upsert_enclave, delete_enclave, append_event,
}
use nclav.Driver.{Driver, ProvisionResult}
use nclav.Driver.Registry.{
  DriverRegistry, new_registry, register, for_enclave, for_enclave-register,
}
use nclav.Reconcile.Report.{ReconcileRequest, ReconcileReport}
use nclav.Reconcile.Action.{Env, Run, StateStore}
use nclav.Reconcile.Contract.{Ends, IsStore}
use nclav.Reconcile.Plan.{Hashes, plan, ordered_desired}
use nclav.Reconcile.Plan.Ordered.{plan-ordered_desired_nil_iff}
use nclav.Reconcile.Plan.InSync.{InSync, plan-nil_iff}
use nclav.Reconcile.Partitions.{provision_partitions}
use nclav.Reconcile.Partitions.Settled.{Swept, provision_partitions-Swept}
use nclav.Reconcile.Enclaves.{provision_enclaves, started_enclave}
use nclav.Reconcile.Failures.{provision_enclaves-IsStore}
use nclav.Reconcile.Pass.{new_report, reconcile}
use nclav.Reconcile.DryRun.{Foretells, reconcile-dry_run, reconcile-Foretells}

abbrev pub queue : Partition
queue = record {
  id = "queue";
  name = "queue";
  produces = none;
  imports = [];
  exports = [];
  inputs = ("project", "{{ nclav_project_id }}") ∷ [];
  declared_outputs = [];
  backend = default_backend;
}

abbrev pub shop : Enclave
shop = record {
  id = "shop";
  name = "shop";
  cloud = none;
  region = "local";
  identity = none;
  network = none;
  dns = none;
  imports = [];
  exports = [];
  partitions = queue ∷ record queue { id = "web"; name = "web" } ∷ [];
}

abbrev hashes : Hashes
hashes = record { enclave_hash = λ e. e.name; partition_hash = λ p. p.name }

abbrev provisioned : ProvisionResult Doc
provisioned = record { handle = text "h"; outputs = [] }

abbrev pub echo : Driver Doc ℕ
echo = record {
  name = "echo";
  provision_enclave = λ enc existing w. (ok provisioned, suc w);
  teardown_enclave = λ enc handle w. (ok tt, suc w);
  provision_partition = λ enc part inputs existing w. (ok provisioned, suc w);
  teardown_partition = λ enc part handle w. (ok tt, suc w);
  provision_export = λ enc export outputs existing w. (ok provisioned, suc w);
  provision_import = λ enc imp handle existing w. (ok provisioned, suc w);
  observe_enclave = λ enc handle w.
      (ok (record { exists = true; healthy = true; outputs = []; raw = handle }), w);
  observe_partition = λ enc part handle w.
      (ok (record { exists = true; healthy = true; outputs = []; raw = handle }), w);
  list_partition_resources = λ enc handle part w. (ok [], w);
  list_orphaned_resources = λ enc handle known w. (ok [], w);
  context_vars = λ enc handle. ("nclav_project_id", "p-1") ∷ [];
  auth_env = λ enc handle. [];
}

-- The store of crates/nclav-store/src/memory.rs, whose methods never fail.
abbrev memory_store : StateStore Doc (Inner Doc)
memory_store = record {
  list_enclaves = λ s. ok (list_enclaves s);
  get_enclave = λ id s. ok (get_enclave id s);
  upsert_enclave = λ st s. (ok tt, upsert_enclave st s);
  delete_enclave = λ id s. (ok tt, delete_enclave id s);
  append_event = λ ev s. (ok tt, append_event ev s);
}

abbrev empty_registry : DriverRegistry Doc ℕ
empty_registry = new_registry local

-- The world is a clock.
abbrev pub env : Env Doc (Inner Doc) ℕ
env = record {
  json = documents;
  hashes = hashes;
  petgraph = forward;
  state_store = memory_store;
  registry = register local echo empty_registry;
  tf_backend = record {
    provision = λ enc part inputs auth_env run_id sw. (ok provisioned, sw);
    teardown = λ enc part auth_env run_id sw. (ok tt, sw);
  };
  load_enclaves = λ dir w. (ok (shop ∷ []), w);
  now = λ w. (w, suc w);
  new_uuid = λ w. (w, suc w);
}

abbrev begun : Run (Inner Doc) ℕ
begun = new_report new_store 7

abbrev pub request : ReconcileRequest
request = record { enclaves_dir = "enclaves"; dry_run = true; resources_only = true }

for_enclave-register_example :
    (unwrap_or shop.cloud empty_registry.default_cloud ≡ local
      → for_enclave (register local echo empty_registry) shop ≡ ok echo)
    × (unwrap_or shop.cloud empty_registry.default_cloud ≢ local
        → for_enclave (register local echo empty_registry) shop ≡ for_enclave empty_registry shop)
for_enclave-register_example = for_enclave-register empty_registry local echo shop

plan-nil_iff_example :
    (plan hashes (shop ∷ []) (shop ∷ []) (("shop", started_enclave env shop none) ∷ []) ≡ []) ↔ (
      All
        (λ (p : EnclaveId × EnclaveState Doc). Mem p.0 (map (λ (e : Enclave). e.id) (shop ∷ [])))
        (("shop", started_enclave env shop none) ∷ [])
      × All (InSync hashes (("shop", started_enclave env shop none) ∷ [])) (shop ∷ []))
plan-nil_iff_example =
    plan-nil_iff hashes (shop ∷ []) (shop ∷ []) (("shop", started_enclave env shop none) ∷ [])

plan-ordered_desired_nil_iff_example :
    (plan hashes
        (shop ∷ [])
        (ordered_desired ("orders" ∷ "shop" ∷ []) (shop ∷ []))
        (("shop", started_enclave env shop none) ∷ [])
      ≡ [])
    ↔ (All
          (λ (p : EnclaveId × EnclaveState Doc). Mem p.0 (map (λ (e : Enclave). e.id) (shop ∷ [])))
          (("shop", started_enclave env shop none) ∷ [])
        × All (InSync hashes (("shop", started_enclave env shop none) ∷ [])) (shop ∷ []))
plan-ordered_desired_nil_iff_example =
    plan-ordered_desired_nil_iff hashes ("orders" ∷ "shop" ∷ []) (shop ∷ [])
      (("shop", started_enclave env shop none) ∷ []) (tt, tt)

queue-ne-web : ◌≢◌ {A = String} "queue" "web"
queue-ne-web = ground (arith, eq_iff "queue" "web")

provision_partitions-Swept_example :
    Ends
      (IsStore env.state_store)
      (λ after _. Swept env 3 echo shop shop.partitions (started_enclave env shop none) after)
      (provision_partitions env 3 echo shop (started_enclave env shop none) begun)
provision_partitions-Swept_example =
    provision_partitions-Swept env 3 echo shop (started_enclave env shop none) begun
      ((queue-ne-web, tt), (tt, tt))

provision_enclaves-IsStore_example :
    Ends (IsStore env.state_store) (λ _ _. Unit {0}) (provision_enclaves env 3 [] (shop ∷ []) begun)
provision_enclaves-IsStore_example = provision_enclaves-IsStore env 3 [] (shop ∷ []) begun

reconcile-dry_run_example :
    (reconcile env request begun).1
    ≡ record begun { world = (env.load_enclaves request.enclaves_dir begun.world).1 }
reconcile-dry_run_example = reconcile-dry_run env request begun refl

reconcile-Foretells_example :
    Foretells
      (reconcile env (record request { dry_run = true }) begun)
      (reconcile env (record request { dry_run = false }) begun)
reconcile-Foretells_example = reconcile-Foretells env (record request { dry_run = false }) begun

abbrev orders : Import
orders = record { from = "db"; export_name = "pg"; alias = "db" }

reliable : Reliable memory_store
reliable = record {
  lists = λ s e h. cc;
  gets = λ id s e h. cc;
  upserts = λ state s e h. cc;
  deletes = λ id s e h. cc;
  appends = λ event s e h. cc;
}

valid_shop :
    validate forward (shop ∷ [])
    ≡ some (ok (record { topo_order = "shop" ∷ []; cross_enclave_wiring = [] }))
unfolding validate forward
valid_shop = refl

reconcile-returns_example :
    (report : ReconcileReport) × (r' : Run (Inner Doc) ℕ) × (reconcile env request begun
      ≡ (ok report, r'))
reconcile-returns_example =
    reconcile-returns env reliable request begun (shop ∷ [])
      (record { topo_order = "shop" ∷ []; cross_enclave_wiring = [] }) refl refl valid_shop
