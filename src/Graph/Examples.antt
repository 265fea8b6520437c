-- ===== src/Graph/Examples.antt =====
-- The verdicts at a small set of enclaves: `db` offers a queue-less TCP export that `app` imports.
use nclav.Base.{
  ℕ, String, ◌≡◌, ◌≢◌, refl, false, none, some, List, [], ◌∷◌, ok, err, All, here, flat_map, arith,
  eq_iff, get, insert,
}
use nclav.Domain.{
  Enclave, Partition, Export, ExportType, AuthType, ProducesType, enclave, default_backend,
}
use nclav.Graph.Interface.{Before}
use nclav.Graph.Checks.{access_denied, dangling_import_enclave, multiple, cons, nil}
use nclav.Graph.Order.{ResolvedGraph, node_map, edges, validate}
use nclav.Graph.Contract.{EnclaveOk}
use nclav.Graph.Wiring.{wire, wires}
use nclav.Graph.Forward.{forward, forward_laws}
use nclav.Graph.Verdicts.{
  validate-EnclaveOk, validate-wiring, validate_total, validate-Before, validate_complete,
}

abbrev postgres : Partition
postgres = record {
  id = "postgres";
  name = "postgres";
  produces = some ProducesType.tcp;
  imports = [];
  exports = [];
  inputs = [];
  declared_outputs = "hostname" ∷ "port" ∷ [];
  backend = default_backend;
}

abbrev pg : Export
pg = record {
  name = "pg";
  target_partition = "postgres";
  export_type = ExportType.tcp;
  to = enclave "app";
  auth = AuthType.none;
  hostname = none;
  port = some 5432;
}

abbrev db : Enclave
db = record {
  id = "db";
  name = "db";
  cloud = none;
  region = "local";
  identity = none;
  network = none;
  dns = none;
  imports = [];
  exports = pg ∷ [];
  partitions = postgres ∷ [];
}

abbrev app : Enclave
app = record {
  id = "app";
  name = "app";
  cloud = none;
  region = "local";
  identity = none;
  network = none;
  dns = none;
  imports = record { from = "db"; export_name = "pg"; alias = "db" } ∷ [];
  exports = [];
  partitions = [];
}

abbrev both : List Enclave
both = db ∷ app ∷ []

abbrev resolved : ResolvedGraph
resolved = record { topo_order = "db" ∷ "app" ∷ []; cross_enclave_wiring = flat_map wires both }

validate-both : validate forward both ≡ some (ok resolved)
unfolding validate forward insert get
validate-both = refl

-- The exporter alone is missing.
validate-dangling : validate forward (app ∷ []) ≡ some (err (dangling_import_enclave "app" "db"))
unfolding validate forward
validate-dangling = refl

-- Another enclave than the one named in `to:`, twice.
validate-denied :
    validate forward (db ∷ record app { id = "web" } ∷ record app { id = "api" } ∷ [])
    ≡ some (
        err (
          multiple
            (cons (access_denied "web" "db" "pg") (cons (access_denied "api" "db" "pg") nil))))
unfolding validate forward
validate-denied = refl

validate-EnclaveOk_example : All (EnclaveOk both) both
validate-EnclaveOk_example = validate-EnclaveOk forward both resolved validate-both

validate-wiring_example : resolved.cross_enclave_wiring ≡ flat_map wires both
validate-wiring_example = validate-wiring forward both resolved validate-both

validate_total_example : (r : _) × (validate forward both ≡ some r)
validate_total_example = validate_total forward forward_laws both

db-ne-app : ◌≢◌ {A = String} "db" "app"
db-ne-app = ground (arith, eq_iff "db" "app")

validate-Before_example : Before {A = String} "db" "app" ("db" ∷ "app" ∷ [])
validate-Before_example =
    validate-Before forward forward_laws both resolved validate-both
      (wire app none (record { from = "db"; export_name = "pg"; alias = "db" })) here db-ne-app

acyclic-both :
    (l : List (ℕ × ℕ))
    → edges (node_map both) (flat_map wires both) ≡ some l
    → forward.is_cyclic_directed 2 l ≡ false
unfolding forward edges node_map insert get
acyclic-both l h = let e : (0, 1) ∷ [] ≡ l = cc in rw (← e)

validate_complete_example : (r : ResolvedGraph) × (validate forward both ≡ some (ok r))
validate_complete_example =
    validate_complete forward forward_laws both ((db-ne-app, tt), (tt, tt)) ((tt, tt), (tt, tt))
      (validate-EnclaveOk forward both resolved validate-both) acyclic-both
