-- ===== src/Driver/Local.antt =====
-- crates/nclav-driver/src/local.rs: the driver that simulates infrastructure. It performs no I/O, so
-- its calls leave the world as it is.
pub mod Outputs
use nclav.Base.{
  String, ◌<>◌, ◌≡◌, refl, ap, Bool, true, Option, none, some, and_then, map_option, unwrap_or,
  List, [], ◌∷◌, ◌++◌, map, All, Mem, here, there, Map, get, insert, get-insert_self, get-insert,
  ==_iff, flat_map, Result, ok, string_eq, arith,
}
use nclav.Domain.{Enclave, Partition, Export, Import, ProducesType, required_outputs, PartitionId}
use nclav.Store.{Json, JsonLaws}
use nclav.Driver.{Driver, DriverError, ProvisionResult, ObservedState}

-- `format!("local://{}/{}", partition.id, key)`
abbrev pub stub : PartitionId → String → String
stub id key = "local://" <> id <> "/" <> key

-- The loop that inserts the stubs.
unfoldable pub insert_stubs : PartitionId → List String → Map String String → Map String String
unfolding insert
insert_stubs id [] outputs = outputs
insert_stubs id (key ∷ keys) outputs = insert_stubs id keys (insert key (stub id key) outputs)

unfoldable pub stub_outputs : PartitionId → Option ProducesType → Map String String
unfolding insert_stubs required_outputs
stub_outputs id none = []
stub_outputs id (some produces) = insert_stubs id (required_outputs produces) []

module _ {V : Type 0} (j : Json V) where
  -- The members of a JSON object that are strings.
  unfoldable pub string_members : Map String V → Map String String
  string_members = flat_map (λ p. elim (j.as_str p.1) [ none ↦ [] | some s ↦ (p.0, s) ∷ [] ])

  -- A map of strings as JSON.
  abbrev pub of_strings : Map String String → V
  of_strings m = j.object (map (λ p. (p.0, j.str p.1)) m)

  unfoldable pub enclave_handle : Enclave → V
  enclave_handle enc = j.object (
      ("driver", j.str "local")
      ∷ ("kind", j.str "enclave")
      ∷ ("id", j.str enc.id)
      ∷ ("cloud", j.str "local")
      ∷ [])

  unfoldable pub partition_handle : Enclave → Partition → V
  partition_handle enc part = j.object (
      ("driver", j.str "local")
      ∷ ("kind", j.str "partition")
      ∷ ("enclave_id", j.str enc.id)
      ∷ ("partition_id", j.str part.id)
      ∷ [])

  unfoldable pub export_handle : Enclave → Export → Map String String → V
  export_handle enc export outputs = j.object (
      ("driver", j.str "local")
      ∷ ("kind", j.str "export")
      ∷ ("enclave_id", j.str enc.id)
      ∷ ("export_name", j.str export.name)
      ∷ ("outputs", of_strings outputs)
      ∷ [])

  unfoldable pub import_handle : Enclave → Import → V → V
  import_handle importer imp handle = j.object (
      ("driver", j.str "local")
      ∷ ("kind", j.str "import")
      ∷ ("importer_enclave", j.str importer.id)
      ∷ ("alias", j.str imp.alias)
      ∷ ("export_handle", handle)
      ∷ [])

  -- The outputs that an export's handle carries.
  unfoldable pub import_outputs : V → Map String String
  unfolding string_members
  import_outputs handle =
      unwrap_or (and_then (j.get handle "outputs") (λ o. map_option string_members (j.as_object o)))
        []

  unfoldable pub local_driver : (W : Type 0) → Driver V W
  unfolding stub_outputs enclave_handle partition_handle export_handle import_handle import_outputs
  local_driver W = record {
    name = "local";
    provision_enclave =
        λ enc existing w. (ok (record { handle = enclave_handle enc; outputs = [] }), w);
    teardown_enclave = λ enc handle w. (ok tt, w);
    provision_partition = λ enc part inputs existing w. (
      ok (record {
        handle = partition_handle enc part;
        outputs = stub_outputs part.id part.produces;
      }),
      w,
    );
    teardown_partition = λ enc part handle w. (ok tt, w);
    provision_export = λ enc export outputs existing w.
        (ok (record { handle = export_handle enc export outputs; outputs = outputs }), w);
    provision_import = λ importer imp handle existing w. (
      ok (record { handle = import_handle importer imp handle; outputs = import_outputs handle }),
      w,
    );
    observe_enclave = λ enc handle w.
        (ok (record { exists = true; healthy = true; outputs = []; raw = handle }), w);
    observe_partition = λ enc part handle w. (
      ok (record {
        exists = true;
        healthy = true;
        outputs = stub_outputs part.id part.produces;
        raw = handle;
      }),
      w,
    );
    list_partition_resources = λ enc handle part w. (ok [], w);
    list_orphaned_resources = λ enc handle known w. (ok [], w);
    context_vars = λ enc handle. [];
    auth_env = λ enc handle. [];
  }
