-- ===== src/Reconcile/Imports.antt =====
-- Step 8 of `reconcile` in crates/nclav-reconciler/src/reconcile.rs: the imports between enclaves,
-- wired once all enclaves are provisioned.
use nclav.Base.{
  ◌<>◌, Bool, true, false, Option, none, some, and_then, List, ◌++◌, flat_map, get, insert,
  contains_key, Result, ok, err, if◌then◌else◌, string_eq,
}
use nclav.Domain.{Enclave, Import, Partition}
use nclav.Store.{EnclaveState, import_wired}
use nclav.Driver.{Driver, DriverError, ProvisionResult, driver_error_message}
use nclav.Driver.Registry.{for_enclave}
use nclav.Reconcile.Action.{
  Env, Action, pure, ◌>>=◌, ◌>>◌, read_store, write_store, outside, push_error, for_fold, for_do,
}

-- `enc.imports` and those of the partitions, in the order of the source
unfoldable pub all_imports : Enclave → List Import
all_imports enc = enc.imports ++ flat_map (λ (p : Partition). p.imports) enc.partitions

module _ {V S W : Type 0} (env : Env V S W) where
  module _ (driver : Driver V W) (enc : Enclave) where
    -- The state of the importer, and whether it has changed.
    unfoldable pub record_import :
        Import
        → EnclaveState V × Bool
        → Result DriverError (ProvisionResult V)
        → Action V S W (EnclaveState V × Bool)
    record_import imp s (ok result) = do
      id ← outside env.new_uuid
      at ← outside env.now
      write_store (env.state_store.append_event (import_wired id at enc.id imp.export_name))
      pure (record s.0 { import_handles = insert imp.alias result.handle s.0.import_handles }, true)
    record_import imp s (err e) = do
      push_error ("import " <> enc.id <> "/" <> imp.alias <> ": " <> driver_error_message e)
      pure s

    unfoldable pub wire_to :
        Import → EnclaveState V × Bool → Option V → Action V S W (EnclaveState V × Bool)
    wire_to imp s none = pure s
    wire_to imp s (some export_handle) = do
      result ←
          outside (driver.provision_import enc imp export_handle (get imp.alias s.0.import_handles))
      record_import imp s result

    -- The body of the loop over the imports.
    unfoldable pub wire_import :
        Import → EnclaveState V × Bool → Action V S W (EnclaveState V × Bool)
    wire_import imp s =
        let wired = (do
          exporter ← read_store (env.state_store.get_enclave imp.from)
          wire_to imp s (and_then exporter (λ e. get imp.export_name e.export_handles))) in
        if contains_key imp.alias s.0.import_handles then pure s else wired

    unfoldable pub store_changed : EnclaveState V × Bool → Action V S W (Unit {0})
    store_changed (enc_state, true) = write_store (env.state_store.upsert_enclave enc_state)
    store_changed (enc_state, false) = pure tt

    unfoldable pub wire_stored : Option (EnclaveState V) → Action V S W (Unit {0})
    wire_stored none = pure tt
    wire_stored (some enc_state) =
        for_fold wire_import (all_imports enc) (enc_state, false) >>= store_changed

  unfoldable pub wire_with : Enclave → Result DriverError (Driver V W) → Action V S W (Unit {0})
  wire_with enc (err e) = pure tt
  wire_with enc (ok driver) = do
    stored ← read_store (env.state_store.get_enclave enc.id)
    wire_stored driver enc stored

  -- The loop over the enclaves.
  unfoldable pub wire_imports : List Enclave → Action V S W (Unit {0})
  wire_imports = for_do (λ enc. wire_with enc (for_enclave env.registry enc))
