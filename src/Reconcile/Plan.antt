-- ===== src/Reconcile/Plan.antt =====
-- The diff of `reconcile` in crates/nclav-reconciler/src/reconcile.rs: which changes lead from the
-- stored states to the loaded enclaves.
pub mod InSync
pub mod Ordered
use nclav.Base.{
  String, Bool, true, false, not, Option, none, some, and_then, is_none, is_some, is_some_and, List,
  [], ◌∷◌, ◌++◌, map, Map, get, from_list, any, filter, flat_map, if◌then◌else◌, ◌==◌, string_eq,
}
use nclav.Domain.{Enclave, EnclaveId, Partition, PartitionId, Export, Import}
use nclav.Store.{EnclaveState, PartitionState, ResourceMeta}
use nclav.Reconcile.Report.{
  Change, enclave_created, enclave_updated, enclave_deleted, partition_created, partition_updated,
  export_wired, import_wired,
}

-- What `compute_desired_hash` gives for the two types it is called at: the digest, by the crate sha2,
-- of the JSON that serde derives.
pub record Hashes : Type 0 where
  pub enclave_hash : Enclave → String
  pub partition_hash : Partition → String

-- `contains`
abbrev pub contains : List String → String → Bool
contains ids id = any (λ i. i == id) ids

-- `and_then(|s| s.meta.desired_hash.as_deref()).map_or(false, |h| h == hash)`
unfoldable pub hash_unchanged : Option ResourceMeta → String → Bool
hash_unchanged meta hash = is_some_and (and_then meta (λ m. m.desired_hash)) (λ h. h == hash)

unfoldable pub ordered_desired : List EnclaveId → List Enclave → List Enclave
unfolding get from_list any filter
ordered_desired topo_ids enclaves =
    let desired_map = from_list (map (λ (e : Enclave). (e.id, e)) enclaves) in
    flat_map (λ id. elim (get id desired_map) [ none ↦ [] | some enc ↦ enc ∷ [] ]) topo_ids
    ++ filter (λ e. not (contains topo_ids e.id)) enclaves

module _ {V : Type 0} where
  unfoldable pub actual_states : List (EnclaveState V) → Map EnclaveId (EnclaveState V)
  unfolding from_list
  actual_states stored = from_list (map (λ (s : EnclaveState V). (s.desired.id, s)) stored)

  -- `actual_ids.difference(&desired_ids)`
  unfoldable pub removed_ids : List Enclave → Map EnclaveId (EnclaveState V) → List EnclaveId
  unfolding any filter
  removed_ids enclaves actual =
      filter (λ id. not (contains (map (λ (e : Enclave). e.id) enclaves) id))
        (map (λ p. p.0) actual)

  abbrev pub meta_of : Option (EnclaveState V) → Option ResourceMeta
  meta_of none = none
  meta_of (some s) = some s.meta

  abbrev pub part_meta_of : Option (PartitionState V) → Option ResourceMeta
  part_meta_of none = none
  part_meta_of (some s) = some s.meta

  unfoldable pub enclave_change : Hashes → Option (EnclaveState V) → Enclave → List Change
  unfolding hash_unchanged
  enclave_change hashes existing enc =
      if is_none existing
      then enclave_created enc.id ∷ []
      else if not (hash_unchanged (meta_of existing) (hashes.enclave_hash enc))
      then enclave_updated enc.id ∷ []
      else []

  unfoldable pub partition_change :
      Hashes → Option (EnclaveState V) → Enclave → Partition → List Change
  unfolding hash_unchanged get
  partition_change hashes existing enc part =
      let part_existing = and_then existing (λ s. get part.id s.partitions) in
      if is_none part_existing
      then partition_created enc.id part.id ∷ []
      else if not (hash_unchanged (part_meta_of part_existing) (hashes.partition_hash part))
      then partition_updated enc.id part.id ∷ []
      else []

  unfoldable pub export_change : Option (EnclaveState V) → Enclave → Export → List Change
  unfolding get
  export_change existing enc export =
      let already_wired = is_some (and_then existing (λ s. get export.name s.export_handles)) in
      if not already_wired then export_wired enc.id export.name ∷ [] else []

  unfoldable pub import_change : Option (EnclaveState V) → Enclave → Import → List Change
  unfolding get
  import_change existing enc imp =
      if is_none (and_then existing (λ s. get imp.alias s.import_handles))
      then import_wired enc.id imp.alias ∷ []
      else []

  -- The body of the first loop over the ordered enclaves.
  unfoldable pub resource_changes : Hashes → Map EnclaveId (EnclaveState V) → Enclave → List Change
  unfolding enclave_change partition_change export_change get
  resource_changes hashes actual enc =
      let existing = get enc.id actual in
      enclave_change hashes existing enc
      ++ (flat_map (partition_change hashes existing enc) enc.partitions
          ++ flat_map (export_change existing enc) enc.exports)

  -- The body of the second loop.
  unfoldable pub wiring_changes : Map EnclaveId (EnclaveState V) → Enclave → List Change
  unfolding import_change get
  wiring_changes actual enc =
      let existing = get enc.id actual in
      flat_map (import_change existing enc) enc.imports
      ++ flat_map (λ (part : Partition). flat_map (import_change existing enc) part.imports)
          enc.partitions

  -- The changes of `reconcile`; `ordered` is what `ordered_desired` gives.
  unfoldable pub plan :
      Hashes → List Enclave → List Enclave → Map EnclaveId (EnclaveState V) → List Change
  unfolding removed_ids resource_changes wiring_changes
  plan hashes enclaves ordered actual =
      map enclave_deleted (removed_ids enclaves actual)
      ++ (flat_map (resource_changes hashes actual) ordered
          ++ flat_map (wiring_changes actual) ordered)
