-- ===== src/Reconcile/Plan/InSync.antt =====
-- The plan is empty exactly when the store holds what the enclaves ask for.
use nclav.Base.{
  String, ◌≡◌, ◌↔◌, refl, ap, subst, ◌∙◌, Bool, true, false, not, Bool-cases, inl, inr, Option,
  none, some, is_none, is_some, List, [], ◌∷◌, ◌++◌, map, Map, get, All, All-map, is_some_and, Mem,
  filter, flat_map, flat_map-eq-nil, flat_map-nil, if◌then◌else◌, ◌==◌, ==_iff, string_eq, arith,
  mem_of_any, any_of_mem,
}
use nclav.Domain.{Enclave, EnclaveId, Partition, Export, Import}
use nclav.Store.{EnclaveState, PartitionState}
use nclav.Reconcile.Report.{
  Change, enclave_created, enclave_updated, enclave_deleted, partition_created, partition_updated,
  export_wired, import_wired,
}
use nclav.Reconcile.Plan.{
  Hashes, contains, removed_ids, enclave_change, partition_change, export_change, import_change,
  resource_changes, wiring_changes, plan,
}

-- The stored state of an enclave has the enclave's hash, each partition with its hash, and a handle
-- for each export and each import.
pub record InSync {V : Type 0} (hashes : Hashes) (actual : Map EnclaveId (EnclaveState V))
    (enc : Enclave) : Type 0 where
  pub state : EnclaveState V
  pub stored : get enc.id actual ≡ some state
  pub hash : state.meta.desired_hash ≡ some (hashes.enclave_hash enc)
  pub partitions :
      All
        (λ (part : Partition).
          (ps : PartitionState V) × (get part.id state.partitions ≡ some ps)
          × (ps.meta.desired_hash ≡ some (hashes.partition_hash part)))
        enc.partitions
  pub exports :
      All (λ (x : Export). (h : V) × (get x.name state.export_handles ≡ some h)) enc.exports
  pub imports :
      All (λ (i : Import). (h : V) × (get i.alias state.import_handles ≡ some h)) enc.imports
  pub partition_imports :
      All
        (λ (part : Partition).
          All (λ (i : Import). (h : V) × (get i.alias state.import_handles ≡ some h)) part.imports)
        enc.partitions

unchanged_iff :
    (h : Option String) (hash : String) → (is_some_and h (λ k. k == hash) ≡ true) ↔ (h ≡ some hash)
unchanged_iff none hash = ((λ e. cc), (λ e. cc))
unchanged_iff (some k) hash = (
  (λ e. ap (λ x. some x) ((==_iff k hash).0 e)),
  (λ e. let same : k ≡ hash = cc in (==_iff k hash).1 same),
)

-- The ladder of an enclave and of a partition: created, updated, or no change.
module _ {A : Type 0} (hash_of : A → Option String) (created updated : Change) (hash : String) where
  abbrev ladder : Option A → List Change
  ladder none = created ∷ []
  ladder (some a) = if not (is_some_and (hash_of a) (λ k. k == hash)) then updated ∷ [] else []

  ladder-nil : (o : Option A) → ladder o ≡ [] → (a : A) × (o ≡ some a) × (hash_of a ≡ some hash)
  ladder-nil none h = cc
  ladder-nil (some a) h = (a, refl, ground (arith, unchanged_iff (hash_of a) hash))

  nil-ladder : (o : Option A) (a : A) → o ≡ some a → hash_of a ≡ some hash → ladder o ≡ []
  nil-ladder none a e h = cc
  nil-ladder (some b) a e h =
      let same : a ≡ b = cc in
      rw ((unchanged_iff (hash_of b) hash).1 (subst (λ x. hash_of x ≡ some hash) same h))

-- A missing handle.
module _ {A : Type 0} (change : Change) where
  wired-nil :
      (o : Option A) → (if not (is_some o) then change ∷ [] else []) ≡ [] → (a : A) × (o ≡ some a)
  wired-nil none h = cc
  wired-nil (some a) h = (a, refl)

  nil-wired :
      (o : Option A) (a : A) → o ≡ some a → (if not (is_some o) then change ∷ [] else []) ≡ []
  nil-wired none a e = cc
  nil-wired (some b) a e = refl

  unwired-nil :
      (o : Option A) → (if is_none o then change ∷ [] else []) ≡ [] → (a : A) × (o ≡ some a)
  unwired-nil none h = cc
  unwired-nil (some a) h = (a, refl)

  nil-unwired : (o : Option A) (a : A) → o ≡ some a → (if is_none o then change ∷ [] else []) ≡ []
  nil-unwired none a e = cc
  nil-unwired (some b) a e = refl

append-eq-nil {ℓ} : {A : Type ℓ} (xs ys : List A) → xs ++ ys ≡ [] → (xs ≡ []) × (ys ≡ [])
append-eq-nil [] ys h = (refl, h)
append-eq-nil (x ∷ xs) ys h = cc

module _ {V : Type 0} (hashes : Hashes) where
  enclave_change-ladder :
      (existing : Option (EnclaveState V)) (enc : Enclave)
      → enclave_change hashes existing enc
        ≡ ladder
            (λ (s : EnclaveState V). s.meta.desired_hash)
            (enclave_created enc.id)
            (enclave_updated enc.id)
            (hashes.enclave_hash enc)
            existing
  unfolding enclave_change
  enclave_change-ladder none enc = refl
  enclave_change-ladder (some s) enc = refl

  partition_change-ladder :
      (s : EnclaveState V) (enc : Enclave) (part : Partition)
      → partition_change hashes (some s) enc part
        ≡ ladder
            (λ (ps : PartitionState V). ps.meta.desired_hash)
            (partition_created enc.id part.id)
            (partition_updated enc.id part.id)
            (hashes.partition_hash part)
            (get part.id s.partitions)
  unfolding partition_change
  partition_change-ladder s enc part = go (get part.id s.partitions) refl
    where
      go :
          (o : Option (PartitionState V))
          → get part.id s.partitions ≡ o
          → partition_change hashes (some s) enc part
            ≡ ladder
                (λ (ps : PartitionState V). ps.meta.desired_hash)
                (partition_created enc.id part.id)
                (partition_updated enc.id part.id)
                (hashes.partition_hash part)
                o
      go none e = ground arith
      go (some ps) e = ground arith

  module _ (actual : Map EnclaveId (EnclaveState V)) (enc : Enclave) where
    -- An enclave without changes is in sync, and the other way round.
    changes-InSync :
        resource_changes hashes actual enc ≡ []
        → wiring_changes actual enc ≡ []
        → InSync hashes actual enc
    unfolding resource_changes wiring_changes export_change import_change
    changes-InSync hr hw =
        let (he, hpx) = append-eq-nil (enclave_change hashes (get enc.id actual) enc) _ hr in
        let (hp, hx) =
          append-eq-nil (flat_map (partition_change hashes (get enc.id actual) enc) enc.partitions)
            _ hpx in
        let (hi, hpi) =
          append-eq-nil (flat_map (import_change (get enc.id actual) enc) enc.imports) _ hw in
        let (s, found, hash) =
          ladder-nil (λ (s : EnclaveState V). s.meta.desired_hash) (enclave_created enc.id)
            (enclave_updated enc.id) (hashes.enclave_hash enc) (get enc.id actual)
            (rw (← enclave_change-ladder (get enc.id actual) enc) he) in
        record {
          state = s;
          stored = found;
          hash = hash;
          partitions =
              All-map
                (λ part h.
                  ladder-nil (λ (ps : PartitionState V). ps.meta.desired_hash)
                    (partition_created enc.id part.id) (partition_updated enc.id part.id)
                    (hashes.partition_hash part) (get part.id s.partitions)
                    (rw (← partition_change-ladder s enc part) h))
                enc.partitions
                (flat_map-eq-nil (partition_change hashes (some s) enc) enc.partitions
                  (rw found at hp));
          exports =
              All-map
                (λ x h. wired-nil (export_wired enc.id x.name) (get x.name s.export_handles) h)
                enc.exports
                (flat_map-eq-nil (export_change (some s) enc) enc.exports (rw found at hx));
          imports =
              All-map
                (λ i h. unwired-nil (import_wired enc.id i.alias) (get i.alias s.import_handles) h)
                enc.imports
                (flat_map-eq-nil (import_change (some s) enc) enc.imports (rw found at hi));
          partition_imports =
              All-map
                (λ (part : Partition) h.
                  All-map
                    (λ i g.
                      unwired-nil (import_wired enc.id i.alias) (get i.alias s.import_handles) g)
                    part.imports (flat_map-eq-nil (import_change (some s) enc) part.imports h))
                enc.partitions
                (flat_map-eq-nil
                  (λ (part : Partition). flat_map (import_change (some s) enc) part.imports)
                  enc.partitions (rw found at hpi));
        }

    InSync-changes :
        InSync hashes actual enc
        → (resource_changes hashes actual enc ≡ []) × (wiring_changes actual enc ≡ [])
    unfolding resource_changes wiring_changes export_change import_change
    InSync-changes c =
        let s = c.state in
        let own : enclave_change hashes (some s) enc ≡ [] =
          enclave_change-ladder (some s) enc
          ∙ nil-ladder (λ (s : EnclaveState V). s.meta.desired_hash) (enclave_created enc.id)
              (enclave_updated enc.id) (hashes.enclave_hash enc) (some s) s refl c.hash in
        let parts : flat_map (partition_change hashes (some s) enc) enc.partitions ≡ [] =
          flat_map-nil (partition_change hashes (some s) enc) enc.partitions (
            All-map {Q = λ part. partition_change hashes (some s) enc part ≡ []}
              (λ part (ps, found, hash).
                partition_change-ladder s enc part
                ∙ nil-ladder (λ (ps : PartitionState V). ps.meta.desired_hash)
                    (partition_created enc.id part.id) (partition_updated enc.id part.id)
                    (hashes.partition_hash part) (get part.id s.partitions) ps found hash)
              enc.partitions c.partitions) in
        let exps : flat_map (export_change (some s) enc) enc.exports ≡ [] =
          flat_map-nil (export_change (some s) enc) enc.exports (
            All-map {Q = λ x. export_change (some s) enc x ≡ []}
              (λ x (h, e). nil-wired (export_wired enc.id x.name) (get x.name s.export_handles) h e)
              enc.exports c.exports) in
        let imps : flat_map (import_change (some s) enc) enc.imports ≡ [] =
          flat_map-nil (import_change (some s) enc) enc.imports (
            All-map {Q = λ i. import_change (some s) enc i ≡ []}
              (λ i (h, e).
                nil-unwired (import_wired enc.id i.alias) (get i.alias s.import_handles) h e)
              enc.imports c.imports) in
        let pimps : flat_map
              (λ (part : Partition). flat_map (import_change (some s) enc) part.imports)
              enc.partitions
            ≡ [] =
          flat_map-nil (λ (part : Partition). flat_map (import_change (some s) enc) part.imports)
            enc.partitions
            (All-map
              {Q = λ (part : Partition). flat_map (import_change (some s) enc) part.imports ≡ []}
              (λ part hs. flat_map-nil (import_change (some s) enc) part.imports (
                All-map {Q = λ i. import_change (some s) enc i ≡ []}
                  (λ i (h, e).
                    nil-unwired (import_wired enc.id i.alias) (get i.alias s.import_handles) h e)
                  part.imports hs))
              enc.partitions c.partition_imports) in
        (rw (c.stored, own, parts, exps) refl, rw (c.stored, imps, pimps) refl)

  removed_ids-nil :
      (enclaves : List Enclave) (actual : Map EnclaveId (EnclaveState V))
      → (removed_ids enclaves actual ≡ [])
        ↔ All
            (λ (p : EnclaveId × EnclaveState V). Mem p.0 (map (λ (e : Enclave). e.id) enclaves))
            actual
  unfolding removed_ids filter
  removed_ids-nil enclaves [] = ((λ h. tt), (λ h. refl))
  removed_ids-nil enclaves (p ∷ actual) =
      let ids = map (λ (e : Enclave). e.id) enclaves in
      let rest = removed_ids-nil enclaves actual in
      elim (Bool-cases (contains ids p.0)) [
        | inl e ↦ ((λ h. (mem_of_any p.0 ids e, rest.0 (rw e at h))), (λ h. rw e (rest.1 h.1)))
        | inr e ↦ (
          (λ h. absurd (cons≢nil (rw e at h))),
          (λ h. absurd (true≢false (any_of_mem p.0 ids h.0) e)),
        )
      ]
    where
      cons≢nil : {x : EnclaveId} {xs : List EnclaveId} → x ∷ xs ≡ [] → ⊥
      cons≢nil h = cc

      true≢false : {b : Bool} → b ≡ true → b ≡ false → ⊥
      true≢false h k = cc

  -- The plan is empty exactly when every stored enclave is still listed, and every enclave is in sync:
  -- stored with its hash, each partition with its own, and a handle for each export and each import.
  pub plan-nil_iff :
      (enclaves ordered : List Enclave) (actual : Map EnclaveId (EnclaveState V))
      → (plan hashes enclaves ordered actual ≡ []) ↔ (
          All
            (λ (p : EnclaveId × EnclaveState V). Mem p.0 (map (λ (e : Enclave). e.id) enclaves))
            actual
          × All (InSync hashes actual) ordered)
  unfolding plan
  plan-nil_iff enclaves ordered actual = (
    (λ h.
        let (hd, hrest) = append-eq-nil (map enclave_deleted (removed_ids enclaves actual)) _ h in
        let (hr, hw) = append-eq-nil (flat_map (resource_changes hashes actual) ordered) _ hrest in
        (
          (removed_ids-nil enclaves actual).0 (map-nil (removed_ids enclaves actual) hd),
          both ordered (flat_map-eq-nil (resource_changes hashes actual) ordered hr)
              (flat_map-eq-nil (wiring_changes actual) ordered hw),
        )),
    (λ (kept, synced).
        rw
          (
            (removed_ids-nil enclaves actual).1 kept,
            flat_map-nil (resource_changes hashes actual) ordered
                (All-map (λ e c. (InSync-changes actual e c).0) ordered synced),
            flat_map-nil (wiring_changes actual) ordered
                (All-map (λ e c. (InSync-changes actual e c).1) ordered synced),
          )
          refl),
  )
    where
      map-nil : (ids : List EnclaveId) → map enclave_deleted ids ≡ [] → ids ≡ []
      map-nil [] h = refl
      map-nil (x ∷ ids) h = cc

      both :
          (es : List Enclave)
          → All (λ e. resource_changes hashes actual e ≡ []) es
          → All (λ e. wiring_changes actual e ≡ []) es
          → All (InSync hashes actual) es
      both [] h k = tt
      both (e ∷ es) h k = (changes-InSync actual e h.0 k.0, both es h.1 k.1)
