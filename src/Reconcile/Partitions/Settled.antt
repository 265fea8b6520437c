-- ===== src/Reconcile/Partitions/Settled.antt =====
-- What the loop over the partitions of an enclave leaves behind.
use nclav.Base.{
  ap, subst, All-of_map, ℕ, String, ◌≡◌, ◌≢◌, refl, sym, ◌∙◌, ◌⊎◌, inl, inr, true, Bool-cases,
  Option, Option-cases, none, some, is_some, unwrap_or, List, [], ◌∷◌, map, All, Distinct, Map, get,
  insert, get-insert, get-insert_self, Result, ok, err, ==_iff, string_eq, arith,
}
use nclav.Domain.{Enclave, Partition, PartitionId}
use nclav.Store.{EnclaveState, PartitionState, new_partition_state, mark_active, mark_error, error}
use nclav.Driver.{Driver, DriverError, ProvisionResult}
use nclav.Reconcile.Plan.{hash_unchanged, part_meta_of}
use nclav.Reconcile.Action.{Env, Run, for_fold}
use nclav.Reconcile.Contract.{
  Ends, IsStore, upserting, appending, Ends->>=, Ends-weaken, Ends-outside, Ends-outside_store,
  Ends-try_store, Ends-push_error, Ends-pure, Ends-write_store,
}
use nclav.Reconcile.Partitions.{
  modify_partition, run_terraform, record_result, apply_partition, provision_partition,
  provision_partitions,
}

-- A partition is stored with the hash, or in error with the message of the error.
unfoldable pub Settled : {V : Type 0} → Option (PartitionState V) → String → Type 0
Settled none hash = ⊥
Settled (some s) hash =
    (s.meta.desired_hash ≡ some hash)
    ⊎ ((s.meta.status ≡ error) × (is_some s.meta.last_error ≡ true))

module _ {V : Type 0} where
  -- Nothing has changed but the state of one partition.
  pub record Near (part : Partition) (before after : EnclaveState V) : Type 0 where
    pub others :
        (id : PartitionId) → id ≢ part.id → get id after.partitions ≡ get id before.partitions
    pub rest : record after { partitions = before.partitions } ≡ before

  Near-self : (part : Partition) (st : EnclaveState V) → Near part st st
  Near-self part st = record { others = λ id ne. refl; rest = refl }

  Near-insert :
      (part : Partition) (before after : EnclaveState V) (ps : PartitionState V)
      → Near part before after
      → Near part before (record after { partitions = insert part.id ps after.partitions })
  Near-insert part before after ps n = record {
    others = λ id ne.
        ground
          (arith, get-insert part.id id ps after.partitions, ==_iff part.id id, n.others id ne);
    rest = n.rest;
  }

  Near-modify_partition :
      (part : Partition) (before after : EnclaveState V) (f : PartitionState V → PartitionState V)
      → Near part before after
      → Near part before (modify_partition part f after)
  unfolding modify_partition
  Near-modify_partition part before after f n = Near-insert part before after _ n

  get-modify_partition :
      (part : Partition) (f : PartitionState V → PartitionState V) (st : EnclaveState V)
      → get part.id (modify_partition part f st).partitions
        ≡ some (f (unwrap_or (get part.id st.partitions) (new_partition_state part)))
  unfolding modify_partition
  get-modify_partition part f st = get-insert_self part.id _ st.partitions

  -- The step for `part` from `before`, with the hash of the partition.
  pub record Done (part : Partition) (hash : String) (before after : EnclaveState V) : Type 0 where
    pub near : Near part before after
    pub settled : Settled (get part.id after.partitions) hash

  Settled-hash_unchanged :
      (ps : Option (PartitionState V)) (hash : String)
      → hash_unchanged (part_meta_of ps) hash ≡ true
      → Settled ps hash
  unfolding hash_unchanged Settled
  Settled-hash_unchanged none hash h = ground arith
  Settled-hash_unchanged (some s) hash h = elim (Option-cases s.meta.desired_hash) [
    | inl e ↦ ground arith
    | inr (x, e) ↦ inl (ground (arith, ==_iff x hash))
  ]

module _ {V S W : Type 0} (env : Env V S W) (run_id : ℕ) (driver : Driver V W) (enc : Enclave) where
  record_result-Done :
      (part : Partition) (hash : String) (before st : EnclaveState V)
      (result : Result String (ProvisionResult V)) (r : Run S W)
      → Near part before st
      → Ends
          (IsStore env.state_store)
          (λ after _. Done part hash before after)
          (record_result env run_id driver enc part hash st result r)
  unfolding record_result Settled mark_active mark_error
  record_result-Done part hash before st (ok result) r n = Ends-outside _ _ _ _ _ (
      Ends-outside _ _ _ _ _ (
        Ends-outside _ _ _ _ _ (
          Ends-write_store _ _ _ _ _ (λ e f. appending f)
            (λ a. Ends-pure _ _ _ _ (record {
              near = Near-modify_partition part before st _ n;
              settled = rw (get-modify_partition part _ st) (inl refl);
            })))))
  record_result-Done part hash before st (err msg) r n = Ends-outside _ _ _ _ _ (
      Ends-outside _ _ _ _ _ (
        Ends-outside _ _ _ _ _ (
          Ends-write_store _ _ _ _ _ (λ e f. appending f)
            (λ a. Ends-push_error _ _ _ _ _ (
              Ends-pure _ _ _ _ (record {
                near = Near-modify_partition part before st _ n;
                settled = rw (get-modify_partition part _ st) (inr (refl, refl));
              }))))))

  run_terraform-Near :
      (part : Partition) (inputs : Map String String) (before st : EnclaveState V)
      (result : Result DriverError (ProvisionResult V)) (r : Run S W)
      → Near part before st
      → Ends
          (IsStore env.state_store)
          (λ p _. Near part before p.1)
          (run_terraform env run_id driver enc part inputs st result r)
  unfolding run_terraform
  run_terraform-Near part inputs before st (err e) r n = Ends-pure _ _ _ _ n
  run_terraform-Near part inputs before st (ok res) r n =
      Ends-try_store _ _ _ _ _ (
        Ends-outside_store _ _ _ _ _ (Ends-pure _ _ _ _ (Near-modify_partition part before st _ n)))

  apply_partition-Done :
      (part : Partition) (hash : String) (st : EnclaveState V) (r : Run S W)
      → Ends
          (IsStore env.state_store)
          (λ after _. Done part hash st after)
          (apply_partition env run_id driver enc part hash st r)
  unfolding apply_partition
  apply_partition-Done part hash st r =
      Ends-write_store _ _ _ _ _ (λ e f. upserting f)
        (λ a. Ends-outside _ _ _ _ _ (
          Ends->>= _ _ _ _ _ _
            (run_terraform-Near part _ st _ _ _ (Near-insert part st st _ (Near-self part st)))
            (λ p r' n. record_result-Done part hash st p.1 p.0 r' n)))

  pub provision_partition-Done :
      (part : Partition) (st : EnclaveState V) (r : Run S W)
      → Ends
          (IsStore env.state_store)
          (λ after _. Done part (env.hashes.partition_hash part) st after)
          (provision_partition env run_id driver enc part st r)
  unfolding provision_partition
  provision_partition-Done part st r =
      let hash = env.hashes.partition_hash part in
      elim (Bool-cases (hash_unchanged (part_meta_of (get part.id st.partitions)) hash)) [
        | inl e ↦ rw e (
            Ends-pure _ _ _ _ (record {
              near = Near-self part st;
              settled = Settled-hash_unchanged (get part.id st.partitions) hash e;
            }))
        | inr e ↦ rw e (apply_partition-Done part hash st r)
      ]

  -- What the loop over `parts` leaves behind.
  pub record Swept (parts : List Partition) (before after : EnclaveState V) : Type 0 where
    pub others :
        (id : PartitionId)
        → All (λ (p : Partition). id ≢ p.id) parts
        → get id after.partitions ≡ get id before.partitions
    pub rest : record after { partitions = before.partitions } ≡ before
    pub settled :
        All
          (λ (p : Partition). Settled (get p.id after.partitions) (env.hashes.partition_hash p))
          parts

  Swept-cons :
      (part : Partition) (parts : List Partition) (before mid after : EnclaveState V)
      → All (λ (p : Partition). part.id ≢ p.id) parts
      → Done part (env.hashes.partition_hash part) before mid
      → Swept parts mid after
      → Swept (part ∷ parts) before after
  Swept-cons part parts before mid after d done swept = record {
    others = λ id ne. swept.others id ne.1 ∙ done.near.others id ne.0;
    rest =
        ap (λ (s : EnclaveState V). record s { partitions = before.partitions }) swept.rest
        ∙ done.near.rest;
    settled = (
      subst (λ ps. Settled ps (env.hashes.partition_hash part)) (sym (swept.others part.id d))
          done.settled,
      swept.settled,
    );
  }

  for_fold-Swept :
      (parts : List Partition) (st : EnclaveState V) (r : Run S W)
      → Distinct (map (λ (p : Partition). p.id) parts)
      → Ends
          (IsStore env.state_store)
          (λ after _. Swept parts st after)
          (for_fold (provision_partition env run_id driver enc) parts st r)
  unfolding for_fold
  for_fold-Swept [] st r d =
      Ends-pure _ _ _ _ (record { others = λ id ne. refl; rest = refl; settled = tt })
  for_fold-Swept (part ∷ parts) st r d =
      Ends->>= _ _ _ _ _ _ (provision_partition-Done part st r) (λ mid r' done.
        Ends-weaken _ _ _ _ (for_fold-Swept parts mid r' d.1) (λ after _ swept.
          Swept-cons part parts st mid after (All-of_map _ (λ (p : Partition). p.id) parts d.0) done
            swept))

  -- With distinct identifiers, the loop over the partitions of an enclave fails only where the store
  -- does. Where it ends, every partition of the enclave is stored with its hash, or in error with the
  -- message; every other partition and the rest of the enclave's state are as before.
  pub provision_partitions-Swept :
      (st : EnclaveState V) (r : Run S W)
      → Distinct (map (λ (p : Partition). p.id) enc.partitions)
      → Ends
          (IsStore env.state_store)
          (λ after _. Swept enc.partitions st after)
          (provision_partitions env run_id driver enc st r)
  unfolding provision_partitions
  provision_partitions-Swept st r d = for_fold-Swept enc.partitions st r d
