-- ===== src/Driver/Terraform/Recording.antt =====
-- The runs that `TerraformBackend` records in the store.
pub mod Provisioning
pub mod TearingDown
pub mod InMemory
use nclav.Base.Effects.Rules.{Keeps, Keeps-capture, Keeps-lift, Keeps-attempt, >>=-post, keep-post}
use nclav.Base.Effects.{pure, throw, ◌>>=◌, ◌>>◌, capture, lift, outside, attempt, in_store}
use nclav.Base.{
  ℕ, ℤ, pos, negsuc, zero, suc, ◌≡◌, refl, ap, sym, subst, ◌⊎◌, inl, inr, String, Bool, true, false,
  not, Option, none, some, List, Map, Result, ok, err, Bool-cases, if◌then◌else◌,
}
use nclav.Domain.{Enclave, Partition}
use nclav.Store.{
  IacRun, StoreError, IacOperation, IacRunStatus, succeeded, failed, Json,
  provision as provision_op, teardown as teardown_op,
}
use nclav.Driver.{DriverError, ProvisionResult}
use nclav.Driver.Terraform.{Act, Host, TerraformBackend, extract_tf_config}
use nclav.Driver.Terraform.Workspace.{workspace_base, workspace_dir}
use nclav.Driver.Terraform.Keeping.{
  workspace_dir-Keeps, run_tf-Keeps, prepare-Keeps, read_outputs-Keeps,
}
use nclav.Driver.Terraform.Process.{is_zero, run_status, run_tf, new_run, write_run}
use nclav.Driver.Terraform.Operations.{
  fail_run, complete, after_apply, apply, after_init, provision_run, after_destroy, destroy,
  teardown_run, provision, teardown,
}

-- The run is one of the operation on the partition, ended with `code`, and says so.
pub record IsRunOf (enc : Enclave) (part : Partition) (reconcile : Option ℕ) (op : IacOperation)
    (code : ℤ) (run : IacRun) : Type 0 where
  pub enclave_id : run.enclave_id ≡ enc.id
  pub partition_id : run.partition_id ≡ part.id
  pub reconcile_run_id : run.reconcile_run_id ≡ reconcile
  pub operation : run.operation ≡ op
  pub exit_code : run.exit_code ≡ some code
  pub status : run.status ≡ (if is_zero code then succeeded else failed)

pub err≢ok : {f : DriverError} → ◌≡◌ {A = Result DriverError (Unit {0})} (err f) (ok tt) → ⊥
err≢ok q = cc

module _ {V S W P : Type 0} (host : Host V S W P) (j : Json V) (self : TerraformBackend V S)
    {X : Type 0} (view : S → X) (enclave : Enclave) (partition : Partition)
    (reconcile_run_id : Option ℕ) where
  -- The second store is what storing a run of the operation, which ended with `code`, leaves of a store
  -- with the view of the first. The answer of the store is only logged.
  unfoldable pub Recorded : IacOperation → ℤ → S → S → Type 0
  Recorded operation code s s' =
      (run : IacRun) × IsRunOf enclave partition reconcile_run_id operation code run
      × ((before : S) × (answer : Result (StoreError V) (Unit {0})) × ((view before ≡ view s)
            × (self.upsert_iac_run run before ≡ (answer, s'))))

  -- A failed run is recorded.
  unfoldable pub RecordedFailure : IacOperation → S → S → Type 0
  unfolding Recorded
  RecordedFailure operation s s' =
      (code : ℤ) × (is_zero code ≡ false) × Recorded operation code s s'

  -- What `provision` leaves in the store.
  unfoldable pub Provisioned : S → Result DriverError (ProvisionResult V) → S → Type 0
  unfolding Recorded RecordedFailure
  Provisioned s (ok result) s' = Recorded provision_op (pos 0) s s'
  Provisioned s (err e) s' = (view s' ≡ view s) ⊎ RecordedFailure provision_op s s'

  -- What `teardown` leaves in the store.
  unfoldable pub TornDown : S → Result DriverError (Unit {0}) → S → Type 0
  unfolding Recorded RecordedFailure
  TornDown s (ok done) s' = (view s' ≡ view s) ⊎ Recorded teardown_op (pos 0) s s'
  TornDown s (err e) s' = RecordedFailure teardown_op s s'

  new_run-IsRunOf :
      (operation : IacOperation) (log : String) (code : ℤ) (id started_at finished_at : ℕ)
      → IsRunOf enclave partition reconcile_run_id operation code (
          new_run enclave partition operation reconcile_run_id log
            (some code)
            id
            started_at
            finished_at)
  unfolding new_run run_status
  new_run-IsRunOf operation log code id started_at finished_at = record {
    enclave_id = refl;
    partition_id = refl;
    reconcile_run_id = refl;
    operation = refl;
    exit_code = refl;
    status = status code;
  }
    where
      status : (c : ℤ) → run_status (some c) ≡ (if is_zero c then succeeded else failed)
      status (pos zero) = refl
      status (pos (suc n)) = refl
      status (negsuc n) = refl

  -- `write_run` succeeds, and stores one run.
  pub write_run-Recorded :
      (operation : IacOperation) (log : String) (code : ℤ) (s : S) (t : S × W)
      → view t.0 ≡ view s
      → let x =
          write_run host self enclave partition operation reconcile_run_id log (some code) t in
        (x.0 ≡ ok tt) × Recorded operation code s x.1.0
  unfolding Recorded write_run outside in_store pure ◌>>=◌
  write_run-Recorded operation log code s t same =
      let id = host.new_uuid t.1 in
      let started = host.now id.1 in
      let run =
        new_run enclave partition operation reconcile_run_id log (some code) id.0 started.0
          (host.now started.1).0 in
      (
        refl,
        (
          run,
          new_run-IsRunOf operation log code id.0 started.0 (host.now started.1).0,
          (t.0, (self.upsert_iac_run run t.0).0, (same, refl)),
        ),
      )

  module _ (auth_env : Map String String) where
    pub fail_run-post :
        {A : Type 0} (P : Result DriverError A → S → Type 0) (operation : IacOperation)
        (log : String) (code : ℤ) (e : DriverError) (s : S) (t : S × W)
        → view t.0 ≡ view s
        → is_zero code ≡ false
        → ((s' : S) → RecordedFailure operation s s' → P (err e) s')
        → let x =
            fail_run host j self enclave partition auth_env reconcile_run_id operation log code e
              t in
          P x.0 x.1.0
    unfolding fail_run RecordedFailure throw
    fail_run-post P operation log code e s t same failing k =
        >>=-post (λ r u. (r ≡ ok tt) × Recorded operation code s u.0) (λ r u. P r u.0)
          (write_run host self enclave partition operation reconcile_run_id log (some code))
          (λ _. throw e) t (write_run-Recorded operation log code s t same)
          (λ a u q. k u.0 (code, failing, q.1)) (λ f u q. absurd (err≢ok q.0))
