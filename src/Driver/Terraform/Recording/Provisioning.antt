-- ===== src/Driver/Terraform/Recording/Provisioning.antt =====
-- What `provision` leaves in the store, on every path through its processes.
use nclav.Base.Effects.Rules.{Keeps-capture, Keeps-lift, Keeps-attempt, >>=-post, keep-post}
use nclav.Base.Effects.{pure}
use nclav.Base.{
  ℕ, ℤ, pos, ◌≡◌, refl, inl, inr, String, false, Option, Map, Result, ok, err, Bool-cases,
}
use nclav.Domain.{Enclave, Partition}
use nclav.Store.{Json, provision as provision_op}
use nclav.Driver.{DriverError}
use nclav.Driver.Terraform.{Host, TerraformBackend, extract_tf_config}
use nclav.Driver.Terraform.Keeping.{
  Spares, workspace_dir-Keeps, run_tf-Keeps, prepare-Keeps, read_outputs-Keeps,
}
use nclav.Driver.Terraform.Process.{read_outputs, is_zero}
use nclav.Driver.Terraform.Operations.{
  complete, after_apply, apply, after_init, provision_run, provision,
}
use nclav.Driver.Terraform.Recording.{
  Provisioned, Recorded, RecordedFailure, write_run-Recorded, fail_run-post, err≢ok,
}

module _ {V S W P : Type 0} (host : Host V S W P) (j : Json V) (self : TerraformBackend V S)
    {X : Type 0} (view : S → X) (spares : Spares host view) (enclave : Enclave)
    (partition : Partition) (reconcile_run_id : Option ℕ) (auth_env : Map String String) where
  complete-Provisioned :
      (binary workspace log : String) (s : S) (t : S × W)
      → view t.0 ≡ view s
      → let x =
          complete host j self enclave partition auth_env reconcile_run_id binary workspace log t in
        Provisioned host j self view enclave partition reconcile_run_id s x.0 x.1.0
  unfolding complete Provisioned pure
  complete-Provisioned binary workspace log s t same =
      keep-post view s (Provisioned host j self view enclave partition reconcile_run_id s)
        (read_outputs host j self binary workspace partition.declared_outputs auth_env) _
        (read_outputs-Keeps host view spares j self binary workspace partition.declared_outputs
          auth_env)
        (λ e u same. inl same)
        (λ outputs u kept.
          >>=-post
            (λ r v.
              (r ≡ ok tt)
              × Recorded host j self view enclave partition reconcile_run_id provision_op (pos 0) s
                  v.0)
            (λ r v. Provisioned host j self view enclave partition reconcile_run_id s r v.0) _ _ u
            (write_run-Recorded host j self view enclave partition reconcile_run_id provision_op log
              (pos 0) s u kept)
            (λ a v q. q.1) (λ f v q. absurd (err≢ok q.0)))
        t same

  unchanged-or :
      (s s' : S) (e : DriverError)
      → RecordedFailure host j self view enclave partition reconcile_run_id provision_op s s'
      → Provisioned host j self view enclave partition reconcile_run_id s (err e) s'
  unfolding Provisioned
  unchanged-or s s' e r = inr r

  after_apply-Provisioned :
      (binary workspace log : String) (r : Result DriverError (ℤ × String)) (s : S) (t : S × W)
      → view t.0 ≡ view s
      → let x =
          after_apply host j self enclave partition auth_env reconcile_run_id binary workspace log r
            t in
        Provisioned host j self view enclave partition reconcile_run_id s x.0 x.1.0
  unfolding after_apply
  after_apply-Provisioned binary workspace log (err e) s t same =
      fail_run-post host j self view enclave partition reconcile_run_id auth_env
        (Provisioned host j self view enclave partition reconcile_run_id s) provision_op _ (pos 1) _
        s t same refl (λ s'. unchanged-or s s' _)
  after_apply-Provisioned binary workspace log (ok (exit, output)) s t same =
      elim (Bool-cases (is_zero exit)) [
        | inl z ↦ rw z (complete-Provisioned binary workspace _ s t same)
        | inr z ↦ rw z (
            fail_run-post host j self view enclave partition reconcile_run_id auth_env
              (Provisioned host j self view enclave partition reconcile_run_id s) provision_op _
              exit _ s t same z (λ s'. unchanged-or s s' _))
      ]

  apply-Provisioned :
      (binary workspace log : String) (s : S) (t : S × W)
      → view t.0 ≡ view s
      → let x =
          apply host j self enclave partition auth_env reconcile_run_id binary workspace log t in
        Provisioned host j self view enclave partition reconcile_run_id s x.0 x.1.0
  unfolding apply Provisioned
  apply-Provisioned binary workspace log s t same =
      keep-post view s (Provisioned host j self view enclave partition reconcile_run_id s) _
        (after_apply host j self enclave partition auth_env reconcile_run_id binary workspace log)
        (Keeps-capture (run_tf-Keeps host view spares self binary workspace _ auth_env))
        (λ e u same. inl same) (λ r u kept. after_apply-Provisioned binary workspace log r s u kept)
        t same

  after_init-Provisioned :
      (binary workspace : String) (r : Result DriverError (ℤ × String)) (s : S) (t : S × W)
      → view t.0 ≡ view s
      → let x =
          after_init host j self enclave partition auth_env reconcile_run_id binary workspace r t in
        Provisioned host j self view enclave partition reconcile_run_id s x.0 x.1.0
  unfolding after_init
  after_init-Provisioned binary workspace (err e) s t same =
      fail_run-post host j self view enclave partition reconcile_run_id auth_env
        (Provisioned host j self view enclave partition reconcile_run_id s) provision_op _ (pos 1) _
        s t same refl (λ s'. unchanged-or s s' _)
  after_init-Provisioned binary workspace (ok (exit, output)) s t same =
      elim (Bool-cases (is_zero exit)) [
        | inl z ↦ rw z (apply-Provisioned binary workspace _ s t same)
        | inr z ↦ rw z (
            fail_run-post host j self view enclave partition reconcile_run_id auth_env
              (Provisioned host j self view enclave partition reconcile_run_id s) provision_op _
              exit _ s t same z (λ s'. unchanged-or s s' _))
      ]

  provision_run-Provisioned :
      (resolved_inputs : Map String String) (t : S × W)
      → let x =
          provision_run host j self enclave partition auth_env reconcile_run_id resolved_inputs t in
        Provisioned host j self view enclave partition reconcile_run_id t.0 x.0 x.1.0
  unfolding provision_run Provisioned
  provision_run-Provisioned resolved_inputs t =
      keep-post view t.0 (Provisioned host j self view enclave partition reconcile_run_id t.0) _ _
        (Keeps-lift (extract_tf_config partition)) (λ e u same. inl same)
        (λ config u k.
          keep-post view t.0 (Provisioned host j self view enclave partition reconcile_run_id t.0) _
            _ (workspace_dir-Keeps host view spares self enclave.id partition.id)
            (λ e u same. inl same)
            (λ workspace v k'.
              keep-post view t.0
                (Provisioned host j self view enclave partition reconcile_run_id t.0) _ _
                (Keeps-attempt _ (host.create_dir_all workspace)) (λ e u same. inl same)
                (λ made v' k''.
                  keep-post view t.0
                    (Provisioned host j self view enclave partition reconcile_run_id t.0) _ _
                    (prepare-Keeps host view spares config.1 workspace enclave.id partition.id
                      partition.declared_outputs resolved_inputs)
                    (λ e u same. inl same)
                    (λ ready w l.
                      keep-post view t.0
                        (Provisioned host j self view enclave partition reconcile_run_id t.0) _
                        (after_init host j self enclave partition auth_env reconcile_run_id config.0
                          workspace)
                        (Keeps-capture
                          (run_tf-Keeps host view spares self config.0 workspace _ auth_env))
                        (λ e u same. inl same)
                        (λ r w' l'. after_init-Provisioned config.0 workspace r t.0 w' l') w l)
                    v' k'')
                v k')
            u k)
        t refl

  -- Outside the test mode, where the processes leave the view of the store: after a success the store is
  -- what storing a succeeded run of the partition with exit code 0 leaves; after a failure it has the view
  -- it had, or is what storing a failed run with another code leaves.
  pub provision-Provisioned :
      (resolved_inputs : Map String String) (t : S × W)
      → self.test_mode ≡ false
      → let x =
          provision host j self enclave partition resolved_inputs auth_env reconcile_run_id t in
        Provisioned host j self view enclave partition reconcile_run_id t.0 x.0 x.1.0
  unfolding provision
  provision-Provisioned resolved_inputs t h = simp h (provision_run-Provisioned resolved_inputs t)
