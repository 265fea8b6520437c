-- ===== src/Driver/Terraform/Recording/TearingDown.antt =====
-- What `teardown` leaves in the store, on every path through its process.
use nclav.Base.Effects.Rules.{Keeps, Keeps-capture, Keeps-lift, Keeps-outside, >>=-post}
use nclav.Base.Effects.{pure, ◌>>=◌, capture, lift, outside}
use nclav.Base.{
  ℕ, ℤ, pos, ◌≡◌, refl, sym, subst, ◌∙◌, inl, inr, String, Bool, true, false, not, Option, none,
  some, Map, Result, ok, err, Bool-cases, if◌then◌else◌,
}
use nclav.Domain.{Enclave, Partition}
use nclav.Store.{Json, teardown as teardown_op}
use nclav.Driver.{DriverError}
use nclav.Driver.Terraform.{Act, Host, TerraformBackend, extract_tf_config}
use nclav.Driver.Terraform.Workspace.{workspace_base, workspace_dir}
use nclav.Driver.Terraform.Keeping.{Spares, workspace_dir-Keeps, run_tf-Keeps}
use nclav.Driver.Terraform.Process.{is_zero, write_run}
use nclav.Driver.Terraform.Operations.{after_destroy, destroy, teardown_run, teardown}
use nclav.Driver.Terraform.Recording.{TornDown, write_run-Recorded, fail_run-post}

unfoldable IsOk : {A : Type 0} → Result DriverError A → Type 0
IsOk (ok a) = Unit
IsOk (err e) = ⊥

-- After a part that succeeds and leaves the store alone, `P` is left to the rest.
ok_post :
    {S W X A B : Type 0} (view : S → X) (s : S) (P : Result DriverError B → S → Type 0)
    (m : Act S W A) (f : A → Act S W B) (t : S × W)
    → IsOk (m t).0
    → Keeps DriverError S W view m
    → view t.0 ≡ view s
    → ((a : A) (u : S × W) → view u.0 ≡ view s → P (f a u).0 (f a u).1.0)
    → P ((m >>= f) t).0 ((m >>= f) t).1.0
unfolding IsOk
ok_post view s P m f t good h same rest =
    >>=-post (λ r u. IsOk r × (view u.0 ≡ view s)) (λ r u. P r u.0) m f t (good, h.at t ∙ same)
      (λ a u q. rest a u q.1) (λ e u q. absurd q.0)

module _ {V S W P : Type 0} (host : Host V S W P) (j : Json V) (self : TerraformBackend V S)
    {X : Type 0} (view : S → X) (spares : Spares host view) (enclave : Enclave)
    (partition : Partition) (reconcile_run_id : Option ℕ) (auth_env : Map String String) where
  workspace_base-IsOk : (root : Option String) (t : S × W) → IsOk (workspace_base host root t).0
  unfolding workspace_base IsOk pure ◌>>=◌ outside
  workspace_base-IsOk none t = tt
  workspace_base-IsOk (some root) t = tt

  -- The directory of the workspace is always determined.
  workspace_dir-IsOk : (t : S × W) → IsOk (workspace_dir host self enclave.id partition.id t).0
  unfolding workspace_dir IsOk pure
  workspace_dir-IsOk t =
      >>=-post (λ r u. IsOk r) (λ r u. IsOk r) (workspace_base host self.workspace_root) _ t
        (workspace_base-IsOk self.workspace_root t) (λ a u q. tt) (λ e u q. absurd q)

  written-TornDown :
      (log : String) (s : S) (t : S × W)
      → view t.0 ≡ view s
      → let x =
          write_run host self enclave partition teardown_op reconcile_run_id log (some (pos 0)) t in
        TornDown host j self view enclave partition reconcile_run_id s x.0 x.1.0
  unfolding TornDown
  written-TornDown log s t same =
      let q =
        write_run-Recorded host j self view enclave partition reconcile_run_id teardown_op log
          (pos 0) s t same in
      let x =
        write_run host self enclave partition teardown_op reconcile_run_id log (some (pos 0)) t in
      subst (λ r. TornDown host j self view enclave partition reconcile_run_id s r x.1.0) (sym q.0)
        (inr q.1)

  after_destroy-TornDown :
      (r : Result DriverError (ℤ × String)) (s : S) (t : S × W)
      → view t.0 ≡ view s
      → let x = after_destroy host j self enclave partition auth_env reconcile_run_id r t in
        TornDown host j self view enclave partition reconcile_run_id s x.0 x.1.0
  unfolding after_destroy TornDown
  after_destroy-TornDown (err e) s t same =
      fail_run-post host j self view enclave partition reconcile_run_id auth_env
        (TornDown host j self view enclave partition reconcile_run_id s) teardown_op _ (pos 1) _ s t
        same refl (λ s' r. r)
  after_destroy-TornDown (ok (exit, output)) s t same = elim (Bool-cases (is_zero exit)) [
    | inl z ↦ rw z (written-TornDown _ s t same)
    | inr z ↦ rw z (
        fail_run-post host j self view enclave partition reconcile_run_id auth_env
          (TornDown host j self view enclave partition reconcile_run_id s) teardown_op _ exit _ s t
          same z (λ s' r. r))
  ]

  destroy-TornDown :
      (binary workspace : String) (s : S) (t : S × W)
      → view t.0 ≡ view s
      → let x =
          destroy host j self enclave partition auth_env reconcile_run_id binary workspace t in
        TornDown host j self view enclave partition reconcile_run_id s x.0 x.1.0
  unfolding destroy capture IsOk
  destroy-TornDown binary workspace s t same =
      ok_post view s (TornDown host j self view enclave partition reconcile_run_id s) _
        (after_destroy host j self enclave partition auth_env reconcile_run_id) t tt
        (Keeps-capture (run_tf-Keeps host view spares self binary workspace _ auth_env)) same
        (λ r u k. after_destroy-TornDown r s u k)

  teardown_run-TornDown :
      (t : S × W)
      → let x = teardown_run host j self enclave partition auth_env reconcile_run_id t in
        TornDown host j self view enclave partition reconcile_run_id t.0 x.0 x.1.0
  unfolding teardown_run extract_tf_config lift outside IsOk TornDown pure
  teardown_run-TornDown t =
      ok_post view t.0 (TornDown host j self view enclave partition reconcile_run_id t.0) _ _ t tt
        (Keeps-lift (extract_tf_config partition)) refl
        (λ config u k.
          ok_post view t.0 (TornDown host j self view enclave partition reconcile_run_id t.0) _ _ u
            (workspace_dir-IsOk u)
            (workspace_dir-Keeps host view spares self enclave.id partition.id) k
            (λ workspace v k'.
              ok_post view t.0 (TornDown host j self view enclave partition reconcile_run_id t.0) _
                _ v tt (Keeps-outside (host.exists workspace)) k'
                (λ exists w l. branch exists config.0 workspace w l)))
    where
      branch :
          (b : Bool) (binary workspace : String) (w : S × W)
          → view w.0 ≡ view t.0
          → let x =
              (if not b
                  then pure tt
                  else destroy host j self enclave partition auth_env reconcile_run_id binary
                      workspace)
                w in
            TornDown host j self view enclave partition reconcile_run_id t.0 x.0 x.1.0
      branch true binary workspace w l = destroy-TornDown binary workspace t.0 w l
      branch false binary workspace w l = inl l

  -- Outside the test mode, where the processes leave the view of the store: after a success the store has
  -- the view it had, or is what storing a succeeded run with exit code 0 leaves; after a failure it is what
  -- storing a failed run with another code leaves.
  pub teardown-TornDown :
      (t : S × W)
      → self.test_mode ≡ false
      → let x = teardown host j self enclave partition auth_env reconcile_run_id t in
        TornDown host j self view enclave partition reconcile_run_id t.0 x.0 x.1.0
  unfolding teardown
  teardown-TornDown t h = simp h (teardown_run-TornDown t)
