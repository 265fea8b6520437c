-- ===== src/Api/Enclaves/Reconciling.antt =====
-- The endpoints of `reconcile` in crates/nclav-api/src/handlers.rs.
use nclav.Base.{◌≡◌, refl, ap, true}
use nclav.Reconcile.Action.{Run}
use nclav.Reconcile.DryRun.{reconcile-dry_run}
use nclav.Reconcile.Pass.{new_report}
use nclav.Api.{AppState}
use nclav.Api.Enclaves.{ReconcileBody, run_reconcile, post_reconcile_dry_run}

module _ {V S W : Type 0} (state : AppState V S W) where
  -- The endpoint of a dry run leaves the store as it is, whatever it answers; of the world only the
  -- reading of the configuration is seen.
  pub post_reconcile_dry_run-state :
      (body : ReconcileBody) (t : S × W)
      → (post_reconcile_dry_run state body t).1
        ≡ (t.0, (state.env.load_enclaves body.enclaves_dir t.1).1)
  unfolding post_reconcile_dry_run run_reconcile
  post_reconcile_dry_run-state body t =
      ap (λ (run : Run S W). (run.store, run.world))
        (reconcile-dry_run state.env
          (record {
            enclaves_dir = body.enclaves_dir;
            dry_run = true;
            resources_only = body.resources_only;
          })
          (new_report t.0 t.1) refl)
