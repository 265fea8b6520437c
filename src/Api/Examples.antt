-- ===== src/Api/Examples.antt =====
-- The server over a store in memory with one enclave, a driver that answers every call and a Terraform that
-- exits with the number of the world.
use nclav.Base.Texts.{chars}
use nclav.Base.{
  ℕ, pos, ◌≡◌, ◌↔◌, ◌≤◌, refl, true, false, none, some, [], ◌∷◌, filter, length, here, ok, arith,
  eq_iff, get, insert, string_eq,
}
use nclav.Domain.{cloud_eq, cloud_beq}
use nclav.Store.{EnclaveState, new_enclave_state, new_partition_state, IacRun, succeeded, provision}
use nclav.Store.Documents.{Doc, text, documents}
use nclav.Store.Memory.{Inner, new_store}
use nclav.Driver.Registry.{for_cloud, register}
use nclav.Driver.Terraform.Examples.{host_with, host_with-ByRequests}
use nclav.Reconcile.Examples.{queue, shop, echo, env}
use nclav.Api.{AppState}
use nclav.Api.Memory.{memory_store}
use nclav.Api.Auth.{Codec, Carries, is_authorized, is_authorized_iff}
use nclav.Api.Enclaves.{ReconcileBody, post_reconcile_dry_run, delete_partition}
use nclav.Api.Enclaves.Deletion.{
  memory_app, Deleted, PartitionAnswer, without, delete_partition-remove,
}
use nclav.Api.Enclaves.Reconciling.{post_reconcile_dry_run-state}
use nclav.Api.TfState.{bytes, get_tf_state, put_tf_state}
use nclav.Api.TfState.Separation.{get-put_tf_state}
use nclav.Api.History.{get_latest_iac_run}
use nclav.Api.History.Latest.{get_latest_iac_run-IsLatest}
use nclav.Api.Status.{status_view}
use nclav.Api.Status.Counts.{has_status, count_at, status_view-counts}

-- Encoded text is the list of its characters' numbers.
abbrev a_codec : Codec
a_codec = record { decode = λ t. some []; from_utf8 = λ b. some (chars "nclav:secret") }

abbrev a_state : EnclaveState Doc
a_state = record (new_enclave_state shop) {
  enclave_handle = some (text "project");
  partitions = ("queue", new_partition_state queue) ∷ [];
}

abbrev an_app : AppState Doc (Inner Doc) ℕ
an_app = memory_app (host_with (λ w. pos w)) documents env "http://127.0.0.1:8080" "secret"

abbrev a_run : IacRun
a_run = record {
  id = 4;
  enclave_id = "shop";
  partition_id = "queue";
  operation = provision;
  started_at = 9;
  finished_at = some 10;
  status = succeeded;
  exit_code = some (pos 0);
  log = "";
  reconcile_run_id = none;
}

abbrev a_store : Inner Doc
a_store = record new_store { enclaves = ("shop", a_state) ∷ []; iac_runs = (4, a_run) ∷ [] }

is_authorized_iff_example :
    (is_authorized a_codec "secret" (some (chars "Basic bmNsYXY")) ≡ true)
    ↔ Carries a_codec "secret" (chars "Basic bmNsYXY")
is_authorized_iff_example = is_authorized_iff a_codec "secret" (chars "Basic bmNsYXY")

delete_partition-remove_example :
    Deleted
      (PartitionAnswer "shop/queue")
      (without "shop" "queue" a_state a_store.enclaves)
      (delete_partition an_app "shop" "queue" (a_store, 1))
unfolding for_cloud get register insert cloud_beq
delete_partition-remove_example =
    delete_partition-remove (host_with (λ w. pos w)) documents (host_with-ByRequests (λ w. pos w))
      env "http://127.0.0.1:8080" "secret" "shop" "queue" a_state (new_partition_state queue) echo
      (a_store, 1) refl refl refl

abbrev a_body : ReconcileBody
a_body = record { enclaves_dir = "enclaves"; resources_only = false }

post_reconcile_dry_run-state_example :
    (post_reconcile_dry_run an_app a_body (a_store, 1)).1
    ≡ (a_store, (an_app.env.load_enclaves "enclaves" 1).1)
post_reconcile_dry_run-state_example = post_reconcile_dry_run-state an_app a_body (a_store, 1)

get-put_tf_state_example :
    let u =
      (put_tf_state (memory_store documents) {W = ℕ} "shop" "queue" (1 ∷ []) (a_store, 1)).1.0 in
    (get_tf_state (memory_store documents) "shop" "queue" u ≡ bytes 200 (1 ∷ []))
    × (get_tf_state (memory_store documents) "shop" "web" u
        ≡ get_tf_state (memory_store documents) "shop" "web" a_store)
get-put_tf_state_example =
    get-put_tf_state documents "shop" "shop" "queue" "web" (1 ∷ []) (a_store, 1) (ground arith)
      (ground arith) (λ same. ground (arith, eq_iff "queue" "web"))

get_latest_iac_run-IsLatest_example :
    (r : IacRun) × (get_latest_iac_run
        (record an_app { store = memory_store documents })
        "shop"
        "queue"
        (a_store, 1)
      ≡ (ok r, (a_store, 1)))
    × (r.enclave_id ≡ "shop")
    × (r.partition_id ≡ "queue")
    × (9 ≤ r.started_at)
get_latest_iac_run-IsLatest_example =
    get_latest_iac_run-IsLatest documents an_app a_run (a_store, 1) here

status_view-counts_example :
    count_at "pending" (status_view an_app (a_state ∷ [])).by_status
    ≡ length (filter (has_status "pending") (a_state ∷ []))
status_view-counts_example = status_view-counts an_app "pending" (a_state ∷ [])
