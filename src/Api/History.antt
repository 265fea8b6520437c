-- ===== src/Api/History.antt =====
-- crates/nclav-api/src/handlers.rs: `list_events` and the endpoints of the runs.
pub mod Latest
use nclav.Base.Effects.{throw, ◌>>=◌}
use nclav.Base.{
  ℕ, String, ◌<>◌, leb, Option, none, some, unwrap_or, List, [], ◌∷◌, if◌then◌else◌, string_eq,
}
use nclav.Domain.{EnclaveId, PartitionId}
use nclav.Store.{AuditEvent, IacRun}
use nclav.Api.{AppState, failed, Handler, bad_request, or_not_found, read_store}

-- `max_by_key(|r| r.started_at)`: of the runs with the greatest key, the last.
unfoldable pub latest_run : List IacRun → Option IacRun
latest_run [] = none
latest_run (r ∷ rs) = elim (latest_run rs) [
  | none ↦ some r
  | some q ↦ some (if leb r.started_at q.started_at then q else r)
]

module _ {V S W : Type 0} (state : AppState V S W) where
  unfoldable pub list_events : Option EnclaveId → Option ℕ → Handler S W (List AuditEvent)
  list_events enclave_id limit =
      read_store (state.store.list_events enclave_id (unwrap_or limit 100))

  unfoldable pub list_iac_runs : EnclaveId → PartitionId → Handler S W (List IacRun)
  list_iac_runs id part = read_store (state.store.list_iac_runs id part)

  unfoldable pub get_latest_iac_run : EnclaveId → PartitionId → Handler S W IacRun
  unfolding latest_run
  get_latest_iac_run id part = list_iac_runs id part >>= λ runs.
      or_not_found "no IaC runs found for this partition" (latest_run runs)

  -- `run_uuid` is what `Uuid::parse_str` gives; the enclave and the partition of the path are not read.
  unfoldable pub get_iac_run : (run_uuid : Option ℕ) → String → Handler S W IacRun
  get_iac_run none run_id = throw (failed (bad_request ("invalid run ID: " <> run_id)))
  get_iac_run (some id) run_id =
      read_store (state.store.get_iac_run id)
      >>= or_not_found ("IaC run '" <> run_id <> "' not found")
