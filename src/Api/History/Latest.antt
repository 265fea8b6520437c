-- ===== src/Api/History/Latest.antt =====
-- `get_latest_iac_run` over the store of crates/nclav-store/src/memory.rs.
use nclav.Base.Effects.{pure, ◌>>=◌}
use nclav.Base.{
  ◌≤◌, ◌≡◌, refl, sym, subst, ap, inl, inr, Bool-cases, leb, none, some, Option-cases, List, [],
  ◌∷◌, Mem, here, there, All, All-at, All-map, ok, arith,
}
use nclav.Store.{IacRun, Json}
use nclav.Store.Memory.{Inner, values, list_iac_runs as list_stored}
use nclav.Store.Memory.Runs.{list_iac_runs-IsNewestFirst, list_iac_runs-newest, list_iac_runs-mem}
use nclav.Api.{AppState, or_not_found, read_store}
use nclav.Api.Memory.{memory_store}
use nclav.Api.History.{latest_run, list_iac_runs, get_latest_iac_run}

-- The run is one of the list, and none of the list is newer.
abbrev IsLatest : IacRun → List IacRun → Type 0
IsLatest r rs = Mem r rs × All (λ q. q.started_at ≤ r.started_at) rs

latest_run-nil : (rs : List IacRun) → latest_run rs ≡ none → rs ≡ []
unfolding latest_run
latest_run-nil [] h = refl
latest_run-nil (r ∷ rs) h = elim (Option-cases (latest_run rs)) [
  | inl e ↦ absurd (ground arith)
  | inr (q, e) ↦ absurd (ground arith)
]

latest_run-IsLatest : (rs : List IacRun) (r : IacRun) → latest_run rs ≡ some r → IsLatest r rs
unfolding latest_run
latest_run-IsLatest [] r h = cc
latest_run-IsLatest (x ∷ rs) r h = elim (Option-cases (latest_run rs)) [
  | inl e ↦
      let same : x ≡ r = ground arith in
      let empty = latest_run-nil rs e in
      subst (λ k. IsLatest k (x ∷ rs)) same
        (subst (λ l. IsLatest x (x ∷ l)) (sym empty) (here, (omega arith, tt)))
  | inr (q, e) ↦
      let (m, below) = latest_run-IsLatest rs q e in
      elim (Bool-cases (leb x.started_at q.started_at)) [
        | inl le ↦
            let same : q ≡ r = ground arith in
            subst (λ k. IsLatest k (x ∷ rs)) same (there m, (ground arith, below))
        | inr gt ↦
            let same : x ≡ r = ground arith in
            subst (λ k. IsLatest k (x ∷ rs)) same
              (
                here,
                (
                  omega arith,
                  All-map (λ k (l : k.started_at ≤ q.started_at). ground arith) rs below,
                ),
              )
      ]
]

latest_run-some :
    (rs : List IacRun) {q : IacRun} → Mem q rs → (r : IacRun) × (latest_run rs ≡ some r)
latest_run-some rs m = elim (Option-cases (latest_run rs)) [
  | inr found ↦ found
  | inl e ↦ elim (subst (Mem _) (latest_run-nil rs e) m) [ ]
]

module _ {V W : Type 0} (j : Json V) (state : AppState V (Inner V) W) where
  -- Where a partition has a stored run, the latest run that is answered is one of the partition, and no
  -- stored run of the partition is newer.
  pub get_latest_iac_run-IsLatest :
      (q : IacRun) (t : Inner V × W)
      → Mem q (values t.0.iac_runs)
      → (r : IacRun) × (get_latest_iac_run
            (record state { store = memory_store j })
            q.enclave_id
            q.partition_id
            t
          ≡ (ok r, t))
        × (r.enclave_id ≡ q.enclave_id)
        × (r.partition_id ≡ q.partition_id)
        × (q.started_at ≤ r.started_at)
  unfolding get_latest_iac_run list_iac_runs read_store or_not_found pure ◌>>=◌
  get_latest_iac_run-IsLatest q t m =
      let listed = list_stored q.enclave_id q.partition_id t.0 in
      let (first, n) = list_iac_runs-mem t.0 q m in
      let (r, e) = latest_run-some listed n in
      let (present, below) = latest_run-IsLatest listed r e in
      let own =
        All-at (λ k. (k.enclave_id ≡ q.enclave_id) × (k.partition_id ≡ q.partition_id)) present
          (list_iac_runs-IsNewestFirst q.enclave_id q.partition_id t.0).2 in
      (
        r,
        ap (λ o. or_not_found "no IaC runs found for this partition" o t) e,
        own.0,
        own.1,
        elim (list_iac_runs-newest t.0 q m) [
          | inl here_listed ↦ All-at (λ k. k.started_at ≤ r.started_at) here_listed below
          | inr newer ↦ newer r present
        ],
      )
