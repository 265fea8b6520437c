-- ===== src/Api/Status/Counts.antt =====
-- The counts of `status`.
use nclav.Base.{
  ℕ, ◌+◌, ◌≡◌, refl, ap, ◌∙◌, String, Bool, unwrap_or, List, [], ◌∷◌, filter, length, Map, get,
  get-insert, ◌==◌, string_eq, ==_iff, arith, Bool-cases, inl, inr, if◌then◌else◌,
}
use nclav.Store.{EnclaveState, status_name}
use nclav.Api.{AppState}
use nclav.Api.Status.{bump, count_statuses, status_view}

abbrev pub has_status : {V : Type 0} → String → EnclaveState V → Bool
has_status name s = status_name s.meta.status == name

-- A missing key counts nothing.
abbrev pub count_at : String → Map String ℕ → ℕ
count_at key m = unwrap_or (get key m) 0

count_at-bump :
    (key name : String) (m : Map String ℕ)
    → count_at name (bump key m) ≡ (if key == name then count_at name m + 1 else count_at name m)
unfolding bump
count_at-bump key name m =
    ap (λ o. unwrap_or o 0) (get-insert key name (count_at key m + 1) m)
    ∙ elim (Bool-cases (key == name)) [
      | inl e ↦ rw e (ap (λ k. count_at k m + 1) ((==_iff key name).0 e))
      | inr e ↦ rw e refl
    ]

count_at-count_statuses :
    {V : Type 0} (name : String) (ss : List (EnclaveState V)) (m : Map String ℕ)
    → count_at name (count_statuses ss m) ≡ count_at name m + length (filter (has_status name) ss)
unfolding count_statuses filter
count_at-count_statuses name [] m = omega arith
count_at-count_statuses name (s ∷ ss) m =
    let key = status_name s.meta.status in
    let more = length (filter (has_status name) ss) in
    let rest = count_at-count_statuses name ss (bump key m) in
    let bumped = rest ∙ ap (λ n. n + more) (count_at-bump key name m) in
    elim (Bool-cases (key == name)) [
      | inl e ↦ bumped ∙ rw e (omega arith)
      | inr e ↦ bumped ∙ rw e refl
    ]

-- For every name of a status, `status` counts the stored enclaves that have it.
pub status_view-counts :
    {V S W : Type 0} (state : AppState V S W) (name : String) (enclaves : List (EnclaveState V))
    → count_at name (status_view state enclaves).by_status
      ≡ length (filter (has_status name) enclaves)
unfolding status_view
status_view-counts state name enclaves = count_at-count_statuses name enclaves [] ∙ omega arith
