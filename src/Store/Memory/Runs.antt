-- ===== src/Store/Memory/Runs.antt =====
-- The listing of runs in crates/nclav-store/src/memory.rs.
use nclav.Base.{
  ℕ, suc, ◌≤◌, ◌≡◌, sym, subst, Bool, true, Bool-cases, ◌&&◌, inl, inr, ◌⊎◌, List, [], ◌∷◌, ◌++◌,
  All, All-map, All-at, All-split, All-filter, Mem, here, there, mem-cons, mem-filter, mem-append,
  length, take, drop, filter, take-append-drop, length-take-le, ltb, ◌==◌, ==_iff, string_eq, arith,
}
use nclav.Domain.{EnclaveId, PartitionId}
use nclav.Store.State.{IacRun}
use nclav.Store.Memory.{Inner, values, insert_run, sort_runs, list_iac_runs}

-- Newest first.
abbrev pub IsNewestFirst : List IacRun → Type 0
IsNewestFirst [] = Unit
IsNewestFirst (r ∷ rs) = All (λ q. q.started_at ≤ r.started_at) rs × IsNewestFirst rs

All-insert_run :
    (P : IacRun → Type 0) (r : IacRun) (rs : List IacRun) → P r → All P rs → All P (insert_run r rs)
unfolding insert_run
All-insert_run P r [] hr h = (hr, tt)
All-insert_run P r (q ∷ rs) hr h = elim (Bool-cases (ltb r.started_at q.started_at)) [
  | inl e ↦ rw e (h.0, All-insert_run P r rs hr h.1)
  | inr e ↦ rw e (hr, h)
]

insert_run-IsNewestFirst :
    (r : IacRun) (rs : List IacRun) → IsNewestFirst rs → IsNewestFirst (insert_run r rs)
unfolding insert_run
insert_run-IsNewestFirst r [] h = (tt, tt)
insert_run-IsNewestFirst r (q ∷ rs) h = elim (Bool-cases (ltb r.started_at q.started_at)) [
  | inl e ↦ rw e (
    All-insert_run (λ k. k.started_at ≤ q.started_at) r rs (ground arith) h.0,
    insert_run-IsNewestFirst r rs h.1,
  )
  | inr e ↦
      rw e ((ground arith, All-map (λ k (l : k.started_at ≤ q.started_at). ground arith) rs h.0), h)
]

sort_runs-IsNewestFirst : (rs : List IacRun) → IsNewestFirst (sort_runs rs)
unfolding sort_runs
sort_runs-IsNewestFirst [] = tt
sort_runs-IsNewestFirst (r ∷ rs) =
    insert_run-IsNewestFirst r (sort_runs rs) (sort_runs-IsNewestFirst rs)

mem-insert_run : (r q : IacRun) (rs : List IacRun) → (q ≡ r) ⊎ Mem q rs → Mem q (insert_run r rs)
unfolding insert_run
mem-insert_run r q [] (inl e) = rw e here
mem-insert_run r q [] (inr m) = elim m [ ]
mem-insert_run r q (k ∷ rs) h = elim (Bool-cases (ltb r.started_at k.started_at)) [
  | inl e ↦ rw e (later h (mem-insert_run r q rs))
  | inr e ↦ rw e (now h)
]
  where
    later :
        (q ≡ r) ⊎ Mem q (k ∷ rs)
        → ((q ≡ r) ⊎ Mem q rs → Mem q (insert_run r rs))
        → Mem q (k ∷ insert_run r rs)
    later (inl e) f = there (f (inl e))
    later (inr m) f = elim (mem-cons m) [ inl e ↦ rw e here | inr n ↦ there (f (inr n)) ]

    now : (q ≡ r) ⊎ Mem q (k ∷ rs) → Mem q (r ∷ k ∷ rs)
    now (inl e) = rw e here
    now (inr m) = there m

mem-sort_runs : (q : IacRun) (rs : List IacRun) → Mem q rs → Mem q (sort_runs rs)
unfolding sort_runs
mem-sort_runs q [] m = elim m [ ]
mem-sort_runs q (r ∷ rs) m = elim (mem-cons m) [
  | inl e ↦ mem-insert_run r q (sort_runs rs) (inl e)
  | inr n ↦ mem-insert_run r q (sort_runs rs) (inr (mem-sort_runs q rs n))
]

All-sort_runs : (P : IacRun → Type 0) (rs : List IacRun) → All P rs → All P (sort_runs rs)
unfolding sort_runs
All-sort_runs P [] h = tt
All-sort_runs P (r ∷ rs) h = All-insert_run P r (sort_runs rs) h.0 (All-sort_runs P rs h.1)

split-IsNewestFirst :
    (xs ys : List IacRun)
    → IsNewestFirst (xs ++ ys)
    → IsNewestFirst xs
      × ((old new : IacRun) → Mem old ys → Mem new xs → old.started_at ≤ new.started_at)
split-IsNewestFirst [] ys h = (tt, λ old new m n. elim n [ ])
split-IsNewestFirst (x ∷ xs) ys h =
    let (front, back) = All-split (λ q. q.started_at ≤ x.started_at) xs ys h.0 in
    let (sorted, rest) = split-IsNewestFirst xs ys h.1 in
    (
      (front, sorted),
      λ old new m n. elim (mem-cons n) [
        | inl e ↦ rw e (All-at (λ q. q.started_at ≤ x.started_at) m back)
        | inr k ↦ rest old new m k
      ],
    )

both_tests : (a b : Bool) → (a && b) ≡ true → (a ≡ true) × (b ≡ true)
both_tests a b h = ground arith

-- A listing has at most 100 runs, all of the partition asked for, the newest first.
pub list_iac_runs-IsNewestFirst :
    {V : Type 0} (e : EnclaveId) (p : PartitionId) (s : Inner V)
    → (length (list_iac_runs e p s) ≤ 100)
      × IsNewestFirst (list_iac_runs e p s)
      × All (λ r. (r.enclave_id ≡ e) × (r.partition_id ≡ p)) (list_iac_runs e p s)
unfolding list_iac_runs
list_iac_runs-IsNewestFirst e p s =
    let test = λ (r : IacRun). r.enclave_id == e && r.partition_id == p in
    let found = filter test (values s.iac_runs) in
    let whole = sym (take-append-drop 100 (sort_runs found)) in
    (
      length-take-le 100 (sort_runs found),
      (split-IsNewestFirst (take 100 (sort_runs found)) (drop 100 (sort_runs found))
          (subst IsNewestFirst whole (sort_runs-IsNewestFirst found))).0,
      All-map
          (λ r h.
            let (he, hp) = both_tests (r.enclave_id == e) (r.partition_id == p) h in
            ((==_iff r.enclave_id e).0 he, (==_iff r.partition_id p).0 hp))
          _
          (All-split (λ r. test r ≡ true) (take 100 (sort_runs found)) (drop 100 (sort_runs found))
            (subst (All (λ r. test r ≡ true)) whole
              (All-sort_runs (λ r. test r ≡ true) found (All-filter test (values s.iac_runs))))).0,
    )

-- A stored run of the partition is listed, or is no newer than any run listed.
pub list_iac_runs-newest :
    {V : Type 0} (s : Inner V) (run : IacRun)
    → Mem run (values s.iac_runs)
    → Mem run (list_iac_runs run.enclave_id run.partition_id s)
      ⊎ ((listed : IacRun)
          → Mem listed (list_iac_runs run.enclave_id run.partition_id s)
          → run.started_at ≤ listed.started_at)
unfolding list_iac_runs
list_iac_runs-newest s run m =
    let test =
      λ (r : IacRun). r.enclave_id == run.enclave_id && r.partition_id == run.partition_id in
    let found = filter test (values s.iac_runs) in
    let whole = sym (take-append-drop 100 (sort_runs found)) in
    let sorted =
      split-IsNewestFirst (take 100 (sort_runs found)) (drop 100 (sort_runs found))
        (subst IsNewestFirst whole (sort_runs-IsNewestFirst found)) in
    let own : test run ≡ true =
      ground
        (arith, ==_iff run.enclave_id run.enclave_id, ==_iff run.partition_id run.partition_id) in
    let present = mem-sort_runs run found (mem-filter test (values s.iac_runs) m own) in
    elim (mem-append (take 100 (sort_runs found)) (subst (Mem run) whole present)) [
      | inl n ↦ inl n
      | inr n ↦ inr (λ listed l. sorted.1 run listed n l)
    ]

mem-take :
    (n : ℕ) (q : IacRun) (rs : List IacRun) → Mem q rs → (r : IacRun) × Mem r (take (suc n) rs)
mem-take n q [] m = elim m [ ]
mem-take n q (r ∷ rs) m = (r, here)

-- A partition with a stored run has a listing with a run.
pub list_iac_runs-mem :
    {V : Type 0} (s : Inner V) (run : IacRun)
    → Mem run (values s.iac_runs)
    → (r : IacRun) × Mem r (list_iac_runs run.enclave_id run.partition_id s)
unfolding list_iac_runs
list_iac_runs-mem s run m =
    let test =
      λ (r : IacRun). r.enclave_id == run.enclave_id && r.partition_id == run.partition_id in
    let own : test run ≡ true =
      ground
        (arith, ==_iff run.enclave_id run.enclave_id, ==_iff run.partition_id run.partition_id) in
    let found = filter test (values s.iac_runs) in
    mem-take 99 run (sort_runs found)
      (mem-sort_runs run found (mem-filter test (values s.iac_runs) m own))
