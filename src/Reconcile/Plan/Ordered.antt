-- ===== src/Reconcile/Plan/Ordered.antt =====
-- The diff of crates/nclav-reconciler/src/reconcile.rs over the list that `reconcile` gives it: the loaded
-- enclaves in the order of the graph.
use nclav.Base.{
  ◌≡◌, ◌↔◌, refl, sym, ap, subst, Bool, not, Bool-cases, inl, inr, Option, none, some, List, [],
  ◌∷◌, map, Map, get, from_list, get-from_list, get-from_list_mem, All, All-at, All-append,
  All-split, Mem, here, there, mem-map, mem-filter, Distinct, filter, flat_map, mem_of_any,
  string_eq,
}
use nclav.Domain.{Enclave, EnclaveId}
use nclav.Store.{EnclaveState}
use nclav.Reconcile.Plan.{Hashes, contains, ordered_desired, plan}
use nclav.Reconcile.Plan.InSync.{InSync, plan-nil_iff}

module _ {A : Type 0} (P : A → Type 0) where
  All-of_mem : (xs : List A) → ((a : A) → Mem a xs → P a) → All P xs
  All-of_mem [] h = tt
  All-of_mem (x ∷ xs) h = (h x here, All-of_mem xs (λ a m. h a (there m)))

  All-of_filter : (p : A → Bool) (xs : List A) → All P xs → All P (filter p xs)
  unfolding filter
  All-of_filter p [] h = tt
  All-of_filter p (x ∷ xs) h = elim (Bool-cases (p x)) [
    | inl e ↦ rw e (h.0, All-of_filter p xs h.1)
    | inr e ↦ rw e (All-of_filter p xs h.1)
  ]

  module _ {B : Type 0} (f : B → List A) where
    All-flat_map : (xs : List B) → ((b : B) → All P (f b)) → All P (flat_map f xs)
    All-flat_map [] h = tt
    All-flat_map (x ∷ xs) h = All-append P (f x) (flat_map f xs) (h x) (All-flat_map xs h)

    All-flat_map_at : {b : B} (xs : List B) → Mem b xs → All P (flat_map f xs) → All P (f b)
    All-flat_map_at [] m h = elim m [ ]
    All-flat_map_at (x ∷ xs) here h = (All-split P (f x) (flat_map f xs) h).0
    All-flat_map_at (x ∷ xs) (there m) h =
        All-flat_map_at xs m (All-split P (f x) (flat_map f xs) h).1

abbrev ids : List Enclave → List EnclaveId
ids es = map (λ (e : Enclave). e.id) es

abbrev entries : List Enclave → List (EnclaveId × Enclave)
entries es = map (λ (e : Enclave). (e.id, e)) es

abbrev chosen : Option Enclave → List Enclave
chosen none = []
chosen (some enc) = enc ∷ []

keys-entries : (es : List Enclave) → map (λ (p : EnclaveId × Enclave). p.0) (entries es) ≡ ids es
keys-entries [] = refl
keys-entries (e ∷ es) = ap (λ l. e.id ∷ l) (keys-entries es)

mem-entries : (es : List Enclave) {p : EnclaveId × Enclave} → Mem p (entries es) → Mem p.1 es
mem-entries [] m = elim m [ ]
mem-entries (e ∷ es) here = here
mem-entries (e ∷ es) (there m) = there (mem-entries es m)

-- The ordered list has the loaded enclaves, whatever the order of the graph lists.
module _ (P : Enclave → Type 0) (topo_ids : List EnclaveId) (enclaves : List Enclave) where
  abbrev listed_at : EnclaveId → List Enclave
  listed_at id = chosen (get id (from_list (entries enclaves)))

  abbrev unlisted : Enclave → Bool
  unlisted e = not (contains topo_ids e.id)

  All-ordered_desired : All P enclaves → All P (ordered_desired topo_ids enclaves)
  unfolding ordered_desired
  All-ordered_desired h =
      All-append P (flat_map listed_at topo_ids) (filter unlisted enclaves)
        (All-flat_map P listed_at topo_ids
          (λ id. at_lookup id (get id (from_list (entries enclaves))) refl))
        (All-of_filter P unlisted enclaves h)
    where
      at_lookup :
          (id : EnclaveId) (o : Option Enclave)
          → get id (from_list (entries enclaves)) ≡ o
          → All P (chosen o)
      at_lookup id none e = tt
      at_lookup id (some enc) e =
          (All-at P (mem-entries enclaves (get-from_list id enc (entries enclaves) e)) h, tt)

  All-of_ordered_desired :
      Distinct (ids enclaves) → All P (ordered_desired topo_ids enclaves) → All P enclaves
  unfolding ordered_desired
  All-of_ordered_desired d h =
      let (listed, others) =
        All-split P (flat_map listed_at topo_ids) (filter unlisted enclaves) h in
      All-of_mem P enclaves (λ e m. elim (Bool-cases (contains topo_ids e.id)) [
        | inl c ↦
            let found =
              get-from_list_mem e.id e (entries enclaves) (mem-map (λ (x : Enclave). (x.id, x)) m)
                (subst Distinct (sym (keys-entries enclaves)) d) in
            let at = All-flat_map_at P listed_at topo_ids (mem_of_any e.id topo_ids c) listed in
            (subst (λ o. All P (chosen o)) found at).0
        | inr c ↦ All-at P (mem-filter unlisted enclaves m (rw c refl)) others
      ])

-- Where the identifiers of the loaded enclaves differ, the plan over their ordered list is empty exactly when
-- every stored enclave is still loaded and every loaded enclave is in sync: no loaded enclave is left out of
-- the plan, whatever the order of the graph lists.
pub plan-ordered_desired_nil_iff :
    {V : Type 0} (hashes : Hashes) (topo_ids : List EnclaveId) (enclaves : List Enclave)
    (actual : Map EnclaveId (EnclaveState V))
    → Distinct (ids enclaves)
    → (plan hashes enclaves (ordered_desired topo_ids enclaves) actual ≡ []) ↔ (
        All (λ (p : EnclaveId × EnclaveState V). Mem p.0 (ids enclaves)) actual
        × All (InSync hashes actual) enclaves)
plan-ordered_desired_nil_iff hashes topo_ids enclaves actual d =
    let whole = plan-nil_iff hashes enclaves (ordered_desired topo_ids enclaves) actual in
    (
      (λ h.
          let (kept, synced) = whole.0 h in
          (kept, All-of_ordered_desired (InSync hashes actual) topo_ids enclaves d synced)),
      (λ (kept, synced).
          whole.1 (kept, All-ordered_desired (InSync hashes actual) topo_ids enclaves synced)),
    )
