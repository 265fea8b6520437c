-- ===== src/Store/Memory/Events.antt =====
-- The audit log, as kept by `append_event` and `list_events` of crates/nclav-store/src/memory.rs.
use Prim.Native.Nat.{min}
use nclav.Base.{
  ℕ, suc, ◌-◌, ◌≡◌, refl, sym, ◌∙◌, ap, true, Bool-cases, inl, inr, is_some_and, Option, none, some,
  List, [], ◌∷◌, ◌++◌, All, All-map, All-split, length, take, filter, take-append-drop, length-drop,
  length-append, drop-append, filter-append, All-filter, append-nil, if◌then◌else◌, ◌==◌, ==_iff,
  string_eq, arith, subst,
}
use nclav.Domain.{EnclaveId}
use nclav.Store.State.{AuditEvent, event_enclave_id}
use nclav.Store.Memory.{Inner, append_event, concerns, list_events}

is_some_and-eq :
    (o : Option EnclaveId) (id : EnclaveId) → is_some_and o (λ k. k == id) ≡ true → o ≡ some id
is_some_and-eq none id h = cc
is_some_and-eq (some k) id h = ap (λ x. some x) ((==_iff k id).0 h)

concerns-some :
    (id : EnclaveId) (ev : AuditEvent)
    → concerns (some id) ev ≡ true
    → event_enclave_id ev ≡ some id
unfolding concerns
concerns-some id ev h = is_some_and-eq (event_enclave_id ev) id h

module _ {V : Type 0} (s : Inner V) (limit : ℕ) where
  -- A listing is the end of the matching events: the others are all older, and it is as long as the
  -- limit allows.
  pub list_events-suffix :
      (id : Option EnclaveId)
      → (older : List AuditEvent) × (filter (concerns id) s.events
          ≡ older ++ list_events id limit s)
        × (length (list_events id limit s) ≡ min limit (length (filter (concerns id) s.events)))
  unfolding list_events
  list_events-suffix id =
      let all = filter (concerns id) s.events in
      (
        take (length all - limit) all,
        sym (take-append-drop (length all - limit) all),
        omega (arith, length-drop (length all - limit) all),
      )

  -- A listing for an enclave has only events of that enclave.
  pub list_events-concerns :
      (id : EnclaveId) → All (λ ev. event_enclave_id ev ≡ some id) (list_events (some id) limit s)
  list_events-concerns id =
      let (older, split, _) = list_events-suffix (some id) in
      All-map (concerns-some id) _
        (All-split _ older _ (
          subst (All (λ ev. concerns (some id) ev ≡ true)) split
            (All-filter (concerns (some id)) s.events))).1

  -- A new event stands last in the next listing of what it concerns, behind the earlier listing, and
  -- leaves every other listing alone.
  pub list_events-append_event :
      (id : Option EnclaveId) (ev : AuditEvent)
      → list_events id (suc limit) (append_event ev s) ≡ (
          if concerns id ev
          then list_events id limit s ++ ev ∷ []
          else list_events id (suc limit) s)
  unfolding list_events append_event filter
  list_events-append_event id ev = elim (Bool-cases (concerns id ev)) [
    | inl e ↦
        let all = filter (concerns id) s.events in
        let longer : filter (concerns id) (s.events ++ ev ∷ []) ≡ all ++ ev ∷ [] =
          filter-append (concerns id) s.events (ev ∷ []) ∙ rw e refl in
        let start : length (all ++ ev ∷ []) - suc limit ≡ length all - limit =
          omega (arith, length-append all (ev ∷ [])) in
        rw (e, longer, start) (drop-append (length all - limit) all (ev ∷ []) (omega arith))
    | inr e ↦
        let same : filter (concerns id) (s.events ++ ev ∷ []) ≡ filter (concerns id) s.events =
          filter-append (concerns id) s.events (ev ∷ [])
          ∙ rw e (append-nil (filter (concerns id) s.events)) in
        rw (e, same) refl
  ]
