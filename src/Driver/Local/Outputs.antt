-- ===== src/Driver/Local/Outputs.antt =====
-- The outputs that the local driver gives, from a partition through an export to an import.
use nclav.Base.{
  String, ◌<>◌, ◌≡◌, refl, sym, subst, ap, ◌∙◌, true, false, ◌++◌, Option, Bool-cases, inl, inr,
  none, some, List, [], ◌∷◌, map, All, Map, get, insert, from_list, get-from_list_same, map_option,
  and_then, Distinct, get-insert_self, get-insert, ==_iff, ◌==◌, string_eq,
}
use nclav.Domain.{Enclave, Export, ProducesType, required_outputs, PartitionId}
use nclav.Store.{Json, JsonLaws}
use nclav.Driver.Local.{
  stub, insert_stubs, stub_outputs, string_members, export_handle, import_outputs,
}

insert_stubs-stays :
    (id : PartitionId) (keys : List String) (key : String) (m : Map String String)
    → get key m ≡ some (stub id key)
    → get key (insert_stubs id keys m) ≡ some (stub id key)
unfolding insert_stubs
insert_stubs-stays id [] key m h = h
insert_stubs-stays id (k ∷ keys) key m h =
    insert_stubs-stays id keys key (insert k (stub id k) m) (elim (Bool-cases (k == key)) [
      | inl e ↦
          let same : k ≡ key = (==_iff k key).0 e in
          rw (same, get-insert_self key (stub id key) m) refl
      | inr e ↦ rw (get-insert k key (stub id k) m, e) h
    ])

get-insert_stubs :
    (id : PartitionId) (keys : List String) (m : Map String String)
    → All (λ key. get key (insert_stubs id keys m) ≡ some (stub id key)) keys
unfolding insert_stubs
get-insert_stubs id [] m = tt
get-insert_stubs id (k ∷ keys) m = (
  insert_stubs-stays id keys k (insert k (stub id k) m) (get-insert_self k (stub id k) m),
  get-insert_stubs id keys (insert k (stub id k) m),
)

-- Every output that the type of a partition requires is among the outputs that the local driver gives
-- the partition, with a value that names the partition and the output.
pub stub_outputs-required :
    (id : PartitionId) (produces : ProducesType)
    → All
        (λ key. get key (stub_outputs id (some produces)) ≡ some ("local://" <> id <> "/" <> key))
        (required_outputs produces)
unfolding stub_outputs
stub_outputs-required id produces = get-insert_stubs id (required_outputs produces) []

module _ {A B : Type 0} (f : A → B) where
  get-map :
      (k : String) (m : Map String A) → get k (map (λ p. (p.0, f p.1)) m) ≡ map_option f (get k m)
  unfolding get
  get-map k [] = refl
  get-map k ((i, a) ∷ m) = elim (Bool-cases (i == k)) [
    | inl e ↦ rw e refl
    | inr e ↦ rw e (get-map k m)
  ]

  keys-map :
      (m : Map String A)
      → map (λ (p : String × B). p.0) (map (λ p. (p.0, f p.1)) m) ≡ map (λ p. p.0) m
  keys-map [] = refl
  keys-map ((i, a) ∷ m) = ap (λ l. i ∷ l) (keys-map m)

module _ {V : Type 0} (j : Json V) (laws : JsonLaws j) where
  -- The member of a name is read off the members as a text, where it is one.
  get-string_members :
      (k : String) (ms : Map String V)
      → ((v : V) → get k ms ≡ some v → (s : String) × (j.as_str v ≡ some s))
      → get k (string_members j ms) ≡ and_then (get k ms) j.as_str
  unfolding string_members get
  get-string_members k [] h = refl
  get-string_members k ((i, v) ∷ ms) h = elim (Bool-cases (i == k)) [
    | inl e ↦ rw e (taken e (h v (rw e refl)))
    | inr e ↦ rw e (skipped e (j.as_str v) ∙ get-string_members k ms (λ u g. h u (rw e g)))
  ]
    where
      taken :
          (i == k) ≡ true
          → (s : String) × (j.as_str v ≡ some s)
          → get k (elim (j.as_str v) [ none ↦ [] | some s ↦ (i, s) ∷ [] ] ++ string_members j ms)
            ≡ j.as_str v
      taken e (s, q) = rw (q, e) refl

      skipped :
          (i == k) ≡ false
          → (o : Option String)
          → get k (elim o [ none ↦ [] | some s ↦ (i, s) ∷ [] ] ++ string_members j ms)
            ≡ get k (string_members j ms)
      skipped e none = refl
      skipped e (some s) = rw e refl

  -- A text as JSON is read back.
  read_texts : (o : Option String) → and_then (map_option j.str o) j.as_str ≡ o
  read_texts none = refl
  read_texts (some s) = laws.as_str-str s

  text_of :
      (o : Option String) (v : V)
      → map_option j.str o ≡ some v
      → (s : String) × (j.as_str v ≡ some s)
  text_of none v h = absurd (none≢some h)
    where
      none≢some : ◌≡◌ {A = Option V} none (some v) → ⊥
      none≢some g = cc
  text_of (some s) v h = (s, sym (ap (λ o. and_then o j.as_str) h) ∙ laws.as_str-str s)

  -- Where JSON keeps its laws, each output that an export was given, whose names differ, is read off its handle by
  -- the local driver for an import with the same value, and no other output.
  pub import_outputs-export_handle :
      (enc : Enclave) (export : Export) (outputs : Map String String)
      → Distinct (map (λ p. p.0) outputs)
      → (k : String) → get k (import_outputs j (export_handle j enc export outputs)) ≡ get k outputs
  unfolding import_outputs export_handle get from_list
  import_outputs-export_handle enc export outputs d k =
      let texts = map (λ (p : String × String). (p.0, j.str p.1)) outputs in
      let (ms, read, same) = laws.as_object-object texts in
      let keys = subst Distinct (sym (keys-map j.str outputs)) d in
      let looked = same k ∙ get-from_list_same k texts keys ∙ get-map j.str k outputs in
      rw (laws.get-object, read)
        (get-string_members k ms (λ v h. text_of (get k outputs) v (sym looked ∙ h))
          ∙ ap (λ o. and_then o j.as_str) looked
          ∙ read_texts (get k outputs))
