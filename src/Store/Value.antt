-- ===== src/Store/Value.antt =====
-- What the program uses of the crate serde_json. `V` stands for `serde_json::Value`.
use nclav.Base.{String, ◌≡◌, Option, some, Map, get, from_list, string_eq}

pub record Json (V : Type 0) : Type 0 where
  pub null : V
  pub str : String → V
  -- `json!({ "k": v, .. })`
  pub object : Map String V → V
  -- `v.get(key)`
  pub get : V → String → Option V
  -- `v[key]`: the member, or `null`
  pub index : V → String → V
  -- `v[key] = w`, which panics on a value that is neither an object nor null; the program calls it on the
  -- handles of Terraform, which are objects
  pub set : V → String → V → V
  pub as_str : V → Option String
  -- `v.as_object()`, as its members
  pub as_object : V → Option (Map String V)

-- The documented behaviour that the proofs use. An object is a map: of two members with one name the later stays,
-- and `as_object` lists the members in an order of its own.
pub record JsonLaws {V : Type 0} (j : Json V) : Type 0 where
  pub as_str-str : (s : String) → j.as_str (j.str s) ≡ some s
  pub get-object : (m : Map String V) (k : String) → j.get (j.object m) k ≡ get k (from_list m)
  pub as_object-object :
      (m : Map String V)
      → (members : Map String V) × (j.as_object (j.object m) ≡ some members)
        × ((k : String) → get k members ≡ get k (from_list m))
