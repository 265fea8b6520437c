-- ===== src/Store/Documents.antt =====
-- JSON values to try the store's and the drivers' code on: an instance of `Json` with its laws.
use nclav.Base.{
  String, ◌≡◌, refl, ap, Option, none, some, unwrap_or, [], ◌∷◌, Map, get, from_list, string_eq,
}
use nclav.Store.Value.{Json, JsonLaws}

mutual
  pub data Doc : Type 0 where
    null : Doc
    text : String → Doc
    object : Members → Doc

  pub data Members : Type 0 where
    nil : Members
    cons : String → Doc → Members → Members

unfoldable pub members : Map String Doc → Members
members [] = nil
members ((k, v) ∷ m) = cons k v (members m)

unfoldable pub entries : Members → Map String Doc
entries nil = []
entries (cons k v ms) = (k, v) ∷ entries ms

entries-members : (m : Map String Doc) → entries (members m) ≡ m
unfolding entries members
entries-members [] = refl
entries-members ((k, v) ∷ m) = ap (λ l. (k, v) ∷ l) (entries-members m)

unfoldable pub member : Doc → String → Option Doc
unfolding get entries
member (object ms) k = get k (entries ms)
member _ k = none

unfoldable pub documents : Json Doc
unfolding member members entries from_list
documents = record {
  null = null;
  str = λ s. text s;
  object = λ m. object (members (from_list m));
  get = member;
  index = λ v k. unwrap_or (member v k) null;
  set = λ v k w. elim v [
    | null ↦ object (cons k w nil)
    | text s ↦ text s
    | object ms ↦ object (cons k w ms)
  ];
  as_str = λ v. elim v [ null ↦ none | text s ↦ some s | object ms ↦ none ];
  as_object = λ v. elim v [ null ↦ none | text s ↦ none | object ms ↦ some (entries ms) ];
}

pub documents_laws : JsonLaws documents
unfolding documents member
documents_laws = record {
  as_str-str = λ s. refl;
  get-object = λ m k. ap (λ x. get k x) (entries-members (from_list m));
  as_object-object =
      λ m. (from_list m, ap (λ x. some x) (entries-members (from_list m)), λ k. refl);
}
