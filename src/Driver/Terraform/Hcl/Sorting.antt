-- ===== src/Driver/Terraform/Hcl/Sorting.antt =====
-- The generated files do not depend on the order in which a `HashMap` lists its entries.
use nclav.Base.Texts.{Text, chars}
use nclav.Base.Order.{sort_unique}
use nclav.Driver.Terraform.Hcl.{
  tfvar, sorted_keys, value_at, inputs_text, tfvars_text, module_tf_text,
}
use nclav.Base.{
  String, ◌≡◌, refl, sym, ◌∙◌, ap, ap₂, inl, inr, some, [], ◌∷◌, ◌++◌, map, flat_map, Mem, here,
  there, Distinct, Map, get, ◌==◌, string_eq, ==_iff, arith, Bool-cases, fun_ext, unwrap_or,
  get-mem, mem-map,
}

-- A key of the list is found.
get_of_mem :
    (k : String) (m : Map String String)
    → Mem k (map (λ p. p.0) m)
    → (v : String) × (get k m ≡ some v)
unfolding get
get_of_mem k [] n = elim n [ ]
get_of_mem k ((j, w) ∷ m) here = (w, ground (arith, ==_iff j j))
get_of_mem k ((j, w) ∷ m) (there n) = elim (Bool-cases (j == k)) [
  | inl e ↦ (w, rw e refl)
  | inr e ↦ let (v, h) = get_of_mem k m n in (v, rw e h)
]

-- The two lists hold the same map.
abbrev pub Same : Map String String → Map String String → Type 0
Same m n = (k : String) → get k m ≡ get k n

mem_of_Same :
    (m n : Map String String) (k : String)
    → Same m n
    → Mem k (map (λ p. p.0) m)
    → Mem k (map (λ p. p.0) n)
mem_of_Same m n k same h =
    let (v, e) = get_of_mem k m h in
    mem-map (λ (p : String × String). p.0) (get-mem k n (sym (same k) ∙ e))

sorted_keys-Same :
    (m n : Map String String)
    → Distinct (map (λ p. p.0) m)
    → Distinct (map (λ p. p.0) n)
    → Same m n
    → sorted_keys m ≡ sorted_keys n
unfolding sorted_keys
sorted_keys-Same m n d e same =
    sort_unique (map (λ p. p.0) m) (map (λ p. p.0) n) d e (λ k. mem_of_Same m n k same)
      (λ k. mem_of_Same n m k (λ j. sym (same j)))

inputs_text-Same :
    (title : Text) (line : String → String → Text) (m n : Map String String)
    → Distinct (map (λ p. p.0) m)
    → Distinct (map (λ p. p.0) n)
    → Same m n
    → inputs_text title line m ≡ inputs_text title line n
unfolding inputs_text value_at get
inputs_text-Same title line [] [] d e same = refl
inputs_text-Same title line [] (q ∷ n) d e same =
    elim (mem_of_Same (q ∷ n) [] q.0 (λ j. sym (same j)) here) [ ]
inputs_text-Same title line (p ∷ m) [] d e same = elim (mem_of_Same (p ∷ m) [] p.0 same here) [ ]
inputs_text-Same title line (p ∷ m) (q ∷ n) d e same =
    ap₂ (λ (f : String → Text) ks. title ++ flat_map f ks)
      (fun_ext (λ k. ap (λ o. line k (unwrap_or o "")) (same k)))
      (sorted_keys-Same (p ∷ m) (q ∷ n) d e same)

-- Two listings of one map give the same files, for an own configuration and for a module.
pub inputs_order :
    (debug : String → Text) (enclave_id partition_id source : String) (m n : Map String String)
    → Distinct (map (λ p. p.0) m)
    → Distinct (map (λ p. p.0) n)
    → Same m n
    → (tfvars_text enclave_id partition_id m ≡ tfvars_text enclave_id partition_id n)
      × (module_tf_text debug source m ≡ module_tf_text debug source n)
unfolding tfvars_text module_tf_text
inputs_order debug enclave_id partition_id source m n d e same = (
  rw
      (inputs_text-Same (chars "\n# Partition inputs (from inputs: in config.yml)\n") tfvar m n d e
        same)
      refl,
  rw (inputs_text-Same (chars "\n") (λ k v. chars "  " ++ tfvar k v) m n d e same) refl,
)
