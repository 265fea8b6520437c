-- ===== src/Driver/Terraform/Hcl/Reading.antt =====
-- The generated variables determine the inputs. The proof takes the lines that `write_tfvars` makes apart again,
-- with a decoder of these lines alone: it is no reader of HCL, which also has templates in quoted texts.
use Prim.Native.Char.{Char, code}
use Prim.Native.String.{String}
use text.Mathlib.TextBridge.{of_list}
use text.Mathlib.TextEquality.{Char-path}
use nclav.Base.Texts.{Text, chars, replace, of_list-chars}
use nclav.Base.Order.{sort, All-sort}
use nclav.Driver.Terraform.Hcl.{escape, tfvar, sorted_keys, value_at, inputs_text, tfvars_text}
use nclav.Base.{
  ℕ, zero, suc, ◌+◌, ◌-◌, ◌≤◌, ◌≡◌, refl, sym, ◌∙◌, ap, inl, inr, false, ◌||◌, Option, none, some,
  map_option, and_then, unwrap_or, List, [], ◌∷◌, ◌++◌, map, flat_map, append_assoc, length, All,
  Map, if◌then◌else◌, ◌==◌, nat_eq, string_eq, ==_iff, arith, Bool-cases,
}

-- A quoted text after its opening quote, and what follows it.
unfoldable read_quoted : Text → Option (Text × Text)
read_quoted [] = none
read_quoted (c ∷ []) = if code c == 0x22 then some ([], []) else none
read_quoted (c ∷ d ∷ t) =
    let next = read_quoted (d ∷ t) in
    let after = read_quoted t in
    if code c == 0x22
    then some ([], d ∷ t)
    else if code c == 0x5c
    then if code d == 0x22 || code d == 0x5c
      then map_option (λ (p : Text × Text). (d ∷ p.0, p.1)) after
      else none
    else map_option (λ (p : Text × Text). (c ∷ p.0, p.1)) next

read_quoted-plain :
    (c : Char) (t : Text)
    → (code c == 0x22) ≡ false
    → (code c == 0x5c) ≡ false
    → read_quoted (c ∷ t) ≡ map_option (λ (p : Text × Text). (c ∷ p.0, p.1)) (read_quoted t)
unfolding read_quoted
read_quoted-plain c [] h k = rw h refl
read_quoted-plain c (d ∷ t) h k = rw (h, k) refl

abbrev backslash_mark : Char
backslash_mark = "\\"

abbrev quote_mark : Char
quote_mark = "\""

escape-plain :
    (c : Char) (v : Text)
    → (code c == 0x5c) ≡ false
    → (code c == 0x22) ≡ false
    → escape (c ∷ v) ≡ c ∷ escape v
unfolding escape replace
escape-plain c v h k = rw (h, k) refl

-- An escaped value is read back to its end, whatever its characters.
read_quoted-escape :
    (v rest : Text) → read_quoted (escape v ++ (chars "\"" ++ rest)) ≡ some (v, rest)
unfolding escape replace read_quoted
read_quoted-escape [] [] = refl
read_quoted-escape [] (r ∷ rest) = refl
read_quoted-escape (c ∷ v) rest = elim (Bool-cases (code c == 0x5c)) [
  | inl e ↦
      rw (Char-path c backslash_mark ((==_iff (code c) 0x5c).0 e), read_quoted-escape v rest) refl
  | inr e ↦ elim (Bool-cases (code c == 0x22)) [
    | inl q ↦
        rw (Char-path c quote_mark ((==_iff (code c) 0x22).0 q), read_quoted-escape v rest) refl
    | inr q ↦ rw (escape-plain c v e q) (
        read_quoted-plain c (escape v ++ (chars "\"" ++ rest)) q e
        ∙ rw (read_quoted-escape v rest) refl)
  ]
]

-- A name, and what follows the space after it.
unfoldable read_name : Text → Option (Text × Text)
read_name [] = none
read_name (c ∷ t) =
    let rest = read_name t in
    if code c == 0x20 then some ([], t) else map_option (λ (p : Text × Text). (c ∷ p.0, p.1)) rest

-- What follows an expected text.
unfoldable expect : Text → Text → Option Text
expect [] t = some t
expect (c ∷ p) [] = none
expect (c ∷ p) (d ∷ t) = let rest = expect p t in if code c == code d then rest else none

-- One assignment `name = "value"`, and what follows its line.
unfoldable read_assignment : Text → Option ((Text × Text) × Text)
unfolding read_name expect read_quoted
read_assignment t = and_then (read_name t) (λ k. and_then (expect (chars "= \"") k.1) (λ a.
    and_then (read_quoted a)
      (λ v. map_option (λ rest. ((k.0, v.0), rest)) (expect (chars "\n") v.1))))

unfoldable skip_line : Text → Text
skip_line [] = []
skip_line (c ∷ t) = let rest = skip_line t in if code c == 0xa then t else rest

-- The assignments of a file, on fuel for its lines; comments and empty lines are skipped.
unfoldable decode_lines : ℕ → Text → Option (List (Text × Text))
unfolding read_assignment skip_line
decode_lines zero t = none
decode_lines (suc n) [] = some []
decode_lines (suc n) (c ∷ t) =
    if code c == 0x23 || code c == 0xa
    then decode_lines n (if code c == 0xa then t else skip_line t)
    else and_then (read_assignment (c ∷ t))
        (λ a. map_option (λ more. a.0 ∷ more) (decode_lines n a.1))

abbrev NoSpace : Text → Type 0
NoSpace t = All (λ c. (code c == 0x20) ≡ false) t

-- A text that can stand as the name of a variable: not empty, without a space, and not like a
-- comment or an empty line.
abbrev IsNameText : Text → Type 0
IsNameText [] = ⊥
IsNameText (c ∷ t) = ((code c == 0x23 || code c == 0xa) ≡ false) × NoSpace (c ∷ t)

abbrev pub IsName : String → Type 0
IsName name = IsNameText (chars name)

read_name-append :
    (name rest : Text) → NoSpace name → read_name (name ++ (chars " " ++ rest)) ≡ some (name, rest)
unfolding read_name
read_name-append [] rest h = refl
read_name-append (c ∷ name) rest h = rw (h.0, read_name-append name rest h.1) refl

tfvar-append :
    (k v : String) (rest : Text)
    → tfvar k v ++ rest
      ≡ chars k
        ++ (chars " "
            ++ (chars "= \"" ++ (escape (chars v) ++ (chars "\"" ++ (chars "\n" ++ rest)))))
unfolding tfvar
tfvar-append k v rest =
    rw
      (
        append_assoc (chars k) (chars " = \"" ++ (escape (chars v) ++ chars "\"\n")) rest,
        append_assoc (escape (chars v)) (chars "\"\n") rest,
      )
      refl

read_assignment-tfvar :
    (k v : String) (rest : Text)
    → NoSpace (chars k)
    → read_assignment (tfvar k v ++ rest) ≡ some ((chars k, chars v), rest)
unfolding read_assignment expect
read_assignment-tfvar k v rest h =
    rw
      (
        tfvar-append k v rest,
        read_name-append (chars k)
            (chars "= \"" ++ (escape (chars v) ++ (chars "\"" ++ (chars "\n" ++ rest)))) h,
        read_quoted-escape (chars v) (chars "\n" ++ rest),
      )
      refl

decode_lines-assignment :
    (n : ℕ) (name t : Text) (a : (Text × Text) × Text)
    → IsNameText name
    → read_assignment (name ++ t) ≡ some a
    → decode_lines (suc n) (name ++ t) ≡ map_option (λ more. a.0 ∷ more) (decode_lines n a.1)
unfolding decode_lines
decode_lines-assignment n [] t a h k = absurd h
decode_lines-assignment n (c ∷ name) t a h k = rw (h.0, k) refl

nospace_of_name : (t : Text) → IsNameText t → NoSpace t
nospace_of_name [] h = tt
nospace_of_name (c ∷ t) h = h.1

decode_lines-tfvar :
    (n : ℕ) (k v : String) (rest : Text)
    → IsName k
    → decode_lines (suc n) (tfvar k v ++ rest)
      ≡ map_option (λ more. (chars k, chars v) ∷ more) (decode_lines n rest)
decode_lines-tfvar n k v rest h =
    let t =
      chars " " ++ (chars "= \"" ++ (escape (chars v) ++ (chars "\"" ++ (chars "\n" ++ rest)))) in
    ap (decode_lines (suc n)) (tfvar-append k v rest)
    ∙ decode_lines-assignment n (chars k) t ((chars k, chars v), rest) h
        (sym (ap read_assignment (tfvar-append k v rest))
          ∙ read_assignment-tfvar k v rest (nospace_of_name (chars k) h))

decode_lines-lines :
    (n : ℕ) (value : String → String) (ks : List String)
    → length ks + 1 ≤ n
    → All IsName ks
    → decode_lines n (flat_map (λ k. tfvar k (value k)) ks)
      ≡ some (map (λ k. (chars k, chars (value k))) ks)
unfolding decode_lines
decode_lines-lines zero value ks enough h = absurd (omega arith)
decode_lines-lines (suc n) value [] enough h = refl
decode_lines-lines (suc n) value (k ∷ ks) enough h =
    decode_lines-tfvar n k (value k) (flat_map (λ j. tfvar j (value j)) ks) h.0
    ∙ rw (decode_lines-lines n value ks (omega arith) h.1) refl

-- The names and values of the inputs, in the order of the names.
unfoldable inputs : Map String String → List (Text × Text)
inputs m = map (λ k. (chars k, chars (value_at m k))) (sorted_keys m)

sorted_keys-IsName : (m : Map String String) → All (λ p. IsName p.0) m → All IsName (sorted_keys m)
unfolding sorted_keys
sorted_keys-IsName m h = All-sort IsName (map (λ p. p.0) m) (names m h)
  where
    names : (l : Map String String) → All (λ p. IsName p.0) l → All IsName (map (λ p. p.0) l)
    names [] k = tt
    names (p ∷ l) k = (k.0, names l k.1)

abbrev inputs_title : Text
inputs_title = chars "\n# Partition inputs (from inputs: in config.yml)\n"

decode_lines-inputs_text :
    (n : ℕ) (m : Map String String)
    → length (sorted_keys m) + 3 ≤ n
    → All (λ p. IsName p.0) m
    → decode_lines n (inputs_text inputs_title tfvar m) ≡ some (inputs m)
unfolding inputs_text inputs decode_lines skip_line sorted_keys sort
decode_lines-inputs_text zero m enough h = absurd (omega arith)
decode_lines-inputs_text (suc n) [] enough h = refl
decode_lines-inputs_text (suc zero) (p ∷ m) enough h = absurd (omega arith)
decode_lines-inputs_text (suc (suc n)) (p ∷ m) enough h =
    decode_lines-lines n (value_at (p ∷ m)) (sorted_keys (p ∷ m)) (omega arith)
      (sorted_keys-IsName (p ∷ m) h)

-- The lines of the file are decoded as the two names of nclav followed by the inputs.
decode_lines-tfvars_text :
    (n : ℕ) (enclave_id partition_id : String) (m : Map String String)
    → length (sorted_keys m) + 9 ≤ n
    → All (λ p. IsName p.0) m
    → decode_lines n (tfvars_text enclave_id partition_id m)
      ≡ some (
          (chars "nclav_enclave", chars enclave_id)
          ∷ (chars "nclav_partition", chars partition_id)
          ∷ inputs m)
unfolding tfvars_text decode_lines skip_line
decode_lines-tfvars_text n enclave_id partition_id m enough h =
    let rest = inputs_text inputs_title tfvar m in
    let eq : n ≡ suc (suc (suc (suc (suc (suc (n - 6)))))) = omega arith in
    rw eq (
      decode_lines-tfvar (suc (n - 6)) "nclav_enclave" enclave_id
        (tfvar "nclav_partition" partition_id ++ rest) (ground arith)
      ∙ rw
          (
            decode_lines-tfvar (n - 6) "nclav_partition" partition_id rest (ground arith),
            decode_lines-inputs_text (n - 6) m (omega arith) h,
          )
          refl)

abbrev first_value : List (String × String) → String
first_value [] = ""
first_value (p ∷ l) = p.1

abbrev rest_of : List (String × String) → List (String × String)
rest_of [] = []
rest_of (p ∷ l) = l

as_string : Text × Text → String × String
as_string p = (of_list p.0, of_list p.1)

-- The names of a map in their order, each with its value.
unfoldable pub sorted_inputs : Map String String → List (String × String)
sorted_inputs m = map (λ k. (k, value_at m k)) (sorted_keys m)

as_string-inputs : (m : Map String String) → map as_string (inputs m) ≡ sorted_inputs m
unfolding as_string inputs sorted_inputs
as_string-inputs m = texts (sorted_keys m)
  where
    texts :
        (ks : List String)
        → map as_string (map (λ k. (chars k, chars (value_at m k))) ks)
          ≡ map (λ k. (k, value_at m k)) ks
    texts [] = refl
    texts (k ∷ ks) =
        rw (of_list-chars k, of_list-chars (value_at m k))
          (ap (λ l. (k, value_at m k) ∷ l) (texts ks))

-- Where the names of the inputs can stand as names of variables, equal variable files have equal names of the
-- enclave and of the partition, and equal inputs: the same names in the same order, each with the same
-- value, whatever the characters of the values.
pub tfvars_text-injective :
    (enclave_id enclave_id' partition_id partition_id' : String) (m m' : Map String String)
    → All (λ p. IsName p.0) m
    → All (λ p. IsName p.0) m'
    → tfvars_text enclave_id partition_id m ≡ tfvars_text enclave_id' partition_id' m'
    → (enclave_id ≡ enclave_id')
      × (partition_id ≡ partition_id')
      × (sorted_inputs m ≡ sorted_inputs m')
unfolding as_string
tfvars_text-injective e e' p p' m m' h h' same =
    let n = length (sorted_keys m) + length (sorted_keys m') + 9 in
    let decoded =
      sym (decode_lines-tfvars_text n e p m (omega arith) h)
      ∙ ap (decode_lines n) same
      ∙ decode_lines-tfvars_text n e' p' m' (omega arith) h' in
    let lists = ap (λ o. map as_string (unwrap_or o [])) decoded in
    (
      sym (of_list-chars e) ∙ ap first_value lists ∙ of_list-chars e',
      sym (of_list-chars p) ∙ ap (λ l. first_value (rest_of l)) lists ∙ of_list-chars p',
      sym (as_string-inputs m) ∙ ap (λ l. rest_of (rest_of l)) lists ∙ as_string-inputs m',
    )
