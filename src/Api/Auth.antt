-- ===== src/Api/Auth.antt =====
-- crates/nclav-api/src/auth.rs: `require_bearer_token`.
use Prim.Native.Char.{Char, code}
use text.Mathlib.TextBridge.{of_list}
use text.Mathlib.TextEquality.{Char-path}
use nclav.Base.Texts.{
  Text, chars, strip_prefix, split_once, of_list-chars, chars-of_list, strip_prefix-eq,
  strip_prefix-append, split_once-Cut, split_once-append,
}
use nclav.Base.{
  ℕ, String, ◌≡◌, refl, sym, ap, subst, ◌∙◌, ◌↔◌, inl, inr, Bool, true, false, Option, none, some,
  Option-cases, and_then, map_option, is_some_and, List, ◌∷◌, ◌++◌, All, ◌==◌, string_eq, nat_eq,
  ==_iff, eq_self, ap₂, arith,
}

-- What the code uses of the crate base64 and of `std::str::from_utf8`.
pub record Codec : Type 0 where
  pub decode : Text → Option (List ℕ)
  pub from_utf8 : List ℕ → Option Text

-- The password of Basic credentials: what follows the first colon.
unfoldable pub basic_password : Codec → Text → Option Text
unfolding split_once
basic_password codec encoded =
    and_then (and_then (codec.decode encoded) codec.from_utf8)
      (λ creds. map_option (λ (p : Text × Text). p.1) (split_once 0x3a creds))

unfoldable token_from : Codec → Text → Option Text → Option Text
token_from codec s (some t) = some t
token_from codec s none = and_then (strip_prefix s (chars "Basic ")) (basic_password codec)

-- The token that a header carries.
unfoldable pub header_token : Codec → Text → Option Text
unfolding token_from
header_token codec s = token_from codec s (strip_prefix s (chars "Bearer "))

-- The guard of `require_bearer_token`, for the value of the header `Authorization`, if it is there and
-- is a text.
unfoldable pub is_authorized : Codec → (auth_token : String) → Option Text → Bool
unfolding header_token
is_authorized codec auth_token header =
    is_some_and (and_then header (header_token codec)) (λ t. of_list t == auth_token)

-- The header carries the token: as a bearer token, or as the password of Basic credentials.
pub data Carries (codec : Codec) (auth_token : String) : Text → Type 0 where
  bearer : Carries codec auth_token (chars "Bearer " ++ chars auth_token)
  basic :
      (encoded user : Text) (bytes : List ℕ)
      → codec.decode encoded ≡ some bytes
      → codec.from_utf8 bytes ≡ some (user ++ (chars ":" ++ chars auth_token))
      → All (λ c. (code c == 0x3a) ≡ false) user
      → Carries codec auth_token (chars "Basic " ++ encoded)

abbrev colon_mark : Char
colon_mark = ":"

-- The password that Basic credentials have is read from their text after its first colon.
basic_password-eq :
    (codec : Codec) (encoded password : Text)
    → basic_password codec encoded ≡ some password
    → (user : Text) × (bytes : List ℕ) × (codec.decode encoded ≡ some bytes)
      × (codec.from_utf8 bytes ≡ some (user ++ (chars ":" ++ password)))
      × All (λ c. (code c == 0x3a) ≡ false) user
unfolding basic_password
basic_password-eq codec encoded password h = elim (Option-cases (codec.decode encoded)) [
  | inl e ↦ absurd (ground arith)
  | inr (bytes, e) ↦ elim (Option-cases (codec.from_utf8 bytes)) [
    | inl f ↦ absurd (ground arith)
    | inr (creds, f) ↦ elim (Option-cases (split_once 0x3a creds)) [
      | inl g ↦ absurd (ground arith)
      | inr ((user, rest), g) ↦
          let same : rest ≡ password = ground arith in
          let (c, is_colon, cut, free) = split_once-Cut 0x3a creds user rest g in
          let colon : c ∷ rest ≡ chars ":" ++ password =
            ap₂ (λ d r. d ∷ r) (Char-path c colon_mark is_colon) same in
          (user, bytes, e, f ∙ ap some (cut ∙ ap (λ r. user ++ r) colon), free)
    ]
  ]
]

-- No text begins with both.
basic_not_bearer :
    (encoded : Text) → strip_prefix (chars "Basic " ++ encoded) (chars "Bearer ") ≡ none
unfolding strip_prefix
basic_not_bearer encoded = refl

token_eq :
    (auth_token : String) (t : Text) → (of_list t == auth_token) ≡ true → t ≡ chars auth_token
token_eq auth_token t e = sym (chars-of_list t) ∙ ap chars ((==_iff (of_list t) auth_token).0 e)

own_token : (auth_token : String) → (of_list (chars auth_token) == auth_token) ≡ true
own_token auth_token = rw (of_list-chars auth_token) (eq_self auth_token)

header_token-bearer :
    (codec : Codec) (s t : Text)
    → strip_prefix s (chars "Bearer ") ≡ some t
    → header_token codec s ≡ some t
unfolding header_token token_from
header_token-bearer codec s t h = ap (token_from codec s) h

header_token-basic :
    (codec : Codec) (s : Text) (encoded : Option Text)
    → strip_prefix s (chars "Bearer ") ≡ none
    → strip_prefix s (chars "Basic ") ≡ encoded
    → header_token codec s ≡ and_then encoded (basic_password codec)
unfolding header_token token_from
header_token-basic codec s encoded h k =
    ap (token_from codec s) h ∙ ap (λ o. and_then o (basic_password codec)) k

basic_password-cut :
    (codec : Codec) (encoded user password : Text) (bytes : List ℕ)
    → codec.decode encoded ≡ some bytes
    → codec.from_utf8 bytes ≡ some (user ++ (chars ":" ++ password))
    → All (λ c. (code c == 0x3a) ≡ false) user
    → basic_password codec encoded ≡ some password
unfolding basic_password
basic_password-cut codec encoded user password bytes dec utf plain =
    ap
      (λ o.
        and_then (and_then o codec.from_utf8)
          (λ creds. map_option (λ (p : Text × Text). p.1) (split_once 0x3a creds)))
      dec
    ∙ ap (λ o. and_then o (λ creds. map_option (λ (p : Text × Text). p.1) (split_once 0x3a creds)))
        utf
    ∙ ap (map_option (λ (p : Text × Text). p.1)) (split_once-append colon_mark user password plain)

-- The header's token, where it has one, is compared with the own.
is_authorized-token :
    (codec : Codec) (auth_token : String) (s : Text) (token : Option Text)
    → header_token codec s ≡ token
    → is_authorized codec auth_token (some s) ≡ is_some_and token (λ t. of_list t == auth_token)
unfolding is_authorized
is_authorized-token codec auth_token s token h =
    ap (λ o. is_some_and o (λ t. of_list t == auth_token)) h

Carries-is_authorized :
    (codec : Codec) (auth_token : String) (s : Text)
    → Carries codec auth_token s
    → is_authorized codec auth_token (some s) ≡ true
Carries-is_authorized codec auth_token _ bearer =
    is_authorized-token codec auth_token _ _
      (header_token-bearer codec _ _ (strip_prefix-append (chars "Bearer ") (chars auth_token)))
    ∙ own_token auth_token
Carries-is_authorized codec auth_token _ (basic encoded user bytes dec utf plain) =
    is_authorized-token codec auth_token _ _ (
      header_token-basic codec _ _ (basic_not_bearer encoded)
        (strip_prefix-append (chars "Basic ") encoded)
      ∙ basic_password-cut codec encoded user (chars auth_token) bytes dec utf plain)
    ∙ own_token auth_token

false≢true : false ≡ true → ⊥
false≢true e = cc

is_authorized-Carries :
    (codec : Codec) (auth_token : String) (s : Text)
    → is_authorized codec auth_token (some s) ≡ true
    → Carries codec auth_token s
is_authorized-Carries codec auth_token s h =
    elim (Option-cases (strip_prefix s (chars "Bearer "))) [
      | inr (t, e) ↦
          let found = is_authorized-token codec auth_token s _ (header_token-bearer codec s t e) in
          let same = token_eq auth_token t (sym found ∙ h) in
          subst (Carries codec auth_token)
            (sym (strip_prefix-eq s (chars "Bearer ") t e ∙ ap (λ u. chars "Bearer " ++ u) same))
            bearer
      | inl e ↦ elim (Option-cases (strip_prefix s (chars "Basic "))) [
        | inl f ↦ absurd (
            false≢true (
              sym (is_authorized-token codec auth_token s _ (header_token-basic codec s none e f))
              ∙ h))
        | inr (encoded, f) ↦ elim (Option-cases (basic_password codec encoded)) [
          | inl g ↦ absurd (
              false≢true (
                sym (
                  is_authorized-token codec auth_token s none
                    (header_token-basic codec s (some encoded) e f ∙ g))
                ∙ h))
          | inr (password, g) ↦
              let found =
                is_authorized-token codec auth_token s (some password)
                  (header_token-basic codec s (some encoded) e f ∙ g) in
              let same = token_eq auth_token password (sym found ∙ h) in
              let (user, bytes, dec, utf, free) = basic_password-eq codec encoded password g in
              subst (Carries codec auth_token) (sym (strip_prefix-eq s (chars "Basic ") encoded f))
                (basic encoded user bytes dec (utf ∙ ap (λ u. some (user ++ (chars ":" ++ u))) same)
                  free)
        ]
      ]
    ]

-- A header lets a request through exactly where it carries the token.
pub is_authorized_iff :
    (codec : Codec) (auth_token : String) (s : Text)
    → (is_authorized codec auth_token (some s) ≡ true) ↔ Carries codec auth_token s
is_authorized_iff codec auth_token s =
    (is_authorized-Carries codec auth_token s, Carries-is_authorized codec auth_token s)
