-- ===== src/Api/TfState/Separation.antt =====
-- The states and locks of different partitions, over the store of crates/nclav-store/src/memory.rs.
use Prim.Native.Char.{Char, code}
use nclav.Base.Texts.{Text, chars, split_once, split_once-append, chars-append, of_list-chars}
use text.Mathlib.TextBridge.{of_list}
use nclav.Base.{
  ℕ, String, ◌<>◌, ◌≡◌, refl, sym, ap, ◌∙◌, false, Option, some, List, ◌++◌, All, get-insert,
  get-insert_self, ok, ◌==◌, string_eq, nat_eq, ==_iff, arith, Bool-cases, inl, inr,
}
use nclav.Base.Effects.{pure, ◌>>=◌}
use nclav.Domain.{EnclaveId, PartitionId}
use nclav.Store.{Json}
use nclav.Store.Memory.{Inner, get_tf_state as get_stored, put_tf_state as put_stored}
use nclav.Api.{write_store}
use nclav.Api.Memory.{memory_store}
use nclav.Api.TfState.{Reply, bytes, state_key, get_reply, get_tf_state, put_tf_state}

abbrev slash : Char
slash = "/"

-- No character of the identifier is a slash.
abbrev pub NoSlash : String → Type 0
NoSlash id = All (λ c. (code c == 0x2f) ≡ false) (chars id)

split_key :
    (enc : EnclaveId) (part : PartitionId)
    → NoSlash enc
    → split_once 0x2f (chars (state_key enc part)) ≡ some (chars enc, chars part)
split_key enc part h =
    ap (split_once 0x2f)
      (chars-append enc ("/" <> part) ∙ ap (λ t. chars enc ++ t) (chars-append "/" part))
    ∙ split_once-append slash (chars enc) (chars part) h

chars_injective : (s t : String) → chars s ≡ chars t → s ≡ t
chars_injective s t h = sym (of_list-chars s) ∙ ap of_list h ∙ of_list-chars t

-- Partitions of enclaves without a slash in their identifiers have different keys.
pub state_key-injective :
    (enc enc' : EnclaveId) (part part' : PartitionId)
    → NoSlash enc
    → NoSlash enc'
    → state_key enc part ≡ state_key enc' part'
    → (enc ≡ enc') × (part ≡ part')
state_key-injective enc enc' part part' h h' same =
    let both : ◌≡◌ {A = Option (Text × Text)} (some (chars enc, chars part))
        (some (chars enc', chars part')) =
      sym (split_key enc part h)
      ∙ ap (λ k. split_once 0x2f (chars k)) same
      ∙ split_key enc' part' h' in
    let pair : ◌≡◌ {A = Text × Text} (chars enc, chars part) (chars enc', chars part') =
      ground arith in
    (chars_injective enc enc' (ap (λ q. q.0) pair), chars_injective part part' (ap (λ q. q.1) pair))

keys_apart :
    (enc enc' : EnclaveId) (part part' : PartitionId)
    → NoSlash enc
    → NoSlash enc'
    → ((enc ≡ enc') × (part ≡ part') → ⊥)
    → (state_key enc part == state_key enc' part') ≡ false
keys_apart enc enc' part part' h h' other =
    elim (Bool-cases (state_key enc part == state_key enc' part')) [
      | inr e ↦ e
      | inl e ↦ absurd (
          other (
            state_key-injective enc enc' part part' h h'
              ((==_iff (state_key enc part) (state_key enc' part')).0 e)))
    ]

module _ {V W : Type 0} (j : Json V) where
  -- The state that is put for a partition is the one that it gets, and what another partition gets stays
  -- the same, where the identifiers of their enclaves have no slash.
  pub get-put_tf_state :
      (enc enc' : EnclaveId) (part part' : PartitionId) (body : List ℕ) (t : Inner V × W)
      → NoSlash enc
      → NoSlash enc'
      → ((enc ≡ enc') × (part ≡ part') → ⊥)
      → let u = (put_tf_state (memory_store j) enc part body t).1.0 in
        (get_tf_state (memory_store j) enc part u ≡ bytes 200 body)
        × (get_tf_state (memory_store j) enc' part' u
            ≡ get_tf_state (memory_store j) enc' part' t.0)
  unfolding get_tf_state put_tf_state get_reply write_store get_stored put_stored pure ◌>>=◌
  get-put_tf_state enc enc' part part' body t h h' other =
      let k = state_key enc part in
      let k' = state_key enc' part' in
      let apart : (k == k') ≡ false = keys_apart enc enc' part part' h h' other in
      let reply : Option (List ℕ) → Reply V = λ o. get_reply {V = V} (ok o) in
      (
        ap reply (get-insert_self k body t.0.tf_state),
        ap reply (get-insert k k' body t.0.tf_state ∙ rw apart refl),
      )
