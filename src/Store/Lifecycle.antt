-- ===== src/Store/Lifecycle.antt =====
-- What the lifecycle metadata says after any sequence of the program's writes to it.
use nclav.Base.{
  ℕ, suc, ◌+◌, ◌%◌, ◌^◌, String, ◌≡◌, ◌≢◌, Bool, true, false, none, is_some, List, [], ◌∷◌, arith,
}
use nclav.Store.State.{
  ProvisioningStatus, provisioning, active, updating, degraded, error, ResourceMeta, default_meta,
  mark_active, mark_error, mark_seen,
}

-- The writes: the start of a driver call, for a new resource or an existing one, its outcome, and
-- what an observation reports.
pub data Write : Type 0 where
  begin : (exists : Bool) → Write
  succeed : (now : ℕ) (hash : String) → Write
  fail : (now : ℕ) (message : String) → Write
  observe : (now : ℕ) (healthy : Bool) → Write

abbrev pub started : Bool → ProvisioningStatus
started true = updating
started false = provisioning

pub apply : Write → ResourceMeta → ResourceMeta
apply (begin exists) m = record m { status = started exists }
apply (succeed now hash) m = mark_active now hash m
apply (fail now message) m = mark_error now message m
apply (observe now healthy) m = mark_seen now healthy m

pub run : List Write → ResourceMeta → ResourceMeta
run [] m = m
run (w ∷ ws) m = run ws (apply w m)

-- What each status promises of the rest.
pub record IsConsistent (m : ResourceMeta) : Type 0 where
  pub active_clean : m.status ≡ active → m.last_error ≡ none
  pub active_created : m.status ≡ active → is_some m.created_at ≡ true
  pub active_hashed : m.status ≡ active → is_some m.desired_hash ≡ true
  pub degraded_clean : m.status ≡ degraded → m.last_error ≡ none
  pub degraded_created : m.status ≡ degraded → is_some m.created_at ≡ true
  pub degraded_hashed : m.status ≡ degraded → is_some m.desired_hash ≡ true
  pub error_known : m.status ≡ error → is_some m.last_error ≡ true
  pub hashed_created : is_some m.desired_hash ≡ true → is_some m.created_at ≡ true

apply-IsConsistent : (w : Write) {m : ResourceMeta} → IsConsistent m → IsConsistent (apply w m)
unfolding apply mark_active mark_error mark_seen
apply-IsConsistent (begin true) c = ground arith
apply-IsConsistent (begin false) c = ground arith
apply-IsConsistent (succeed now hash) c = ground arith
apply-IsConsistent (fail now message) c = ground arith
apply-IsConsistent (observe now healthy) c = ground arith

run-IsConsistent_from :
    (ws : List Write) {m : ResourceMeta} → IsConsistent m → IsConsistent (run ws m)
unfolding run
run-IsConsistent_from [] c = c
run-IsConsistent_from (w ∷ ws) c = run-IsConsistent_from ws (apply-IsConsistent w c)

-- After any writes to fresh metadata, an active or degraded resource has no error and has its creation
-- time and hash, a resource in error has its error, and a hash comes with a creation time.
pub run-IsConsistent : (ws : List Write) → IsConsistent (run ws default_meta)
run-IsConsistent ws = run-IsConsistent_from ws (ground arith)

abbrev pub outcomes : List Write → ℕ
outcomes [] = 0
outcomes (succeed now hash ∷ ws) = suc (outcomes ws)
outcomes (fail now message ∷ ws) = suc (outcomes ws)
outcomes (begin exists ∷ ws) = outcomes ws
outcomes (observe now healthy ∷ ws) = outcomes ws

-- The generation counts the outcomes of driver calls, failures included, modulo 2 ^ 64; beginning a
-- call and observing do not count.
pub generation-run :
    (ws : List Write) (m : ResourceMeta)
    → (run ws m).generation % 2 ^ 64 ≡ (m.generation + outcomes ws) % 2 ^ 64
unfolding run apply mark_active mark_error mark_seen
generation-run [] m = omega arith
generation-run (begin exists ∷ ws) m = generation-run ws (apply (begin exists) m)
generation-run (succeed now hash ∷ ws) m =
    omega (arith, generation-run ws (apply (succeed now hash) m))
generation-run (fail now message ∷ ws) m =
    omega (arith, generation-run ws (apply (fail now message) m))
generation-run (observe now healthy ∷ ws) m = generation-run ws (apply (observe now healthy) m)

abbrev pub reported : Bool → ProvisioningStatus
reported true = active
reported false = degraded

-- An observation moves a resource only between active and degraded, to the one that it reports; any
-- other status, the error, the hash and the generation stay.
pub mark_seen-status :
    (now : ℕ) (healthy : Bool) (m : ResourceMeta)
    → ((m.status ≡ active → (mark_seen now healthy m).status ≡ reported healthy)
        × (m.status ≡ degraded → (mark_seen now healthy m).status ≡ reported healthy)
        × (m.status ≢ active → m.status ≢ degraded → (mark_seen now healthy m).status ≡ m.status)
        × ((mark_seen now healthy m).last_error ≡ m.last_error)
        × ((mark_seen now healthy m).desired_hash ≡ m.desired_hash)
        × ((mark_seen now healthy m).generation ≡ m.generation))
unfolding mark_seen
mark_seen-status now true m = ground arith
mark_seen-status now false m = ground arith
