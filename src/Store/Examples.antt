-- ===== src/Store/Examples.antt =====
-- The laws of the store at small states. Handles are texts, and a lock is its own identifier.
use Prim.Native.Nat.{min}
use nclav.Base.{
  inl, inr, insert, remove, get-insert, get-remove, Option, String, ◌≡◌, ◌≢◌, refl, sym, ◌+◌, ◌%◌,
  ◌^◌, ◌≤◌, ◌⊎◌, true, false, none, some, List, [], ◌∷◌, ◌++◌, length, filter, All, Mem, here, get,
  ok, err, arith, eq_iff, if◌then◌else◌, string_eq, ℕ, zero, suc, Bool-cases, ◌==◌,
}
use nclav.Store.Value.{Json}
use nclav.Store.State.{
  active, default_meta, ResourceMeta, IacRun, provision, succeeded, enclave_provisioned,
  reconcile_started, lock_conflict,
}
use nclav.Store.Lifecycle.{
  begin, succeed, fail, observe, Write, run, outcomes, IsConsistent, run-IsConsistent,
  generation-run,
}
use nclav.Store.Memory.{
  Inner, new_store, concerns, append_event, list_events, lock_tf_state, unlock_tf_state, held_id,
  list_iac_runs,
}
use nclav.Store.Memory.Locks.{
  Request, lock, unlock, put, delete, serve, serve_all, lock-serve_all, unlock-lock,
}
use nclav.Store.Redb.{Bytes, Serde, Disk, DiskLaws, Tables}
use nclav.Store.Redb.Represents.{Represents, Refines}
use nclav.Store.Redb.Writes.{in_memory, on_disk, write-Refines}
use nclav.Store.Redb.Writes
use nclav.Store.Memory.Events.{list_events-suffix, list_events-append_event}
use nclav.Store.Memory.Runs.{IsNewestFirst, list_iac_runs-IsNewestFirst, list_iac_runs-newest}

abbrev texts : Json String
texts = record {
  null = "";
  str = λ s. s;
  object = λ m. "";
  get = λ v k. none;
  index = λ v k. v;
  set = λ v k w. w;
  as_str = λ v. some v;
  as_object = λ v. none;
}

abbrev a_life : List Write
a_life = begin false ∷ succeed 5 "h1" ∷ observe 6 false ∷ begin true ∷ fail 7 "quota" ∷ []

run-IsConsistent_example : IsConsistent (run a_life default_meta)
run-IsConsistent_example = run-IsConsistent a_life

generation-run_example :
    (run a_life default_meta).generation % 2 ^ 64
    ≡ (default_meta.generation + outcomes a_life) % 2 ^ 64
generation-run_example = generation-run a_life default_meta

abbrev created : ResourceMeta
created = record default_meta { created_at = some 5; status = active }

abbrev locked : Inner String
locked = record new_store { tf_locks = ("p", "alice") ∷ [] }

abbrev requests : List (Request String)
requests = lock "p" "bob" ∷ put "p" (1 ∷ 2 ∷ []) ∷ unlock "p" "bob" ∷ delete "q" ∷ []

bob-ne-empty : ◌≢◌ {A = String} "bob" ""
bob-ne-empty = ground (arith, eq_iff "bob" "")

alice-ne-bob : ◌≢◌ {A = String} "alice" "bob"
alice-ne-bob = ground (arith, eq_iff "alice" "bob")

q-ne-p : ◌≢◌ {A = String} "q" "p"
q-ne-p = ground (arith, eq_iff "q" "p")

held-alice : held_id texts "alice" ≢ "bob"
unfolding held_id
held-alice = alice-ne-bob

held-p : get "p" locked.tf_locks ≡ some "alice"
unfolding get
held-p = refl

lock-serve_all_example :
    (get "p" (serve_all texts requests locked).tf_locks ≡ some "alice")
    × (lock_tf_state "p" "carol" (serve_all texts requests locked) ≡ err (lock_conflict "alice"))
    × (serve texts (lock "p" "carol") (serve_all texts requests locked)
        ≡ serve_all texts requests locked)
lock-serve_all_example = lock-serve_all texts "p" "alice" "carol" requests locked held-p (
  (λ f. f),
  ((λ f. f), ((λ f. elim f.1 [ inl e ↦ bob-ne-empty e | inr e ↦ held-alice e ]), (q-ne-p, tt))),
)

abbrev free : Inner String
free = new_store

taken-p : lock_tf_state "p" "alice" free ≡ ok locked
unfolding lock_tf_state get insert
taken-p = refl

unlock-lock_example :
    (get "p" (unlock_tf_state texts "p" (held_id texts "alice") locked).tf_locks ≡ none)
    × ((u : Inner String) × (lock_tf_state "p" "bob"
            (unlock_tf_state texts "p" (held_id texts "alice") locked)
          ≡ ok u)
        × (get "p" u.tf_locks ≡ some "bob"))
    × ((k : String)
        → "p" ≢ k
        → get k (unlock_tf_state texts "p" (held_id texts "alice") locked).tf_locks
          ≡ get k free.tf_locks)
unlock-lock_example = unlock-lock texts "p" "alice" "bob" free locked taken-p

abbrev noted : Inner String
noted = record new_store {
  events =
      reconcile_started 1 1 false ∷ enclave_provisioned 2 2 "a" ∷ enclave_provisioned 3 3 "b" ∷ [];
}

list_events-suffix_example :
    (older : List _) × (filter (concerns (some "a")) noted.events
      ≡ older ++ list_events (some "a") 10 noted)
    × (length (list_events (some "a") 10 noted)
        ≡ min 10 (length (filter (concerns (some "a")) noted.events)))
list_events-suffix_example = list_events-suffix noted 10 (some "a")

list_events-append_event_example :
    list_events (some "a") 10 (append_event (enclave_provisioned 4 4 "a") noted) ≡ (
      if concerns (some "a") (enclave_provisioned 4 4 "a")
      then list_events (some "a") 9 noted ++ enclave_provisioned 4 4 "a" ∷ []
      else list_events (some "a") 10 noted)
list_events-append_event_example =
    list_events-append_event noted 9 (some "a") (enclave_provisioned 4 4 "a")

abbrev first_run : IacRun
first_run = record {
  id = 1;
  enclave_id = "a";
  partition_id = "p";
  operation = provision;
  started_at = 10;
  finished_at = some 12;
  status = succeeded;
  exit_code = none;
  log = "";
  reconcile_run_id = none;
}

abbrev ran : Inner String
ran = record new_store {
  iac_runs = (1, first_run) ∷ (2, record first_run { id = 2; started_at = 20 }) ∷ [];
}

list_iac_runs-IsNewestFirst_example :
    (length (list_iac_runs "a" "p" ran) ≤ 100)
    × IsNewestFirst (list_iac_runs "a" "p" ran)
    × All (λ r. (r.enclave_id ≡ "a") × (r.partition_id ≡ "p")) (list_iac_runs "a" "p" ran)
list_iac_runs-IsNewestFirst_example = list_iac_runs-IsNewestFirst "a" "p" ran

list_iac_runs-newest_example :
    Mem first_run (list_iac_runs "a" "p" ran)
    ⊎ ((listed : IacRun) → Mem listed (list_iac_runs "a" "p" ran) → 10 ≤ listed.started_at)
list_iac_runs-newest_example = list_iac_runs-newest ran first_run here

-- A codec that writes a value as it is and no state of an enclave.
abbrev raw : Serde Bytes
raw = record {
  state_to_vec = λ s. err "unsupported";
  state_from_slice = λ b. err "unsupported";
  event_to_vec = λ e. err "unsupported";
  event_from_slice = λ b. err "unsupported";
  value_to_vec = λ v. ok v;
  value_from_slice = λ b. ok b;
  run_to_vec = λ r. err "unsupported";
  run_from_slice = λ b. err "unsupported";
  uuid_text = λ n. "";
  rfc3339 = λ n. "";
}

abbrev bytes_json : Json Bytes
bytes_json = record {
  null = [];
  str = λ s. [];
  object = λ m. [];
  get = λ v k. none;
  index = λ v k. v;
  set = λ v k w. w;
  as_str = λ v. none;
  as_object = λ v. none;
}

abbrev space : ℕ → Option String × ℕ
space zero = (some "full", zero)
space (suc n) = (none, n)

-- A disk that fails once its space is used, with association lists for its tables.
abbrev small_disk : Disk ℕ
small_disk = record {
  fault = space;
  insert = λ k v m. insert k v m;
  remove = λ k m. remove k m;
  dropped = λ before during. before;
}

small_disk_laws : DiskLaws small_disk
small_disk_laws = record {
  get-insert = λ k j v m. get-insert k j v m;
  get-remove = λ k j m. get-remove k j m;
  dropped-before = λ before during. refl;
}

abbrev one_lock : Inner Bytes
one_lock = record new_store { tf_locks = ("p", 7 ∷ []) ∷ [] }

abbrev one_lock_tables : Tables
one_lock_tables = record {
  enclaves = [];
  events = [];
  meta = [];
  tf_state = [];
  tf_locks = ("p", 7 ∷ []) ∷ [];
  iac_runs = [];
  iac_runs_by_part = [];
}

one_lock-Represents : Represents raw one_lock_tables one_lock
unfolding get
one_lock-Represents = record {
  enclaves = λ k. refl;
  tf_state = λ k. refl;
  tf_locks = λ k. elim (Bool-cases ("p" == k)) [ inl y ↦ simp y | inr n ↦ simp n ];
}

write-Refines_example :
    Refines raw small_disk
      (in_memory bytes_json (Writes.lock "q" (8 ∷ [])) one_lock)
      one_lock_tables
      (on_disk raw small_disk bytes_json (Writes.lock "q" (8 ∷ [])) (one_lock_tables, 9))
write-Refines_example =
    write-Refines raw small_disk bytes_json small_disk_laws (λ a b e. cc) (λ a b e. sym e)
      (Writes.lock "q" (8 ∷ [])) one_lock_tables one_lock 9 one_lock-Represents
