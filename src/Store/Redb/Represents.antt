-- ===== src/Store/Redb/Represents.antt =====
-- When the tables of crates/nclav-store/src/redb_store.rs hold what the maps of `InMemoryStore` do, and what
-- a write is to do to both. The rules follow the calls of a transaction.
use nclav.Base.Effects.{pure, throw, ◌>>=◌, lift}
use nclav.Base.{
  ◌≡◌, refl, sym, subst₂, String, Option, none, some, Map, get, insert, remove, get-insert,
  get-remove, ◌==◌, ◌⊎◌, inl, inr, string_eq, Result, ok, err, Bool-cases,
}
use nclav.Store.State.{StoreError, serialization, internal}
use nclav.Store.Memory.{Inner}
use nclav.Store.Redb.Refinement.{After, call-After, >>=-After, call_then, write_txn-After}
use nclav.Store.Redb.{
  Bytes, Serde, Tables, Disk, DiskLaws, Txn, call, change, write_txn, serde, decode_option,
}
use nclav.Store.Redb.TfState.{read_lock}

abbrev pub found : {A : Type 0} → Result String A → Result String (Option A)
found (ok a) = ok (some a)
found (err e) = err e

-- What a stored value is read back as.
abbrev pub read_back :
    {A : Type 0} → (Bytes → Result String A) → Option Bytes → Result String (Option A)
read_back f none = ok none
read_back f (some b) = found (f b)

-- A table holds the values of a map, as their bytes.
abbrev pub Holds :
    {A : Type 0} → (Bytes → Result String A) → Map String Bytes → Map String A → Type 0
Holds f t m = (k : String) → read_back f (get k t) ≡ ok (get k m)

-- The law of a codec: what is written is read back.
abbrev pub RoundTrip : {A : Type 0} → (A → Result String Bytes) → (Bytes → Result String A) → Type 0
RoundTrip {A} to from = (a : A) (b : Bytes) → to a ≡ ok b → from b ≡ ok a

pub record Represents {V : Type 0} (sd : Serde V) (t : Tables) (s : Inner V) : Type 0 where
  pub enclaves : Holds sd.state_from_slice t.enclaves s.enclaves
  pub tf_state : (k : String) → get k t.tf_state ≡ get k s.tf_state
  pub tf_locks : Holds sd.value_from_slice t.tf_locks s.tf_locks

-- The errors that the memory has not: those that the disk gave, and those of the codec.
pub data Fault {V W : Type 0} (fault : W → Option String × W) : StoreError V → Type 0 where
  of_disk : (m : String) (w : W) → (fault w).0 ≡ some m → Fault fault (internal m)
  of_codec : (m : String) → Fault fault (serialization m)

-- The store does what `spec` says, or fails and leaves the tables as they were.
abbrev pub Refines :
    {V W : Type 0}
    → Serde V
    → Disk W
    → Result (StoreError V) (Inner V)
    → Tables
    → Result (StoreError V) (Unit {0}) × (Tables × W)
    → Type 0
Refines {V} sd disk spec before r =
    After (λ e. (Fault disk.fault e ⊎ (spec ≡ err e)) × (r.1.0 ≡ before))
      (λ _ t. (s : Inner V) × ((spec ≡ ok s) × Represents sd t s)) r.0 r.1

module _ {W : Type 0} (disk : Disk W) (laws : DiskLaws disk) {A : Type 0}
    (from : Bytes → Result String A) (t : Map String Bytes) (m : Map String A) (k : String) where
  pub Holds-insert :
      (a : A) (b : Bytes)
      → from b ≡ ok a
      → Holds from t m
      → Holds from (disk.insert k b t) (insert k a m)
  Holds-insert a b e h j = elim (Bool-cases (k == j)) [
    | inl y ↦ simp (laws.get-insert, get-insert, y, e)
    | inr n ↦ simp (laws.get-insert, get-insert, n, h j)
  ]

  pub Holds-remove : Holds from t m → Holds from (disk.remove k t) (remove k m)
  Holds-remove h j = elim (Bool-cases (k == j)) [
    | inl y ↦ simp (laws.get-remove, get-remove, y)
    | inr n ↦ simp (laws.get-remove, get-remove, n, h j)
  ]

module _ {V W : Type 0} (sd : Serde V) (disk : Disk W)
    (spec : Result (StoreError V) (Inner V)) where
  abbrev pub Bad : StoreError V → Type 0
  Bad e = Fault disk.fault e ⊎ (spec ≡ err e)

  pub fault : (m : String) (w : W) → (disk.fault w).0 ≡ some m → Bad (internal m)
  fault m w e = inl (of_disk m w e)

  -- What the tables are to hold after the body.
  abbrev pub Done : Unit {0} → Tables → Type 0
  Done a t = (s : Inner V) × ((spec ≡ ok s) × Represents sd t s)

  pub atomic :
      (laws : DiskLaws disk) (body : Txn V W (Unit {0})) (t : Tables) (w : W)
      → ((v : W) → After Bad Done (body (t, v)).0 (body (t, v)).1)
      → Refines sd disk spec t (write_txn disk body (t, w))
  atomic laws = write_txn-After disk Bad fault laws Done

  pub next :
      {A : Type 0} (f : Tables → A × Tables) (g : A → Txn V W (Unit {0})) (t : Tables) (w : W)
      → ((v : W) → After Bad Done (g (f t).0 ((f t).1, v)).0 (g (f t).0 ((f t).1, v)).1)
      → After Bad Done ((call disk f >>= g) (t, w)).0 ((call disk f >>= g) (t, w)).1
  next = call_then disk Bad fault Done

  pub last :
      (f : Tables → Tables) (t : Tables) (w : W)
      → Done tt (f t)
      → After Bad Done (change {V = V} disk f (t, w)).0 (change {V = V} disk f (t, w)).1
  last f = call-After disk Bad fault Done (λ t. (tt, f t))

  -- The body of a transaction after an encoding.
  pub encoded :
      (r : Result String Bytes) (g : Bytes → Txn V W (Unit {0})) (t : Tables) (w : W)
      → ((b : Bytes) → r ≡ ok b → After Bad Done (g b (t, w)).0 (g b (t, w)).1)
      → After Bad Done ((serde r >>= g) (t, w)).0 ((serde r >>= g) (t, w)).1
  unfolding serde lift ◌>>=◌ throw
  encoded (ok b) g t w k = k b refl
  encoded (err m) g t w k = inl (of_codec m)

  -- A transaction after an encoding.
  pub encoded_before :
      (r : Result String Bytes) (g : Bytes → Txn V W (Unit {0})) (t : Tables) (w : W)
      → ((b : Bytes) → r ≡ ok b → Refines sd disk spec t (g b (t, w)))
      → Refines sd disk spec t ((serde r >>= g) (t, w))
  unfolding serde lift ◌>>=◌ throw
  encoded_before (ok b) g t w k = k b refl
  encoded_before (err m) g t w k = (inl (of_codec m), refl)

  -- A value that is read, where the map has `o`.
  pub decode_option-After :
      {A : Type 0} (from : Bytes → Result String A) (b : Option Bytes) (o : Option A) (t : Tables)
      (w : W)
      → read_back from b ≡ ok o
      → After Bad
          (λ a u. (a ≡ o) × (u ≡ t))
          (decode_option {V = V} from b (t, w)).0
          (decode_option {V = V} from b (t, w)).1
  unfolding decode_option pure serde lift ◌>>=◌ throw
  decode_option-After from none o t w h = (cc, refl)
  decode_option-After {A} from (some b) o t w h = read (from b) h
    where
      read :
          (r : Result String A)
          → found r ≡ ok o
          → After Bad
              (λ a u. (a ≡ o) × (u ≡ t))
              ((serde {V = V} r >>= λ a. pure (some a)) (t, w)).0
              ((serde {V = V} r >>= λ a. pure (some a)) (t, w)).1
      read (ok a) e = (cc, refl)
      read (err m) e = inl (of_codec m)

  -- What follows the reading of a lock.
  pub after_read_lock :
      (g : Option V → Txn V W (Unit {0})) (key : String) (t : Tables) (s : Inner V) (w : W)
      → Represents sd t s
      → ((v : W)
          → After Bad Done (g (get key s.tf_locks) (t, v)).0 (g (get key s.tf_locks) (t, v)).1)
      → After Bad Done
          ((read_lock sd disk key >>= g) (t, w)).0
          ((read_lock sd disk key >>= g) (t, w)).1
  unfolding read_lock
  after_read_lock g key t s w rep k =
      >>=-After disk Bad fault (λ a u. (a ≡ get key s.tf_locks) × (u ≡ t)) Done
        (read_lock sd disk key) g (t, w)
        (call_then disk Bad fault _ _ _ t w (λ v. call_then disk Bad fault _ _ _ t v (λ x.
          decode_option-After sd.value_from_slice (get key t.tf_locks) _ t x (rep.tf_locks key))))
        (λ a u v e.
          subst₂ (λ a u. After Bad Done (g a (u, v)).0 (g a (u, v)).1) (sym e.0) (sym e.1) (k v))
