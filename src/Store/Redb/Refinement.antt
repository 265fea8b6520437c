-- ===== src/Store/Redb/Refinement.antt =====
-- crates/nclav-store/src/redb_store.rs: what holds after a call of redb, a block and a write transaction.
use mathlib.Core.Path.{◌≡◌, refl, sym, ap, subst}
use nclav.Base.Effects.{pure, ◌>>=◌, ◌>>◌}
use nclav.Base.Effects.Rules.{>>=-post}
use nclav.Base.{String, Option, none, some, Result, ok, err}
use nclav.Store.State.{StoreError, internal}
use nclav.Store.Redb.{Tables, Disk, DiskLaws, Txn, call, touch, committed, write_txn, answered}

-- After an action: `Good` of what it returns and of the tables, or `Bad` of its error.
abbrev pub After :
    {E W A : Type 0} → (E → Type 0) → (A → Tables → Type 0) → Result E A → Tables × W → Type 0
After Bad Good (ok a) u = Good a u.0
After Bad Good (err e) u = Bad e

module _ {V W : Type 0} (disk : Disk W) (Bad : StoreError V → Type 0)
    (fault : (m : String) (w : W) → (disk.fault w).0 ≡ some m → Bad (internal m)) where
  pub call-After :
      {A : Type 0} (Good : A → Tables → Type 0) (f : Tables → A × Tables) (t : Tables) (w : W)
      → Good (f t).0 (f t).1
      → After Bad Good (call {V = V} disk f (t, w)).0 (call {V = V} disk f (t, w)).1
  unfolding call answered
  call-After {A} Good f t w g = split (disk.fault w) refl
    where
      split :
          (x : Option String × W)
          → disk.fault w ≡ x
          → After Bad Good (answered {V = V} disk f t x).0 (answered {V = V} disk f t x).1
      split (some m, v) e = fault m w (ap (λ y. y.0) e)
      split (none, v) e = g

  pub >>=-After :
      {A B : Type 0} (Mid : A → Tables → Type 0) (Good : B → Tables → Type 0) (m : Txn V W A)
      (f : A → Txn V W B) (u : Tables × W)
      → After Bad Mid (m u).0 (m u).1
      → ((a : A) (t : Tables) (w : W) → Mid a t → After Bad Good (f a (t, w)).0 (f a (t, w)).1)
      → After Bad Good ((m >>= f) u).0 ((m >>= f) u).1
  >>=-After Mid Good m f u h k =
      >>=-post (After Bad Mid) (After Bad Good) m f u h (λ a v g. k a v.0 v.1 g) (λ e v b. b)

  -- A call and what follows it.
  pub call_then :
      {A B : Type 0} (Good : B → Tables → Type 0) (f : Tables → A × Tables) (g : A → Txn V W B)
      (t : Tables) (w : W)
      → ((v : W) → After Bad Good (g (f t).0 ((f t).1, v)).0 (g (f t).0 ((f t).1, v)).1)
      → After Bad Good ((call disk f >>= g) (t, w)).0 ((call disk f >>= g) (t, w)).1
  call_then Good f g t w k =
      >>=-After (λ a u. ◌≡◌ {A = _ × Tables} (a, u) (f t)) Good (call disk f) g (t, w)
        (call-After (λ a u. (a, u) ≡ f t) f t w refl)
        (λ a u v e.
          subst (λ (x : _ × Tables). After Bad Good (g x.0 (x.1, v)).0 (g x.0 (x.1, v)).1) (sym e)
            (k v))

  -- A write transaction leaves the tables as they were or does the whole of its body.
  pub write_txn-After :
      (laws : DiskLaws disk) {A : Type 0} (Good : A → Tables → Type 0) (body : Txn V W A)
      (t : Tables) (w : W)
      → ((v : W) → After Bad Good (body (t, v)).0 (body (t, v)).1)
      → After
          (λ e. Bad e × ((write_txn disk body (t, w)).1.0 ≡ t))
          Good
          (write_txn disk body (t, w)).0
          (write_txn disk body (t, w)).1
  unfolding write_txn committed pure
  write_txn-After laws {A} Good body t w k =
      split ((touch disk >> (body >>= λ a. touch disk >> pure a)) (t, w)) (
        call_then Good (λ u. (tt, u)) _ t w
          (λ v.
            >>=-After Good Good body (λ a. touch disk >> pure a) (t, v) (k v)
              (λ a u x g. call_then Good (λ y. (tt, y)) _ u x (λ z. g))))
    where
      split :
          (r : Result (StoreError V) A × (Tables × W))
          → After Bad Good r.0 r.1
          → After
              (λ e. Bad e × ((committed disk t r).1.0 ≡ t))
              Good
              (committed disk t r).0
              (committed disk t r).1
      split (ok a, u) g = g
      split (err e, u) b = (b, laws.dropped-before t u.0)
