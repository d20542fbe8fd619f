-- ===== src/Db/Keeps.antt =====
-- Rules by which a command is shown to run to its end and to keep the keyspace sound: no assertion
-- of db.c aborts it. One rule for each way to build a command, and one for each function of db.c.
use gridapps.Object.{Robj}
use gridapps.Db.Evict.{
  counted, IsSound, expire_if_needed-eq, lookup_key_read-eq, lookup_key_write-eq, evict-IsSound,
  evict, set_key-eq, stored-IsSound,
}
use gridapps.Db.{
  ◌>>=◌, Outcome, M, pure, gets, add_dirty, signal_modified_key, Env, db_add, db_overwrite,
  db_delete, Keyspace, expire_if_needed, lookup_key_read, lookup_key_write, done, bind_outcome,
  set_key, assert, aborted,
}
use gridapps.Prelude.{
  true, false, none, some, refl, arith, Bytes, Bool, Option, ℕ, find-del, if◌then◌else◌, find, put,
  ◌≡◌, find-put,
}

-- The run ends with a value and a sound keyspace.
abbrev pub Succeeds : {A : Type 0} → Outcome (A × Keyspace) → Type 0
Succeeds (done (a, s)) = IsSound s
Succeeds aborted = ⊥

pub Succeeds-if :
    {A : Type 0} (b : Bool) (r q : Outcome (A × Keyspace))
    → (b ≡ true → Succeeds r)
    → (b ≡ false → Succeeds q)
    → Succeeds (if b then r else q)
Succeeds-if true r q hr hq = hr refl
Succeeds-if false r q hr hq = hq refl

-- From a sound keyspace the command succeeds.
pub record Keeps {A : Type 0} (m : M A) : Type 0 where
  pub at : (s : Keyspace) → IsSound s → Succeeds (m s)

-- So it does from a sound keyspace in which the key has the given value.
pub record KeepsAt {A : Type 0} (key : Bytes) (o : Option Robj) (m : M A) : Type 0 where
  pub at : (s : Keyspace) → IsSound s → find s.dict key ≡ o → Succeeds (m s)

module _ {A : Type 0} where
  pub Keeps-pure : (a : A) → Keeps (pure a)
  unfolding pure
  Keeps-pure a = record { at = λ s h. h }

  pub Keeps-gets : (f : Keyspace → A) → Keeps (gets f)
  unfolding gets
  Keeps-gets f = record { at = λ s h. h }

  pub Keeps-if :
      (b : Bool) (m n : M A)
      → (b ≡ true → Keeps m)
      → (b ≡ false → Keeps n)
      → Keeps (if b then m else n)
  Keeps-if true m n km kn = km refl
  Keeps-if false m n km kn = kn refl

  pub KeepsAt-if :
      {key : Bytes} {o : Option Robj} (b : Bool) (m n : M A)
      → (b ≡ true → KeepsAt key o m)
      → (b ≡ false → KeepsAt key o n)
      → KeepsAt key o (if b then m else n)
  KeepsAt-if true m n km kn = km refl
  KeepsAt-if false m n km kn = kn refl

  pub KeepsAt-Keeps : (key : Bytes) (o : Option Robj) (m : M A) → Keeps m → KeepsAt key o m
  KeepsAt-Keeps key o m k = record { at = λ s h e. k.at s h }

module _ {A B : Type 0} where
  Succeeds-bind_outcome :
      (r : Outcome (A × Keyspace)) (f : A → M B)
      → Succeeds r
      → ((a : A) → Keeps (f a))
      → Succeeds (bind_outcome r f)
  Succeeds-bind_outcome (done (a, s)) f h k = (k a).at s h
  Succeeds-bind_outcome aborted f h k = absurd h

  pub Keeps-bind : (m : M A) (f : A → M B) → Keeps m → ((a : A) → Keeps (f a)) → Keeps (m >>= f)
  unfolding ◌>>=◌
  Keeps-bind m f km kf = record { at = λ s h. Succeeds-bind_outcome (m s) f (km.at s h) kf }

  pub KeepsAt-bind :
      {key : Bytes} {o : Option Robj} (m : M A) (f : A → M B)
      → KeepsAt key o m
      → ((a : A) → Keeps (f a))
      → KeepsAt key o (m >>= f)
  unfolding ◌>>=◌
  KeepsAt-bind m f km kf = record { at = λ s h e. Succeeds-bind_outcome (m s) f (km.at s h e) kf }

pub Keeps-add_dirty : (n : ℕ) → Keeps (add_dirty n)
unfolding add_dirty
Keeps-add_dirty n = record { at = λ s h. record { owned = h.owned } }

pub Keeps-signal_modified_key : (key : Bytes) → Keeps (signal_modified_key key)
unfolding signal_modified_key
Keeps-signal_modified_key key = record { at = λ s h. record { owned = h.owned } }

pub Keeps-expire_if_needed : (env : Env) (key : Bytes) → Keeps (expire_if_needed env key)
Keeps-expire_if_needed env key = record {
  at = λ s h. rw (expire_if_needed-eq env key s h) (evict-IsSound env key s h);
}

counted-IsSound : (b : Bool) (s : Keyspace) → IsSound s → IsSound (counted b s)
unfolding counted
counted-IsSound true s h = record { owned = h.owned }
counted-IsSound false s h = record { owned = h.owned }

pub Keeps-lookup_key_read : (env : Env) (key : Bytes) → Keeps (lookup_key_read env key)
Keeps-lookup_key_read env key = record {
  at = λ s h.
      rw (lookup_key_read-eq env key s h)
        (counted-IsSound _ (evict env key s) (evict-IsSound env key s h));
}

pub Keeps-lookup_key_write : (env : Env) (key : Bytes) → Keeps (lookup_key_write env key)
Keeps-lookup_key_write env key = record {
  at = λ s h. rw (lookup_key_write-eq env key s h) (evict-IsSound env key s h);
}

-- What follows a lookup may use the value that it found.
pub Keeps-lookup_bind :
    {B : Type 0} (env : Env) (key : Bytes) (f : Option Robj → M B)
    → KeepsAt key none (f none)
    → ((o : Robj) → KeepsAt key (some o) (f (some o)))
    → Keeps (lookup_key_write env key >>= f)
unfolding ◌>>=◌
Keeps-lookup_bind env key f k k' = record {
  at = λ s h. rw (lookup_key_write-eq env key s h) (
      (split (find (evict env key s).dict key)).at (evict env key s) (evict-IsSound env key s h)
        refl);
}
  where
    split : (o : Option Robj) → KeepsAt key o (f o)
    split none = k
    split (some o) = k' o

-- So after a read.
pub Keeps-read_bind :
    {B : Type 0} (env : Env) (key : Bytes) (f : Option Robj → M B)
    → Keeps (f none)
    → ((o : Robj) → Keeps (f (some o)))
    → Keeps (lookup_key_read env key >>= f)
Keeps-read_bind env key f k k' =
    Keeps-bind (lookup_key_read env key) f (Keeps-lookup_key_read env key) split
  where
    split : (o : Option Robj) → Keeps (f o)
    split none = k
    split (some o) = k' o

pub Keeps-set_key : (env : Env) (key : Bytes) (val : Robj) → Keeps (set_key env key val)
Keeps-set_key env key val = record {
  at = λ s h.
      rw (set_key-eq env key val s h)
        (stored-IsSound key val (evict env key s) (evict-IsSound env key s h));
}

pub put-IsSound :
    (key : Bytes) (val : Robj) (s : Keyspace)
    → IsSound s
    → IsSound (record s { dict = put s.dict key val })
put-IsSound key val s h = record {
  owned = λ k p. ground (arith, find-put s.dict key k val, h.owned k);
}

pub KeepsAt-db_add : (key : Bytes) (val : Robj) → KeepsAt key none (db_add key val)
unfolding db_add
KeepsAt-db_add key val = record { at = λ s h e. rw (e, ◌>>=◌, assert) (put-IsSound key val s h) }

pub KeepsAt-db_overwrite :
    (key : Bytes) (o val : Robj) → KeepsAt key (some o) (db_overwrite key val)
unfolding db_overwrite
KeepsAt-db_overwrite key o val = record {
  at = λ s h e. rw (e, ◌>>=◌, assert) (put-IsSound key val s h);
}

pub Keeps-db_delete : (key : Bytes) → Keeps (db_delete key)
unfolding db_delete
Keeps-db_delete key = record {
  at = λ s h. record {
    owned = λ k p. ground (arith, find-del s.dict key k, find-del s.expires key k, h.owned k);
  };
}

pub ruleset keeps_rules = (
  Keeps-pure, Keeps-gets, Keeps-if, Keeps-bind, Keeps-add_dirty, Keeps-signal_modified_key,
  Keeps-expire_if_needed, Keeps-lookup_key_read, Keeps-lookup_key_write, Keeps-set_key,
  Keeps-db_delete, Keeps-lookup_bind, Keeps-read_bind, KeepsAt-if, KeepsAt-bind, KeepsAt-Keeps,
  KeepsAt-db_add, KeepsAt-db_overwrite,
)
