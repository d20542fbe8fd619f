-- ===== src/Db/Effects.antt =====
-- What the functions of db.c that write do, as functions of the keyspace, and runs.
use gridapps.Object.{Robj}
use gridapps.Db.Evict.{IsSound, SameAt}
use gridapps.Db.{◌>>=◌, Outcome, Keyspace, done, present, aborted, set_expire, M}
use gridapps.Prelude.{
  true, none, some, arith, ℕ, Bytes, Option, ◌≡◌, ◌+◌, [], ◌∷◌, ◌≢◌, ◌++◌, ℤ, put, bytes_eq_iff,
  find-put, del, find-del, find-put_self,
}

-- The reply of a run.
abbrev pub reply_of : {A : Type 0} → Outcome (A × Keyspace) → Option A
reply_of (done (r, s)) = some r
reply_of aborted = none

-- `server.dirty += n`
unfoldable pub dirtied : ℕ → Keyspace → Keyspace
dirtied n s = record s { dirty = s.dirty + n }

pub dirtied-IsSound : (n : ℕ) (s : Keyspace) → IsSound s → IsSound (dirtied n s)
unfolding dirtied
dirtied-IsSound n s h = record { owned = h.owned }

-- `setExpire`, of a key that exists.
unfoldable pub expiring : Bytes → ℤ → Keyspace → Keyspace
expiring key when s = record s { expires = put s.expires key when }

pub expiring-IsSound :
    (key : Bytes) (when : ℤ) (s : Keyspace)
    → IsSound s
    → present s.dict key ≡ true
    → IsSound (expiring key when s)
unfolding expiring
expiring-IsSound key when s h p = record {
  owned = λ k q. ground (arith, bytes_eq_iff key k, find-put s.expires key k when, h.owned k);
}

pub set_expire-eq :
    (key : Bytes) (when : ℤ) (s : Keyspace)
    → present s.dict key ≡ true
    → set_expire key when s ≡ done (tt, expiring key when s)
unfolding set_expire expiring
set_expire-eq key when s p = ground arith

pub expiring-SameAt :
    (key j : Bytes) (when : ℤ) (s : Keyspace) → j ≢ key → SameAt j (expiring key when s) s
unfolding expiring
expiring-SameAt key j when s ne = ground (arith, bytes_eq_iff key j, find-put s.expires key j when)

pub bind_reply :
    {A B : Type 0} (m : M A) (f : A → M B) {s s' : Keyspace} {a : A} {r : B}
    → m s ≡ done (a, s')
    → reply_of (f a s') ≡ some r
    → reply_of ((m >>= f) s) ≡ some r
unfolding ◌>>=◌
bind_reply m f e k = rw e k

-- `signalModifiedKey`
unfoldable pub signalled : Bytes → Keyspace → Keyspace
signalled key s = record s { touched = s.touched ++ key ∷ [] }

pub signalled-IsSound : (key : Bytes) (s : Keyspace) → IsSound s → IsSound (signalled key s)
unfolding signalled
signalled-IsSound key s h = record { owned = h.owned }

-- `dbDelete`
unfoldable pub deleted : Bytes → Keyspace → Keyspace
deleted key s = record s { dict = del s.dict key; expires = del s.expires key }

pub deleted-IsSound : (key : Bytes) (s : Keyspace) → IsSound s → IsSound (deleted key s)
unfolding deleted
deleted-IsSound key s h = record {
  owned = λ k p. ground (arith, find-del s.dict key k, find-del s.expires key k, h.owned k);
}

pub deleted-SameAt : (key j : Bytes) (s : Keyspace) → j ≢ key → SameAt j (deleted key s) s
unfolding deleted
deleted-SameAt key j s ne =
    ground (arith, bytes_eq_iff key j, find-del s.dict key j, find-del s.expires key j)

-- `dbAdd` and `dbOverwrite`, where their assertions hold
unfoldable pub written : Bytes → Robj → Keyspace → Keyspace
written key o s = record s { dict = put s.dict key o }

pub written-SameAt :
    (key j : Bytes) (o : Robj) (s : Keyspace) → j ≢ key → SameAt j (written key o s) s
unfolding written
written-SameAt key j o s ne = ground (arith, bytes_eq_iff key j, find-put s.dict key j o)

-- `removeExpire`, of a key that exists
unfoldable pub persistent : Bytes → Keyspace → Keyspace
persistent key s = record s { expires = del s.expires key }

pub persistent-IsSound : (key : Bytes) (s : Keyspace) → IsSound s → IsSound (persistent key s)
unfolding persistent
persistent-IsSound key s h = record {
  owned = λ k p. ground (arith, find-del s.expires key k, h.owned k);
}

pub written-IsSound :
    (key : Bytes) (o : Robj) (s : Keyspace) → IsSound s → IsSound (written key o s)
unfolding written
written-IsSound key o s h = record {
  owned = λ k p. ground (arith, find-put s.dict key k o, h.owned k);
}

pub written-present :
    (key : Bytes) (o : Robj) (s : Keyspace) → present (written key o s).dict key ≡ true
unfolding written
written-present key o s = rw (find-put_self s.dict key o)
