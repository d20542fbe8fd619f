-- ===== src/Db/Evict.antt =====
-- What the lookups of db.c do, as functions of the keyspace. Every key with a time to live exists:
-- under that invariant no assertion fails, and a lookup first drops the key if its time has passed.
use gridapps.Prelude.{
  Bytes, Option, del, Bool, ◌≡◌, if◌then◌else◌, true, ℤ, find, ◌+◌, false, arith, ◌++◌, some, ◌∷◌,
  not, [], ◌&&◌, leb_ℤ, pos, ltb_ℤ, none, ◌||◌, inl, inr, find-del, Bool-cases, put, find-put,
  find-put_self, ◌≢◌, bytes_eq_iff, ℕ, ◌<◌, ◌≤◌,
}
use gridapps.Db.{
  Keyspace, Env, get_expire, expire_if_needed, present, done, time_or_minus_one, lookup_key_write,
  lookup_key_read, Robj, set_key, ◌>>=◌,
}

-- Every key with a time to live exists.
pub record IsSound (s : Keyspace) : Type 0 where
  pub owned : (k : Bytes) → present s.expires k ≡ true → present s.dict k ≡ true

-- A time to live that has passed on a master that is not loading.
unfoldable pub is_due : Env → Option ℤ → Bool
is_due env none = false
is_due env (some when) =
    not env.loading && not env.slave && leb_ℤ (pos 0) when && ltb_ℤ when (pos env.now)

unfoldable pub dropped : Bytes → Keyspace → Keyspace
dropped key s = record s {
  dict = del s.dict key;
  expires = del s.expires key;
  expired = s.expired + 1;
  propagated = s.propagated ++ key ∷ [];
}

-- The keyspace in which a lookup of the key finds its value.
unfoldable pub evict : Env → Bytes → Keyspace → Keyspace
unfolding dropped is_due
evict env key s = if is_due env (find s.expires key) then dropped key s else s

-- The answer of expireIfNeeded: whether the key counts as expired.
abbrev pub counts_expired : Env → Bytes → Keyspace → Bool
counts_expired env key s = elim (find s.expires key) [
  | none ↦ false
  | some when ↦
      leb_ℤ (pos 0) when
      && not env.loading
      && ltb_ℤ when (pos env.now)
      && (env.slave || present s.dict key)
]

pub get_expire-eq :
    (key : Bytes) (s : Keyspace)
    → IsSound s
    → get_expire key s ≡ done (time_or_minus_one (find s.expires key), s)
unfolding get_expire
get_expire-eq key s h = ground (arith, h.owned key)

-- What expireIfNeeded does and answers, on every path.
pub expire_if_needed-eq :
    (env : Env) (key : Bytes) (s : Keyspace)
    → IsSound s
    → expire_if_needed env key s ≡ done (counts_expired env key s, evict env key s)
unfolding expire_if_needed evict
expire_if_needed-eq env key s h = ground (arith, h.owned key)

pub lookup_key_write-eq :
    (env : Env) (key : Bytes) (s : Keyspace)
    → IsSound s
    → lookup_key_write env key s ≡ done (find (evict env key s).dict key, evict env key s)
unfolding lookup_key_write
lookup_key_write-eq env key s h = rw (expire_if_needed-eq env key s h, ◌>>=◌)

-- The counters of hits and misses, after a read.
unfoldable pub counted : Bool → Keyspace → Keyspace
counted true s = record s { hits = s.hits + 1 }
counted false s = record s { misses = s.misses + 1 }

pub lookup_key_read-eq :
    (env : Env) (key : Bytes) (s : Keyspace)
    → IsSound s
    → lookup_key_read env key s
      ≡ done (
        find (evict env key s).dict key,
        counted (present (evict env key s).dict key) (evict env key s),
      )
unfolding lookup_key_read counted
lookup_key_read-eq env key s h = rw (expire_if_needed-eq env key s h, ◌>>=◌) (ground arith)

dropped-IsSound : (key : Bytes) (s : Keyspace) → IsSound s → IsSound (dropped key s)
unfolding dropped
dropped-IsSound key s h = record {
  owned = λ k p. ground (arith, find-del s.dict key k, find-del s.expires key k, h.owned k);
}

pub evict-IsSound : (env : Env) (key : Bytes) (s : Keyspace) → IsSound s → IsSound (evict env key s)
unfolding evict
evict-IsSound env key s h = elim (Bool-cases (is_due env (find s.expires key))) [
  | inl due ↦ rw due (dropped-IsSound key s h)
  | inr kept ↦ rw kept h
]

-- The keyspace after a value has been stored under a key, its time to live gone.
unfoldable pub stored : Bytes → Robj → Keyspace → Keyspace
stored key val s = record s {
  dict = put s.dict key val;
  expires = del s.expires key;
  touched = s.touched ++ key ∷ [];
}

pub stored-IsSound :
    (key : Bytes) (val : Robj) (s : Keyspace) → IsSound s → IsSound (stored key val s)
unfolding stored
stored-IsSound key val s h = record {
  owned = λ k p. ground (arith, find-put s.dict key k val, find-del s.expires key k, h.owned k);
}

-- setKey never aborts, and stores the value whether the key existed, had expired or was new.
pub set_key-eq :
    (env : Env) (key : Bytes) (val : Robj) (s : Keyspace)
    → IsSound s
    → set_key env key val s ≡ done (tt, stored key val (evict env key s))
unfolding set_key stored
set_key-eq env key val s h =
    rw (lookup_key_write-eq env key s h, ◌>>=◌)
      (ground (arith, find-put_self (evict env key s).dict key val))

-- Two keyspaces agree on a key: on its value and on its time to live.
abbrev pub SameAt : Bytes → Keyspace → Keyspace → Type 0
SameAt j s t = (find s.dict j ≡ find t.dict j) × (find s.expires j ≡ find t.expires j)

pub evict-SameAt :
    (env : Env) (key j : Bytes) (s : Keyspace) → j ≢ key → SameAt j (evict env key s) s
unfolding evict
evict-SameAt env key j s ne =
    ground (arith, bytes_eq_iff key j, find-del s.dict key j, find-del s.expires key j)

pub dirty-evict : (env : Env) (key : Bytes) (s : Keyspace) → (evict env key s).dirty ≡ s.dirty
unfolding evict
dirty-evict env key s = ground arith

pub touched-evict : (env : Env) (key : Bytes) (s : Keyspace) → (evict env key s).touched ≡ s.touched
unfolding evict
touched-evict env key s = ground arith

pub stored-SameAt :
    (key j : Bytes) (val : Robj) (s : Keyspace) → j ≢ key → SameAt j (stored key val s) s
unfolding stored
stored-SameAt key j val s ne =
    ground (arith, bytes_eq_iff key j, find-put s.dict key j val, find-del s.expires key j)

-- A key with no time to live is never dropped.
pub evict-persistent :
    (env : Env) (key : Bytes) (s : Keyspace) → find s.expires key ≡ none → evict env key s ≡ s
unfolding evict
evict-persistent env key s e = ground arith

pub evict-due :
    (env : Env) (key : Bytes) (when : ℕ) (s : Keyspace)
    → find s.expires key ≡ some (pos when)
    → when < env.now
    → env.loading ≡ false
    → env.slave ≡ false
    → evict env key s ≡ dropped key s
unfolding evict
evict-due env key when s e late loads slaved = rw (e, loads, slaved) (ground arith)

-- Before its time a key is kept.
pub evict-future :
    (env : Env) (key : Bytes) (when : ℕ) (s : Keyspace)
    → find s.expires key ≡ some (pos when)
    → env.now ≤ when
    → evict env key s ≡ s
unfolding evict
evict-future env key when s e early = ground (arith, e)
