-- ===== src/Db.antt =====
-- db.c: the keyspace of one database and the C-level API over it.
-- A command is an action on the keyspace. A failed redisAssert, or an allocation that fails, aborts
-- the program: `aborted`.
pub mod Evict
pub mod Effects
pub mod Keeps
use gridapps.Prelude.{
  ℕ, zero, suc, ◌+◌, Bool, true, false, ◌&&◌, ◌||◌, not, Option, none, some, List, [], ◌∷◌, ◌++◌,
  if◌then◌else◌, length, Bytes, Map, find, put, del, ℤ, pos, negsuc, ltb_ℤ, leb_ℤ, wrap64, ◌+ℤ◌,
  ◌-ℤ◌,
}
use gridapps.Object.{Robj, raw}

-- What a command reads from outside the keyspace: time(NULL), server.loading, whether
-- server.masterhost is set, and whether errno is ERANGE when the command begins; and whether the list
-- at a key is a linked list, and not a ziplist, when its elements are compared, which depends on the
-- configuration and on its past.
pub record Env : Type 0 where
  pub now : ℕ
  pub loading : Bool
  pub slave : Bool
  pub erange : Bool
  pub linked : Bytes → Bool

-- One redisDb with the counters of the server that its operations change. `propagated` lists the
-- keys for which propagateExpire sent a DEL, and `touched` those given to signalModifiedKey; the
-- newest comes last. Module Multi turns the latter into dirty clients.
pub record Keyspace : Type 0 where
  pub dict : Map Robj
  pub expires : Map ℤ
  pub dirty : ℕ
  pub hits : ℕ
  pub misses : ℕ
  pub expired : ℕ
  pub propagated : List Bytes
  pub touched : List Bytes

pub data Outcome {ℓ} (A : Type ℓ) : Type ℓ where
  done : A → Outcome A
  aborted : Outcome A

abbrev pub M : Type 0 → Type 0
M A = Keyspace → Outcome (A × Keyspace)

infixl 5 ◌>>=◌ ◌>>◌
abbrev pub bind_outcome :
    {A B : Type 0} → Outcome (A × Keyspace) → (A → M B) → Outcome (B × Keyspace)
bind_outcome (done (a, s)) f = f a s
bind_outcome aborted f = aborted

unfoldable pub ◌>>=◌ : {A B : Type 0} → M A → (A → M B) → M B
◌>>=◌ m f s = bind_outcome (m s) f

abbrev pub ◌>>◌ : {A B : Type 0} → M A → M B → M B
m >> k = m >>= λ _. k

unfoldable pub pure : {A : Type 0} → A → M A
pure a s = done (a, s)

unfoldable pub gets : {A : Type 0} → (Keyspace → A) → M A
gets f s = done (f s, s)

unfoldable pub modify : (Keyspace → Keyspace) → M Unit
modify f s = done (tt, f s)

unfoldable pub assert : Bool → M Unit
assert true s = done (tt, s)
assert false s = aborted

abbrev pub is_some {ℓ} : {A : Type ℓ} → Option A → Bool
is_some none = false
is_some (some a) = true

-- dictFind of the main dictionary, as a test
abbrev pub present {ℓ} : {V : Type ℓ} → Map V → Bytes → Bool
present m k = is_some (find m k)

-- `server.dirty += n`
unfoldable pub add_dirty : ℕ → M Unit
unfolding modify
add_dirty n = modify (λ s. record s { dirty = s.dirty + n })

unfoldable pub signal_modified_key : Bytes → M Unit
unfolding modify
signal_modified_key key = modify (λ s. record s { touched = s.touched ++ key ∷ [] })

-- The clock for the LRU and the virtual memory are left out.
unfoldable pub lookup_key : Bytes → M (Option Robj)
unfolding gets
lookup_key key = gets (λ s. find s.dict key)

unfoldable pub db_exists : Bytes → M Bool
unfolding gets
db_exists key = gets (λ s. present s.dict key)

unfoldable pub db_add : Bytes → Robj → M Unit
unfolding gets modify assert ◌>>=◌
db_add key val = do
  old ← gets (λ s. present s.dict key)
  assert (not old)
  modify (λ s. record s { dict = put s.dict key val })

unfoldable pub db_overwrite : Bytes → Robj → M Unit
unfolding gets modify assert ◌>>=◌
db_overwrite key val = do
  old ← gets (λ s. present s.dict key)
  assert old
  modify (λ s. record s { dict = put s.dict key val })

-- `some` entry for the time, or -1
abbrev pub time_or_minus_one : Option ℤ → ℤ
time_or_minus_one none = negsuc 0
time_or_minus_one (some when) = when

unfoldable pub get_expire : Bytes → M ℤ
unfolding gets assert ◌>>=◌
get_expire key = do
  entry ← gets (λ s. find s.expires key)
  exists ← gets (λ s. present s.dict key)
  assert (not (is_some entry) || exists)
  gets (λ _. time_or_minus_one entry)

unfoldable pub set_expire : Bytes → ℤ → M Unit
unfolding gets modify assert ◌>>=◌
set_expire key when = do
  exists ← gets (λ s. present s.dict key)
  assert exists
  modify (λ s. record s { expires = put s.expires key when })

unfoldable pub remove_expire : Bytes → M Bool
unfolding gets modify assert ◌>>=◌
remove_expire key = do
  exists ← gets (λ s. present s.dict key)
  assert exists
  had ← gets (λ s. present s.expires key)
  modify (λ s. record s { expires = del s.expires key })
  gets (λ _. had)

unfoldable pub db_delete : Bytes → M Bool
unfolding gets modify ◌>>=◌
db_delete key = do
  modify (λ s. record s { expires = del s.expires key })
  had ← gets (λ s. present s.dict key)
  modify (λ s. record s { dict = del s.dict key })
  gets (λ _. had)

unfoldable pub propagate_expire : Bytes → M Unit
unfolding modify
propagate_expire key = modify (λ s. record s { propagated = s.propagated ++ key ∷ [] })

-- `when` has been read; the result says whether the key counts as expired.
unfoldable pub expire_at : Env → Bytes → ℤ → M Bool
unfolding pure modify propagate_expire db_delete ◌>>=◌
expire_at env key when =
    if ltb_ℤ when (pos 0)
    then pure false
    else if env.loading
    then pure false
    else if env.slave
    then pure (ltb_ℤ when (pos env.now))
    else if leb_ℤ (pos env.now) when
    then pure false
    else do modify (λ s. record s { expired = s.expired + 1 }); propagate_expire key; db_delete key

unfoldable pub expire_if_needed : Env → Bytes → M Bool
unfolding get_expire expire_at
expire_if_needed env key = do when ← get_expire key; expire_at env key when

unfoldable pub count_lookup : Bool → M Unit
unfolding modify
count_lookup true = modify (λ s. record s { hits = s.hits + 1 })
count_lookup false = modify (λ s. record s { misses = s.misses + 1 })

unfoldable pub lookup_key_read : Env → Bytes → M (Option Robj)
unfolding expire_if_needed lookup_key count_lookup pure
lookup_key_read env key = do
  expire_if_needed env key
  val ← lookup_key key
  count_lookup (is_some val)
  pure val

unfoldable pub lookup_key_write : Env → Bytes → M (Option Robj)
unfolding expire_if_needed lookup_key
lookup_key_write env key = do expire_if_needed env key; lookup_key key

unfoldable pub set_key : Env → Bytes → Robj → M Unit
unfolding lookup_key_write db_add db_overwrite remove_expire signal_modified_key
set_key env key val = do
  old ← lookup_key_write env key
  if is_some old then db_overwrite key val else db_add key val
  remove_expire key
  signal_modified_key key
