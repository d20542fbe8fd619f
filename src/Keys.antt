-- ===== src/Keys.antt =====
-- db.c: the commands on keys of any type, in the database of the client. The rewriting of EXPIRE to
-- DEL for the append only file and the slaves is not part of the keyspace.
pub mod Sound
pub mod Rename
pub mod Expiry
-- How many of the keys were deleted.
use gridapps.Strings.Basic.{with_long}
use gridapps.Reply.{Reply, integer, cone, status, sameobjecterr, czero, ok, nokeyerr}
use gridapps.Object.{Robj, raw, int, list, set, zset, hash}
use gridapps.Db.{
  ◌>>=◌, ◌>>◌, pure, gets, Env, M, modify, assert, db_delete, signal_modified_key, expire_if_needed,
  lookup_key_read, db_add, get_expire, db_exists, add_dirty, set_expire, lookup_key_write, is_some,
  remove_expire,
}
use gridapps.Prelude.{
  true, false, none, some, pos, negsuc, zero, suc, [], ◌∷◌, Option, ℤ, ℕ, List, Bytes, Bool,
  if◌then◌else◌, codes, wrap64, ◌+◌, bytes_eq, ◌-ℤ◌, length, not, ltb_ℤ, ◌&&◌, leb_ℤ, ◌+ℤ◌,
}

unfoldable pub del_loop : List Bytes → M ℕ
unfolding pure
del_loop [] = pure 0
del_loop (key ∷ keys) = do
  gone ← db_delete key
  if gone then (do signal_modified_key key; add_dirty 1) else pure tt
  rest ← del_loop keys
  pure (if gone then rest + 1 else rest)

unfoldable pub del_command : List Bytes → M Reply
unfolding pure
del_command keys = do deleted ← del_loop keys; pure (integer (pos deleted))

unfoldable pub exists_command : Env → Bytes → M Reply
unfolding pure
exists_command env key = do
  expire_if_needed env key
  there ← db_exists key
  pure (if there then cone else czero)

unfoldable pub dbsize_command : M Reply
unfolding gets
dbsize_command = gets (λ s. integer (pos (length s.dict)))

unfoldable pub type_name : Option Robj → Bytes
type_name none = codes "none"
type_name (some (raw s)) = codes "string"
type_name (some (int v)) = codes "string"
type_name (some (list l)) = codes "list"
type_name (some (set l)) = codes "set"
type_name (some (zset m)) = codes "zset"
type_name (some (hash m)) = codes "hash"

unfoldable pub type_command : Env → Bytes → M Reply
unfolding pure
type_command env key = do found ← lookup_key_read env key; pure (status (type_name found))

-- FLUSHDB, less the marking of the clients that watch a key of the database (module Multi).
unfoldable pub flushdb_command : M Reply
unfolding pure modify
flushdb_command = do
  modify (λ s. record s { dirty = s.dirty + length s.dict; dict = []; expires = [] })
  pure ok

-- `expire != -1`
abbrev pub has_time : ℤ → Bool
has_time (pos n) = true
has_time (negsuc zero) = false
has_time (negsuc (suc n)) = true

-- Behind both lookups, when the value may be written under the new name.
unfoldable pub rename_write : Bool → Bytes → Bytes → Robj → ℤ → Bool → M Reply
unfolding pure
rename_write nx src dst o expire exists = do
  if exists then db_delete dst else pure false
  db_add dst o
  if has_time expire then set_expire dst expire else pure tt
  db_delete src
  signal_modified_key src
  signal_modified_key dst
  add_dirty 1
  pure (if nx then cone else ok)

-- When the old name has the value `o`.
unfoldable pub rename_found : Env → Bool → Bytes → Bytes → Robj → M Reply
unfolding pure
rename_found env nx src dst o = do
  expire ← get_expire src
  other ← lookup_key_write env dst
  if is_some other && nx then pure czero else rename_write nx src dst o expire (is_some other)

unfoldable pub rename_generic_command : Env → Bool → Bytes → Bytes → M Reply
unfolding pure
rename_generic_command env nx src dst = if bytes_eq src dst then pure sameobjecterr else do
  found ← lookup_key_write env src
  elim found [ none ↦ pure nokeyerr | some o ↦ rename_found env nx src dst o ]

unfoldable pub rename_command : Env → Bytes → Bytes → M Reply
rename_command env src dst = rename_generic_command env false src dst

unfoldable pub renamenx_command : Env → Bytes → Bytes → M Reply
renamenx_command env src dst = rename_generic_command env true src dst

-- Behind the reading of the number; `offset` has been taken off.
unfoldable pub expire_rest : Env → Bytes → ℤ → M Reply
unfolding pure assert
expire_rest env key seconds = do
  there ← db_exists key
  if not there
      then pure czero
      else if leb_ℤ seconds (pos 0) && not env.loading && not env.slave
      then (do gone ← db_delete key; assert gone; add_dirty 1; signal_modified_key key; pure cone)
      else do
        set_expire key (wrap64 (pos env.now +ℤ seconds))
        signal_modified_key key
        add_dirty 1
        pure cone

unfoldable pub expire_generic_command : Env → Bytes → Bytes → ℤ → M Reply
expire_generic_command env key param offset =
    with_long env (some (raw param)) none
      λ seconds. expire_rest env key (wrap64 (seconds -ℤ offset))

unfoldable pub expire_command : Env → Bytes → Bytes → M Reply
expire_command env key param = expire_generic_command env key param (pos 0)

unfoldable pub expireat_command : Env → Bytes → Bytes → M Reply
expireat_command env key param = expire_generic_command env key param (pos env.now)

-- The seconds that are left, or -1.
unfoldable pub ttl_of : ℕ → ℤ → ℤ
ttl_of now expire =
    if has_time expire
    then (let ttl = wrap64 (expire -ℤ pos now) in if ltb_ℤ ttl (pos 0) then negsuc 0 else ttl)
    else negsuc 0

unfoldable pub ttl_command : Env → Bytes → M Reply
unfolding pure
ttl_command env key = do expire ← get_expire key; pure (integer (ttl_of env.now expire))

unfoldable pub persist_command : Bytes → M Reply
unfolding pure
persist_command key = do
  there ← db_exists key
  if not there
      then pure czero
      else do had ← remove_expire key; if had then (do add_dirty 1; pure cone) else pure czero
