-- ===== src/Lists.antt =====
-- t_list.c: the commands that do not wake a client that waits for a push. A list is the bytes of its
-- elements, whichever encoding it has, and a node is its place.
pub mod Ranges
pub mod Chosen
pub mod Taken
pub mod Total
pub mod Sound
pub mod Replies
pub mod Edits
pub mod Edited
pub mod Equal
pub mod Writes
use gridapps.Object.{Robj, list, raw, int, set, zset, hash, strtoll}
use gridapps.Reply.{
  Reply, outofrangeerr, nokeyerr, ok, integer, bulk, wrongtypeerr, czero, nullbulk,
}
use gridapps.Prelude.{
  set as put_at, true, false, none, some, pos, negsuc, [], ◌∷◌, ℤ, Bytes, List, ℕ, Option, Bool,
  ◌%◌, if◌then◌else◌, put, length, ◌++◌, ◌^◌, ltb, get_elem?, ◌==◌, ◌-◌,
}
use gridapps.Db.{
  ◌>>=◌, ◌>>◌, pure, modify, Env, M, signal_modified_key, lookup_key_write, lookup_key_read,
  add_dirty, db_delete,
}

-- An int keeps the low 32 bits of a long.
abbrev pub bits32 : ℤ → ℕ
bits32 (pos n) = n % 2 ^ 32
bits32 (negsuc n) = 2 ^ 32 - 1 - n % 2 ^ 32

unfoldable pub wrap32 : ℤ → ℤ
wrap32 v = let b = bits32 v in if ltb b (2 ^ 31) then pos b else negsuc (2 ^ 32 - 1 - b)

-- atoi of the C library: (int)strtol(s, NULL, 10)
unfoldable pub atoi : Bytes → ℤ
unfolding wrap32
atoi s = wrap32 ((strtoll s).value)

-- The object is changed in place.
unfoldable pub write_list : Bytes → List Bytes → M Unit
unfolding modify
write_list key l = modify (λ k. record k { dict = put k.dict key (list l) })

-- lookupKey…OrReply and checkType, with the reply for a missing key.
unfoldable pub with_list : Reply → (List Bytes → M Reply) → Option Robj → M Reply
unfolding pure
with_list absent k none = pure absent
with_list absent k (some (list l)) = k l
with_list absent k (some (raw s)) = pure wrongtypeerr
with_list absent k (some (int v)) = pure wrongtypeerr
with_list absent k (some (set l)) = pure wrongtypeerr
with_list absent k (some (zset m)) = pure wrongtypeerr
with_list absent k (some (hash m)) = pure wrongtypeerr

unfoldable pub llen_command : Env → Bytes → M Reply
unfolding pure
llen_command env key = do
  found ← lookup_key_read env key
  with_list czero (λ l. pure (integer (pos (length l)))) found

-- listIndex and ziplistIndex: the place of a node, from the tail if the index is negative.
unfoldable pub list_index : ℕ → ℤ → Option ℕ
list_index n (pos i) = if ltb i n then some i else none
list_index n (negsuc i) = if ltb i n then some (n - 1 - i) else none

abbrev pub bulk_or_null : Option Bytes → Reply
bulk_or_null none = nullbulk
bulk_or_null (some s) = bulk s

abbrev pub node_value : List Bytes → Option ℕ → Option Bytes
node_value l none = none
node_value l (some i) = get_elem? l i

unfoldable pub element_at : List Bytes → ℤ → Option Bytes
unfolding list_index
element_at l index = node_value l (list_index (length l) index)

unfoldable pub lindex_command : Env → Bytes → Bytes → M Reply
unfolding pure
lindex_command env key index = do
  found ← lookup_key_read env key
  with_list nullbulk (λ l. pure (bulk_or_null (element_at l (atoi index)))) found

-- The end of a command that changed a list.
abbrev pub changed : Bytes → Reply → M Reply
changed key r = do signal_modified_key key; add_dirty 1; pure r

unfoldable pub lset_at : Bytes → List Bytes → Bytes → Option ℕ → M Reply
unfolding pure
lset_at key l value none = pure outofrangeerr
lset_at key l value (some i) = do write_list key (put_at l i value); changed key ok

unfoldable pub lset_command : Env → Bytes → Bytes → Bytes → M Reply
lset_command env key index value = do
  found ← lookup_key_write env key
  with_list nokeyerr (λ l. lset_at key l value (list_index (length l) (atoi index))) found

-- `where == REDIS_HEAD`
unfoldable pub list_type_push : Bool → Bytes → List Bytes → List Bytes
list_type_push true value l = value ∷ l
list_type_push false value l = l ++ value ∷ []

-- The last element, and what is before it.
unfoldable pub last : Bytes → List Bytes → Bytes × List Bytes
last x [] = (x, [])
last x (y ∷ l) = let (z, rest) = last y l in (z, x ∷ rest)

unfoldable pub list_type_pop : Bool → List Bytes → Option (Bytes × List Bytes)
unfolding last
list_type_pop at_head [] = none
list_type_pop true (x ∷ l) = some (x, l)
list_type_pop false (x ∷ l) = some (last x l)

-- A list that is empty is deleted.
unfoldable pub store_list : Bytes → List Bytes → M Bool
unfolding pure
store_list key l = do write_list key l; if length l == 0 then db_delete key else pure false

unfoldable pub pop_rest : Bytes → Option (Bytes × List Bytes) → M Reply
unfolding pure
pop_rest key none = pure nullbulk
pop_rest key (some (value, l)) = do store_list key l; changed key (bulk value)

unfoldable pub pop_generic_command : Env → Bool → Bytes → M Reply
pop_generic_command env at_head key = do
  found ← lookup_key_write env key
  with_list nullbulk (λ l. pop_rest key (list_type_pop at_head l)) found

-- LPUSHX and RPUSHX, which look up as a read does.
unfoldable pub pushx_command : Env → Bool → Bytes → Bytes → M Reply
unfolding pure
pushx_command env at_head key value = do
  found ← lookup_key_read env key
  with_list czero
      (λ l. do
        write_list key (list_type_push at_head value l)
        changed key (integer (pos (length (list_type_push at_head value l)))))
      found
