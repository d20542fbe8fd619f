-- ===== src/Lists/Edits.antt =====
-- t_list.c: LREM and LINSERT, which seek an element.
use gridapps.Prelude.{
  true, false, none, some, pos, negsuc, [], ◌∷◌, ℕ, ℤ, Bytes, Bool, List, Option, bytes_eq,
  if◌then◌else◌, ◌+◌, length, codes, not, ◌==◌, ◌&&◌,
}
use mathlib.Core.Option
use mathlib.Core.List.{map, reverse}
use gridapps.Lists.{with_list, write_list, atoi, changed}
use gridapps.Object.{
  before_nul, Robj, raw, try_object_encoding, get_decoded_object, equal_string_objects,
}
use gridapps.Util.Glob.{tolower}
use gridapps.Reply.{Reply, error, syntax_error, czero, integer}
use gridapps.Db.{
  ◌>>=◌, ◌>>◌, pure, Env, M, lookup_key_write, lookup_key_read, add_dirty, db_delete,
  signal_modified_key,
}

-- Both are strings.
abbrev pub said : Option Bool → Bool
said none = false
said (some b) = b

abbrev pub same_bytes : Bytes → Option Bytes → Option Bool
same_bytes x none = none
same_bytes x (some v) = some (bytes_eq x v)

-- Whether the element `x` equals an object. In a ziplist all bytes are compared with those of the
-- object, and in a linked list the objects, where the commands on lists encode every element that can
-- be.
unfoldable pub list_type_equal : Bool → Robj → Bytes → Bool
unfolding equal_string_objects try_object_encoding get_decoded_object
list_type_equal linked o x =
    if linked
    then said (equal_string_objects o (try_object_encoding 1 (raw x)))
    else said (same_bytes x (get_decoded_object o))

-- How many elements are gone, and what is left; `removed` are gone before. No limit is 0. `equal` is
-- listTypeEqual with the value.
unfoldable pub lrem_loop : ℕ → ℕ → (Bytes → Bool) → List Bytes → ℕ × List Bytes
lrem_loop toremove removed equal [] = (removed, [])
lrem_loop toremove removed equal (x ∷ l) =
    let (n, rest) = lrem_loop toremove (if equal x then removed + 1 else removed) equal l in
    if equal x
    then (if not (toremove == 0) && removed + 1 == toremove then (removed + 1, l) else (n, rest))
    else (n, x ∷ rest)

-- A negative count removes from the tail; that of INT_MIN, which has no negation, is no limit for a
-- list of less than 2 ^ 31 elements either way.
unfoldable pub lrem_of : ℤ → (Bytes → Bool) → List Bytes → ℕ × List Bytes
unfolding lrem_loop
lrem_of (pos n) equal l = lrem_loop n 0 equal l
lrem_of (negsuc n) equal l =
    let (removed, rest) = lrem_loop (n + 1) 0 equal (reverse l) in (removed, reverse rest)

unfoldable pub lrem_rest : Bytes → ℕ × List Bytes → M Reply
unfolding pure
lrem_rest key (removed, l) = do
  write_list key l
  add_dirty removed
  if length l == 0 then db_delete key else pure false
  if removed == 0 then pure tt else signal_modified_key key
  pure (integer (pos removed))

unfoldable pub lrem_command : Env → Bytes → Bytes → Bytes → M Reply
lrem_command env key count value = do
  let equal = list_type_equal (env.linked key) (try_object_encoding 1 (raw value))
  found ← lookup_key_write env key
  with_list czero (λ l. lrem_rest key (lrem_of (atoi count) equal l)) found

-- listTypeInsert, at the first element that equals the one to seek; `none` if there is none.
unfoldable pub insert_by : Bool → (Bytes → Bool) → Bytes → List Bytes → Option (List Bytes)
insert_by after equal value [] = none
insert_by after equal value (x ∷ l) =
    let rest = insert_by after equal value l in
    if equal x
    then some (if after then x ∷ value ∷ l else value ∷ x ∷ l)
    else Option.map (λ m. x ∷ m) rest

unfoldable pub linsert_rest : Bytes → Option (List Bytes) → M Reply
unfolding pure
linsert_rest key none = pure (integer (negsuc 0))
linsert_rest key (some l) = do write_list key l; changed key (integer (pos (length l)))

-- pushxGenericCommand with an element to seek.
unfoldable pub insert_command : Env → Bytes → Bool → Bytes → Bytes → M Reply
insert_command env key after refval value = do
  let equal = list_type_equal (env.linked key) (raw refval)
  found ← lookup_key_read env key
  with_list czero (λ l. linsert_rest key (insert_by after equal value l)) found

-- `strcasecmp(s, name) == 0` for a name in lower case
unfoldable pub same_word : Bytes → Bytes → Bool
unfolding tolower
same_word s name = bytes_eq (map tolower (before_nul s)) name

unfoldable pub linsert_command : Env → Bytes → Bytes → Bytes → Bytes → M Reply
unfolding pure same_word
linsert_command env key place refval value =
    if same_word place (codes "after")
    then insert_command env key true refval value
    else if same_word place (codes "before")
    then insert_command env key false refval value
    else pure (error syntax_error)
