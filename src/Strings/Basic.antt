-- ===== src/Strings/Basic.antt =====
-- t_string.c: SET, SETNX, SETEX, GET, GETSET, MGET, MSET, MSETNX, and how arguments are read.
pub mod Store
pub mod Read
-- The reply of a panic or a failed assertion: none.
use gridapps.Reply.{
  Reply, Replies, Message, bulk, nullbulk, nil, error, wrong_mset_arity, invalid_expire,
  not_an_integer, multi, value_out_of_range, wrongtypeerr, cons, czero, cone, ok,
}
use gridapps.Object.{
  in_long_range, Robj, raw, try_object_encoding, get_long_long_from_object, is_string,
  get_decoded_object,
}
use gridapps.Db.{
  M, pure, Env, aborted, ◌>>=◌, ◌>>◌, lookup_key_write, lookup_key_read, set_key, add_dirty,
  is_some, set_expire,
}
use mathlib.Core.Option
use gridapps.Prelude.{
  true, false, none, some, pos, [], ◌∷◌, List, Option, Bool, Bytes, ℕ, ℤ, if◌then◌else◌, leb_ℤ,
  ◌==◌, length, ◌&&◌, ◌+◌, wrap64, ◌+ℤ◌,
}

unfoldable pub abort : {A : Type 0} → M A
abort s = aborted

-- getLongFromObjectOrReply; the rest of the command is `k`. Without a message of the caller's own
-- the two failures have their own texts.
unfoldable pub with_long : Env → Option Robj → Option Message → (ℤ → M Reply) → M Reply
unfolding abort pure in_long_range
with_long env o msg k = elim (get_long_long_from_object env.erange o) [
  | none ↦ abort
  | some none ↦ pure (error (Option.get_or msg not_an_integer))
  | some (some v) ↦
      if in_long_range v then k v else pure (error (Option.get_or msg value_out_of_range))
]

-- getLongLongFromObjectOrReply
unfoldable pub with_long_long : Env → Option Robj → Option Message → (ℤ → M Reply) → M Reply
unfolding abort pure
with_long_long env o msg k = elim (get_long_long_from_object env.erange o) [
  | none ↦ abort
  | some none ↦ pure (error (Option.get_or msg not_an_integer))
  | some (some v) ↦ k v
]

-- Behind the reading of the time to live, which is given in seconds.
unfoldable pub set_rest : Env → Bool → Bytes → Robj → Option ℤ → M Reply
unfolding pure
set_rest env nx key val seconds = do
  old ← lookup_key_write env key
  if is_some old && nx then pure czero else do
    set_key env key val
    add_dirty 1
    elim seconds [ none ↦ pure tt | some n ↦ set_expire key (wrap64 (pos env.now +ℤ n)) ]
    pure (if nx then cone else ok)

unfoldable pub set_generic_command : Env → Bool → Bytes → Robj → Option Bytes → M Reply
unfolding pure
set_generic_command env nx key val none = set_rest env nx key val none
set_generic_command env nx key val (some expire) = with_long env (some (raw expire)) none λ seconds.
    if leb_ℤ seconds (pos 0)
    then pure (error invalid_expire)
    else set_rest env nx key val (some seconds)

unfoldable pub set_command : Env → Bytes → Bytes → M Reply
set_command env key val = set_generic_command env false key (try_object_encoding 1 (raw val)) none

unfoldable pub setnx_command : Env → Bytes → Bytes → M Reply
setnx_command env key val = set_generic_command env true key (try_object_encoding 1 (raw val)) none

unfoldable pub setex_command : Env → Bytes → Bytes → Bytes → M Reply
setex_command env key expire val =
    set_generic_command env false key (try_object_encoding 1 (raw val)) (some expire)

-- addReplyBulk, of a string object
unfoldable pub bulk_reply : Option Bytes → M Reply
unfolding abort pure
bulk_reply none = abort
bulk_reply (some s) = pure (bulk s)

-- The reply, and whether the command went well (REDIS_OK).
unfoldable pub get_generic_command : Env → Bytes → M (Reply × Bool)
unfolding pure bulk_reply
get_generic_command env key = do
  found ← lookup_key_read env key
  elim found [
    | none ↦ pure (nullbulk, true)
    | some o ↦
        if is_string o
        then (do r ← bulk_reply (get_decoded_object o); pure (r, true))
        else pure (wrongtypeerr, false)
  ]

unfoldable pub get_command : Env → Bytes → M Reply
unfolding pure get_generic_command
get_command env key = do r ← get_generic_command env key; pure (r.0)

unfoldable pub getset_command : Env → Bytes → Bytes → M Reply
unfolding pure get_generic_command
getset_command env key val = do
  r ← get_generic_command env key
  if r.1
      then (do set_key env key (try_object_encoding 1 (raw val)); add_dirty 1; pure (r.0))
      else pure (r.0)

-- The reply of MGET to one key that was looked up.
unfoldable pub mget_reply : Option Robj → M Reply
unfolding pure bulk_reply
mget_reply none = pure nullbulk
mget_reply (some o) = if is_string o then bulk_reply (get_decoded_object o) else pure nullbulk

unfoldable pub mget_loop : Env → List Bytes → M Replies
unfolding pure mget_reply
mget_loop env [] = pure nil
mget_loop env (key ∷ keys) = do
  found ← lookup_key_read env key
  r ← mget_reply found
  rest ← mget_loop env keys
  pure (cons r rest)

unfoldable pub mget_command : Env → List Bytes → M Reply
unfolding pure mget_loop
mget_command env keys = do rs ← mget_loop env keys; pure (multi rs)

-- The keys and values of argv[1], argv[2], …; `none` if they are not in pairs.
unfoldable pub pairs : List Bytes → Option (List (Bytes × Bytes))
pairs [] = some []
pairs (k ∷ []) = none
pairs (k ∷ v ∷ rest) = elim (pairs rest) [ none ↦ none | some ps ↦ some ((k, v) ∷ ps) ]

-- The count of keys that exist, by lookups that drop expired ones.
unfoldable pub busy_keys : Env → List (Bytes × Bytes) → M ℕ
unfolding pure
busy_keys env [] = pure 0
busy_keys env ((k, v) ∷ ps) = do
  found ← lookup_key_write env k
  rest ← busy_keys env ps
  pure (if is_some found then rest + 1 else rest)

unfoldable pub set_pairs : Env → List (Bytes × Bytes) → M Unit
unfolding pure
set_pairs env [] = pure tt
set_pairs env ((k, v) ∷ ps) = do set_key env k (try_object_encoding 1 (raw v)); set_pairs env ps

unfoldable pub mset_rest : Env → Bool → List (Bytes × Bytes) → M Reply
unfolding pure
mset_rest env nx ps = do set_pairs env ps; add_dirty (length ps); pure (if nx then cone else ok)

unfoldable pub mset_generic_command : Env → Bool → List Bytes → M Reply
unfolding pure
mset_generic_command env nx args = elim (pairs args) [
  | none ↦ pure (error wrong_mset_arity)
  | some ps ↦
      if nx
      then (do busy ← busy_keys env ps; if busy == 0 then mset_rest env nx ps else pure czero)
      else mset_rest env nx ps
]

unfoldable pub mset_command : Env → List Bytes → M Reply
mset_command env args = mset_generic_command env false args

unfoldable pub msetnx_command : Env → List Bytes → M Reply
msetnx_command env args = mset_generic_command env true args
