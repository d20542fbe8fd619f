-- ===== src/Strings/Counter.antt =====
-- t_string.c: INCR, DECR, INCRBY, DECRBY.
pub mod Exact
-- The test before the addition: each of its subtractions stays in range.
use gridapps.Object.{is_string, raw, create_string_object_from_long_long}
use gridapps.Strings.Basic.{with_long_long}
use gridapps.Reply.{Reply, error, would_overflow, wrongtypeerr, integer}
use gridapps.Db.{
  ◌>>=◌, ◌>>◌, pure, Env, M, lookup_key_write, db_overwrite, db_add, signal_modified_key, add_dirty,
}
use gridapps.Prelude.{
  true, false, none, some, pos, negsuc, ℤ, Bool, Bytes, ltb_ℤ, ◌&&◌, llong_min, if◌then◌else◌, ◌-ℤ◌,
  ◌||◌, wrap64, llong_max, ◌+ℤ◌,
}

unfoldable pub would_pass : ℤ → ℤ → Bool
would_pass oldvalue incr =
    ltb_ℤ incr (pos 0) && ltb_ℤ oldvalue (pos 0) && ltb_ℤ incr (llong_min -ℤ oldvalue)
    || ltb_ℤ (pos 0) incr && ltb_ℤ (pos 0) oldvalue && ltb_ℤ (llong_max -ℤ oldvalue) incr

-- Behind the reading of the old value.
unfoldable pub incr_rest : Bytes → Bool → ℤ → ℤ → M Reply
unfolding pure
incr_rest key exists value incr = if would_pass value incr then pure (error would_overflow) else do
  let new = create_string_object_from_long_long (wrap64 (value +ℤ incr))
  if exists then db_overwrite key new else db_add key new
  signal_modified_key key
  add_dirty 1
  pure (integer (wrap64 (value +ℤ incr)))

unfoldable pub incr_decr_command : Env → Bytes → ℤ → M Reply
unfolding pure
incr_decr_command env key incr = do
  found ← lookup_key_write env key
  elim found [
    | none ↦ with_long_long env none none λ value. incr_rest key false value incr
    | some o ↦
        if is_string o
        then (with_long_long env (some o) none λ value. incr_rest key true value incr)
        else pure wrongtypeerr
  ]

unfoldable pub incr_command : Env → Bytes → M Reply
incr_command env key = incr_decr_command env key (pos 1)

unfoldable pub decr_command : Env → Bytes → M Reply
decr_command env key = incr_decr_command env key (negsuc 0)

unfoldable pub incrby_command : Env → Bytes → Bytes → M Reply
incrby_command env key incr =
    with_long_long env (some (raw incr)) none λ n. incr_decr_command env key n

-- `-incr` is made in a long long.
unfoldable pub decrby_command : Env → Bytes → Bytes → M Reply
decrby_command env key incr =
    with_long_long env (some (raw incr)) none λ n. incr_decr_command env key (wrap64 (pos 0 -ℤ n))
