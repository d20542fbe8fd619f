-- ===== src/Strings/Range.antt =====
-- t_string.c: APPEND, STRLEN, SETRANGE, GETRANGE.
pub mod Slice
pub mod Huge
-- The bytes of a string object; a panic on another type.
use gridapps.Object.{
  Robj, get_decoded_object, raw, is_string, try_object_encoding, string_object_len,
}
use gridapps.Reply.{
  Reply, emptybulk, czero, integer, error, bulk, wrongtypeerr, string_too_long, offset_out_of_range,
  wild,
}
use gridapps.Strings.Basic.{abort, with_long}
use gridapps.Db.{
  ◌>>=◌, ◌>>◌, pure, modify, Env, M, signal_modified_key, lookup_key_write, lookup_key_read,
  add_dirty, db_add, db_overwrite,
}
use gridapps.Prelude.{
  none, some, pos, negsuc, [], ℤ, Bytes, ℕ, Bool, wrap64, ◌++◌, take, if◌then◌else◌, pos_part,
  leb_ℤ, ◌+ℤ◌, replicate, drop, put, ltb_ℤ, leb, length, ◌*◌, ◌-◌, ◌+◌, ◌==◌, ◌%◌, ltb, ◌^◌, ◌-ℤ◌,
  ◌||◌, two63,
}

unfoldable pub decoded : Robj → M Bytes
unfolding pure abort
decoded o = elim (get_decoded_object o) [ none ↦ abort | some s ↦ pure s ]

-- `size` is a long long. A string holds 512 MB at most.
unfoldable pub check_string_length : ℤ → Bool
check_string_length size = leb_ℤ size (pos (512 * 1024 * 1024))

-- The sum of an offset and a length is made in size_t and read back as a long long.
unfoldable pub size_sum : ℤ → ℕ → ℤ
size_sum offset n = wrap64 (offset +ℤ pos n)

-- A string with zeros behind it, up to a length.
unfoldable pub zero_filled : Bytes → ℕ → Bytes
zero_filled s len = s ++ replicate (len - length s) 0

-- No memory has 2^63 bytes: there zrealloc ends in zmalloc_oom, which aborts the program. A smaller
-- string is taken to fit.
unfoldable pub sdsgrowzero : Bytes → ℕ → M Bytes
unfolding pure abort zero_filled
sdsgrowzero s len = if leb len (length s) || ltb len two63 then pure (zero_filled s len) else abort

-- memcpy to an offset within the string
unfoldable pub write_at : ℕ → Bytes → Bytes → Bytes
write_at offset value s = take offset s ++ value ++ drop (offset + length value) s

-- The bytes of the object, which the key then holds.
unfoldable pub write_value : Bytes → Bytes → M Unit
unfolding modify
write_value key s = modify (λ k. record k { dict = put k.dict key (raw s) })

-- The end of SETRANGE and of APPEND: the key holds the new bytes, and their count is the reply.
unfoldable pub finish_write : Bytes → Bytes → M Reply
unfolding pure write_value
finish_write key s = do
  write_value key s
  signal_modified_key key
  add_dirty 1
  pure (integer (pos (length s)))

-- The end of SETRANGE: sdsgrowzero and memcpy.
unfoldable pub write_range : Bytes → ℕ → Bytes → Bytes → M Reply
unfolding sdsgrowzero write_at finish_write
write_range key offset value s = do
  t ← sdsgrowzero s (offset + length value)
  finish_write key (write_at offset value t)

-- Behind the test on the offset, which is not negative.
unfoldable pub setrange_rest : Env → Bytes → ℕ → Bytes → M Reply
unfolding pure decoded write_range
setrange_rest env key offset value = do
  found ← lookup_key_write env key
  elim found [
    | none ↦
        if length value == 0
        then pure czero
        else if check_string_length (size_sum (pos offset) (length value))
        then (do db_add key (raw []); write_range key offset value [])
        else pure (error string_too_long)
    | some o ↦
        if is_string o
        then (do
          s ← decoded o
          if length value == 0
              then pure (integer (pos (length s)))
              else if check_string_length (size_sum (pos offset) (length value))
              then (do db_overwrite key (raw s); write_range key offset value s)
              else pure (error string_too_long))
        else pure wrongtypeerr
  ]

unfoldable pub setrange_command : Env → Bytes → Bytes → Bytes → M Reply
unfolding pure setrange_rest
setrange_command env key offset value = with_long env (some (raw offset)) none λ n. elim n [
  | negsuc m ↦ pure (error offset_out_of_range)
  | pos m ↦ setrange_rest env key m value
]

-- A negative index counts from the end of the string.
unfoldable pub from_end : ℕ → ℤ → ℤ
from_end strlen n = if ltb_ℤ n (pos 0) then pos strlen +ℤ n else n

abbrev pub at_least_zero : ℤ → ℕ
at_least_zero n = pos_part n

-- `(unsigned)end >= strlen`: the cast keeps 32 bits of `end`.
unfoldable pub clamp_end : ℕ → ℕ → ℤ
clamp_end strlen end' = if leb strlen (end' % 2 ^ 32) then pos strlen -ℤ pos 1 else pos end'

-- addReplyBulkCBuffer(c, str+start, len): a reply of `len` bytes, which may not all be in `str`.
unfoldable pub reply_window : Bytes → ℕ → ℕ → Reply
reply_window s start len =
    if leb (start + len) (length s) then bulk (take len (drop start s)) else wild start len

window_to : Bytes → ℕ → ℤ → Reply
window_to s start (negsuc n) = emptybulk
window_to s start (pos end') =
    if ltb end' start then emptybulk else reply_window s start (end' - start + 1)

-- The reply for a range of a string.
unfoldable pub getrange_reply : Bytes → ℤ → ℤ → Reply
unfolding window_to reply_window clamp_end from_end
getrange_reply s start end' =
    let strlen = length s in
    window_to s (at_least_zero (from_end strlen start))
      (clamp_end strlen (at_least_zero (from_end strlen end')))

unfoldable pub getrange_rest : Env → Bytes → ℤ → ℤ → M Reply
unfolding pure decoded
getrange_rest env key start end' = do
  found ← lookup_key_read env key
  elim found [
    | none ↦ pure emptybulk
    | some o ↦
        if is_string o
        then (do s ← decoded o; pure (getrange_reply s start end'))
        else pure wrongtypeerr
  ]

unfoldable pub getrange_command : Env → Bytes → Bytes → Bytes → M Reply
unfolding getrange_rest
getrange_command env key start end' =
    with_long env (some (raw start)) none
      λ m. with_long env (some (raw end')) none λ n. getrange_rest env key m n

unfoldable pub append_command : Env → Bytes → Bytes → M Reply
unfolding pure decoded finish_write
append_command env key value = do
  found ← lookup_key_write env key
  elim found [
    | none ↦ do
      db_add key (try_object_encoding 1 (raw value))
      s ← decoded (try_object_encoding 1 (raw value))
      signal_modified_key key
      add_dirty 1
      pure (integer (pos (length s)))
    | some o ↦
        if is_string o
        then (do
          s ← decoded o
          if check_string_length (size_sum (pos (length s)) (length value))
              then (do db_overwrite key (raw s); finish_write key (s ++ value))
              else pure (error string_too_long))
        else pure wrongtypeerr
  ]

unfoldable pub strlen_command : Env → Bytes → M Reply
unfolding pure abort
strlen_command env key = do
  found ← lookup_key_read env key
  elim found [
    | none ↦ pure czero
    | some o ↦
        if is_string o
        then (elim (string_object_len o) [ none ↦ abort | some n ↦ pure (integer (pos n)) ])
        else pure wrongtypeerr
  ]
