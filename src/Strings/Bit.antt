-- ===== src/Strings/Bit.antt =====
-- t_string.c: SETBIT, GETBIT. Bit 0 of a string is the highest bit of its first byte.
-- getBitOffsetFromArgument; the rest of the command takes the offset.
use gridapps.Object.{raw, is_string}
use gridapps.Strings.Basic.{with_long_long, with_long}
use gridapps.Reply.{Reply, czero, invalid_bit_offset, invalid_bit, error, cone, wrongtypeerr}
use gridapps.Strings.Range.{zero_filled, decoded, write_value}
use gridapps.Db.{
  ◌>>=◌, ◌>>◌, pure, Env, M, lookup_key_write, lookup_key_read, signal_modified_key, db_add,
  add_dirty, db_overwrite,
}
use gridapps.Prelude.{
  none, some, pos, negsuc, [], ℕ, Bytes, ◌/◌, ◌-◌, get_or, ◌^◌, ◌*◌, ◌%◌, ◌+◌, set, if◌then◌else◌,
  ◌==◌, leb,
}

unfoldable pub with_bit_offset : Env → Bytes → (ℕ → M Reply) → M Reply
unfolding pure
with_bit_offset env arg k = with_long_long env (some (raw arg)) (some invalid_bit_offset) λ loffset.
    elim loffset [
      | negsuc n ↦ pure (error invalid_bit_offset)
      | pos n ↦ if leb (512 * 1024 * 1024) (n / 2 ^ 3) then pure (error invalid_bit_offset) else k n
    ]

-- `byteval & (1 << bit)`, as a bit
unfoldable pub bit_of : ℕ → ℕ → ℕ
bit_of byteval bit = byteval / 2 ^ bit % 2

-- `byteval &= ~(1 << bit); byteval |= ((on & 0x1) << bit);`
unfoldable pub with_bit : ℕ → ℕ → ℕ → ℕ
unfolding bit_of
with_bit byteval bit on = byteval - bit_of byteval bit * 2 ^ bit + on * 2 ^ bit

-- The bit at an offset; past the end of the string it is 0.
unfoldable pub get_bit : Bytes → ℕ → ℕ
unfolding bit_of
get_bit s offset = bit_of (get_or s (offset / 2 ^ 3) 0) (7 - offset % 2 ^ 3)

-- The string grown to the offset's byte, with the bit set or cleared. An offset that was read is
-- within 512 MB, so sdsgrowzero does not abort.
unfoldable pub put_bit : Bytes → ℕ → ℕ → Bytes
unfolding with_bit zero_filled
put_bit s offset on =
    let byte = offset / 2 ^ 3 in
    let grown = zero_filled s (byte + 1) in
    set grown byte (with_bit (get_or grown byte 0) (7 - offset % 2 ^ 3) on)

-- Behind the lookup, when the key holds the raw bytes `s`.
unfoldable pub setbit_write : Bytes → Bytes → ℕ → ℕ → M Reply
unfolding pure
setbit_write key s offset on = do
  write_value key (put_bit s offset on)
  signal_modified_key key
  add_dirty 1
  pure (if get_bit s offset == 0 then czero else cone)

unfoldable pub setbit_rest : Env → Bytes → ℕ → ℕ → M Reply
unfolding pure decoded setbit_write
setbit_rest env key offset on = do
  found ← lookup_key_write env key
  elim found [
    | none ↦ do db_add key (raw []); setbit_write key [] offset on
    | some o ↦
        if is_string o
        then (do s ← decoded o; db_overwrite key (raw s); setbit_write key s offset on)
        else pure wrongtypeerr
  ]

-- `on & ~1`: only 0 and 1 are bits.
unfoldable pub setbit_command : Env → Bytes → Bytes → Bytes → M Reply
unfolding pure setbit_rest
setbit_command env key offset on = with_bit_offset env offset λ n.
    with_long env (some (raw on)) (some invalid_bit) λ v. elim v [
      | negsuc m ↦ pure (error invalid_bit)
      | pos m ↦ if leb m 1 then setbit_rest env key n m else pure (error invalid_bit)
    ]

unfoldable pub getbit_rest : Env → Bytes → ℕ → M Reply
unfolding pure decoded
getbit_rest env key offset = do
  found ← lookup_key_read env key
  elim found [
    | none ↦ pure czero
    | some o ↦
        if is_string o
        then (do s ← decoded o; pure (if get_bit s offset == 0 then czero else cone))
        else pure wrongtypeerr
  ]

unfoldable pub getbit_command : Env → Bytes → Bytes → M Reply
unfolding getbit_rest
getbit_command env key offset = with_bit_offset env offset λ n. getbit_rest env key n
