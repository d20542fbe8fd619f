-- ===== src/Rdb/Integer.antt =====
-- rdb.c: rdbEncodeInteger and rdbLoadIntegerObject.
use gridapps.Util.Number.{print}
use gridapps.Prelude.{
  true, pos, negsuc, [], arith, ℤ, Bytes, ◌≡◌, ℕ, bits64, Option, Bool, ◌+◌, ◌⊎◌, ◌*◌, ◌^◌, ◌++◌,
}
use gridapps.Rdb.{
  encode_integer, load_integer_object, load_int8, load_int16, load_int32, integer_object,
  sdsfromlonglong, fits, byte, signed, load_string_object, load_len, loaded,
}

-- sdsfromlonglong writes what ll2string does.
pub sdsfromlonglong-print : (v : ℤ) → sdsfromlonglong v ≡ print v
unfolding sdsfromlonglong print
sdsfromlonglong-print (pos n) = ground arith
sdsfromlonglong-print (negsuc n) = ground arith

signed-8 : (v : ℤ) → fits 7 v ≡ true → signed 8 (byte 0 (bits64 v)) ≡ v
signed-8 (pos n) h = ground arith
signed-8 (negsuc n) h = ground arith

signed-16 : (v : ℤ) → fits 15 v ≡ true → signed 16 (byte 0 (bits64 v) + byte 1 (bits64 v) * 256) ≡ v
signed-16 (pos n) h = ground arith
signed-16 (negsuc n) h = ground arith

-- A signed number of 32 bits from its four bytes.
pub signed-32 :
    (v : ℤ)
    → fits 31 v ≡ true
    → signed 32 (
        byte 0 (bits64 v)
        + byte 1 (bits64 v) * 256
        + byte 2 (bits64 v) * 256 ^ 2
        + byte 3 (bits64 v) * 256 ^ 3)
      ≡ v
signed-32 (pos n) h = ground arith
signed-32 (negsuc n) h = ground arith

-- An integer that fits no encoding is saved as text.
pub encode_integer-Reads :
    (decompress : Bytes → ℕ → Option Bytes) (encode : Bool) (v : ℤ) (rest : Bytes)
    → (encode_integer v ≡ [])
      ⊎ (load_string_object decompress encode (encode_integer v ++ rest)
          ≡ loaded (integer_object encode v) rest)
unfolding encode_integer load_string_object load_len load_integer_object load_int8 load_int16
    load_int32
encode_integer-Reads decompress encode v rest = ground (arith, signed-8 v, signed-16 v, signed-32 v)
