-- ===== src/Rdb.antt =====
-- rdb.c: lengths, integers and strings in the dump file. What a function writes is its result, and
-- what it reads is taken off the front of a text; the failure of a write is left out. The library LZF
-- is a parameter.
pub mod Length
pub mod Integer
pub mod Reads
pub mod Text
pub mod Snapshot
pub mod Restore
pub mod Entries
pub mod Databases
pub mod Strings
use gridapps.Util.Number.{ll2string, digits}
use gridapps.Prelude.{
  true, false, none, some, pos, negsuc, [], ◌∷◌, ℕ, Bytes, ℤ, Bool, Option, ◌/◌, ◌^◌, ◌%◌, ◌*◌,
  if◌then◌else◌, not, bits64, leb, ◌-◌, ltb, ◌+◌, ◌==◌, ltb_ℤ, length, ◌&&◌, take, bytes_eq, drop,
  ◌++◌, pos_part, neg_part,
}
use gridapps.Object.{Robj, raw, int, create_string_object_from_long_long, strtoll, at_nul}

-- fread of so many bytes; `none` if there are not as many.
unfoldable pub fread : ℕ → Bytes → Option (Bytes × Bytes)
fread n s = if leb n (length s) then some (take n s, drop n s) else none

-- A byte of an unsigned number.
abbrev pub byte : ℕ → ℕ → ℕ
byte k n = n / 256 ^ k % 256

abbrev pub lenerr : ℕ
lenerr = 2 ^ 32 - 1

-- The two bits in front and the length behind them do not overlap, so `|` adds them. `len` is a
-- uint32_t, written in network byte order.
unfoldable pub save_len : ℕ → Bytes
save_len n =
    let len = n % 2 ^ 32 in
    if ltb len (2 ^ 6)
    then len ∷ []
    else if ltb len (2 ^ 14)
    then (byte 1 len + 64) ∷ byte 0 len ∷ []
    else 128 ∷ byte 3 len ∷ byte 2 len ∷ byte 1 len ∷ byte 0 len ∷ []

-- What rdbLoadLen returns: the length or the encoding, `*isencoded`, and what is left of the file.
pub record Len : Type 0 where
  pub len : ℕ
  pub isencoded : Bool
  pub rest : Bytes

abbrev pub no_len : Len
no_len = record { len = lenerr; isencoded = false; rest = [] }

unfoldable pub load_len_14 : ℕ → Bytes → Len
load_len_14 high [] = no_len
load_len_14 high (b ∷ s) = record { len = high * 256 + b; isencoded = false; rest = s }

unfoldable pub load_len_32 : Bytes → Len
load_len_32 (a ∷ b ∷ c ∷ d ∷ s) = record {
  len = ((a * 256 + b) * 256 + c) * 256 + d;
  isencoded = false;
  rest = s;
}
load_len_32 s = no_len

unfoldable pub load_len : Bytes → Len
load_len [] = no_len
load_len (b ∷ s) =
    if b / 64 == 0
    then record { len = b % 64; isencoded = false; rest = s }
    else if b / 64 == 3
    then record { len = b % 64; isencoded = true; rest = s }
    else if b / 64 == 1
    then load_len_14 (b % 64) s
    else load_len_32 s

-- A signed number of so many bits from its bit pattern.
abbrev pub signed : ℕ → ℕ → ℤ
signed w v = if ltb v (2 ^ (w - 1)) then pos v else negsuc (2 ^ w - v - 1)

-- `value >= -(1<<k) && value <= (1<<k)-1`
abbrev pub fits : ℕ → ℤ → Bool
fits k value = not (ltb_ℤ value (negsuc (2 ^ k - 1))) && not (ltb_ℤ (pos (2 ^ k - 1)) value)

-- The bytes of the value in two's complement, the lowest first; `[]` for the result 0.
unfoldable pub encode_integer : ℤ → Bytes
encode_integer value =
    let w = bits64 value in
    if fits 7 value
    then 192 ∷ byte 0 w ∷ []
    else if fits 15 value
    then 193 ∷ byte 0 w ∷ byte 1 w ∷ []
    else if fits 31 value
    then 194 ∷ byte 0 w ∷ byte 1 w ∷ byte 2 w ∷ byte 3 w ∷ []
    else []

unfoldable pub try_integer_encoding : Bytes → Bytes
try_integer_encoding s =
    let r = strtoll s in
    if at_nul r.eptr && bytes_eq (ll2string 32 r.value) s then encode_integer r.value else []

-- The object that was read and the rest of the file, NULL, or a panic.
pub data Load : Type 0 where
  loaded : Robj → Bytes → Load
  null : Load
  panic : Load

-- sdsfromlonglong of sds.c: the digits of the value without its sign, and the sign.
unfoldable pub sdsfromlonglong : ℤ → Bytes
sdsfromlonglong value =
    let v = digits (pos_part value + neg_part value) [] in
    if ltb_ℤ value (pos 0) then b'-' ∷ v else v

-- `encode` asks for an object with the integer encoding.
unfoldable pub integer_object : Bool → ℤ → Robj
integer_object encode val =
    if encode then create_string_object_from_long_long val else raw (sdsfromlonglong val)

unfoldable pub load_int8 : Bool → Bytes → Load
load_int8 encode (a ∷ s) = loaded (integer_object encode (signed 8 a)) s
load_int8 encode s = null

unfoldable pub load_int16 : Bool → Bytes → Load
load_int16 encode (a ∷ b ∷ s) = loaded (integer_object encode (signed 16 (a + b * 256))) s
load_int16 encode s = null

unfoldable pub load_int32 : Bool → Bytes → Load
load_int32 encode (a ∷ b ∷ c ∷ d ∷ s) =
    loaded (integer_object encode (signed 32 (a + b * 256 + c * 256 ^ 2 + d * 256 ^ 3))) s
load_int32 encode s = null

unfoldable pub load_integer_object : ℕ → Bool → Bytes → Load
load_integer_object enctype encode s =
    if enctype == 0
    then load_int8 encode s
    else if enctype == 1
    then load_int16 encode s
    else if enctype == 2
    then load_int32 encode s
    else panic

-- The object whose bytes were read, or NULL.
unfoldable pub load_raw : Option (Bytes × Bytes) → Load
load_raw none = null
load_raw (some (val, rest)) = loaded (raw val) rest

-- lzf_decompress of so many bytes to a buffer of the given size.
unfoldable pub load_lzf_data : (Bytes → ℕ → Option Bytes) → ℕ → Option (Bytes × Bytes) → Load
load_lzf_data decompress len none = null
load_lzf_data decompress len (some (c, rest)) = elim (decompress c len) [
  | none ↦ null
  | some val ↦ loaded (raw val) rest
]

-- fread of an item of no bytes returns 0.
unfoldable pub load_lzf_string_object : (Bytes → ℕ → Option Bytes) → Bytes → Load
load_lzf_string_object decompress s =
    let clen = load_len s in
    let len = load_len clen.rest in
    if clen.len == lenerr
    then null
    else if len.len == lenerr
    then null
    else if clen.len == 0
    then null
    else load_lzf_data decompress len.len (fread clen.len len.rest)

unfoldable pub load_string_object : (Bytes → ℕ → Option Bytes) → Bool → Bytes → Load
load_string_object decompress encode s =
    let len = load_len s in
    if len.isencoded
    then if ltb len.len 3
      then load_integer_object len.len encode len.rest
      else if len.len == 3
      then load_lzf_string_object decompress len.rest
      else panic
    else if len.len == lenerr
    then null
    else load_raw (fread len.len len.rest)

-- `[]` for the result 0.
unfoldable pub save_lzf_string_object : (Bytes → ℕ → Option Bytes) → Bytes → Bytes
save_lzf_string_object compress s =
    if leb (length s) 4 then [] else elim (compress s (length s - 4)) [
      | none ↦ []
      | some out ↦ 195 ∷ (save_len (length out) ++ (save_len (length s) ++ out))
    ]

-- The first text that is written, of two ways to save.
unfoldable pub first_written : Bytes → Bytes → Bytes
first_written [] t = t
first_written (c ∷ s) t = c ∷ s

unfoldable pub save_raw_string : (Bytes → ℕ → Option Bytes) → Bool → Bytes → Bytes
save_raw_string compress rdbcompression s =
    first_written (if leb (length s) 11 then try_integer_encoding s else []) (
      first_written
        (if rdbcompression && ltb 20 (length s) then save_lzf_string_object compress s else [])
        (save_len (length s) ++ s))

unfoldable pub save_long_long_as_string_object : ℤ → Bytes
save_long_long_as_string_object value =
    let text = ll2string 32 value in
    first_written (encode_integer value) (save_len (length text) ++ text)

-- `none` is the assertion that the object is a raw string.
unfoldable pub save_string_object : (Bytes → ℕ → Option Bytes) → Bool → Robj → Option Bytes
save_string_object compress rdbcompression (int value) =
    some (save_long_long_as_string_object value)
save_string_object compress rdbcompression (raw s) =
    some (save_raw_string compress rdbcompression s)
save_string_object compress rdbcompression o = none
