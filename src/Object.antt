-- ===== src/Object.antt =====
-- The values of keys (struct redisObject of redis.h) and the string part of object.c.
-- Reference counts, LRU clocks and the virtual memory are not part of a value. Where a command
-- copies a shared or encoded string before it writes, the key holds the new bytes either way.
pub mod Encoding
pub mod Parsing
use gridapps.Prelude.{
  ℕ, zero, suc, ◌+◌, ◌-◌, ◌*◌, ◌<◌, ◌≡◌, refl, Bool, true, false, ◌&&◌, ◌||◌, not, Option, none,
  some, List, [], ◌∷◌, arith, ltb, leb, ◌==◌, if◌then◌else◌, length, Bytes, bytes_eq, Map, codes, ℤ,
  pos, negsuc, neg, ltb_ℤ, llong_max, llong_min, two63,
}
use gridapps.Util.Number.{ll2string, string2ll, string2l, is_digit, digits}

-- REDIS_STRING with REDIS_ENCODING_RAW or REDIS_ENCODING_INT, and the aggregate types by their
-- members. The scores of a sorted set stand as the bit patterns of their doubles.
pub data Robj : Type 0 where
  raw : Bytes → Robj
  int : ℤ → Robj
  list : List Bytes → Robj
  set : List Bytes → Robj
  zset : Map ℕ → Robj
  hash : Map Bytes → Robj

-- `o->type == REDIS_STRING`
unfoldable pub is_string : Robj → Bool
is_string (raw s) = true
is_string (int v) = true
is_string (list l) = false
is_string (set l) = false
is_string (zset m) = false
is_string (hash m) = false

-- The encoding of an argument with the given count of references.
unfoldable pub try_object_encoding : ℕ → Robj → Robj
try_object_encoding refcount (raw s) =
    if ltb 1 refcount then raw s else elim (string2l s) [ none ↦ raw s | some value ↦ int value ]
try_object_encoding refcount o = o

-- The bytes of a decoded string; `none` is the panic on another type.
unfoldable pub get_decoded_object : Robj → Option Bytes
get_decoded_object (raw s) = some s
get_decoded_object (int v) = some (ll2string 32 v)
get_decoded_object (list l) = none
get_decoded_object (set l) = none
get_decoded_object (zset m) = none
get_decoded_object (hash m) = none

-- `none` is the assertion that the object is a string.
unfoldable pub string_object_len : Robj → Option ℕ
string_object_len (raw s) = some (length s)
string_object_len (int v) = some (length (ll2string 32 v))
string_object_len (list l) = none
string_object_len (set l) = none
string_object_len (zset m) = none
string_object_len (hash m) = none

-- The part of a C string before its nul.
unfoldable pub before_nul : Bytes → Bytes
before_nul [] = []
before_nul (c ∷ s) = if c == 0 then [] else c ∷ before_nul s

-- Two strings, at least one of them raw: sdscmp if both are, else strcmp, which stops at a nul.
unfoldable pub equal_string_objects : Robj → Robj → Option Bool
unfolding before_nul
equal_string_objects (int a) (int b) = some (not (ltb_ℤ a b) && not (ltb_ℤ b a))
equal_string_objects (raw s) (raw t) = some (bytes_eq s t)
equal_string_objects (int a) (raw t) = some (bytes_eq (before_nul (ll2string 128 a)) (before_nul t))
equal_string_objects (raw s) (int b) = some (bytes_eq (before_nul s) (before_nul (ll2string 128 b)))
equal_string_objects _ _ = none

-- isspace in the C locale
abbrev pub is_space : ℕ → Bool
is_space c = c == b' ' || leb 9 c && leb c 13

unfoldable pub skip_space : Bytes → Bytes
skip_space [] = []
skip_space (c ∷ s) = if is_space c then skip_space s else c ∷ s

-- The number that the digits at the start of a text spell, and the text behind them.
unfoldable pub digit_run : Bytes → ℕ → ℕ × Bytes
digit_run [] v = (v, [])
digit_run (c ∷ s) v = if is_digit c then digit_run s (v * 10 + (c - b'0')) else (v, c ∷ s)

-- What strtoll returns: the value, whether it left the range, and the text at `*eptr`.
pub record Strtoll : Type 0 where
  pub value : ℤ
  pub out_of_range : Bool
  pub eptr : Bytes

clamp : Bool → ℕ × Bytes → Strtoll
clamp true (v, rest) =
    if ltb two63 v
    then record { value = llong_min; out_of_range = true; eptr = rest }
    else record { value = neg v; out_of_range = false; eptr = rest }
clamp false (v, rest) =
    if ltb (two63 - 1) v
    then record { value = llong_max; out_of_range = true; eptr = rest }
    else record { value = pos v; out_of_range = false; eptr = rest }

-- Behind the sign; with no digit there the value is 0 and `*eptr` is the whole text.
unfoldable pub strtoll_digits : Bytes → Bool → Bytes → Strtoll
unfolding clamp digit_run
strtoll_digits whole negative [] = record { value = pos 0; out_of_range = false; eptr = whole }
strtoll_digits whole negative (c ∷ s) =
    if is_digit c
    then clamp negative (digit_run (c ∷ s) 0)
    else record { value = pos 0; out_of_range = false; eptr = whole }

strtoll_sign : Bytes → Bytes → Strtoll
strtoll_sign whole [] = strtoll_digits whole false []
strtoll_sign whole (c ∷ s) =
    if c == b'-'
    then strtoll_digits whole true s
    else if c == b'+'
    then strtoll_digits whole false s
    else strtoll_digits whole false (c ∷ s)

-- strtoll(s, &eptr, 10) of the C library
unfoldable pub strtoll : Bytes → Strtoll
unfolding strtoll_sign skip_space
strtoll s = strtoll_sign s (skip_space s)

-- `eptr[0] != '\0'`: the buffer has a nul behind the text.
abbrev pub at_nul : Bytes → Bool
at_nul [] = true
at_nul (c ∷ s) = c == 0

-- `erange` says whether errno is ERANGE before the call, which does not clear it.
unfoldable pub parsed : Bool → Strtoll → Option ℤ
parsed erange r =
    if at_nul r.eptr
    then if (erange || r.out_of_range)
        && ((not (ltb_ℤ r.value llong_max)) || (not (ltb_ℤ llong_min r.value)))
      then none
      else some r.value
    else none

-- The value in `*target`, or `none` for REDIS_ERR; the outer `none` is the assertion on the type.
-- No object counts as 0.
unfoldable pub get_long_long_from_object : Bool → Option Robj → Option (Option ℤ)
get_long_long_from_object erange none = some (some (pos 0))
get_long_long_from_object erange (some (raw s)) = some (parsed erange (strtoll s))
get_long_long_from_object erange (some (int v)) = some (some v)
get_long_long_from_object erange (some (list l)) = none
get_long_long_from_object erange (some (set l)) = none
get_long_long_from_object erange (some (zset m)) = none
get_long_long_from_object erange (some (hash m)) = none

-- A `long` is as wide as a `long long`, and still tested.
unfoldable pub in_long_range : ℤ → Bool
in_long_range v = not (ltb_ℤ v llong_min || ltb_ℤ llong_max v)

-- The shared and the private integer are one value; a `long` holds every `long long`.
unfoldable pub create_string_object_from_long_long : ℤ → Robj
unfolding in_long_range
create_string_object_from_long_long value =
    if in_long_range value then int value else raw (ll2string 32 value)

parse_spaces : get_long_long_from_object false (some (raw (codes "  +42"))) ≡ some (some (pos 42))
unfolding get_long_long_from_object strtoll strtoll_digits parsed
parse_spaces = refl

parse_trailing : get_long_long_from_object false (some (raw (codes "42x"))) ≡ some none
unfolding get_long_long_from_object strtoll strtoll_digits parsed
parse_trailing = refl

parse_over : get_long_long_from_object false (some (raw (codes "-9223372036854775809"))) ≡ some none
unfolding get_long_long_from_object strtoll strtoll_digits parsed
parse_over = refl
