-- ===== src/Util/Number.antt =====
-- ll2string, string2ll and string2l of util.c. A `long long` and a `long` have 64 bits.
pub mod Digits
pub mod Canonical
pub mod RoundTrip
use mathlib.Core.Logic.{dite}
use mathlib.Core.WellFounded.{Acc}
use native.Mathlib.Decide.{dec_lt}
use gridapps.Prelude.{
  ℕ, ◌+◌, ◌-◌, ◌*◌, ◌/◌, ◌%◌, ◌<◌, ◌≡◌, refl, Bool, true, false, ◌&&◌, ◌||◌, Option, none, some,
  List, [], ◌∷◌, arith, ltb, leb, ◌==◌, if◌then◌else◌, lt_wf, take, length, Bytes, codes, ℤ, pos,
  negsuc, neg, llong_max, llong_min, ltb_ℤ, two63, two64,
}

abbrev pub ullong_max : ℕ
ullong_max = two64 - 1

-- `*p-- = '0'+(v%10); v /= 10;`, repeated while `v` is not 0.
emit : (v : ℕ) → Acc ◌<◌ v → Bytes → Bytes
emit v (Acc.intro _ smaller) out =
    let out' = (b'0' + v % 10) ∷ out in
    dite (dec_lt 0 (v / 10)) (λ h. emit (v / 10) (smaller (v / 10) (omega arith)) out') (λ _. out')

-- The digits of `v`, written in front of `out`.
unfoldable pub digits : ℕ → Bytes → Bytes
unfolding emit lt_wf dec_lt
digits v out = emit v (lt_wf.apply v) out

-- The whole text of a value, before it is cut to the caller's buffer.
unfoldable pub print : ℤ → Bytes
print (pos n) = digits n []
print (negsuc n) = b'-' ∷ digits (n + 1) []

-- What is written to a buffer of `len` bytes, less the nul; the result is its length.
unfoldable pub ll2string : ℕ → ℤ → Bytes
unfolding print
ll2string len value =
    let text = print value in
    if len == 0 then [] else if ltb len (length text + 1) then take (len - 1) text else text

abbrev pub is_digit : ℕ → Bool
is_digit c = leb b'0' c && leb c b'9'

-- The `while` loop over the other digits. Where it stops early, bytes are left and the result is 0.
unfoldable pub scan : Bytes → ℕ → Option ℕ
scan [] v = some v
scan (c ∷ s) v =
    if is_digit c
    then if ltb (ullong_max / 10) v
      then none
      else if ltb (ullong_max - (c - b'0')) (v * 10)
      then none
      else scan s (v * 10 + (c - b'0'))
    else none

-- The sign and the test against the signed range.
unfoldable pub with_sign : Bool → Option ℕ → Option ℤ
with_sign negative none = none
with_sign true (some v) = if ltb two63 v then none else some (neg v)
with_sign false (some v) = if ltb (two63 - 1) v then none else some (pos v)

-- From the first digit on; `slen` is the length of the whole text.
unfoldable pub from_first : ℕ → Bool → Bytes → Option ℤ
unfolding scan with_sign
from_first slen negative [] = none
from_first slen negative (c ∷ s) =
    if leb b'1' c && leb c b'9'
    then with_sign negative (scan s (c - b'0'))
    else if c == b'0' && slen == 1
    then some (pos 0)
    else none

unfoldable pub string2ll : Bytes → Option ℤ
unfolding from_first
string2ll [] = none
string2ll (c ∷ s) =
    if length (c ∷ s) == 1 && c == b'0'
    then some (pos 0)
    else if c == b'-'
    then from_first (length (c ∷ s)) true s
    else from_first (length (c ∷ s)) false (c ∷ s)

-- A `long` has the range of a `long long`.
in_long : Option ℤ → Option ℤ
in_long none = none
in_long (some v) = if ltb_ℤ v llong_min || ltb_ℤ llong_max v then none else some v

unfoldable pub string2l : Bytes → Option ℤ
unfolding string2ll in_long
string2l s = in_long (string2ll s)

print_min : ll2string 32 llong_min ≡ codes "-9223372036854775808"
unfolding ll2string digits
print_min = refl

print_cut : ll2string 4 (pos 12345) ≡ codes "123"
unfolding ll2string digits
print_cut = refl

parse_min : string2ll (codes "-9223372036854775808") ≡ some llong_min
unfolding string2ll
parse_min = refl

parse_over : string2ll (codes "9223372036854775808") ≡ none
unfolding string2ll
parse_over = refl

parse_zeros : string2ll (codes "00") ≡ none
unfolding string2ll
parse_zeros = refl

parse_minus_zero : string2ll (codes "-0") ≡ none
unfolding string2ll
parse_minus_zero = refl
