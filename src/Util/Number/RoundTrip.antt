-- ===== src/Util/Number/RoundTrip.antt =====
-- string2ll reads back every value that ll2string prints, and fails outside the signed range.
use gridapps.Prelude.{
  ℕ, zero, suc, ◌+◌, ◌-◌, ◌/◌, ◌%◌, ◌≤◌, ◌^◌, ◌<◌, ◌≡◌, ◌∙◌, ◌↔◌, refl, Bool, true, false, Option,
  none, some, [], ◌∷◌, arith, length, Bytes, ℤ, pos, negsuc, InInt64, Option-cases, inl, inr,
}
use native.Mathlib.Decide.{dec_lt}
use gridapps.Util.Number.{
  print, digits, scan, with_sign, from_first, string2ll, string2l, in_long, ll2string, ullong_max,
}
use gridapps.Util.Number.Canonical.{print-string2ll}
use native.Mathlib.Nat.{pow-suc}
use gridapps.Util.Number.Digits.{scan_first, scan_first-digits, digits_step}

-- Reading from a first digit but 0 is `scan_first` with the sign put to it.
from_first-scan_first :
    (n : ℕ) (negative : Bool) (s : Bytes) {r : ℕ}
    → scan_first s ≡ some r
    → from_first n negative s ≡ with_sign negative (some r)
unfolding from_first
from_first-scan_first n negative [] h = ground arith
from_first-scan_first n negative (c ∷ s) h = ground arith

-- A text that `scan_first` accepts begins with a digit but 0.
abbrev pub StartsHigh : Bytes → Type 0
StartsHigh [] = ⊥
StartsHigh (c ∷ s) = (b'1' ≤ c) × (c ≤ b'9')

scan_first-StartsHigh : (s : Bytes) {r : ℕ} → scan_first s ≡ some r → StartsHigh s
scan_first-StartsHigh [] h = ground arith
scan_first-StartsHigh (c ∷ s) h = ground arith

string2ll-positive :
    (s : Bytes) {r : ℕ} → scan_first s ≡ some r → string2ll s ≡ with_sign false (some r)
unfolding string2ll
string2ll-positive [] h = ground arith
string2ll-positive (c ∷ s) h =
    ground (
      arith,
      scan_first-StartsHigh (c ∷ s) h,
      from_first-scan_first (length (c ∷ s)) false (c ∷ s) h,
    )

string2ll-negative :
    (s : Bytes) {r : ℕ} → scan_first s ≡ some r → string2ll (b'-' ∷ s) ≡ with_sign true (some r)
unfolding string2ll
string2ll-negative [] h = ground arith
string2ll-negative (c ∷ s) h =
    ground (arith, from_first-scan_first (length (b'-' ∷ c ∷ s)) true (c ∷ s) h)

scan_first-print : (n : ℕ) → 0 < n → n ≤ ullong_max → scan_first (digits n []) ≡ some n
unfolding scan
scan_first-print n p h = scan_first-digits n [] p h

-- Every `long long` is read back from its print.
pub string2ll-print : (v : ℤ) → InInt64 v → string2ll (print v) ≡ some v
unfolding print with_sign dec_lt
string2ll-print (pos zero) h = rw (digits_step 0 []) (unfold string2ll in refl)
string2ll-print (pos (suc n)) h =
    string2ll-positive (digits (suc n) []) (scan_first-print (suc n) (omega arith) (omega arith))
    ∙ ground arith
string2ll-print (negsuc n) h =
    string2ll-negative (digits (n + 1) []) (scan_first-print (n + 1) (omega arith) (omega arith))
    ∙ ground arith

with_sign-InInt64 :
    (negative : Bool) (o : Option ℕ) (v : ℤ) → with_sign negative o ≡ some v → InInt64 v
unfolding with_sign
with_sign-InInt64 negative none v h = ground arith
with_sign-InInt64 true (some zero) v h = ground arith
with_sign-InInt64 true (some (suc r)) v h = ground arith
with_sign-InInt64 false (some r) v h = ground arith

from_first-InInt64 :
    (n : ℕ) (negative : Bool) (s : Bytes) (v : ℤ) → from_first n negative s ≡ some v → InInt64 v
unfolding from_first
from_first-InInt64 n negative [] v h = ground arith
from_first-InInt64 n negative (c ∷ s) v h =
    ground (arith, with_sign-InInt64 negative (scan s (c - b'0')) v)

-- An accepted value is one of a `long long`.
pub string2ll-InInt64 : (s : Bytes) (v : ℤ) → string2ll s ≡ some v → InInt64 v
unfolding string2ll
string2ll-InInt64 [] v h = ground arith
string2ll-InInt64 (c ∷ s) v h = ground (
  arith,
  from_first-InInt64 (length (c ∷ s)) true s v,
  from_first-InInt64 (length (c ∷ s)) false (c ∷ s) v,
)

-- A number below 10 ^ (k + 1) has at most k + 1 digits.
length-digits-le :
    (k v : ℕ) (out : Bytes) → v < 10 ^ suc k → length (digits v out) ≤ suc k + length out
length-digits-le zero v out h = ground (arith, digits_step v out)
length-digits-le (suc k) v out h =
    let quotient : v / 10 < 10 ^ suc k = omega (arith, pow-suc 10 (suc k)) in
    grind (arith, digits_step v out, length-digits-le k (v / 10) ((b'0' + v % 10) ∷ out) quotient)

-- Twenty bytes hold every value.
pub length-print-le : (v : ℤ) → InInt64 v → length (print v) ≤ 20
unfolding print
length-print-le (pos n) h = omega (arith, length-digits-le 18 n [] (omega arith))
length-print-le (negsuc n) h = omega (arith, length-digits-le 18 (n + 1) [] (omega arith))

-- A buffer of 32 bytes, the size that every caller gives, holds the whole text.
pub ll2string-print : (v : ℤ) → InInt64 v → ll2string 32 v ≡ print v
unfolding ll2string
ll2string-print v h = ground (arith, length-print-le v h)

-- string2ll accepts a text as `v` exactly when `v` is a `long long` and the text is what ll2string
-- writes for it to a buffer of 32 bytes: no leading zeros, no plus sign, no space, no overflow.
pub string2ll_iff :
    (s : Bytes) (v : ℤ) → (string2ll s ≡ some v) ↔ (InInt64 v × (ll2string 32 v ≡ s))
string2ll_iff s v = (
  (λ h.
      let fits = string2ll-InInt64 s v h in (fits, ll2string-print v fits ∙ print-string2ll s v h)),
  (λ (fits, text). rw (← text, ll2string-print v fits) (string2ll-print v fits)),
)

-- A `long` is as wide as a `long long`, so the narrower conversion refuses nothing more.
pub string2l-eq-string2ll : (s : Bytes) → string2l s ≡ string2ll s
unfolding string2l in_long
string2l-eq-string2ll s = elim (Option-cases (string2ll s)) [
  | inl none_read ↦ rw none_read
  | inr (v, read) ↦ rw read (ground (arith, string2ll-InInt64 s v read))
]
