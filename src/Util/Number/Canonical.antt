-- ===== src/Util/Number/Canonical.antt =====
-- string2ll accepts no text but the one that ll2string writes.
use gridapps.Prelude.{
  ℕ, zero, suc, ◌+◌, ◌-◌, ◌*◌, ◌≤◌, ◌<◌, ◌≡◌, ◌≢◌, inl, inr, refl, leb, ◌&&◌, Bool-cases,
  if◌then◌else◌, Bool, true, false, Option, none, some, [], ◌∷◌, append-nil, arith, length, Bytes,
  ℤ,
}
use gridapps.Util.Number.{print, digits, scan, with_sign, from_first, string2ll}
use gridapps.Util.Number.Digits.{scan_first, digits-scan, digits_step}

digits_single : (c : ℕ) (s out : Bytes) → b'0' < c → c ≤ b'9' → digits (c - b'0') out ≡ c ∷ out
digits_single c s out lo hi = grind (arith, digits_step (c - b'0') out)

-- What is read from the first digit is the number whose digits the text is.
digits-scan_first : (s : Bytes) (r : ℕ) → scan_first s ≡ some r → digits r [] ≡ s
digits-scan_first [] r h = ground arith
digits-scan_first (c ∷ s) r h =
    ground (arith, digits-scan s (c - b'0') r [], digits_single c s s, append-nil s)

scan-positive : (s : Bytes) (v r : ℕ) → 0 < v → scan s v ≡ some r → 0 < r
unfolding scan
scan-positive [] v r p h = ground arith
scan-positive (c ∷ s) v r p h = ground (arith, scan-positive s (v * 10 + (c - b'0')) r)

-- A text that a signed conversion accepts is the magnitude behind its sign.
with_sign-print :
    (negative : Bool) (s : Bytes) (o : Option ℕ) (v : ℤ)
    → with_sign negative o ≡ some v
    → ((r : ℕ) → o ≡ some r → (0 < r) × (digits r [] ≡ s))
    → print v ≡ (if negative then b'-' ∷ s else s)
unfolding with_sign print
with_sign-print negative s none v h k = ground arith
with_sign-print true s (some zero) v h k = absurd (omega (arith, k 0 refl))
with_sign-print true s (some (suc r)) v h k = ground (arith, k (suc r) refl)
with_sign-print false s (some r) v h k = ground (arith, k r refl)

-- Where the first byte is a digit but 0, the value prints as the sign and the text.
from_digit-print :
    (n : ℕ) (negative : Bool) (c : ℕ) (s : Bytes) (v : ℤ)
    → (leb b'1' c && leb c b'9') ≡ true
    → from_first n negative (c ∷ s) ≡ some v
    → print v ≡ (if negative then b'-' ∷ c ∷ s else c ∷ s)
unfolding from_first
from_digit-print n negative c s v first e =
    with_sign-print negative (c ∷ s) (scan s (c - b'0')) v (rw first at e) (λ r e'.
      (scan-positive s (c - b'0') r (ground arith) e', digits-scan_first (c ∷ s) r (rw first e')))

from_first-print :
    (n : ℕ) (negative : Bool) (s : Bytes) (v : ℤ)
    → n ≢ 1
    → from_first n negative s ≡ some v
    → print v ≡ (if negative then b'-' ∷ s else s)
unfolding from_first
from_first-print n negative [] v h e = ground arith
from_first-print n negative (c ∷ s) v h e = elim (Bool-cases (leb b'1' c && leb c b'9')) [
  | inl first ↦ from_digit-print n negative c s v first e
  | inr other ↦ ground arith
]

-- A text of one byte.
single-print : (c : ℕ) (v : ℤ) → string2ll (c ∷ []) ≡ some v → print v ≡ c ∷ []
unfolding string2ll print
single-print c v h = elim (Bool-cases (leb b'1' c && leb c b'9')) [
  | inl first ↦ from_digit-print 1 false c [] v first (ground arith)
  | inr other ↦ ground (arith, digits_step 0 [])
]

-- A text that is read as a value is the text that the value prints as.
pub print-string2ll : (s : Bytes) (v : ℤ) → string2ll s ≡ some v → print v ≡ s
unfolding string2ll
print-string2ll [] v h = ground arith
print-string2ll (c ∷ []) v h = single-print c v h
print-string2ll (c ∷ d ∷ s) v h = ground (
  arith,
  from_first-print (length (c ∷ d ∷ s)) true (d ∷ s) v,
  from_first-print (length (c ∷ d ∷ s)) false (c ∷ d ∷ s) v,
)
