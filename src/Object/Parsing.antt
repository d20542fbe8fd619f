-- ===== src/Object/Parsing.antt =====
-- The two ways in which object.c reads an integer agree: string2ll, by which strings are encoded,
-- and strtoll, by which the commands read a raw string.
use gridapps.Object.{
  digit_run, get_long_long_from_object, clamp, strtoll_digits, strtoll, parsed, try_object_encoding,
  raw,
}
use gridapps.Util.Number.RoundTrip.{string2l-eq-string2ll, StartsHigh}
use gridapps.Prelude.{
  Bytes, ℕ, Bool, ℤ, ◌≡◌, some, [], ◌≢◌, arith, false, ◌∷◌, ◌*◌, ◌+◌, ◌-◌, true, none, refl, inl,
  inr, Bool-cases, leb, ◌&&◌, Option-cases, length,
}
use gridapps.Util.Number.{scan, with_sign, from_first, string2ll}

digit_run-scan : (s : Bytes) (n r : ℕ) → scan s n ≡ some r → digit_run s n ≡ (r, [])
unfolding scan digit_run
digit_run-scan [] n r h = ground arith
digit_run-scan (c ∷ s) n r h = ground (arith, digit_run-scan s (n * 10 + (c - b'0')) r)

clamp-with_sign :
    (negative : Bool) (r : ℕ) (v : ℤ)
    → with_sign negative (some r) ≡ some v
    → clamp negative (r, []) ≡ record { value = v; out_of_range = false; eptr = [] }
unfolding clamp with_sign
clamp-with_sign true r v h = ground arith
clamp-with_sign false r v h = ground arith

with_sign-none : (negative : Bool) → with_sign negative none ≡ none
unfolding with_sign
with_sign-none true = refl
with_sign-none false = refl

-- A text that string2ll accepts behind the sign is read to its end.
strtoll_digits-from_first :
    (n : ℕ) (negative : Bool) (whole s : Bytes) (v : ℤ)
    → from_first n negative s ≡ some v
    → n ≢ 1
    → strtoll_digits whole negative s ≡ record { value = v; out_of_range = false; eptr = [] }
unfolding from_first strtoll_digits
strtoll_digits-from_first n negative whole [] v h e = ground arith
strtoll_digits-from_first n negative whole (c ∷ s) v h e =
    elim (Bool-cases (leb b'1' c && leb c b'9')) [
      | inl first ↦ elim (Option-cases (scan s (c - b'0'))) [
        | inl unread ↦ ground (arith, with_sign-none negative)
        | inr (r, read) ↦
            ground (arith, digit_run-scan s (c - b'0') r read, clamp-with_sign negative r v)
      ]
      | inr other ↦ ground arith
    ]

-- Behind the sign of a text of several bytes stands a digit but 0.
from_first-starts :
    (n : ℕ) (negative : Bool) (s : Bytes) (v : ℤ)
    → from_first n negative s ≡ some v
    → n ≢ 1
    → StartsHigh s
unfolding from_first
from_first-starts n negative [] v h e = ground arith
from_first-starts n negative (c ∷ s) v h e = ground arith

strtoll_single :
    (c : ℕ) (v : ℤ)
    → string2ll (c ∷ []) ≡ some v
    → strtoll (c ∷ []) ≡ record { value = v; out_of_range = false; eptr = [] }
unfolding string2ll from_first scan with_sign strtoll strtoll_digits clamp digit_run
strtoll_single c v h = ground arith

-- A text that string2ll accepts is read by strtoll to its end, as the same value.
strtoll-string2ll :
    (s : Bytes) (v : ℤ)
    → string2ll s ≡ some v
    → strtoll s ≡ record { value = v; out_of_range = false; eptr = [] }
unfolding string2ll strtoll
strtoll-string2ll [] v h = ground arith
strtoll-string2ll (c ∷ []) v h = strtoll_single c v h
strtoll-string2ll (c ∷ d ∷ s) v h =
    let n = length (c ∷ d ∷ s) in
    let whole : Bytes = c ∷ d ∷ s in
    ground (
      arith,
      from_first-starts n true (d ∷ s) v,
      from_first-starts n false whole v,
      strtoll_digits-from_first n true whole (d ∷ s) v,
      strtoll_digits-from_first n false whole whole v,
    )

-- Whether a string is stored raw or as an integer, the commands read the same number from it, if
-- errno was not left at ERANGE.
pub get_long_long-string2ll :
    (s : Bytes) (v : ℤ)
    → string2ll s ≡ some v
    → (get_long_long_from_object false (some (raw s)) ≡ some (some v))
      × (get_long_long_from_object false (some (try_object_encoding 1 (raw s))) ≡ some (some v))
unfolding get_long_long_from_object parsed try_object_encoding
get_long_long-string2ll s v h = (rw (strtoll-string2ll s v h), rw (string2l-eq-string2ll s, h))
