-- ===== src/Strings/Range/Slice.antt =====
-- GETRANGE against a description of the range by itself.
use gridapps.Strings.Range.{
  from_end, window_to, at_least_zero, clamp_end, reply_window, getrange_reply,
}
use gridapps.Reply.{Reply, bulk, emptybulk, wild}
use gridapps.Prelude.{
  pos, negsuc, ℕ, Bytes, ℤ, ◌-◌, take, ◌+◌, length, drop, none, some, refl, zero, suc, [], arith,
  ◌∷◌, List, ◌≤◌, Option, ◌+ℤ◌, ◌≡◌, ◌-ℤ◌, ◌<◌, ◌^◌, ◌≤ℤ◌, length-drop, ◌%◌,
}

-- The position that an index names, which counts from the end if it is negative; a position before
-- the string is its start.
abbrev pub position : ℕ → ℤ → ℕ
position strlen (pos n) = n
position strlen (negsuc n) = strlen - (n + 1)

-- The bytes from one index to another, both included, as far as the string goes.
abbrev pub slice : Bytes → ℤ → ℤ → Bytes
slice s start end' =
    take (position (length s) end' + 1 - position (length s) start)
      (drop (position (length s) start) s)

take_all {ℓ} : {A : Type ℓ} (n : ℕ) (xs : List A) → length xs ≤ n → take n xs ≡ xs
take_all zero [] h = refl
take_all zero (x ∷ xs) h = absurd (omega arith)
take_all (suc n) [] h = refl
take_all (suc n) (x ∷ xs) h = rw (take_all n xs (omega arith))

drop_all {ℓ} : {A : Type ℓ} (n : ℕ) (xs : List A) → length xs ≤ n → drop n xs ≡ []
drop_all zero [] h = refl
drop_all zero (x ∷ xs) h = absurd (omega arith)
drop_all (suc n) [] h = refl
drop_all (suc n) (x ∷ xs) h = drop_all n xs (omega arith)

-- The bytes that a bulk reply carries.
abbrev pub carried : Reply → Option Bytes
carried emptybulk = some []
carried (bulk s) = some s
carried _ = none

position-from_end : (n : ℕ) (i : ℤ) → at_least_zero (from_end n i) ≡ position n i
unfolding from_end ◌+ℤ◌
position-from_end n (pos i) = ground arith
position-from_end n (negsuc i) = ground arith

take_more {ℓ} :
    {A : Type ℓ} (a e : ℕ) (xs : List A) → a ≤ e → take (e - a + 1) xs ≡ take (e + 1 - a) xs
take_more a e xs h = let eq : e - a + 1 ≡ e + 1 - a = omega arith in rw eq

position-lt : (n : ℕ) (i : ℤ) → n < 2 ^ 32 → i ≤ℤ pos (2 ^ 32 - 1) → position n i < 2 ^ 32
position-lt n (pos i) h k = omega arith
position-lt n (negsuc i) h k = omega arith

-- The reply window from `a` to the last byte `e` of the range.
window_to-slice :
    (s : Bytes) (a e : ℕ)
    → length s < 2 ^ 32
    → e < 2 ^ 32
    → carried (window_to s a (clamp_end (length s) e)) ≡ some (take (e + 1 - a) (drop a s))
unfolding window_to clamp_end reply_window ◌-ℤ◌
window_to-slice [] a e small h =
    ground (arith, take_all {A = ℕ} (e + 1 - a) (drop {A = ℕ} a []), drop_all {A = ℕ} a [])
window_to-slice (c ∷ t) a e small h = ground (
  arith,
  take_all {A = ℕ} (e + 1 - a) (drop a (c ∷ t)),
  take_all {A = ℕ} (length t - a + 1) (drop a (c ∷ t)),
  drop_all a (c ∷ t),
  length-drop a (c ∷ t),
  take_more a e (drop a (c ∷ t)),
)

-- GETRANGE replies with the range between the two positions, both included, when the string is
-- shorter than 2 ^ 32 bytes and the end is below 2 ^ 32.
pub getrange_reply-slice :
    (s : Bytes) (start end' : ℤ)
    → length s < 2 ^ 32
    → end' ≤ℤ pos (2 ^ 32 - 1)
    → carried (getrange_reply s start end') ≡ some (slice s start end')
unfolding getrange_reply
getrange_reply-slice s start end' small h =
    rw (position-from_end (length s) start, position-from_end (length s) end')
      (window_to-slice s (position (length s) start) (position (length s) end') small
        (position-lt (length s) end' small h))

-- An end of 2 ^ 32 or more loses its high bits in the comparison with the length: where what is left
-- is below the length, the reply takes bytes from behind the string.
pub getrange_reply-wild :
    (s : Bytes) (end' : ℕ)
    → 2 ^ 32 ≤ end'
    → end' % 2 ^ 32 < length s
    → length s < 2 ^ 32
    → getrange_reply s (pos 0) (pos end') ≡ wild 0 (end' + 1)
unfolding getrange_reply
getrange_reply-wild s end' big low small = ground arith
