-- ===== src/Intset/Search.antt =====
-- The binary search of intset.c.
use gridapps.Intset.{Probe, eq_ℤ, search_loop, value_at, intset_search}
use gridapps.Prelude.{
  true, false, zero, suc, ℤ, List, pos_part, ℕ, ◌<◌, Bool, ◌+◌, ◌≡◌, neg_part, length, ◌≤◌,
  if◌then◌else◌, arith, ◌-◌, ◌/◌, negsuc,
}

infix 50 ◌<ℤ◌
abbrev pub ◌<ℤ◌ : ℤ → ℤ → Type 0
a <ℤ b = pos_part a + neg_part b < pos_part b + neg_part a

abbrev pub IsAscending : List ℤ → Type 0
IsAscending xs = (i j : ℕ) → i < j → j < length xs → value_at xs i <ℤ value_at xs j

-- What the end of a search tells about the array at an index `i`.
abbrev pub Explains : List ℤ → ℤ → ℕ → Bool × ℕ → Type 0
Explains xs value i (true, p) = (p < length xs) × (value_at xs p ≡ value)
Explains xs value i (false, p) =
    (p ≤ length xs)
    × (i < p → value_at xs i <ℤ value)
    × (p ≤ i → i < length xs → value <ℤ value_at xs i)

-- The result that the code reads off the variables of the loop.
abbrev pub read_off : ℤ → Probe → Bool × ℕ
read_off value r = if eq_ℤ value r.cur then (true, r.mid) else (false, r.low)

pub eq_ℤ_sound : (a b : ℤ) → eq_ℤ a b ≡ true → a ≡ b
eq_ℤ_sound a b h = ground arith

module _ (xs : List ℤ) (value : ℤ) (asc : IsAscending xs) (i : ℕ) where
  loop-Explains :
      (fuel low high : ℕ) (r : Probe)
      → high ≤ low + fuel
      → low ≤ high
      → high ≤ length xs
      → (i < low → value_at xs i <ℤ value)
      → (high ≤ i → i < length xs → value <ℤ value_at xs i)
      → (high ≤ low → eq_ℤ value r.cur ≡ false)
      → Explains xs value i (read_off value (search_loop fuel xs value low high r))
  unfolding search_loop
  loop-Explains zero low high r enough ordered inside below above ne = ground arith
  loop-Explains (suc fuel) low high r enough ordered inside below above ne =
      let mid = (low + high - 1) / 2 in
      let r' : Probe = record { low = low; mid = mid; cur = value_at xs mid } in
      ground (
        arith,
        asc i mid,
        asc mid i,
        loop-Explains fuel (mid + 1) high r',
        loop-Explains fuel low mid r',
      )

-- On an ascending array, the search either returns a position that holds the value, or one such that
-- every element before it is less than the value and every element from it on is greater.
pub intset_search-Explains :
    (xs : List ℤ) (value : ℤ)
    → IsAscending xs
    → (i : ℕ) → Explains xs value i (intset_search xs value)
unfolding intset_search
intset_search-Explains xs value asc i =
    let start : Probe = record { low = 0; mid = 0; cur = negsuc 0 } in
    ground (
      arith,
      asc i (length xs - 1),
      asc 0 i,
      loop-Explains xs value asc i (length xs) 0 (length xs) start,
    )
