-- ===== src/Dict/Expand.antt =====
-- dict.c: the capacity of a table and the start of a rehashing.
use gridapps.Dict.{double_until, next_power}
use gridapps.Prelude.{
  refl, zero, suc, inl, inr, arith, ℕ, ◌<◌, ◌*◌, ◌≤◌, two63, ◌≡◌, ◌-◌, ◌⊎◌, Bool-cases, leb, false,
}

-- `i`, doubled so many times.
abbrev pub doubled : ℕ → ℕ → ℕ
doubled zero i = i
doubled (suc k) i = doubled k (i * 2)

past_half : (r size i : ℕ) → leb size i ≡ false → (r ≡ i * 2) ⊎ (r < size * 2) → r < size * 2
past_half r size i e (inl p) = ground arith
past_half r size i e (inr q) = q

double_until_lem :
    (fuel size i : ℕ)
    → 0 < i
    → size ≤ doubled fuel i
    → (size ≤ double_until fuel size i)
      × (i ≤ double_until fuel size i)
      × ((double_until fuel size i ≡ i) ⊎ (double_until fuel size i < size * 2))
      × ((k : ℕ) × (double_until fuel size i ≡ doubled k i))
unfolding double_until
double_until_lem zero size i some_size h = (h, omega arith, inl refl, (0, refl))
double_until_lem (suc fuel) size i some_size h = elim (Bool-cases (leb size i)) [
  | inl e ↦ rw e (ground arith, omega arith, inl refl, (0, refl))
  | inr e ↦
      let ih = double_until_lem fuel size (i * 2) (omega arith) h in
      rw e (ih.0, omega (arith, ih.1), inr (past_half _ size i e ih.2), (suc ((ih.3).0), (ih.3).1))
]

below_max : (size : ℕ) → size < two63 - 1 → leb (two63 - 1) size ≡ false
below_max size h = ground arith

-- The capacity of a table for `size` elements, below the greatest `long`: the least of 4, 8, 16 and so
-- on that is not less.
pub next_power_least :
    (size : ℕ)
    → size < two63 - 1
    → (size ≤ next_power size)
      × ((next_power size ≡ 4) ⊎ (next_power size < size * 2))
      × ((k : ℕ) × (next_power size ≡ doubled k 4))
unfolding next_power
next_power_least size h =
    let r = double_until_lem 61 size 4 (omega arith) (omega arith) in
    rw (below_max size h) (r.0, r.2, r.3)

double_until-le : (fuel size i : ℕ) → i ≤ double_until fuel size i
unfolding double_until
double_until-le zero size i = omega arith
double_until-le (suc fuel) size i = ground (arith, double_until-le fuel size (i * 2))

pub next_power_pos : (size : ℕ) → 0 < next_power size
unfolding next_power
next_power_pos size = elim (Bool-cases (leb (two63 - 1) size)) [
  | inl e ↦ rw e (omega arith)
  | inr e ↦ rw e (omega (arith, double_until-le 61 size 4))
]
