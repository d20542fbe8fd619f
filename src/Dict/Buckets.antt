-- ===== src/Dict/Buckets.antt =====
-- dict.c: where the entries of a table stand, and writes to one of its buckets.
use gridapps.Db.{is_some}
use gridapps.Dict.{unlink, assign, Chain, slot, Table}
use gridapps.Prelude.{
  true, none, some, refl, zero, suc, [], arith, ◌∷◌, List, ℕ, find, Bytes, if◌then◌else◌, ◌≤◌,
  bytes_eq, length, ◌≡◌, ◌≢◌, ◌/◌, ◌<◌, ap, ◌+◌, ◌==◌, ◌-◌, bytes_eq_iff,
}
use Prim.Native.Nat.{bit_and, bit_and-bitwise, digits, min}

-- The count of the entries of a key.
abbrev pub occ {ℓ} : {V : Type ℓ} → List (Bytes × V) → Bytes → ℕ
occ [] key = 0
occ ((k, v) ∷ c) key = (if bytes_eq k key then 1 else 0) + occ c key

and_digits-le : (n a b : ℕ) → digits (λ b. zero) min n a b ≤ b
and_digits-le zero a b = omega arith
and_digits-le (suc n) zero b = omega arith
and_digits-le (suc n) (suc a) b = omega (arith, and_digits-le n (suc a / 2) (b / 2))

pub bit_and-le : (a b : ℕ) → bit_and a b ≤ b
bit_and-le a b = omega (arith, bit_and-bitwise a b, and_digits-le a a b)

pub slot_lt : (hash : Bytes → ℕ) (size : ℕ) (key : Bytes) → 0 < size → slot hash size key < size
unfolding slot
slot_lt hash size key h = omega (arith, bit_and-le (hash key) (size - 1))

module _ {V : Type 0} where
  -- The entries of the first `n` buckets.
  abbrev pub total : (ℕ → Chain V) → ℕ → ℕ
  total f zero = 0
  total f (suc n) = length (f n) + total f n

  length_zero : (c : Chain V) → length c ≡ 0 → c ≡ []
  length_zero [] h = refl
  length_zero (e ∷ c) h = absurd (omega arith)

  total-write_beyond :
      (f : ℕ → Chain V) (i : ℕ) (c : Chain V) (n : ℕ)
      → n ≤ i
      → total (λ j. if j == i then c else f j) n ≡ total f n
  total-write_beyond f i c zero h = refl
  total-write_beyond f i c (suc n) h = ground (arith, total-write_beyond f i c n)

  pub total-write :
      (f : ℕ → Chain V) (i : ℕ) (c : Chain V) (n : ℕ)
      → i < n
      → total (λ j. if j == i then c else f j) n + length (f i) ≡ total f n + length c
  total-write f i c zero h = absurd (omega arith)
  total-write f i c (suc n) h = ground (arith, total-write f i c n, total-write_beyond f i c n)

  pub total_zero : (f : ℕ → Chain V) (i n : ℕ) → total f n ≡ 0 → i < n → f i ≡ []
  total_zero f i zero e h = absurd (omega arith)
  total_zero f i (suc n) e h = ground (arith, total_zero f i n, length_zero (f n))

  pub total_of_empty : (f : ℕ → Chain V) (n : ℕ) → ((j : ℕ) → j < n → f j ≡ []) → total f n ≡ 0
  total_of_empty f zero h = refl
  total_of_empty f (suc n) h =
      omega (arith, ap length (h n (omega arith)), total_of_empty f n (λ j l. h j (omega arith)))

  pub find-eq-none : (c : Chain V) (key : Bytes) → occ c key ≡ 0 → find c key ≡ none
  unfolding find
  find-eq-none [] key h = refl
  find-eq-none ((k, v) ∷ c) key h = ground (arith, find-eq-none c key)

  pub find-eq-some : (c : Chain V) (key : Bytes) → 0 < occ c key → is_some (find c key) ≡ true
  unfolding find
  find-eq-some [] key h = absurd (omega arith)
  find-eq-some ((k, v) ∷ c) key h = ground (arith, find-eq-some c key)

  -- What unlinking the first entry of a key does to each key.
  pub unlink_lem :
      (c : Chain V) (key j : Bytes)
      → occ c key ≡ 1
      → (length (unlink c key) + 1 ≡ length c)
        × (occ (unlink c key) j ≡ (if bytes_eq key j then 0 else occ c j))
        × (find (unlink c key) j ≡ (if bytes_eq key j then none else find c j))
  unfolding unlink find
  unlink_lem [] key j h = absurd (omega arith)
  unlink_lem ((k, v) ∷ c) key j h = (
    ground (arith, unlink_lem c key j),
    ground (arith, unlink_lem c key j, bytes_eq_iff k key, bytes_eq_iff k j, bytes_eq_iff key j),
    ground (
      arith,
      unlink_lem c key j,
      find-eq-none c j,
      bytes_eq_iff k key,
      bytes_eq_iff k j,
      bytes_eq_iff key j,
    ),
  )

  pub assign_lem :
      (c : Chain V) (key : Bytes) (val : V) (k : Bytes)
      → (length (assign c key val) ≡ length c)
        × (occ (assign c key val) k ≡ occ c k)
        × (0 < occ c key
            → find (assign c key val) k ≡ (if bytes_eq key k then some val else find c k))
  unfolding assign find
  assign_lem [] key val k = (refl, refl, λ h. absurd (omega arith))
  assign_lem ((j, v) ∷ c) key val k = (
    ground (arith, assign_lem c key val k),
    ground (arith, assign_lem c key val k, bytes_eq_iff j key, bytes_eq_iff j k),
    λ h.
        ground
          (arith, assign_lem c key val k, bytes_eq_iff j key, bytes_eq_iff j k, bytes_eq_iff key k),
  )

  module _ (hash : Bytes → ℕ) where
    -- The chain of a key.
    abbrev pub home : Table V → Bytes → Chain V
    home t key = t.chains (slot hash t.size key)

    -- An entry stands in the chain of its key, nothing stands outside the array, and `used` is the
    -- count of the entries.
    pub record IsPlaced (t : Table V) : Type 0 where
      pub placed : (key : Bytes) (i : ℕ) → i ≢ slot hash t.size key → occ (t.chains i) key ≡ 0
      pub within : (i : ℕ) → t.size ≤ i → t.chains i ≡ []
      pub counted : t.used ≡ total t.chains t.size
