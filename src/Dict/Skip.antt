-- ===== src/Dict/Skip.antt =====
-- dict.c: the search for the next bucket that is not empty.
use native.Mathlib.Decide.{dec_lt}
use gridapps.Dict.Moves.{read_in}
use gridapps.Dict.Buckets.{total, total_of_empty}
use gridapps.Dict.{skip_empty, Table, Chain}
use gridapps.Prelude.{
  some, zero, suc, [], arith, Bytes, ℕ, ◌≡◌, ◌≤◌, ◌<◌, ◌+◌, refl, inl, inr, ◌∷◌, ◌∙◌, ◌⊎◌,
}

module _ {V : Type 0} (hash : Bytes → ℕ) where
  chain_cases : (c : Chain V) → (c ≡ []) ⊎ ((e : Bytes × V) × (c' : Chain V) × (c ≡ e ∷ c'))
  chain_cases [] = inl refl
  chain_cases (e ∷ c) = inr (e, c, refl)

  skip_next :
      (fuel : ℕ) (t : Table V) (i : ℕ)
      → i < t.size
      → t.chains i ≡ []
      → skip_empty (suc fuel) t i ≡ skip_empty fuel t (i + 1)
  unfolding skip_empty
  skip_next fuel t i h e = rw (read_in hash t i h, e, skip_empty)

  skip_here :
      (fuel : ℕ) (t : Table V) (i : ℕ) (e : Bytes × V) (c : Chain V)
      → i < t.size
      → t.chains i ≡ e ∷ c
      → skip_empty (suc fuel) t i ≡ some (i, t.chains i)
  unfolding skip_empty
  skip_here fuel t i e c h p = rw (read_in hash t i h, p, skip_empty)

  -- Not all buckets are empty, so the loop does not leave the table.
  in_table :
      (t : Table V) (i : ℕ)
      → 0 < total t.chains t.size
      → ((j : ℕ) → j < i → t.chains j ≡ [])
      → i < t.size
  in_table t i some_entry before = elim (dec_lt i t.size) [
    | yes h ↦ h
    | no h ↦ absurd (omega (arith, total_of_empty t.chains t.size (λ j l. before j (omega arith))))
  ]

  before_next :
      (t : Table V) (i : ℕ)
      → ((j : ℕ) → j < i → t.chains j ≡ [])
      → t.chains i ≡ []
      → (j : ℕ) → j < i + 1
      → t.chains j ≡ []
  before_next t i before e j h = grind (arith, before j)

  pub skip_empty-total :
      (fuel : ℕ) (t : Table V) (i : ℕ)
      → t.size ≤ i + fuel
      → 0 < total t.chains t.size
      → ((j : ℕ) → j < i → t.chains j ≡ [])
      → (j : ℕ) × (skip_empty fuel t i ≡ some (j, t.chains j))
        × (j < t.size)
        × ((k : ℕ) → k < j → t.chains k ≡ [])
  unfolding skip_empty
  skip_empty-total zero t i enough some_entry before =
      absurd (omega (arith, total_of_empty t.chains t.size (λ j h. before j (omega arith))))
  skip_empty-total (suc fuel) t i enough some_entry before =
      let inside = in_table t i some_entry before in
      elim (chain_cases (t.chains i)) [
        | inl e ↦
            let ih =
              skip_empty-total fuel t (i + 1) (omega arith) some_entry (before_next t i before e) in
            (ih.0, skip_next fuel t i inside e ∙ ih.1, ih.2, ih.3)
        | inr (x, c, e) ↦ (i, skip_here fuel t i x c inside e, inside, before)
      ]
