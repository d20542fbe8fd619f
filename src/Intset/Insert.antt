-- ===== src/Intset/Insert.antt =====
-- Adding to the array of intset.c and removing from it, position by position.
use gridapps.Intset.Search.{IsAscending, ◌<ℤ◌}
use gridapps.Intset.{insert_at, Intset, value_at, intset_value_encoding}
use gridapps.Prelude.{
  refl, zero, suc, [], arith, ◌∷◌, ℕ, ℤ, List, ◌<◌, length, ◌≤◌, ◌++◌, ◌≡◌, ◌+◌, ◌-◌,
}

pub length-insert_at : (p : ℕ) (v : ℤ) (xs : List ℤ) → length (insert_at p v xs) ≡ length xs + 1
unfolding insert_at
length-insert_at zero v xs = omega arith
length-insert_at (suc p) v [] = refl
length-insert_at (suc p) v (x ∷ xs) = omega (arith, length-insert_at p v xs)

pub insert_at_below :
    (p : ℕ) (v : ℤ) (xs : List ℤ) (j : ℕ)
    → p ≤ length xs
    → j < p
    → value_at (insert_at p v xs) j ≡ value_at xs j
unfolding insert_at
insert_at_below zero v xs j h lt = absurd (omega arith)
insert_at_below (suc p) v [] j h lt = absurd (omega arith)
insert_at_below (suc p) v (x ∷ xs) zero h lt = refl
insert_at_below (suc p) v (x ∷ xs) (suc j) h lt =
    insert_at_below p v xs j (omega arith) (omega arith)

pub insert_at_self :
    (p : ℕ) (v : ℤ) (xs : List ℤ) → p ≤ length xs → value_at (insert_at p v xs) p ≡ v
unfolding insert_at
insert_at_self zero v xs h = refl
insert_at_self (suc p) v [] h = absurd (omega arith)
insert_at_self (suc p) v (x ∷ xs) h = insert_at_self p v xs (omega arith)

pub insert_at_above :
    (p : ℕ) (v : ℤ) (xs : List ℤ) (j : ℕ)
    → p ≤ length xs
    → p ≤ j
    → value_at (insert_at p v xs) (suc j) ≡ value_at xs j
unfolding insert_at
insert_at_above zero v xs j h le = refl
insert_at_above (suc p) v [] j h le = absurd (omega arith)
insert_at_above (suc p) v (x ∷ xs) zero h le = absurd (omega arith)
insert_at_above (suc p) v (x ∷ xs) (suc j) h le =
    insert_at_above p v xs j (omega arith) (omega arith)

pub append_last : (v : ℤ) (xs : List ℤ) → xs ++ v ∷ [] ≡ insert_at (length xs) v xs
unfolding insert_at
append_last v [] = refl
append_last v (x ∷ xs) = rw (append_last v xs)

-- Each element needs at most the width of the array.
abbrev pub IsValid : Intset → Type 0
IsValid s =
    IsAscending s.contents
    × ((i : ℕ) → i < length s.contents → intset_value_encoding (value_at s.contents i) ≤ s.encoding)

pub insert_at-IsAscending :
    (p : ℕ) (v : ℤ) (xs : List ℤ)
    → p ≤ length xs
    → IsAscending xs
    → ((i : ℕ) → i < p → value_at xs i <ℤ v)
    → ((i : ℕ) → p ≤ i → i < length xs → v <ℤ value_at xs i)
    → IsAscending (insert_at p v xs)
insert_at-IsAscending p v xs h asc below above i zero lt inside = absurd (omega arith)
insert_at-IsAscending p v xs h asc below above i (suc j) lt inside = ground (
  arith,
  length-insert_at p v xs,
  insert_at_below p v xs i,
  insert_at_below p v xs (suc j),
  insert_at_self p v xs,
  insert_at_above p v xs j,
  insert_at_above p v xs (i - 1),
  asc i (suc j),
  asc i j,
  asc (i - 1) j,
  below i,
  above j,
)
