-- ===== src/Intset/Valid.antt =====
-- Order and width of a set of intset.c, when an element is added.
use native.Mathlib.Decide.{dec_lt}
use gridapps.Intset.Insert.{
  IsValid, insert_at_below, insert_at-IsAscending, insert_at_self, length-insert_at,
  insert_at_above, append_last,
}
use gridapps.Intset.Search.{◌<ℤ◌, Explains, intset_search-Explains}
use gridapps.Intset.{
  intset_value_encoding, Intset, intset_upgrade_and_add, intset_add, insert_at, value_at, add_at,
  intset_search,
}
use gridapps.Prelude.{
  true, false, pos, arith, ℕ, ℤ, ◌≤◌, Bool, ◌<◌, if◌then◌else◌, ltb_ℤ, zero, suc, length, refl, [],
  ◌∷◌, ◌≡◌, ◌++◌, ltb, lt→ltb,
}

pub Fits_outside :
    (e : ℕ) (a v : ℤ)
    → intset_value_encoding a ≤ e
    → e < intset_value_encoding v
    → if ltb_ℤ v (pos 0) then v <ℤ a else a <ℤ v
unfolding intset_value_encoding
Fits_outside e a v = ground arith

insert_fits :
    (s : Intset) (v : ℤ) (e p : ℕ)
    → IsValid s
    → s.encoding ≤ e
    → intset_value_encoding v ≤ e
    → p ≤ length s.contents
    → (i : ℕ) → i < length (insert_at p v s.contents)
    → intset_value_encoding (value_at (insert_at p v s.contents) i) ≤ e
insert_fits s v e p sound wide fits h zero inside =
    grind (arith, insert_at_below p v s.contents 0 h, insert_at_self p v s.contents h, sound.1 0)
insert_fits s v e p sound wide fits h (suc i) inside = grind (
  arith,
  length-insert_at p v s.contents,
  insert_at_below p v s.contents (suc i) h,
  insert_at_self p v s.contents h,
  insert_at_above p v s.contents i h,
  sound.1 i,
  sound.1 (suc i),
)

insert-IsValid :
    (s : Intset) (v : ℤ) (e p : ℕ)
    → IsValid s
    → s.encoding ≤ e
    → intset_value_encoding v ≤ e
    → p ≤ length s.contents
    → ((i : ℕ) → i < p → value_at s.contents i <ℤ v)
    → ((i : ℕ) → p ≤ i → i < length s.contents → v <ℤ value_at s.contents i)
    → IsValid (record { encoding = e; contents = insert_at p v s.contents })
insert-IsValid s v e p sound wide fits h below above = (
  insert_at-IsAscending p v s.contents h (sound.0) below above,
  insert_fits s v e p sound wide fits h,
)

place-IsValid :
    (s : Intset) (v : ℤ) (at : Bool × ℕ)
    → IsValid s
    → intset_value_encoding v ≤ s.encoding
    → ((i : ℕ) → Explains s.contents v i at)
    → IsValid ((add_at s v at).0)
unfolding add_at
place-IsValid s v (true, p) sound fits told = sound
place-IsValid s v (false, p) sound fits told =
    insert-IsValid s v s.encoding p sound (omega arith) fits ((told 0).0) (λ i. (told i).1)
      (λ i. (told i).2)

upgraded :
    (s : Intset) (v : ℤ) (negative : Bool)
    → ltb_ℤ v (pos 0) ≡ negative
    → IsValid s
    → s.encoding < intset_value_encoding v
    → IsValid (record {
      encoding = intset_value_encoding v;
      contents = if negative then v ∷ s.contents else s.contents ++ v ∷ [];
    })
unfolding insert_at
upgraded s v true e sound wide =
    insert-IsValid s v (intset_value_encoding v) 0 sound (omega arith) (omega arith) (omega arith)
      (λ i h. absurd (omega arith))
      (λ i _ h. grind (arith, Fits_outside s.encoding (value_at s.contents i) v (sound.1 i h) wide))
upgraded s v false e sound wide = rw (append_last v s.contents) (
    insert-IsValid s v (intset_value_encoding v) (length s.contents) sound (omega arith)
      (omega arith) (omega arith)
      (λ i h. grind (arith, Fits_outside s.encoding (value_at s.contents i) v (sound.1 i h) wide))
      (λ i h h'. absurd (omega arith)))

-- An upgrade keeps the order of the elements, and the new width holds them all.
pub upgrade-IsValid :
    (s : Intset) (v : ℤ)
    → IsValid s
    → s.encoding < intset_value_encoding v
    → IsValid (intset_upgrade_and_add s v)
unfolding intset_upgrade_and_add
upgrade-IsValid s v sound wide = upgraded s v (ltb_ℤ v (pos 0)) refl sound wide

ltb-false : (a b : ℕ) → ¬ (a < b) → ltb a b ≡ false
ltb-false a b h = ground arith

-- Adding to a set whose elements ascend and fit its width leaves such a set, whether the value is
-- already there, goes between two elements, or needs a wider encoding.
pub intset_add-IsValid : (s : Intset) (v : ℤ) → IsValid s → IsValid ((intset_add s v).0)
unfolding intset_add
intset_add-IsValid s v sound = elim (dec_lt s.encoding (intset_value_encoding v)) [
  | yes wide ↦ rw (lt→ltb _ _ wide) (upgrade-IsValid s v sound wide)
  | no narrow ↦ rw (ltb-false s.encoding (intset_value_encoding v) narrow) (
      place-IsValid s v (intset_search s.contents v) sound (omega arith)
        (intset_search-Explains s.contents v (sound.0)))
]
