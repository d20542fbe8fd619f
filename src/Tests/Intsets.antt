-- ===== src/Tests/Intsets.antt =====
-- Integer sets at concrete values.
use gridapps.Intset.Valid.{intset_add-IsValid}
use gridapps.Intset.Insert.{IsValid}
use gridapps.Intset.Member.{Has, intset_find_iff}
use gridapps.Intset.{
  Intset, intset_find, intset_add, intset_new, intset_search, intset_value_encoding, add_at,
  insert_at,
}
use gridapps.Prelude.{true, refl, pos, negsuc, [], arith, ◌∷◌, ◌≡◌, ◌↔◌, ◌^◌}

empty-IsValid : IsValid intset_new
empty-IsValid = (λ i j lt inside. absurd (omega arith), λ i inside. absurd (omega arith))

-- -5 and 300, the second of which needs two bytes, and so do both.
abbrev two_elements : Intset
two_elements = (intset_add ((intset_add intset_new (pos 300)).0) (negsuc 4)).0

two_elements-IsValid : IsValid two_elements
two_elements-IsValid =
    intset_add-IsValid ((intset_add intset_new (pos 300)).0) (negsuc 4)
      (intset_add-IsValid intset_new (pos 300) empty-IsValid)

add_upgrade_example : IsValid ((intset_add two_elements (negsuc (2 ^ 40))).0)
add_upgrade_example = intset_add-IsValid two_elements (negsuc (2 ^ 40)) two_elements-IsValid

find_iff_example : (intset_find two_elements (pos 300) ≡ true) ↔ Has two_elements (pos 300)
find_iff_example = intset_find_iff two_elements (pos 300) two_elements-IsValid

two_elements_run : two_elements ≡ record { encoding = 2; contents = negsuc 4 ∷ pos 300 ∷ [] }
unfolding intset_add intset_value_encoding add_at insert_at intset_search
two_elements_run = refl
