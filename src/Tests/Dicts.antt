-- ===== src/Tests/Dicts.antt =====
-- Dictionaries at concrete values.
use gridapps.Dict.Replace.{dict_replace_total}
use gridapps.Dict.Write.{Written}
use gridapps.Dict.Api.{dict_find_total}
use gridapps.Dict.Steps.{dict_rehash_total}
use gridapps.Dict.Added.{dict_add-IsGood, dict_create-IsGood, dict_add_total}
use gridapps.Dict.Deleted.{dict_delete_total}
use gridapps.Db.{is_some}
use gridapps.Dict.Rehash.{IsGood, Same, value_of}
use mathlib.Core.Option.{IsSome}
use gridapps.Dict.{
  Dict, gen_hash, dict_add, dict_find, dict_delete, dict_replace, dict_create, dict_rehash,
}
use gridapps.Prelude.{
  true, false, none, some, Bytes, find, ℕ, Bool, ◌≡◌, codes, not, if◌then◌else◌, ◌+◌, ◌-◌,
}
use mathlib.Core.Option

abbrev bernstein : Bytes → ℕ
bernstein key = gen_hash 5381 key

-- A dictionary with one entry, and what the theorems tell of it.
one_entry :
    (d : Dict ℕ) × (dict_add bernstein true dict_create (codes "a") 1 ≡ some (d, true))
    × IsGood bernstein d
unfolding find Option.or_else
one_entry = dict_add-IsGood bernstein true dict_create (codes "a") 1 (dict_create-IsGood bernstein)

rehash_example :
    (d' : Dict ℕ) × (more : Bool) × (dict_rehash bernstein 3 (one_entry.0) ≡ some (d', more))
    × Same bernstein (one_entry.0) d'
rehash_example = dict_rehash_total bernstein 3 (one_entry.0) one_entry.2

find_example :
    (d' : Dict ℕ) × (dict_find bernstein (one_entry.0) (codes "a")
      ≡ some (value_of bernstein (one_entry.0) (codes "a"), d'))
    × Same bernstein (one_entry.0) d'
find_example = dict_find_total bernstein (one_entry.0) (codes "a") one_entry.2

add_example :
    (d' : Dict ℕ) × (dict_add bernstein false (one_entry.0) (codes "b") 2
      ≡ some (d', not (is_some (value_of bernstein (one_entry.0) (codes "b")))))
    × (if is_some (value_of bernstein (one_entry.0) (codes "b"))
        then Same bernstein (one_entry.0) d'
        else Written bernstein
            (one_entry.0)
            d'
            (codes "b")
            (some 2)
            ((one_entry.0).ht0.used + (one_entry.0).ht1.used + 1))
add_example = dict_add_total bernstein false (one_entry.0) (codes "b") 2 one_entry.2

delete_example :
    (d' : Dict ℕ) × (dict_delete bernstein (one_entry.0) (codes "a")
      ≡ some (d', is_some (value_of bernstein (one_entry.0) (codes "a"))))
    × (if is_some (value_of bernstein (one_entry.0) (codes "a"))
        then Written bernstein
            (one_entry.0)
            d'
            (codes "a")
            none
            ((one_entry.0).ht0.used + (one_entry.0).ht1.used - 1)
        else Same bernstein (one_entry.0) d')
delete_example = dict_delete_total bernstein (one_entry.0) (codes "a") one_entry.2

replace_example :
    (d' : Dict ℕ) × (dict_replace bernstein true (one_entry.0) (codes "a") 7
      ≡ some (d', not (is_some (value_of bernstein (one_entry.0) (codes "a")))))
    × Written bernstein (one_entry.0) d' (codes "a") (some 7) (
        if is_some (value_of bernstein (one_entry.0) (codes "a"))
        then (one_entry.0).ht0.used + (one_entry.0).ht1.used
        else (one_entry.0).ht0.used + (one_entry.0).ht1.used + 1)
replace_example = dict_replace_total bernstein true (one_entry.0) (codes "a") 7 one_entry.2
