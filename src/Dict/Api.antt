-- ===== src/Dict/Api.antt =====
-- dict.c: dictFind, dictAdd and dictDelete against a map from keys to values.
use gridapps.Dict.Steps.{Same-refl, rehash_step_total}
use native.Mathlib.Decide.{dec_lt}
use gridapps.Dict.Moves.{read_in}
use gridapps.Dict.Buckets.{home, slot_lt}
use gridapps.Dict.Rehash.{IsGood, value_of, Same, positive_test, zero_test}
use gridapps.Dict.{Dict, search_tables, is_rehashing, read, slot, dict_find, rehash_step}
use gridapps.Prelude.{
  true, some, Bytes, ℕ, ◌<◌, ◌≡◌, false, none, inl, inr, arith, Option-cases, find, ◌∙◌, ap,
}
use mathlib.Core.Option

module _ {V : Type 0} (hash : Bytes → ℕ) where
  -- Both tables can be read at the slot of a key.
  pub second_table :
      (d : Dict V) (key : Bytes)
      → IsGood hash d
      → is_rehashing d ≡ true
      → read d.ht1 (slot hash d.ht1.size key) ≡ some (home hash d.ht1 key)
  second_table d key g h = elim (Option-cases d.rehashidx) [
    | inl e ↦ absurd (ground arith)
    | inr (i, e) ↦ read_in hash d.ht1 _ (slot_lt hash d.ht1.size key ((g.room i e).1))
  ]

  pub idle_second :
      (d : Dict V) (key : Bytes)
      → IsGood hash d
      → is_rehashing d ≡ false
      → find (home hash d.ht1 key) key ≡ none
  unfolding find
  idle_second d key g h = elim (Option-cases d.rehashidx) [
    | inl e ↦ rw (g.idle e)
    | inr (i, e) ↦ absurd (ground arith)
  ]

  -- A search of the tables gives the value of the key.
  pub search_tables_total :
      (d : Dict V) (key : Bytes)
      → IsGood hash d
      → 0 < d.ht0.size
      → search_tables hash d key ≡ some (value_of hash d key)
  unfolding search_tables Option.or_else
  search_tables_total d key g some_table = ground (
    arith,
    read_in hash d.ht0 _ (slot_lt hash d.ht0.size key some_table),
    second_table d key g,
    idle_second d key g,
  )

  pub find_no_table :
      (d : Dict V) (key : Bytes) → IsGood hash d → ¬ (0 < d.ht0.size) → value_of hash d key ≡ none
  unfolding find Option.or_else
  find_no_table d key g h = elim (Option-cases d.rehashidx) [
    | inl idle ↦ rw (g.table0.within (slot hash d.ht0.size key) (omega arith), g.idle idle)
    | inr (i, busy) ↦ absurd (omega (arith, g.room i busy))
  ]

  find_stepped :
      (d d' : Dict V) (key : Bytes)
      → 0 < d.ht0.size
      → rehash_step hash d ≡ some d'
      → search_tables hash d' key ≡ some (value_of hash d key)
      → dict_find hash d key ≡ some (value_of hash d key, d')
  unfolding dict_find
  find_stepped d d' key h r s = rw (positive_test d.ht0.size h, r, s)

  -- On a dictionary in order, dictFind stays inside the tables and answers with the value of the key,
  -- wherever a running rehashing has put it. The step of rehashing that it makes leaves a dictionary
  -- in order, with the same value of every key and the same count of entries.
  pub dict_find_total :
      (d : Dict V) (key : Bytes)
      → IsGood hash d
      → (d' : Dict V) × (dict_find hash d key ≡ some (value_of hash d key, d')) × Same hash d d'
  unfolding dict_find
  dict_find_total d key g = elim (dec_lt 0 d.ht0.size) [
    | no h ↦ (d, rw (zero_test d.ht0.size h, find_no_table d key g h), Same-refl hash d g)
    | yes h ↦
        let r = rehash_step_total hash d g in
        (
          r.0,
          find_stepped d (r.0) key h r.1 (
              search_tables_total (r.0) key r.2.good (r.2.still_table h)
              ∙ ap (λ v. some v) (r.2.same_value key)),
          r.2,
        )
  ]
