-- ===== src/Dict/Deleted.antt =====
-- dict.c: dictDelete whole, with the step of rehashing before it.
use gridapps.Dict.Added.{after_Same}
use gridapps.Dict.Api.{second_table, idle_second, find_no_table}
use gridapps.Dict.Steps.{Same-trans, rehash_step_total, Same-refl, Option-cases}
use gridapps.Dict.Delete.{without, delete0, delete1}
use gridapps.Dict.Buckets.{slot_lt, home}
use gridapps.Dict.Moves.{read_in}
use gridapps.Dict.Write.{Written}
use gridapps.Db.{is_some}
use gridapps.Dict.Rehash.{IsGood, Same, value_of, positive_test, zero_test}
use gridapps.Dict.{Dict, dict_delete, rehash_step, delete_entry}
use gridapps.Prelude.{
  true, false, none, some, Bytes, ℕ, Bool, Option, ◌<◌, ◌≡◌, if◌then◌else◌, ◌∙◌, find, ap, ◌+◌, ◌-◌,
  inl, inr, arith, Bool-cases, ◌||◌, ◌==◌,
}
use mathlib.Core.Option
use mathlib.Core.Path.{subst}
use native.Mathlib.Decide.{dec_lt}

module _ {V : Type 0} (hash : Bytes → ℕ) where
  delete_steps :
      (d d' : Dict V) (key : Bytes)
      → 0 < d.ht0.size
      → rehash_step hash d ≡ some d'
      → dict_delete hash d key ≡ delete_entry hash d' key
  unfolding dict_delete
  delete_steps d d' key h r = rw (positive_test d.ht0.size h, r)

  pub value_cases :
      (d : Dict V) (key : Bytes)
      → is_some (value_of hash d key)
        ≡ (is_some (find (home hash d.ht0 key) key) || is_some (find (home hash d.ht1 key) key))
  unfolding Option.or_else
  value_cases d key = ground arith

  delete_last :
      (e : Dict V) (key : Bytes)
      → IsGood hash e
      → 0 < e.ht0.size
      → (f : Dict V) × (delete_entry hash e key ≡ some (f, is_some (value_of hash e key)))
        × (if is_some (value_of hash e key)
            then Written hash e f key none (e.ht0.used + e.ht1.used - 1)
            else Same hash e f)
  unfolding delete_entry
  delete_last e key g h =
      let first = read_in hash e.ht0 _ (slot_lt hash e.ht0.size key h) in
      let either = value_cases e key in
      elim (Bool-cases (is_some (find (home hash e.ht0 key) key))) [
        | inl t ↦ (
          record e { ht0 = without hash e.ht0 key },
          ground arith,
          rw (either, t) (delete0 hash e key g h t),
        )
        | inr f ↦ elim (Option-cases e.rehashidx) [
          | inl idle ↦ (
            e,
            ground (arith, idle_second hash e key g),
            rw (either, f, ap is_some (idle_second hash e key g (ground arith)))
                (Same-refl hash e g),
          )
          | inr (i, b) ↦
              let second = second_table hash e key g (ground arith) in
              elim (Bool-cases (is_some (find (home hash e.ht1 key) key))) [
                | inl t ↦ (
                  record e { ht1 = without hash e.ht1 key },
                  ground arith,
                  rw (either, f, t) (delete1 hash e key g ((g.room i b).1) (ground arith) f t),
                )
                | inr n ↦ (e, ground arith, rw (either, f, n) (Same-refl hash e g))
              ]
        ]
      ]

  carry_back :
      (b : Bool) (d e f : Dict V) (key : Bytes) (val : Option V) (n : ℕ)
      → Same hash d e
      → (if b then Written hash e f key val n else Same hash e f)
      → (if b then Written hash d f key val n else Same hash d f)
  carry_back true d e f key val n p q = after_Same hash d e f key val n p q
  carry_back false d e f key val n p q = Same-trans hash d e f p q

  no_delete :
      (d : Dict V) (key : Bytes)
      → (d.ht0.size == 0) ≡ true
      → value_of hash d key ≡ none
      → dict_delete hash d key ≡ some (d, is_some (value_of hash d key))
  unfolding dict_delete
  no_delete d key z e = rw (z, e)

  -- dictDelete of a key that the dictionary holds takes it out, and leaves the value of every other
  -- key; of a key that it does not hold, it changes no value. The answer says which.
  pub dict_delete_total :
      (d : Dict V) (key : Bytes)
      → IsGood hash d
      → (d' : Dict V) × (dict_delete hash d key ≡ some (d', is_some (value_of hash d key)))
        × (if is_some (value_of hash d key)
            then Written hash d d' key none (d.ht0.used + d.ht1.used - 1)
            else Same hash d d')
  dict_delete_total d key g = elim (dec_lt 0 d.ht0.size) [
    | no h ↦
        let lacks = find_no_table hash d key g h in
        (d, no_delete d key (zero_test d.ht0.size h) lacks, rw lacks (Same-refl hash d g))
    | yes h ↦
        let r = rehash_step_total hash d g in
        let last = delete_last (r.0) key r.2.good (r.2.still_table h) in
        (
          last.0,
          delete_steps d (r.0) key h r.1
              ∙ last.1
              ∙ ap (λ v. some (last.0, is_some v)) (r.2.same_value key),
          subst
              (λ v.
                if is_some v
                then Written hash d (last.0) key none (d.ht0.used + d.ht1.used - 1)
                else Same hash d (last.0))
              (r.2.same_value key)
              (carry_back (is_some (value_of hash (r.0) key)) d (r.0) (last.0) key none _ r.2 (
                subst
                  (λ n.
                    if is_some (value_of hash (r.0) key)
                    then Written hash (r.0) (last.0) key none (n - 1)
                    else Same hash (r.0) (last.0))
                  r.2.same_used last.2)),
        )
  ]
