-- ===== src/Dict/Added.antt =====
-- dict.c: dictAdd whole, with the step of rehashing and the growth before it.
use gridapps.Dict.Api.{search_tables_total}
use gridapps.Dict.Start.{expand_if_needed_total}
use gridapps.Dict.Steps.{Same-trans, rehash_step_total, Same-refl, Option-cases}
use gridapps.Dict.Buckets.{slot_lt}
use gridapps.Dict.Moves.{pushed, read_in}
use gridapps.Dict.Write.{Written, insert1, insert0}
use gridapps.Db.{is_some}
use gridapps.Dict.Rehash.{IsGood, Same, value_of, empty-IsPlaced}
use gridapps.Dict.{
  Dict, insert_entry, dict_add, Table, rehash_step, expand_if_needed, search_tables, add_unless,
  dict_create,
}
use gridapps.Prelude.{
  true, false, none, some, Bytes, ℕ, Bool, Option, ◌<◌, ◌≡◌, not, if◌then◌else◌, ◌∙◌, ap, ◌+◌,
  bytes_eq, refl, inl, inr, arith, Bool-cases,
}
use mathlib.Core.Path.{subst}

none_of {ℓ} : {A : Type ℓ} (o : Option A) → is_some o ≡ false → o ≡ none
none_of none h = refl
none_of (some a) h = absurd (ground arith)

module _ {V : Type 0} (hash : Bytes → ℕ) where
  pub after_Same :
      (d e f : Dict V) (key : Bytes) (val : Option V) (n : ℕ)
      → Same hash d e
      → Written hash e f key val n
      → Written hash d f key val n
  after_Same d e f key val n p w = record {
    good = w.good;
    new_value = λ k. w.new_value k ∙ ap (λ v. if bytes_eq key k then val else v) (p.same_value k);
    new_used = w.new_used;
    iterators = w.iterators ∙ p.same_iterators;
  }

  insert_eq :
      (t : Table V) (key : Bytes) (val : V)
      → 0 < t.size
      → insert_entry hash t key val ≡ some (pushed hash t key val)
  unfolding insert_entry
  insert_eq t key val h = rw (read_in hash t _ (slot_lt hash t.size key h))

  add_steps :
      (can_resize : Bool) (d d' e : Dict V) (key : Bytes) (val : V) (old : Option V)
      → rehash_step hash d ≡ some d'
      → expand_if_needed can_resize d' ≡ (e, true)
      → search_tables hash e key ≡ some old
      → dict_add hash can_resize d key val ≡ add_unless hash (is_some old) e key val
  unfolding dict_add
  add_steps can_resize d d' e key val old r x s = rw (r, x, s)

  add_last :
      (e : Dict V) (key : Bytes) (val : V)
      → IsGood hash e
      → 0 < e.ht0.size
      → (f : Dict V) × (add_unless hash (is_some (value_of hash e key)) e key val
          ≡ some (f, not (is_some (value_of hash e key))))
        × (if is_some (value_of hash e key)
            then Same hash e f
            else Written hash e f key (some val) (e.ht0.used + e.ht1.used + 1))
  unfolding add_unless
  add_last e key val g h = elim (Bool-cases (is_some (value_of hash e key))) [
    | inl t ↦ (e, rw t, rw t (Same-refl hash e g))
    | inr f ↦
        let free = none_of (value_of hash e key) f in
        elim (Option-cases e.rehashidx) [
          | inr (i, b) ↦
              let room = (g.room i b).1 in
              (
                record e { ht1 = pushed hash e.ht1 key val },
                rw f (ground (arith, insert_eq e.ht1 key val room)),
                rw f (insert1 hash e key val g room (ground arith) free),
              )
          | inl idle ↦ (
            record e { ht0 = pushed hash e.ht0 key val },
            rw f (ground (arith, insert_eq e.ht0 key val h)),
            rw f (insert0 hash e key val g h idle free),
          )
        ]
  ]

  carry :
      (b : Bool) (d e f : Dict V) (key : Bytes) (val : Option V) (n : ℕ)
      → Same hash d e
      → (if b then Same hash e f else Written hash e f key val n)
      → (if b then Same hash d f else Written hash d f key val n)
  carry true d e f key val n p q = Same-trans hash d e f p q
  carry false d e f key val n p q = after_Same d e f key val n p q

  -- dictAdd of a key that the dictionary does not hold gives it the value, and leaves the value of
  -- every other key; of a key that it holds, it changes no value. The answer says which.
  pub dict_add_total :
      (can_resize : Bool) (d : Dict V) (key : Bytes) (val : V)
      → IsGood hash d
      → (d' : Dict V) × (dict_add hash can_resize d key val
          ≡ some (d', not (is_some (value_of hash d key))))
        × (if is_some (value_of hash d key)
            then Same hash d d'
            else Written hash d d' key (some val) (d.ht0.used + d.ht1.used + 1))
  dict_add_total can_resize d key val g =
      let r = rehash_step_total hash d g in
      let x = expand_if_needed_total hash can_resize (r.0) r.2.good in
      let same = Same-trans hash d (r.0) (x.0) r.2 x.2 in
      let s = search_tables_total hash (x.0) key same.good x.3 in
      let last = add_last (x.0) key val same.good x.3 in
      (
        last.0,
        add_steps can_resize d (r.0) (x.0) key val _ r.1 x.1 s
            ∙ last.1
            ∙ ap (λ v. some (last.0, not (is_some v))) (same.same_value key),
        subst
            (λ v.
              if is_some v
              then Same hash d (last.0)
              else Written hash d (last.0) key (some val) (d.ht0.used + d.ht1.used + 1))
            (same.same_value key)
            (carry (is_some (value_of hash (x.0) key)) d (x.0) (last.0) key (some val) _ same (
              subst
                (λ n.
                  if is_some (value_of hash (x.0) key)
                  then Same hash (x.0) (last.0)
                  else Written hash (x.0) (last.0) key (some val) (n + 1))
                same.same_used last.2)),
      )

  good_of :
      (b : Bool) (d e : Dict V) (key : Bytes) (val : Option V) (n : ℕ)
      → (if b then Same hash d e else Written hash d e key val n)
      → IsGood hash e
  good_of true d e key val n p = p.good
  good_of false d e key val n w = w.good

  -- The dictionary that dictAdd leaves.
  pub dict_add-IsGood :
      (can_resize : Bool) (d : Dict V) (key : Bytes) (val : V)
      → IsGood hash d
      → (d' : Dict V) × (dict_add hash can_resize d key val
          ≡ some (d', not (is_some (value_of hash d key))))
        × IsGood hash d'
  dict_add-IsGood can_resize d key val g =
      let a = dict_add_total can_resize d key val g in
      (a.0, a.1, good_of (is_some (value_of hash d key)) d (a.0) key (some val) _ a.2)

  pub dict_create-IsGood : IsGood {V = V} hash dict_create
  dict_create-IsGood = record {
    table0 = empty-IsPlaced hash;
    table1 = empty-IsPlaced hash;
    once = λ key. omega arith;
    idle = λ e. refl;
    room = λ i e. absurd (ground arith);
    moved = λ i j e lt. refl;
  }
