-- ===== src/Dict/Replace.antt =====
-- dict.c: dictReplace.
use gridapps.Dict.Steps.{Same-trans}
use gridapps.Dict.Api.{idle_second, find_no_table, dict_find_total}
use gridapps.Dict.Added.{dict_add_total, after_Same}
use gridapps.Dict.Deleted.{value_cases}
use gridapps.Dict.Delete.{occ_of_found}
use gridapps.Dict.Write.{Written}
use gridapps.Db.{is_some}
use gridapps.Dict.Rehash.{IsGood, value_of, Same}
use gridapps.Dict.Buckets.{IsPlaced, occ, home, assign_lem, slot_lt, total-write}
use gridapps.Dict.{
  Table, assign, Dict, set_found, assign_entry, is_rehashing, slot, dict_replace, dict_add,
  dict_find,
}
use gridapps.Prelude.{
  true, false, some, refl, inl, inr, [], arith, Bytes, ℕ, ◌<◌, ◌≡◌, find, if◌then◌else◌, bytes_eq,
  ◌+◌, bytes_eq_iff, Bool-cases, Option-cases, Bool, Option, not, ◌∙◌, ap,
}
use mathlib.Core.Path.{subst}
use native.Mathlib.Decide.{dec_lt}
use mathlib.Core.Option

module _ {V : Type 0} (hash : Bytes → ℕ) where
  assigned-IsPlaced :
      (t : Table V) (key : Bytes) (val : V)
      → IsPlaced hash t
      → 0 < t.size
      → IsPlaced hash (assign_entry hash t key val)
  assigned-IsPlaced t key val h some_table = record {
    placed = λ j i ne. ground (arith, assign_lem (home hash t key) key val j, h.placed j i);
    within = λ i le. ground (arith, slot_lt hash t.size key some_table, h.within i);
    counted = omega (
      arith,
      h.counted,
      assign_lem (home hash t key) key val key,
      total-write t.chains (slot hash t.size key) (assign (home hash t key) key val) t.size
          (slot_lt hash t.size key some_table),
    );
  }

  assigned-occ :
      (t : Table V) (key : Bytes) (val : V) (k : Bytes)
      → occ (home hash (assign_entry hash t key val) k) k ≡ occ (home hash t k) k
  assigned-occ t key val k = ground (arith, assign_lem (home hash t key) key val k)

  assigned-find :
      (t : Table V) (key : Bytes) (val : V) (k : Bytes)
      → 0 < occ (home hash t key) key
      → find (home hash (assign_entry hash t key val) k) k
        ≡ (if bytes_eq key k then some val else find (home hash t k) k)
  assigned-find t key val k h =
      ground (arith, (assign_lem (home hash t key) key val k).2, bytes_eq_iff key k)

  moved_assigned :
      (t : Table V) (key : Bytes) (val : V) (j : ℕ)
      → t.chains j ≡ []
      → (assign_entry hash t key val).chains j ≡ []
  unfolding assign
  moved_assigned t key val j e = ground arith

  set_first :
      (d : Dict V) (key : Bytes) (val : V)
      → IsGood hash d
      → 0 < d.ht0.size
      → is_some (find (home hash d.ht0 key) key) ≡ true
      → Written hash d
          (record d { ht0 = assign_entry hash d.ht0 key val })
          key
          (some val)
          (d.ht0.used + d.ht1.used)
  unfolding Option.or_else
  set_first d key val g some_table found = record {
    good = record {
      table0 = assigned-IsPlaced d.ht0 key val g.table0 some_table;
      table1 = g.table1;
      once = λ k. omega (arith, g.once k, assigned-occ d.ht0 key val k);
      idle = g.idle;
      room = g.room;
      moved = λ i j e lt. moved_assigned d.ht0 key val j (g.moved i j e lt);
    };
    new_value = λ k.
        ground
          (arith, assigned-find d.ht0 key val k, occ_of_found hash (home hash d.ht0 key) key found);
    new_used = refl;
    iterators = refl;
  }

  set_second :
      (d : Dict V) (key : Bytes) (val : V)
      → IsGood hash d
      → 0 < d.ht1.size
      → is_rehashing d ≡ true
      → is_some (find (home hash d.ht0 key) key) ≡ false
      → is_some (find (home hash d.ht1 key) key) ≡ true
      → Written hash d
          (record d { ht1 = assign_entry hash d.ht1 key val })
          key
          (some val)
          (d.ht0.used + d.ht1.used)
  unfolding Option.or_else
  set_second d key val g some_table busy missed found = record {
    good = record {
      table0 = g.table0;
      table1 = assigned-IsPlaced d.ht1 key val g.table1 some_table;
      once = λ k. omega (arith, g.once k, assigned-occ d.ht1 key val k);
      idle = λ e. absurd (ground arith);
      room = g.room;
      moved = g.moved;
    };
    new_value = λ k. ground (
      arith,
      assigned-find d.ht1 key val k,
      bytes_eq_iff key k,
      occ_of_found hash (home hash d.ht1 key) key found,
    );
    new_used = refl;
    iterators = refl;
  }

  set_found-Written :
      (d : Dict V) (key : Bytes) (val : V)
      → IsGood hash d
      → 0 < d.ht0.size
      → is_some (value_of hash d key) ≡ true
      → Written hash d (set_found hash d key val) key (some val) (d.ht0.used + d.ht1.used)
  unfolding set_found
  set_found-Written d key val g h e = elim (Bool-cases (is_some (find (home hash d.ht0 key) key))) [
    | inl t ↦ rw t (set_first d key val g h t)
    | inr f ↦ elim (Option-cases d.rehashidx) [
      | inl idle ↦ absurd (ground (arith, value_cases hash d key, idle_second hash d key g))
      | inr (i, b) ↦ rw f (
          set_second d key val g ((g.room i b).1) (ground arith) f
            (ground (arith, value_cases hash d key)))
    ]
  ]

  replace_found :
      (can_resize : Bool) (d e f : Dict V) (key : Bytes) (val : V) (old : Option V)
      → dict_add hash can_resize d key val ≡ some (e, false)
      → dict_find hash e key ≡ some (old, f)
      → dict_replace hash can_resize d key val ≡ some (set_found hash f key val, false)
  unfolding dict_replace
  replace_found can_resize d e f key val old a h = rw (a, h)

  replace_new :
      (can_resize : Bool) (d e : Dict V) (key : Bytes) (val : V)
      → dict_add hash can_resize d key val ≡ some (e, true)
      → dict_replace hash can_resize d key val ≡ some (e, true)
  unfolding dict_replace
  replace_new can_resize d e key val a = rw a

  has_table :
      (d : Dict V) (key : Bytes)
      → IsGood hash d
      → is_some (value_of hash d key) ≡ true
      → 0 < d.ht0.size
  has_table d key g h = elim (dec_lt 0 d.ht0.size) [
    | yes some_table ↦ some_table
    | no none_there ↦ absurd (ground (arith, ap is_some (find_no_table hash d key g none_there)))
  ]

  -- The entry that is found behind an addition which found the key.
  replace_last :
      (d e : Dict V) (key : Bytes) (val : V)
      → is_some (value_of hash d key) ≡ true
      → Same hash d e
      → (f : Dict V) × (dict_find hash e key ≡ some (value_of hash e key, f))
        × Written hash d (set_found hash f key val) key (some val) (d.ht0.used + d.ht1.used)
  replace_last d e key val old p =
      let f = dict_find_total hash e key p.good in
      let same = Same-trans hash d e (f.0) p f.2 in
      let there = ap is_some (same.same_value key) ∙ old in
      (
        f.0,
        f.1,
        after_Same hash d (f.0) _ key (some val) _ same (
            subst (λ n. Written hash (f.0) (set_found hash (f.0) key val) key (some val) n)
              same.same_used
              (set_found-Written (f.0) key val same.good (has_table (f.0) key same.good there)
                there)),
      )

  -- dictReplace gives a key its value, whether the dictionary holds the key or not, and leaves the
  -- value of every other key. The answer says whether the key is new, and so does the count.
  pub dict_replace_total :
      (can_resize : Bool) (d : Dict V) (key : Bytes) (val : V)
      → IsGood hash d
      → (d' : Dict V) × (dict_replace hash can_resize d key val
          ≡ some (d', not (is_some (value_of hash d key))))
        × Written hash d d' key (some val) (
            if is_some (value_of hash d key)
            then d.ht0.used + d.ht1.used
            else d.ht0.used + d.ht1.used + 1)
  dict_replace_total can_resize d key val g =
      let a = dict_add_total hash can_resize d key val g in
      elim (Bool-cases (is_some (value_of hash d key))) [
        | inr new ↦ (
          a.0,
          replace_new can_resize d (a.0) key val (a.1 ∙ rw new) ∙ rw new,
          rw new (rw new at a.2),
        )
        | inl old ↦
            let (f, there, w) = replace_last d (a.0) key val old (rw old at a.2) in
            (
              set_found hash f key val,
              replace_found can_resize d (a.0) f key val _ (a.1 ∙ rw old) there ∙ rw old,
              rw old w,
            )
      ]
