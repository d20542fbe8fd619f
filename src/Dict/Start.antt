-- ===== src/Dict/Start.antt =====
-- dict.c: dictExpand and _dictExpandIfNeeded.
use gridapps.Dict.Steps.{Same-refl}
use gridapps.Dict.Expand.{next_power_pos}
use gridapps.Dict.Rehash.{IsGood, Same, zero_test, positive_test}
use gridapps.Dict.Buckets.{IsPlaced, total_of_empty, total}
use gridapps.Dict.{new_table, Dict, slot, dict_expand, expand_if_needed, next_power}
use gridapps.Prelude.{
  none, some, refl, inl, inr, [], arith, Bytes, ℕ, sym, ◌≡◌, ap, ◌<◌, Option-cases, true, false,
  ltb, if◌then◌else◌, ◌≤◌, Bool, ◌==◌, Bool-cases, leb, ◌∙◌, ◌*◌, ◌&&◌, ◌||◌, ◌/◌,
}
use native.Mathlib.Decide.{dec_lt}

ltb-false : (a b : ℕ) → ¬ (a < b) → ltb a b ≡ false
ltb-false a b h = ground arith

module _ {V : Type 0} (hash : Bytes → ℕ) where
  new_table-IsPlaced : (n : ℕ) → IsPlaced {V = V} hash (new_table n)
  unfolding new_table
  new_table-IsPlaced n = record {
    placed = λ key i ne. refl;
    within = λ i le. refl;
    counted = sym (total_of_empty {V = V} (λ i. []) n (λ j h. refl));
  }

  no_table : (d : Dict V) → IsGood hash d → d.ht0.size ≡ 0 → (d.ht0.used ≡ 0) × (d.rehashidx ≡ none)
  no_table d g e = (
    omega (arith, g.table0.counted, ap (total d.ht0.chains) e),
    elim (Option-cases d.rehashidx) [
      | inl idle ↦ idle
      | inr (i, busy) ↦ absurd (omega (arith, g.room i busy))
    ],
  )

  -- The first table of a dictionary that has none.
  first_table-Same :
      (d : Dict V) (n : ℕ)
      → IsGood hash d
      → d.ht0.size ≡ 0
      → Same hash d (record d { ht0 = new_table n })
  unfolding new_table
  first_table-Same d n g e = record {
    good = record {
      table0 = new_table-IsPlaced n;
      table1 = g.table1;
      once = λ key. omega (arith, g.once key);
      idle = g.idle;
      room = λ i busy. absurd (omega (arith, g.room i busy));
      moved = λ i j busy lt. refl;
    };
    same_value = λ key. rw (g.table0.within (slot hash d.ht0.size key) (omega arith));
    same_used = omega (arith, (no_table d g e).0);
    same_iterators = refl;
    still_table = λ h. absurd (omega arith);
  }

  -- A second table, to which nothing has been moved.
  second_table-Same :
      (d : Dict V) (n : ℕ)
      → IsGood hash d
      → d.rehashidx ≡ none
      → 0 < d.ht0.size
      → 0 < n
      → Same hash d (record d { ht1 = new_table n; rehashidx = some 0 })
  unfolding new_table
  second_table-Same d n g e some_table some_room = record {
    good = record {
      table0 = g.table0;
      table1 = new_table-IsPlaced n;
      once = λ key. omega (arith, g.once key);
      idle = λ h. absurd (ground arith);
      room = λ i h. (some_table, some_room);
      moved = λ i j h lt. absurd (ground arith);
    };
    same_value = λ key. rw (g.idle e);
    same_used = rw (g.idle e);
    same_iterators = refl;
    still_table = λ h. h;
  }

  -- The dictionary with its first table, or with its second one.
  abbrev expanded : Dict V → ℕ → Dict V
  expanded d size =
      if d.ht0.size == 0
      then record d { ht0 = new_table (next_power size) }
      else record d { ht1 = new_table (next_power size); rehashidx = some 0 }

  dict_expand-eq :
      (d : Dict V) (size : ℕ)
      → d.rehashidx ≡ none
      → d.ht0.used ≤ size
      → dict_expand d size ≡ (expanded d size, true)
  unfolding dict_expand
  dict_expand-eq d size e h = elim (Bool-cases (d.ht0.size == 0)) [
    | inl z ↦ rw (e, ltb-false size d.ht0.used (λ l. absurd (omega arith)), z)
    | inr z ↦ rw (e, ltb-false size d.ht0.used (λ l. absurd (omega arith)), z)
  ]

  expanded-Same :
      (d : Dict V) (size : ℕ)
      → IsGood hash d
      → d.rehashidx ≡ none
      → Same hash d (expanded d size) × (0 < (expanded d size).ht0.size)
  unfolding new_table
  expanded-Same d size g e = elim (dec_lt 0 d.ht0.size) [
    | no h ↦
        rw (zero_test d.ht0.size h)
          (first_table-Same d (next_power size) g (omega arith), next_power_pos size)
    | yes h ↦
        rw (positive_test d.ht0.size h)
          (second_table-Same d (next_power size) g e h (next_power_pos size), h)
  ]

  -- The capacity that a full table is to get.
  abbrev larger : Dict V → ℕ
  larger d = (if ltb d.ht0.used d.ht0.size then d.ht0.size else d.ht0.used) * 2

  abbrev is_full : Bool → Dict V → Bool
  is_full can_resize d =
      leb d.ht0.size d.ht0.used && (can_resize || ltb 5 (d.ht0.used / d.ht0.size))

  pick :
      (can_resize : Bool) (d : Dict V)
      → d.rehashidx ≡ none
      → expand_if_needed can_resize d ≡ (
          if d.ht0.size == 0
          then dict_expand d 4
          else if is_full can_resize d
          then dict_expand d (larger d)
          else (d, true))
  unfolding expand_if_needed
  pick can_resize d e = ground arith

  pick_first :
      (can_resize : Bool) (d : Dict V)
      → d.rehashidx ≡ none
      → (d.ht0.size == 0) ≡ true
      → expand_if_needed can_resize d ≡ dict_expand d 4
  pick_first can_resize d e z = pick can_resize d e ∙ rw z

  pick_full :
      (can_resize : Bool) (d : Dict V)
      → d.rehashidx ≡ none
      → (d.ht0.size == 0) ≡ false
      → is_full can_resize d ≡ true
      → expand_if_needed can_resize d ≡ dict_expand d (larger d)
  pick_full can_resize d e z full = pick can_resize d e ∙ rw (z, full)

  larger-le : (d : Dict V) → d.ht0.used ≤ larger d
  larger-le d = ground arith

  -- dictExpand is asked for no less than there is, so it does not refuse.
  pub expand_if_needed_total :
      (can_resize : Bool) (d : Dict V)
      → IsGood hash d
      → (d' : Dict V) × (expand_if_needed can_resize d ≡ (d', true))
        × Same hash d d'
        × (0 < d'.ht0.size)
  unfolding expand_if_needed
  expand_if_needed_total can_resize d g = elim (Option-cases d.rehashidx) [
    | inr (i, busy) ↦ (d, ground arith, Same-refl hash d g, (g.room i busy).0)
    | inl idle ↦ elim (dec_lt 0 d.ht0.size) [
      | no h ↦
          let to = expanded-Same d 4 g idle in
          let used : d.ht0.used ≤ 4 = omega (arith, no_table d g (omega arith)) in
          (
            expanded d 4,
            pick_first can_resize d idle (zero_test d.ht0.size h) ∙ dict_expand-eq d 4 idle used,
            to.0,
            to.1,
          )
      | yes h ↦ elim (Bool-cases (is_full can_resize d)) [
        | inl full ↦
            let to = expanded-Same d (larger d) g idle in
            (
              expanded d (larger d),
              pick_full can_resize d idle (positive_test d.ht0.size h) full
                  ∙ dict_expand-eq d (larger d) idle (larger-le d),
              to.0,
              to.1,
            )
        | inr free ↦ (
          d,
          pick can_resize d idle ∙ rw (positive_test d.ht0.size h, free),
          Same-refl hash d g,
          h,
        )
      ]
    ]
  ]
