-- ===== src/Dict/Rehash.antt =====
-- dict.c: what a dictionary holds, and the steps of rehashing.
use gridapps.Dict.Skip.{skip_empty-total}
use native.Mathlib.Decide.{dec_lt}
use gridapps.Dict.Moves.{Moved, move_chain_total}
use gridapps.Dict.Buckets.{IsPlaced, occ, home, total_zero, total-write, find-eq-none, slot_lt}
use gridapps.Dict.{Dict, skip_empty, rehash_round, Table, empty_table, write, Chain, move_chain}
use gridapps.Prelude.{
  none, some, [], arith, Bytes, ℕ, Option, ◌≡◌, find, ◌≤◌, ◌<◌, Bool, ◌+◌, ◌-◌, length, refl, true,
  false, ◌==◌,
}
use mathlib.Core.Option

pub zero_test : (n : ℕ) → ¬ (0 < n) → (n == 0) ≡ true
zero_test n h = ground arith

pub positive_test : (n : ℕ) → 0 < n → (n == 0) ≡ false
positive_test n h = ground arith

module _ {V : Type 0} (hash : Bytes → ℕ) where
  -- What a lookup of a key is to give.
  abbrev pub value_of : Dict V → Bytes → Option V
  value_of d key = Option.or_else (find (home hash d.ht0 key) key) (find (home hash d.ht1 key) key)

  -- Both tables are in order, no key stands twice, and while a rehashing runs, the buckets before
  -- `rehashidx` have been moved.
  pub record IsGood (d : Dict V) : Type 0 where
    pub table0 : IsPlaced hash d.ht0
    pub table1 : IsPlaced hash d.ht1
    pub once : (key : Bytes) → occ (home hash d.ht0 key) key + occ (home hash d.ht1 key) key ≤ 1
    pub idle : d.rehashidx ≡ none → d.ht1 ≡ empty_table
    pub room : (i : ℕ) → d.rehashidx ≡ some i → (0 < d.ht0.size) × (0 < d.ht1.size)
    pub moved : (i j : ℕ) → d.rehashidx ≡ some i → j < i → d.ht0.chains j ≡ []

  -- A rehashing step changes what no key holds.
  pub record Same (d d' : Dict V) : Type 0 where
    pub good : IsGood d'
    pub same_value : (key : Bytes) → value_of d' key ≡ value_of d key
    pub same_used : d'.ht0.used + d'.ht1.used ≡ d.ht0.used + d.ht1.used
    pub same_iterators : d'.iterators ≡ d.iterators
    pub still_table : 0 < d.ht0.size → 0 < d'.ht0.size

  pub empty-IsPlaced : IsPlaced {V = V} hash empty_table
  empty-IsPlaced = record { placed = λ key i ne. refl; within = λ i le. refl; counted = refl }

  or_else_none : (x : Option V) → Option.or_else x none ≡ x
  unfolding Option.or_else
  or_else_none none = refl
  or_else_none (some v) = refl

  all_moved :
      (t : Table V) (key : Bytes) → IsPlaced hash t → 0 < t.size → t.used ≡ 0 → home hash t key ≡ []
  all_moved t key h some_room e =
      total_zero t.chains _ t.size (omega (arith, h.counted)) (slot_lt hash t.size key some_room)

  -- A bucket is set to NULL.
  cleared-IsPlaced :
      (t : Table V) (j : ℕ)
      → j < t.size
      → IsPlaced hash t
      → IsPlaced hash (record (write t j []) { used = t.used - length (t.chains j) })
  cleared-IsPlaced t j inside h = record {
    placed = λ key i ne. ground (arith, h.placed key i);
    within = λ i le. ground (arith, h.within i);
    counted = omega (arith, h.counted, total-write t.chains j [] t.size inside);
  }

  pub finish-Same :
      (d : Dict V) (i : ℕ)
      → IsGood d
      → d.rehashidx ≡ some i
      → d.ht0.used ≡ 0
      → Same d (record d { ht0 = d.ht1; ht1 = empty_table; rehashidx = none })
  unfolding find Option.or_else
  finish-Same d i g e zero_used = record {
    good = record {
      table0 = g.table1;
      table1 = empty-IsPlaced;
      once = λ key. grind (arith, g.once key);
      idle = λ h. refl;
      room = λ k h. absurd (ground arith);
      moved = λ k j h l. absurd (ground arith);
    };
    same_value = λ key.
        rw (all_moved d.ht0 key g.table0 ((g.room i e).0) zero_used)
          (or_else_none (find (home hash d.ht1 key) key));
    same_used = omega arith;
    same_iterators = refl;
    still_table = λ h. (g.room i e).1;
  }

  pub round-Same :
      (d : Dict V) (i j : ℕ) (t : Table V)
      → IsGood d
      → d.rehashidx ≡ some i
      → j < d.ht0.size
      → ((k : ℕ) → k < j → d.ht0.chains k ≡ [])
      → Moved hash (d.ht0.chains j) d.ht1 t
      → Same d (record d {
        ht0 = record (write d.ht0 j []) { used = d.ht0.used - length (d.ht0.chains j) };
        ht1 = t;
        rehashidx = some (j + 1);
      })
  unfolding find Option.or_else
  round-Same d i j t g e inside before m = record {
    good = record {
      table0 = cleared-IsPlaced d.ht0 j inside g.table0;
      table1 = m.placed;
      once = λ key. ground (arith, g.once key, m.occurs key, g.table0.placed key j);
      idle = λ h. absurd (ground arith);
      room = λ k h. ground (arith, g.room i e, m.same_size);
      moved = λ k l h lt. ground (arith, before l);
    };
    same_value = λ key.
        ground (
          arith,
          m.finds key,
          g.once key,
          g.table0.placed key j,
          find-eq-none (d.ht0.chains j) key,
        );
    same_used =
        omega (arith, m.more, g.table0.counted, total-write d.ht0.chains j [] d.ht0.size inside);
    same_iterators = refl;
    still_table = λ h. h;
  }

  round_moves :
      (d : Dict V) (i j : ℕ) (c : Chain V) (t : Table V)
      → 0 < d.ht0.used
      → skip_empty d.ht0.size d.ht0 i ≡ some (j, c)
      → move_chain hash c d.ht1 ≡ some t
      → rehash_round hash d i
        ≡ some (
          record d {
            ht0 = record (write d.ht0 j []) { used = d.ht0.used - length c };
            ht1 = t;
            rehashidx = some (j + 1);
          },
          true,
        )
  unfolding rehash_round
  round_moves d i j c t h s m = rw (positive_test d.ht0.used h, s, m)

  pub rehash_round_total :
      (d : Dict V) (i : ℕ)
      → IsGood d
      → d.rehashidx ≡ some i
      → (d' : Dict V) × (more : Bool) × (rehash_round hash d i ≡ some (d', more)) × Same d d'
  unfolding rehash_round
  rehash_round_total d i g e = elim (dec_lt 0 d.ht0.used) [
    | no empty ↦ (
      record d { ht0 = d.ht1; ht1 = empty_table; rehashidx = none },
      false,
      rw (zero_test d.ht0.used empty),
      finish-Same d i g e (omega arith),
    )
    | yes busy ↦
        let at =
          skip_empty-total hash d.ht0.size d.ht0 i (omega arith) (omega (arith, g.table0.counted))
            (λ k h. g.moved i k e h) in
        let to = move_chain_total hash (d.ht0.chains (at.0)) d.ht1 ((g.room i e).1) g.table1 in
        (
          _,
          true,
          round_moves d i _ _ _ busy at.1 to.1,
          round-Same d i (at.0) (to.0) g e at.2 at.3 to.2,
        )
  ]
