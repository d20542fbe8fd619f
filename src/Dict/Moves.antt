-- ===== src/Dict/Moves.antt =====
-- dict.c: an entry that goes to the front of its chain, and a bucket that goes to the other table.
use gridapps.Dict.Buckets.{occ, home, IsPlaced, slot_lt, total-write, find-eq-none}
use gridapps.Dict.{read, Table, slot, write, Chain, move_chain}
use gridapps.Prelude.{
  some, arith, ◌∷◌, Bytes, ℕ, ◌<◌, find, ◌≡◌, ◌+◌, if◌then◌else◌, bytes_eq, refl, [], bytes_eq_iff,
  length, ◌≤◌,
}
use mathlib.Core.Option

module _ {V : Type 0} (hash : Bytes → ℕ) where
  pub read_in : (t : Table V) (i : ℕ) → i < t.size → read t i ≡ some (t.chains i)
  unfolding read
  read_in t i h = ground arith

  abbrev pub pushed : Table V → Bytes → V → Table V
  pushed t k v = record (write t (slot hash t.size k) ((k, v) ∷ home hash t k)) {
    used = t.used + 1;
  }

  pub pushed-occ :
      (t : Table V) (k : Bytes) (v : V) (j : Bytes)
      → occ (home hash (pushed t k v) j) j ≡ (if bytes_eq k j then 1 else 0) + occ (home hash t j) j
  pushed-occ t k v j = ground (arith, bytes_eq_iff k j)

  pub pushed-find :
      (t : Table V) (k : Bytes) (v : V) (j : Bytes)
      → find (home hash (pushed t k v) j) j
        ≡ (if bytes_eq k j then some v else find (home hash t j) j)
  unfolding find
  pushed-find t k v j = ground (arith, bytes_eq_iff k j)

  pub pushed-IsPlaced :
      (t : Table V) (k : Bytes) (v : V)
      → 0 < t.size
      → IsPlaced hash t
      → IsPlaced hash (pushed t k v)
  pushed-IsPlaced t k v some_room h = record {
    placed = λ j i ne. ground (arith, h.placed j i, bytes_eq_iff k j);
    within = λ i le. ground (arith, h.within i, slot_lt hash t.size k);
    counted = ground (
      arith,
      h.counted,
      slot_lt hash t.size k,
      total-write t.chains (slot hash t.size k) ((k, v) ∷ home hash t k) t.size,
    );
  }

  -- What the table holds behind the entries of `c`.
  pub record Moved (c : Chain V) (t t' : Table V) : Type 0 where
    pub placed : IsPlaced hash t'
    pub same_size : t'.size ≡ t.size
    pub more : t'.used ≡ t.used + length c
    pub occurs : (k : Bytes) → occ (home hash t' k) k ≡ occ c k + occ (home hash t k) k
    pub finds :
        (k : Bytes)
        → occ c k + occ (home hash t k) k ≤ 1
        → find (home hash t' k) k ≡ Option.or_else (find c k) (find (home hash t k) k)

  Moved-nil : (t : Table V) → IsPlaced hash t → Moved [] t t
  unfolding find Option.or_else
  Moved-nil t h = record {
    placed = h;
    same_size = refl;
    more = omega arith;
    occurs = λ k. omega arith;
    finds = λ k le. refl;
  }

  Moved-cons :
      (k : Bytes) (v : V) (c : Chain V) (t t' : Table V)
      → Moved c (pushed t k v) t'
      → Moved ((k, v) ∷ c) t t'
  unfolding find Option.or_else
  Moved-cons k v c t t' m = record {
    placed = m.placed;
    same_size = m.same_size;
    more = omega (arith, m.more);
    occurs = λ j. omega (arith, m.occurs j, pushed-occ t k v j);
    finds = λ j le.
        ground (arith, m.finds j, pushed-occ t k v j, pushed-find t k v j, find-eq-none c j);
  }

  pub move_chain_total :
      (c : Chain V) (t : Table V)
      → 0 < t.size
      → IsPlaced hash t
      → (t' : Table V) × (move_chain hash c t ≡ some t') × Moved c t t'
  unfolding move_chain
  move_chain_total [] t some_room h = (t, refl, Moved-nil t h)
  move_chain_total ((k, v) ∷ c) t some_room h =
      let ih = move_chain_total c (pushed t k v) some_room (pushed-IsPlaced t k v some_room h) in
      (
        ih.0,
        rw (read_in t _ (slot_lt hash t.size k some_room), move_chain) ih.1,
        Moved-cons k v c t (ih.0) ih.2,
      )
