-- ===== src/Dict/Delete.antt =====
-- dict.c: dictDelete, against a map from keys to values.
use gridapps.Dict.Write.{Written}
use gridapps.Dict.Rehash.{IsGood}
use gridapps.Dict.Buckets.{home, occ, find-eq-none, IsPlaced, unlink_lem, slot_lt, total-write}
use gridapps.Db.{is_some}
use gridapps.Dict.{Table, Chain, unlink_entry, Dict, unlink, is_rehashing, slot}
use gridapps.Prelude.{
  true, false, none, refl, [], arith, Bytes, ℕ, ◌<◌, find, ◌≡◌, if◌then◌else◌, bytes_eq, ◌+◌,
  bytes_eq_iff, ◌-◌,
}
use mathlib.Core.Option

module _ {V : Type 0} (hash : Bytes → ℕ) where
  -- The table without the first entry of a key.
  abbrev pub without : Table V → Bytes → Table V
  without t key = unlink_entry hash t key (home hash t key)

  pub occ_of_found : (c : Chain V) (key : Bytes) → is_some (find c key) ≡ true → 0 < occ c key
  occ_of_found c key h = ground (arith, find-eq-none c key)

  unlinked-IsPlaced :
      (t : Table V) (key : Bytes)
      → 0 < t.size
      → occ (home hash t key) key ≡ 1
      → IsPlaced hash t
      → IsPlaced hash (without t key)
  unfolding unlink_entry
  unlinked-IsPlaced t key some_table once h = record {
    placed = λ j i ne. ground (arith, unlink_lem (home hash t key) key j once, h.placed j i);
    within = λ i le. ground (arith, slot_lt hash t.size key some_table, h.within i);
    counted = omega (
      arith,
      h.counted,
      unlink_lem (home hash t key) key key once,
      total-write t.chains (slot hash t.size key) (unlink (home hash t key) key) t.size
          (slot_lt hash t.size key some_table),
    );
  }

  unlinked-occ :
      (t : Table V) (key k : Bytes)
      → occ (home hash t key) key ≡ 1
      → occ (home hash (without t key) k) k ≡ (if bytes_eq key k then 0 else occ (home hash t k) k)
  unfolding unlink_entry
  unlinked-occ t key k once =
      ground (arith, unlink_lem (home hash t key) key k once, bytes_eq_iff key k)

  unlinked-find :
      (t : Table V) (key k : Bytes)
      → occ (home hash t key) key ≡ 1
      → find (home hash (without t key) k) k
        ≡ (if bytes_eq key k then none else find (home hash t k) k)
  unfolding unlink_entry
  unlinked-find t key k once =
      ground (arith, unlink_lem (home hash t key) key k once, bytes_eq_iff key k)

  unlinked-used :
      (t : Table V) (key : Bytes)
      → 0 < t.size
      → occ (home hash t key) key ≡ 1
      → IsPlaced hash t
      → (without t key).used + 1 ≡ t.used
  unfolding unlink_entry
  unlinked-used t key some_table once h = omega (
    arith,
    h.counted,
    unlink_lem (home hash t key) key key once,
    total-write t.chains (slot hash t.size key) (unlink (home hash t key) key) t.size
        (slot_lt hash t.size key some_table),
  )

  moved_unlinked :
      (t : Table V) (key : Bytes) (j : ℕ) → t.chains j ≡ [] → (without t key).chains j ≡ []
  unfolding unlink_entry unlink
  moved_unlinked t key j e = ground arith

  pub delete0 :
      (d : Dict V) (key : Bytes)
      → IsGood hash d
      → 0 < d.ht0.size
      → is_some (find (home hash d.ht0 key) key) ≡ true
      → Written hash d (record d { ht0 = without d.ht0 key }) key none (d.ht0.used + d.ht1.used - 1)
  unfolding Option.or_else unlink_entry
  delete0 d key g some_table found =
      let once : occ (home hash d.ht0 key) key ≡ 1 =
        omega (arith, g.once key, occ_of_found (home hash d.ht0 key) key found) in
      record {
        good = record {
          table0 = unlinked-IsPlaced d.ht0 key some_table once g.table0;
          table1 = g.table1;
          once = λ k. ground (arith, g.once k, unlinked-occ d.ht0 key k once);
          idle = g.idle;
          room = g.room;
          moved = λ i j e lt. moved_unlinked d.ht0 key j (g.moved i j e lt);
        };
        new_value = λ k. ground (
          arith,
          unlinked-find d.ht0 key k once,
          g.once key,
          bytes_eq_iff key k,
          find-eq-none (home hash d.ht1 key) key,
        );
        new_used = omega (arith, unlinked-used d.ht0 key some_table once g.table0);
        iterators = refl;
      }

  pub delete1 :
      (d : Dict V) (key : Bytes)
      → IsGood hash d
      → 0 < d.ht1.size
      → is_rehashing d ≡ true
      → is_some (find (home hash d.ht0 key) key) ≡ false
      → is_some (find (home hash d.ht1 key) key) ≡ true
      → Written hash d (record d { ht1 = without d.ht1 key }) key none (d.ht0.used + d.ht1.used - 1)
  unfolding Option.or_else unlink_entry
  delete1 d key g some_table busy missed found =
      let once : occ (home hash d.ht1 key) key ≡ 1 =
        omega (arith, g.once key, occ_of_found (home hash d.ht1 key) key found) in
      record {
        good = record {
          table0 = g.table0;
          table1 = unlinked-IsPlaced d.ht1 key some_table once g.table1;
          once = λ k. ground (arith, g.once k, unlinked-occ d.ht1 key k once);
          idle = λ e. absurd (ground arith);
          room = g.room;
          moved = g.moved;
        };
        new_value = λ k. ground (arith, unlinked-find d.ht1 key k once, bytes_eq_iff key k);
        new_used = omega (arith, unlinked-used d.ht1 key some_table once g.table1);
        iterators = refl;
      }
