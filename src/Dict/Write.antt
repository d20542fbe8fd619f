-- ===== src/Dict/Write.antt =====
-- dict.c: dictAdd and dictDelete against a map from keys to values.
use gridapps.Dict.Moves.{pushed, pushed-IsPlaced, pushed-occ, pushed-find}
use gridapps.Dict.Buckets.{occ, home, find-eq-some, find-eq-none}
use gridapps.Dict.Rehash.{value_of, IsGood}
use gridapps.Dict.{Dict, is_rehashing}
use gridapps.Prelude.{
  true, none, some, refl, arith, Bytes, ℕ, Option, ◌≡◌, ◌<◌, if◌then◌else◌, bytes_eq, ◌+◌,
  bytes_eq_iff,
}
use mathlib.Core.Option

module _ {V : Type 0} (hash : Bytes → ℕ) where
  absent :
      (d : Dict V) (key : Bytes)
      → value_of hash d key ≡ none
      → (occ (home hash d.ht0 key) key ≡ 0) × (occ (home hash d.ht1 key) key ≡ 0)
  unfolding Option.or_else
  absent d key h = (
    ground (arith, find-eq-some (home hash d.ht0 key) key),
    ground (arith, find-eq-some (home hash d.ht1 key) key),
  )

  -- What a write does: the value of one key, and the count of entries.
  pub record Written (d d' : Dict V) (key : Bytes) (val : Option V) (used : ℕ) : Type 0 where
    pub good : IsGood hash d'
    pub new_value :
        (k : Bytes) → value_of hash d' k ≡ (if bytes_eq key k then val else value_of hash d k)
    pub new_used : d'.ht0.used + d'.ht1.used ≡ used
    pub iterators : d'.iterators ≡ d.iterators

  pub insert0 :
      (d : Dict V) (key : Bytes) (val : V)
      → IsGood hash d
      → 0 < d.ht0.size
      → d.rehashidx ≡ none
      → value_of hash d key ≡ none
      → Written d
          (record d { ht0 = pushed hash d.ht0 key val })
          key
          (some val)
          (d.ht0.used + d.ht1.used + 1)
  unfolding Option.or_else
  insert0 d key val g some_table idle free = record {
    good = record {
      table0 = pushed-IsPlaced hash d.ht0 key val some_table g.table0;
      table1 = g.table1;
      once = λ k.
          ground (
            arith,
            g.once k,
            pushed-occ hash d.ht0 key val k,
            absent d key free,
            bytes_eq_iff key k,
          );
      idle = g.idle;
      room = g.room;
      moved = λ i j e lt. absurd (ground arith);
    };
    new_value = λ k. ground (arith, pushed-find hash d.ht0 key val k);
    new_used = omega arith;
    iterators = refl;
  }

  pub insert1 :
      (d : Dict V) (key : Bytes) (val : V)
      → IsGood hash d
      → 0 < d.ht1.size
      → is_rehashing d ≡ true
      → value_of hash d key ≡ none
      → Written d
          (record d { ht1 = pushed hash d.ht1 key val })
          key
          (some val)
          (d.ht0.used + d.ht1.used + 1)
  unfolding Option.or_else
  insert1 d key val g some_table busy free = record {
    good = record {
      table0 = g.table0;
      table1 = pushed-IsPlaced hash d.ht1 key val some_table g.table1;
      once = λ k.
          ground (
            arith,
            g.once k,
            pushed-occ hash d.ht1 key val k,
            absent d key free,
            bytes_eq_iff key k,
          );
      idle = λ e. absurd (ground arith);
      room = g.room;
      moved = g.moved;
    };
    new_value = λ k. ground (
      arith,
      pushed-find hash d.ht1 key val k,
      bytes_eq_iff key k,
      absent d key free,
      find-eq-none (home hash d.ht0 key) key,
    );
    new_used = omega arith;
    iterators = refl;
  }
