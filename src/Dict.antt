-- ===== src/Dict.antt =====
-- dict.c: a hash table with chaining that grows by moving its buckets to a second table, a few at a
-- time. Keys are byte strings, as in a keyspace; the hash function is that of the type of the
-- dictionary. `none` stands for an access outside a table.
pub mod Buckets
pub mod Moves
pub mod Skip
pub mod Rehash
pub mod Steps
pub mod Expand
pub mod Start
pub mod Api
pub mod Write
pub mod Delete
pub mod Added
pub mod Deleted
pub mod Replace
use gridapps.Db.{is_some}
use mathlib.Core.Option.{IsSome}
use gridapps.Prelude.{
  true, false, none, some, zero, suc, [], ◌∷◌, List, ℕ, Option, Bool, Bytes, if◌then◌else◌, ◌*◌,
  ◌+◌, ◌-◌, leb, ◌||◌, not, ◌==◌, ltb, ◌%◌, two63, ◌&&◌, length, ◌^◌, ◌/◌, find, bytes_eq,
}
use Prim.Native.Nat.{bit_and}
use mathlib.Core.Option

abbrev pub Chain : Type 0 → Type 0
Chain V = List (Bytes × V)

-- dictht: `chains i` is the list at table[i], and `size` is that of the array.
pub record Table (V : Type 0) : Type 0 where
  pub size : ℕ
  pub used : ℕ
  pub chains : ℕ → Chain V

-- `rehashidx` is `none` for -1.
pub record Dict (V : Type 0) : Type 0 where
  pub ht0 : Table V
  pub ht1 : Table V
  pub rehashidx : Option ℕ
  pub iterators : ℕ

-- _dictReset
abbrev pub empty_table : {V : Type 0} → Table V
empty_table = record { size = 0; used = 0; chains = λ i. [] }

abbrev pub dict_create : {V : Type 0} → Dict V
dict_create = record { ht0 = empty_table; ht1 = empty_table; rehashidx = none; iterators = 0 }

-- The hash of Bernstein; `hash` starts as 5381.
unfoldable pub gen_hash : ℕ → Bytes → ℕ
gen_hash hash [] = hash
gen_hash hash (c ∷ s) = gen_hash ((hash * 32 + hash + c) % 2 ^ 32) s

-- `i *= 2` while it is less than the size asked for: at most 61 times, below LONG_MAX.
unfoldable pub double_until : ℕ → ℕ → ℕ → ℕ
double_until zero size i = i
double_until (suc fuel) size i =
    let more = double_until fuel size (i * 2) in if leb size i then i else more

unfoldable pub next_power : ℕ → ℕ
next_power size = if leb (two63 - 1) size then two63 - 1 else double_until 61 size 4

-- `h & sizemask`
unfoldable pub slot : (Bytes → ℕ) → ℕ → Bytes → ℕ
slot hash size key = bit_and (hash key) (size - 1)

infixl 5 ◌>>=◌
abbrev pub ◌>>=◌ {ℓ κ} : {A : Type ℓ} {B : Type κ} → Option A → (A → Option B) → Option B
none >>= f = none
some a >>= f = f a

module _ {V : Type 0} where
  abbrev pub is_rehashing : Dict V → Bool
  is_rehashing d = is_some d.rehashidx

  unfoldable pub new_table : ℕ → Table V
  new_table size = record { size = size; used = 0; chains = λ i. [] }

  unfoldable pub dict_expand : Dict V → ℕ → Dict V × Bool
  unfolding new_table
  dict_expand d size =
      if is_rehashing d || ltb size d.ht0.used
      then (d, false)
      else if d.ht0.size == 0
      then (record d { ht0 = new_table (next_power size) }, true)
      else (record d { ht1 = new_table (next_power size); rehashidx = some 0 }, true)

  unfoldable pub dict_resize : Bool → Dict V → Dict V × Bool
  dict_resize can_resize d =
      if not can_resize || is_rehashing d
      then (d, false)
      else dict_expand d (if ltb d.ht0.used 4 then 4 else d.ht0.used)

  unfoldable pub expand_if_needed : Bool → Dict V → Dict V × Bool
  expand_if_needed can_resize d =
      if is_rehashing d
      then (d, true)
      else if d.ht0.size == 0
      then dict_expand d 4
      else if leb d.ht0.size d.ht0.used && (can_resize || ltb 5 (d.ht0.used / d.ht0.size))
      then dict_expand d ((if ltb d.ht0.used d.ht0.size then d.ht0.size else d.ht0.used) * 2)
      else (d, true)

  -- table[i]
  unfoldable pub read : Table V → ℕ → Option (Chain V)
  read t i = if ltb i t.size then some (t.chains i) else none

  abbrev pub write : Table V → ℕ → Chain V → Table V
  write t i c = record t { chains = λ j. if j == i then c else t.chains j }

  -- `while (table[rehashidx] == NULL) rehashidx++`, with as many rounds as there are buckets.
  unfoldable pub skip_empty : ℕ → Table V → ℕ → Option (ℕ × Chain V)
  skip_empty zero t i = none
  skip_empty (suc fuel) t i = elim (read t i) [
    | none ↦ none
    | some [] ↦ skip_empty fuel t (i + 1)
    | some (e ∷ c) ↦ some (i, e ∷ c)
  ]

  -- The first entry of the key, unlinked.
  unfoldable pub unlink : Chain V → Bytes → Chain V
  unlink [] key = []
  unlink ((k, v) ∷ c) key = let rest = unlink c key in if bytes_eq k key then c else (k, v) ∷ rest

  -- The value of the first entry of the key is overwritten.
  unfoldable pub assign : Chain V → Bytes → V → Chain V
  assign [] key val = []
  assign ((k, v) ∷ c) key val =
      let rest = assign c key val in if bytes_eq k key then (k, val) ∷ c else (k, v) ∷ rest

  module _ (hash : Bytes → ℕ) where
    -- The entries of one bucket go to the front of their chains in the new table.
    unfoldable pub move_chain : Chain V → Table V → Option (Table V)
    move_chain [] t = some t
    move_chain ((k, v) ∷ c) t = elim (read t (slot hash t.size k)) [
      | none ↦ none
      | some old ↦
          move_chain c (record (write t (slot hash t.size k) ((k, v) ∷ old)) { used = t.used + 1 })
    ]

    -- One round of the loop of dictRehash, and whether it goes on.
    unfoldable pub rehash_round : Dict V → ℕ → Option (Dict V × Bool)
    rehash_round d i =
        if d.ht0.used == 0
        then some (record d { ht0 = d.ht1; ht1 = empty_table; rehashidx = none }, false)
        else do
          (j, c) ← skip_empty d.ht0.size d.ht0 i
          t ← move_chain c d.ht1
          some (
            record d {
              ht0 = record (write d.ht0 j []) { used = d.ht0.used - length c };
              ht1 = t;
              rehashidx = some (j + 1);
            },
            true,
          )

    unfoldable pub dict_rehash : ℕ → Dict V → Option (Dict V × Bool)
    dict_rehash zero d = some (d, is_rehashing d)
    dict_rehash (suc n) d = elim d.rehashidx [
      | none ↦ some (d, false)
      | some i ↦ elim (rehash_round d i) [
        | none ↦ none
        | some (d', false) ↦ some (d', false)
        | some (d', true) ↦ dict_rehash n d'
      ]
    ]

    -- The guarded step at the start of each operation.
    unfoldable pub rehash_step : Dict V → Option (Dict V)
    rehash_step d =
        if is_rehashing d && d.iterators == 0
        then (do (d', more) ← dict_rehash 1 d; some d')
        else some d

    -- The loop over the one or two tables.
    unfoldable pub search_tables : Dict V → Bytes → Option (Option V)
    search_tables d key = do
      c ← read d.ht0 (slot hash d.ht0.size key)
      if is_some (find c key)
          then some (find c key)
          else if is_rehashing d
          then (do c' ← read d.ht1 (slot hash d.ht1.size key); some (find c' key))
          else some none

    unfoldable pub dict_find : Dict V → Bytes → Option (Option V × Dict V)
    dict_find d key =
        if d.ht0.size == 0
        then some (none, d)
        else (do d' ← rehash_step d; v ← search_tables d' key; some (v, d'))

    -- `ht->table[index] = entry`
    unfoldable pub insert_entry : Table V → Bytes → V → Option (Table V)
    insert_entry t key val = do
      c ← read t (slot hash t.size key)
      some (record (write t (slot hash t.size key) ((key, val) ∷ c)) { used = t.used + 1 })

    -- Behind the search for the key, which says whether there is an entry already.
    unfoldable pub add_unless : Bool → Dict V → Bytes → V → Option (Dict V × Bool)
    add_unless true d key val = some (d, false)
    add_unless false d key val =
        if is_rehashing d
        then (do t ← insert_entry d.ht1 key val; some (record d { ht1 = t }, true))
        else (do t ← insert_entry d.ht0 key val; some (record d { ht0 = t }, true))

    -- The dictionary, and whether the entry is new.
    unfoldable pub dict_add : Bool → Dict V → Bytes → V → Option (Dict V × Bool)
    dict_add can_resize d key val = do
      d' ← rehash_step d
      let (e, fits) = expand_if_needed can_resize d'
      old ← search_tables e key
      add_unless (not fits || is_some old) e key val

    unfoldable pub unlink_entry : Table V → Bytes → Chain V → Table V
    unlink_entry t key c = record (write t (slot hash t.size key) (unlink c key)) {
      used = t.used - 1;
    }

    -- The loop over the one or two tables.
    unfoldable pub delete_entry : Dict V → Bytes → Option (Dict V × Bool)
    delete_entry d key = do
      c ← read d.ht0 (slot hash d.ht0.size key)
      if is_some (find c key)
          then some (record d { ht0 = unlink_entry d.ht0 key c }, true)
          else if is_rehashing d
          then (do
            c' ← read d.ht1 (slot hash d.ht1.size key)
            if is_some (find c' key)
                then some (record d { ht1 = unlink_entry d.ht1 key c' }, true)
                else some (d, false))
          else some (d, false)

    unfoldable pub dict_delete : Dict V → Bytes → Option (Dict V × Bool)
    dict_delete d key =
        if d.ht0.size == 0 then some (d, false) else (do d' ← rehash_step d; delete_entry d' key)

    abbrev pub assign_entry : Table V → Bytes → V → Table V
    assign_entry t key val =
        write t (slot hash t.size key) (assign (t.chains (slot hash t.size key)) key val)

    -- dictSetHashVal of the entry that dictFind returns.
    unfoldable pub set_found : Dict V → Bytes → V → Dict V
    set_found d key val =
        if is_some (find (d.ht0.chains (slot hash d.ht0.size key)) key)
        then record d { ht0 = assign_entry d.ht0 key val }
        else record d { ht1 = assign_entry d.ht1 key val }

    unfoldable pub dict_replace : Bool → Dict V → Bytes → V → Option (Dict V × Bool)
    dict_replace can_resize d key val = do
      (d', added) ← dict_add can_resize d key val
      if added
          then some (d', true)
          else (do (old, d'') ← dict_find d' key; some (set_found d'' key val, false))
