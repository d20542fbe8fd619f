-- ===== src/Rdb/Restore.antt =====
-- rdb.c: what rdbLoad makes of the entries that rdbSave writes.
use gridapps.Db.{time_or_minus_one}
use gridapps.Rdb.Integer.{signed-32}
use gridapps.Rdb.{fits, loaded, lenerr, save_raw_string, load_string_object}
use gridapps.Object.{Robj, raw}
use gridapps.Prelude.{
  true, some, refl, pos, negsuc, zero, suc, [], arith, ◌∷◌, ℕ, Bytes, List, Map, ◌<◌, ◌≤◌, ◌++◌, ℤ,
  ◌≡◌, length, ◌+◌, length-append, append_assoc, find, false, ◌∙◌,
}
use gridapps.Rdb.Snapshot.{
  Config, Database, next, load_loop, load_round, load_typed, load_value, load_expiring, add_loaded,
  save_entry, value_part, expire_part, save_time, alive, add_value,
}
use native.Mathlib.Nat.{add_assoc, zero-add}
use gridapps.Rdb.Reads.{IsLzf}
use gridapps.Rdb.Text.{raw-Reads}

-- The format writes a type below the opcodes, and reads back what it wrote as `normal` of it.
abbrev pub Restores : Config → (Robj → Type 0) → (Robj → Robj) → Type 0
Restores c Good normal =
    (o : Robj)
    → Good o
    → (otype : ℕ) × (out : Bytes) × (otype < 253)
      × (c.format.save o ≡ some (otype, out))
      × ((rest : Bytes) → c.format.load otype (out ++ rest) ≡ loaded (normal o) rest)

suc_add : (n : ℕ) → 1 + n ≡ suc n
suc_add n = omega arith

module _ (c : Config) (now : ℕ) where
  -- Reading the text takes some rounds, at most one for a byte.
  abbrev pub Loads : Bytes → List Database → ℕ → List Database → ℕ → Type 0
  Loads out dbs db dbs' db' =
      (k : ℕ) × (k ≤ length out)
      × ((n : ℕ) (rest : Bytes)
          → load_loop c now (k + n) dbs db (out ++ rest) ≡ load_loop c now n dbs' db' rest)

  pub Loads-nil : (dbs : List Database) (db : ℕ) → Loads [] dbs db dbs db
  Loads-nil dbs db = (0, omega arith, λ n rest. rw (zero-add n) refl)

  pub Loads-append :
      (a b : Bytes) (d0 d1 d2 : List Database) (n0 n1 n2 : ℕ)
      → Loads a d0 n0 d1 n1
      → Loads b d1 n1 d2 n2
      → Loads (a ++ b) d0 n0 d2 n2
  Loads-append a b d0 d1 d2 n0 n1 n2 (k, p, f) (l, q, g) = (
    k + l,
    omega (arith, length-append a b),
    (λ n rest. rw (append_assoc a b rest, add_assoc k l n) (f (l + n) (b ++ rest) ∙ g n rest)),
  )

  loop_round :
      (n : ℕ) (s rest : Bytes) (dbs dbs' : List Database) (db db' : ℕ)
      → load_round c now dbs db s ≡ next dbs' db' rest
      → load_loop c now (1 + n) dbs db s ≡ load_loop c now n dbs' db' rest
  unfolding load_loop
  loop_round n s rest dbs dbs' db db' h = rw (suc_add n) (ground arith)

  pub Loads-round :
      (out : Bytes) (dbs dbs' : List Database) (db db' : ℕ)
      → 0 < length out
      → ((rest : Bytes) → load_round c now dbs db (out ++ rest) ≡ next dbs' db' rest)
      → Loads out dbs db dbs' db'
  unfolding load_loop
  Loads-round out dbs dbs' db db' p h =
      (1, omega arith, λ n rest. loop_round n (out ++ rest) rest dbs dbs' db db' (h rest))

expire_part-round :
    (c : Config) (now : ℕ) (dbs : List Database) (db : ℕ) (t : ℤ) (type : ℕ) (s : Bytes)
    → fits 31 t ≡ true
    → type < 253
    → load_round c now dbs db (expire_part t ++ (type ∷ s)) ≡ load_typed c now dbs db t type s
unfolding expire_part save_time load_round load_expiring
expire_part-round c now dbs db (pos t) type s h p = ground (arith, signed-32 (pos t))
expire_part-round c now dbs db (negsuc zero) type s h p = ground (arith)
expire_part-round c now dbs db (negsuc (suc t)) type s h p =
    ground (arith, signed-32 (negsuc (suc t)))

module _ (c : Config) (lzf : IsLzf c.compress c.decompress) (Good : Robj → Type 0)
    (normal : Robj → Robj) (law : Restores c Good normal) (now : ℕ) where
  key-read :
      (key rest : Bytes)
      → length key < lenerr
      → load_string_object c.decompress false
          (save_raw_string c.compress c.rdbcompression key ++ rest)
        ≡ loaded (raw key) rest
  key-read key rest h =
      let (o, read, same, again, as_raw) =
        raw-Reads c.compress c.decompress lzf false c.rdbcompression key rest h in
      rw (← as_raw refl) read

  typed-round :
      (key : Bytes) (otype : ℕ) (s s' rest : Bytes) (o : Robj) (dbs : List Database) (db : ℕ)
      (t : ℤ)
      → otype < 253
      → load_string_object c.decompress false s ≡ loaded (raw key) s'
      → c.format.load otype s' ≡ loaded o rest
      → load_typed c now dbs db t otype s ≡ add_loaded c now dbs db t key o rest
  unfolding load_typed load_value add_value
  typed-round key otype s s' rest o dbs db t small read loads =
      let value : load_value c now dbs db t otype (loaded (raw key) s')
          ≡ add_loaded c now dbs db t key o rest =
        rw loads refl in
      rw (read, value) (ground arith)

  -- A key that is not over is written as one round of the loop that adds it.
  pub entry-round :
      (saved : ℕ) (expires : Map ℤ) (key : Bytes) (o : Robj)
      → length key < lenerr
      → Good o
      → fits 31 (time_or_minus_one (find expires key)) ≡ true
      → alive saved (time_or_minus_one (find expires key)) ≡ true
      → (out : Bytes) × (save_entry c saved expires (key, o) ≡ some out)
        × (0 < length out)
        × ((dbs : List Database) (db : ℕ) (rest : Bytes)
            → load_round c now dbs db (out ++ rest)
              ≡ add_loaded c now dbs db (time_or_minus_one (find expires key)) key (normal o) rest)
  unfolding save_entry value_part load_typed load_value
  entry-round saved expires key o h good t a =
      let (otype, out, small, saves, loads) = law o good in
      let expiretime = time_or_minus_one (find expires key) in
      let text = save_raw_string c.compress c.rdbcompression key in
      (
        expire_part expiretime ++ (otype ∷ (text ++ out)),
        rw (a, saves) refl,
        omega (arith, length-append (expire_part expiretime) (otype ∷ (text ++ out))),
        (λ dbs db rest.
            rw
              (
                append_assoc (expire_part expiretime) (otype ∷ (text ++ out)) rest,
                expire_part-round c now dbs db expiretime otype ((text ++ out) ++ rest) t small,
                append_assoc text out rest,
              )
              (typed-round key otype (text ++ (out ++ rest)) (out ++ rest) rest (normal o) dbs db
                expiretime small (key-read key (out ++ rest) h) (loads rest))),
      )
