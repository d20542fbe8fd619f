-- ===== src/Rdb/Databases.antt =====
-- rdb.c: rdbLoad restores what rdbSave writes.
use gridapps.Rdb.Length.{load_len-save_len, fread-append}
use gridapps.Rdb.{lenerr, save_len, fread}
use gridapps.Rdb.Restore.{Restores, Loads, Loads-nil, Loads-append, Loads-round}
use gridapps.Rdb.Entries.{GoodEntries, no_keys, restored, restored_entries, entries-Loads}
use gridapps.Rdb.Reads.{IsLzf}
use gridapps.Rdb.Snapshot.{
  Config, load_round, Database, load_typed, select_db, save_dbs, next, both, rdb_save, rdb_load,
  load_header, ok, load_loop,
}
use gridapps.Object.{Robj, strtoll, strtoll_digits}
use gridapps.Prelude.{
  some, refl, [], arith, ◌∷◌, List, ℕ, Bytes, ◌<◌, length, ◌+◌, ◌≤◌, ◌≡◌, ◌++◌, none, length-append,
  Option, Map, append_assoc, ℤ, sym, find, ◌∙◌, codes, suc, bytes_eq, ◌-◌,
}

-- Each is good.
abbrev pub GoodDatabases : (Robj → Type 0) → List Database → Type 0
GoodDatabases Good [] = Unit
GoodDatabases Good (db ∷ dbs) = GoodEntries Good db.expires db.dict × GoodDatabases Good dbs

-- As many empty databases, the state of a server that begins to load.
abbrev pub emptied : List Database → List Database
emptied [] = []
emptied (db ∷ dbs) = no_keys ∷ emptied dbs

-- Each as it is loaded.
abbrev pub all_restored : Config → (Robj → Robj) → ℕ → ℕ → List Database → List Database
all_restored c normal saved now [] = []
all_restored c normal saved now (db ∷ dbs) =
    restored c normal saved now db ∷ all_restored c normal saved now dbs

select_db-round :
    (c : Config) (now n : ℕ) (dbs : List Database) (db : ℕ) (rest : Bytes)
    → n < c.dbnum
    → n < lenerr
    → load_round c now dbs db ((254 ∷ save_len n) ++ rest) ≡ next dbs n rest
unfolding load_round load_typed select_db
select_db-round c now n dbs db rest h p = rw (load_len-save_len n rest (omega arith)) (ground arith)

both-nil : (r : Option Bytes) → both (some []) r ≡ r
unfolding both
both-nil none = refl
both-nil (some b) = refl

both_assoc :
    (a b : Bytes) (r : Option Bytes) → both (some a) (both (some b) r) ≡ both (some (a ++ b)) r
unfolding both
both_assoc a b none = refl
both_assoc a b (some r) = rw (append_assoc a b r) refl

-- The signature and the version of a file that is written.
header_loop :
    (c : Config) (now : ℕ) (dbs : List Database) (s : Bytes)
    → load_header c now dbs (some (codes "REDIS0002", s)) ≡ load_loop c now (length s + 1) dbs 0 s
unfolding load_header strtoll bytes_eq strtoll_digits
header_loop c now dbs s = refl

eof_loop :
    (c : Config) (now n : ℕ) (dbs : List Database) (db : ℕ) (s : Bytes)
    → load_loop c now (suc n) dbs db (255 ∷ s) ≡ ok dbs
unfolding load_loop load_round load_typed
eof_loop c now n dbs db s = refl

module _ (c : Config) (lzf : IsLzf c.compress c.decompress) (Good : Robj → Type 0)
    (normal : Robj → Robj) (law : Restores c Good normal) (saved now : ℕ) where
  -- The databases that are left, behind those that are loaded.
  -- One database: nothing is written for an empty one.
  db-Loads :
      (front after dbs : List Database) (expires : Map ℤ) (m : Map Robj)
      → GoodEntries Good expires m
      → length front < c.dbnum
      → length front < lenerr
      → (out : Bytes) × (save_dbs c saved
            (length front)
            (record { dict = m; expires = expires } ∷ dbs)
          ≡ both (some out) (save_dbs c saved (length front + 1) dbs))
        × ((db : ℕ)
            → (db' : ℕ) × Loads c now out
                (front ++ (no_keys ∷ after))
                db
                (front ++ (restored_entries c normal saved now expires m ∷ after))
                db')
  unfolding save_dbs restored_entries
  db-Loads front after dbs expires [] good h p = (
    [],
    sym (both-nil (save_dbs c saved (length front + 1) dbs)),
    (λ db. (db, Loads-nil c now _ _)),
  )
  db-Loads front after dbs expires (e ∷ m) good h p =
      let (out, saves, loads) =
        entries-Loads c lzf Good normal law saved now expires (e ∷ m) good in
      let header = 254 ∷ save_len (length front) in
      (
        header ++ out,
        ground (arith, saves, both_assoc header out (save_dbs c saved (length front + 1) dbs)),
        (λ db. (
          length front,
          Loads-append c now header out _ _ _ _ _ _
              (Loads-round c now header _ _ db _ (omega arith)
                (λ rest. select_db-round c now (length front) _ db rest h p))
              (loads front after no_keys (λ key e. (unfold find in (refl, refl)))),
        )),
      )

  dbs-Loads :
      (front dbs : List Database)
      → GoodDatabases Good dbs
      → length front + length dbs ≤ c.dbnum
      → c.dbnum < lenerr
      → (out : Bytes) × (save_dbs c saved (length front) dbs ≡ some out)
        × ((db : ℕ)
            → (db' : ℕ) × Loads c now out
                (front ++ emptied dbs)
                db
                (front ++ all_restored c normal saved now dbs)
                db')
  unfolding save_dbs both
  dbs-Loads front [] good h p = ([], refl, (λ db. (db, Loads-nil c now _ _)))
  dbs-Loads front (d ∷ dbs) (good, rest) h p =
      let (first, saves, loads) =
        db-Loads front (emptied dbs) dbs d.expires d.dict good (omega arith) (omega arith) in
      let d' = restored c normal saved now d in
      let (others, saves', loads') =
        dbs-Loads (front ++ (d' ∷ [])) dbs rest (omega (arith, length-append front (d' ∷ []))) p in
      let next_number : length (front ++ (d' ∷ [])) ≡ length front + 1 =
        length-append front (d' ∷ []) in
      (
        first ++ others,
        saves ∙ rw (← next_number, saves') refl,
        (λ db.
            let (db1, l1) = loads db in
            let (db2, l2) = loads' db1 in
            (
              db2,
              Loads-append c now first others _ _ _ _ _ _ l1 (
                  rw
                    (
                      append_assoc front (d' ∷ []) (emptied dbs),
                      append_assoc front (d' ∷ []) (all_restored c normal saved now dbs),
                    )
                    at l2),
            )),
      )

  -- rdbLoad of a file that rdbSave wrote, to a server with as many databases and nothing in them,
  -- succeeds and gives each database the keys whose times were not over when it was saved nor, except
  -- on a slave, when it is loaded, in their order, with the same times and with the values that the
  -- format restores. There are fewer than 2 ^ 32 - 1 databases, the keys of each are distinct and
  -- shorter than 2 ^ 32 - 1, the times fit 32 bits, and the format restores the values. A text that
  -- the compression library makes has between one byte and as many as it is given, and is
  -- decompressed to what it was made of. Bytes behind the file change nothing.
  pub rdb_load-rdb_save :
      (dbs : List Database) (trailing : Bytes)
      → GoodDatabases Good dbs
      → length dbs ≡ c.dbnum
      → c.dbnum < lenerr
      → (out : Bytes) × (rdb_save c saved dbs ≡ some out)
        × (rdb_load c now (emptied dbs) (out ++ trailing)
            ≡ ok (all_restored c normal saved now dbs))
  unfolding rdb_save rdb_load both
  rdb_load-rdb_save dbs trailing good h p =
      let (body, saves, loads) = dbs-Loads [] dbs good (omega arith) p in
      let (db, (k, le, rounds)) = loads 0 in
      let header = codes "REDIS0002" in
      let s = body ++ (255 ∷ trailing) in
      let read : fread 9 (header ++ s) ≡ some (header, s) = fread-append header s in
      let fuel : length s + 1 ≡ k + suc (length s - k) =
        omega (arith, length-append body (255 ∷ trailing)) in
      (
        header ++ (body ++ (255 ∷ [])),
        rw saves refl,
        rw
            (
              append_assoc header (body ++ (255 ∷ [])) trailing,
              append_assoc body (255 ∷ []) trailing,
              read,
              header_loop c now (emptied dbs) s,
              fuel,
            )
            (rounds (suc (length s - k)) (255 ∷ trailing) ∙ eof_loop c now _ _ db trailing),
      )
