-- ===== src/Rdb/Snapshot.antt =====
-- rdb.c: rdbSave and rdbLoad. The values are written and read by a Format, for which module
-- Rdb.Strings gives the strings. The virtual memory is off; opening, flushing and renaming the file
-- are left out, and so are a failed write and the events that rdbLoad serves meanwhile. A `time_t` is
-- the seconds as an integer.
use gridapps.Prelude
use gridapps.Prelude.{
  false, none, some, pos, negsuc, zero, suc, [], ◌∷◌, Option, Map, ℤ, ℕ, Bytes, List, Bool, bits64,
  find, codes, drop, ◌++◌, if◌then◌else◌, ◌+◌, ◌||◌, length, put, not, ◌==◌, ◌*◌, ltb_ℤ, ltb,
  get_elem?, bytes_eq, ◌^◌, take,
}
use gridapps.Object.{Robj, raw, strtoll}
use gridapps.Db.{present, time_or_minus_one}
use gridapps.Rdb.{
  Load, loaded, byte, signed, save_len, load_len, save_raw_string, load_string_object, lenerr,
  fread, null, panic,
}

-- getObjectSaveType with rdbSaveObject (`none` for a failed assertion), and rdbLoadObject.
pub record Format : Type 0 where
  pub save : Robj → Option (ℕ × Bytes)
  pub load : ℕ → Bytes → Load

-- One of server.db.
pub record Database : Type 0 where
  pub dict : Map Robj
  pub expires : Map ℤ

abbrev pub is_minus_one : ℤ → Bool
is_minus_one (pos n) = false
is_minus_one (negsuc n) = n == 0

-- The low 32 bits, the lowest byte first.
unfoldable pub save_time : ℤ → Bytes
save_time t = let w = bits64 t in byte 0 w ∷ byte 1 w ∷ byte 2 w ∷ byte 3 w ∷ []

-- A key without a time, or with one that is not over.
abbrev pub alive : ℕ → ℤ → Bool
alive now t = is_minus_one t || not (ltb_ℤ t (pos now))

-- One text behind another, if neither failed.
unfoldable pub both : Option Bytes → Option Bytes → Option Bytes
both (some a) (some b) = some (a ++ b)
both (some a) none = none
both none b = none

unfoldable pub expire_part : ℤ → Bytes
expire_part t = if is_minus_one t then [] else 253 ∷ save_time t

unfoldable pub value_part : Bytes → Bytes → Option (ℕ × Bytes) → Option Bytes
value_part front key none = none
value_part front key (some (otype, out)) = some (front ++ (otype ∷ (key ++ out)))

-- How a server writes and reads: the format, the compression library, `server.rdbcompression`,
-- `server.dbnum`, and whether `server.masterhost` is set.
pub record Config : Type 0 where
  pub format : Format
  pub compress : Bytes → ℕ → Option Bytes
  pub decompress : Bytes → ℕ → Option Bytes
  pub rdbcompression : Bool
  pub dbnum : ℕ
  pub slave : Bool

-- An entry of the dictionary; the key is a raw string.
unfoldable pub save_entry : Config → ℕ → Map ℤ → Bytes × Robj → Option Bytes
save_entry c now expires (key, o) =
    let expiretime = time_or_minus_one (find expires key) in
    if alive now expiretime
    then value_part (expire_part expiretime) (save_raw_string c.compress c.rdbcompression key)
        (c.format.save o)
    else some []

unfoldable pub save_entries : Config → ℕ → Map ℤ → Map Robj → Option Bytes
save_entries c now expires [] = some []
save_entries c now expires (e ∷ m) =
    both (save_entry c now expires e) (save_entries c now expires m)

-- The databases from number `j` on; an empty one is left out.
unfoldable pub save_dbs : Config → ℕ → ℕ → List Database → Option Bytes
save_dbs c now j [] = some []
save_dbs c now j (db ∷ dbs) =
    let rest = save_dbs c now (j + 1) dbs in
    if length db.dict == 0
    then rest
    else both (some (254 ∷ save_len j)) (both (save_entries c now db.expires db.dict) rest)

unfoldable pub rdb_save : Config → ℕ → List Database → Option Bytes
rdb_save c now dbs = both (some (codes "REDIS0002")) (both (save_dbs c now 0 dbs) (some (255 ∷ [])))

-- REDIS_OK with the databases, REDIS_ERR, exit(1), or a failed assertion.
pub data Loaded : Type 0 where
  ok : List Database → Loaded
  err : Loaded
  exit : Loaded
  aborted : Loaded

-- What one round of the loop leaves: the databases, the number of the current one, and the file.
pub data Round : Type 0 where
  next : List Database → ℕ → Bytes → Round
  stopped : Loaded → Round

unfoldable pub select_db : Config → List Database → Bytes → Round
select_db c dbs s =
    let dbid = load_len s in
    if dbid.len == lenerr
    then stopped exit
    else if ltb dbid.len c.dbnum
    then next dbs dbid.len dbid.rest
    else stopped exit

-- dbAdd, whose assertion fails for a key that is there, and setExpire. The number of the database was
-- tested when it was selected.
unfoldable pub add_to : Option Database → Bytes → Robj → ℤ → Option Database
add_to none key val expiretime = none
add_to (some db) key val expiretime =
    if present db.dict key
    then none
    else some (record {
      dict = put db.dict key val;
      expires = if is_minus_one expiretime then db.expires else put db.expires key expiretime;
    })

unfoldable pub add_loaded : Config → ℕ → List Database → ℕ → ℤ → Bytes → Robj → Bytes → Round
add_loaded c now dbs db expiretime key val s =
    if c.slave || alive now expiretime
    then elim (add_to (get_elem? dbs db) key val expiretime) [
      | none ↦ stopped aborted
      | some db' ↦ next (Prelude.set dbs db db') db s
    ]
    else next dbs db s

unfoldable pub add_value : Config → ℕ → List Database → ℕ → ℤ → Bytes → Load → Round
add_value c now dbs db expiretime key (loaded val s) = add_loaded c now dbs db expiretime key val s
add_value c now dbs db expiretime key null = stopped exit
add_value c now dbs db expiretime key panic = stopped aborted

-- The value behind a key. A key that is read with no encoding asked for is raw.
unfoldable pub load_value : Config → ℕ → List Database → ℕ → ℤ → ℕ → Load → Round
load_value c now dbs db expiretime type (loaded (raw key) s) =
    add_value c now dbs db expiretime key (c.format.load type s)
load_value c now dbs db expiretime type (loaded o s) = stopped aborted
load_value c now dbs db expiretime type null = stopped exit
load_value c now dbs db expiretime type panic = stopped aborted

unfoldable pub load_typed : Config → ℕ → List Database → ℕ → ℤ → ℕ → Bytes → Round
load_typed c now dbs db expiretime type s =
    if type == 255
    then stopped (ok dbs)
    else if type == 254
    then select_db c dbs s
    else load_value c now dbs db expiretime type (load_string_object c.decompress false s)

-- Behind the opcode of an expire time.
unfoldable pub load_expiring : Config → ℕ → List Database → ℕ → Bytes → Round
load_expiring c now dbs db (x0 ∷ x1 ∷ x2 ∷ x3 ∷ type ∷ s) =
    let expiretime = signed 32 (x0 + x1 * 256 + x2 * 256 ^ 2 + x3 * 256 ^ 3) in
    if is_minus_one expiretime then stopped exit else load_typed c now dbs db expiretime type s
load_expiring c now dbs db s = stopped exit

unfoldable pub load_round : Config → ℕ → List Database → ℕ → Bytes → Round
load_round c now dbs db [] = stopped exit
load_round c now dbs db (type ∷ s) =
    if type == 253 then load_expiring c now dbs db s else load_typed c now dbs db (negsuc 0) type s

-- Every round reads a byte at least, so the length of the file and one is enough fuel.
unfoldable pub load_loop : Config → ℕ → ℕ → List Database → ℕ → Bytes → Loaded
load_loop c now zero dbs db s = exit
load_loop c now (suc fuel) dbs db s = elim (load_round c now dbs db s) [
  | next dbs' db' s' ↦ load_loop c now fuel dbs' db' s'
  | stopped r ↦ r
]

-- Behind the signature and the version.
unfoldable pub load_header : Config → ℕ → List Database → Option (Bytes × Bytes) → Loaded
load_header c now dbs none = exit
load_header c now dbs (some (buf, s)) =
    let rdbver = (strtoll (drop 5 buf)).value in
    if not (bytes_eq (take 5 buf) (codes "REDIS"))
    then err
    else if ltb_ℤ rdbver (pos 1) || ltb_ℤ (pos 2) rdbver
    then err
    else load_loop c now (length s + 1) dbs 0 s

unfoldable pub rdb_load : Config → ℕ → List Database → Bytes → Loaded
rdb_load c now dbs s = load_header c now dbs (fread 9 s)
