-- ===== src/Tests/Dumps.antt =====
-- The dump file at concrete values.
use gridapps.Rdb.Text.{load_string_object-save_string_object}
use gridapps.Rdb.Entries.{no_keys}
use gridapps.Rdb.Databases.{GoodDatabases, emptied, all_restored, rdb_load-rdb_save}
use gridapps.Rdb.Strings.{string_format, as_encoded, string_format-Restores}
use gridapps.Rdb.{save_string_object, save_len}
use gridapps.Object.{get_decoded_object, raw, int}
use gridapps.Rdb.Snapshot.{Config, rdb_save, Database, rdb_load, ok}
use gridapps.Rdb.Reads.{IsLzf, Stored, Reads}
use gridapps.Rdb.Snapshot.{
  both, save_dbs, save_entries, save_entry, value_part, expire_part, save_time,
}
use gridapps.Rdb.Strings.{typed}
use gridapps.Rdb.{
  save_len, save_raw_string, first_written, try_integer_encoding, encode_integer,
  save_lzf_string_object,
}
use gridapps.Object.{strtoll, strtoll_digits, digit_run, skip_space}
use gridapps.Util.Number.{ll2string, digits}
use gridapps.Prelude.{
  true, false, none, some, refl, pos, [], arith, ◌∷◌, Bytes, List, find, ℕ, bytes_eq_iff, bytes_eq,
  ◌≡◌, codes, Option, replicate, ◌++◌, if◌then◌else◌, length, leb, ◌&&◌,
}

-- A compression of texts of one byte repeated.
abbrev compress_run : Bytes → ℕ → Option Bytes
compress_run [] n = none
compress_run (b ∷ s) n =
    if leb 1 n && bytes_eq (replicate (length (b ∷ s)) b) (b ∷ s) then some (b ∷ []) else none

abbrev decompress_run : Bytes → ℕ → Option Bytes
decompress_run [] n = none
decompress_run (b ∷ s) n = some (replicate n b)

run-IsLzf : IsLzf compress_run decompress_run
run-IsLzf [] n c h = ground arith
run-IsLzf (b ∷ s) n c h = ground (arith, bytes_eq_iff (replicate (length (b ∷ s)) b) (b ∷ s))

abbrev dump_config : Config
dump_config = record {
  format = string_format compress_run decompress_run true;
  compress = compress_run;
  decompress = decompress_run;
  rdbcompression = true;
  dbnum = 2;
  slave = false;
}

-- A number with a time, a text that is compressed, and a key whose time is over.
abbrev dumped : List Database
dumped =
    record {
      dict =
          (codes "n", raw (codes "-300"))
          ∷ (codes "x", raw (replicate 30 b'x'))
          ∷ (codes "old", int (pos 7))
          ∷ [];
      expires = (codes "n", pos 2000) ∷ (codes "old", pos 900) ∷ [];
    }
    ∷ no_keys
    ∷ []

dumped-GoodDatabases : GoodDatabases Stored dumped
unfolding find bytes_eq
dumped-GoodDatabases = ground arith

rdb_load-rdb_save_example :
    (out : Bytes) × (rdb_save dump_config 1000 dumped ≡ some out)
    × (rdb_load dump_config 1500 (emptied dumped) (out ++ codes "tail")
        ≡ ok (all_restored dump_config as_encoded 1000 1500 dumped))
rdb_load-rdb_save_example =
    rdb_load-rdb_save dump_config run-IsLzf Stored as_encoded
      (string_format-Restores dump_config run-IsLzf refl) 1000 1500 dumped (codes "tail")
      dumped-GoodDatabases refl (omega arith)

load_string_example :
    (out : Bytes) × (save_string_object compress_run true (raw (codes "-300")) ≡ some out)
    × Reads decompress_run true out (codes "-300") (codes "tail")
unfolding get_decoded_object
load_string_example =
    load_string_object-save_string_object compress_run decompress_run run-IsLzf true true
      (raw (codes "-300")) (codes "-300") (codes "tail") (omega arith) refl

-- The bytes of the whole file: the number in two bytes, the run in one, and no trace of the key
-- whose time is over.
abbrev file : Bytes
file =
    codes "REDIS0002"
    ++ (254 ∷ 0 ∷ 253 ∷ 208 ∷ 7 ∷ 0 ∷ 0 ∷ 0 ∷ 1 ∷ b'n' ∷ 193 ∷ 212 ∷ 254 ∷ 0 ∷ 1 ∷ b'x' ∷ 195 ∷ 1
        ∷ 30 ∷ b'x' ∷ 255 ∷ [])

file_written : rdb_save dump_config 1000 dumped ≡ some file
unfolding rdb_save both save_dbs save_entries save_entry find bytes_eq value_part string_format
    typed save_string_object save_len expire_part save_time save_raw_string first_written
    try_integer_encoding strtoll strtoll_digits digit_run skip_space ll2string digits encode_integer
    save_lzf_string_object
file_written = refl
