-- ===== src/Rdb/Length.antt =====
-- rdb.c: rdbSaveLen and rdbLoadLen.
use gridapps.Prelude.{
  false, some, arith, ℕ, Bytes, ◌<◌, length, ◌^◌, ◌++◌, ◌≡◌, length-append, take-append,
  drop-append,
}
use gridapps.Rdb.{save_len, load_len, load_len_14, load_len_32, fread}

-- A length of at most 32 bits is read back from the one, two or five bytes it is saved as, whatever
-- follows them, and is not taken for an encoding.
pub load_len-save_len :
    (n : ℕ) (rest : Bytes)
    → n < 2 ^ 32
    → load_len (save_len n ++ rest) ≡ record { len = n; isencoded = false; rest = rest }
unfolding save_len load_len load_len_14 load_len_32
load_len-save_len n rest h = ground arith

-- The bytes of a text are read back as they are, whatever follows them.
pub fread-append : (s rest : Bytes) → fread (length s) (s ++ rest) ≡ some (s, rest)
unfolding fread
fread-append s rest = ground (arith, length-append s rest, take-append s rest, drop-append s rest)
