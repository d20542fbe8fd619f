-- ===== src/Protocol.antt =====
-- networking.c: processMultibulkBuffer, the parser of requests with counted arguments. The part of
-- the buffer before `pos` is dropped where the code moves `pos`, and its length is kept.
pub mod Line
pub mod Request
pub mod Limit
pub mod Pieces
pub mod Resume
pub mod Fed
use gridapps.Prelude.{
  none, some, pos, negsuc, [], ◌∷◌, zero, suc, Bytes, ℕ, Option, if◌then◌else◌, List, ◌*◌, ◌==◌,
  ltb, ℤ, drop, length, ◌++◌, ◌+◌, not, take,
}
use gridapps.Util.Number.{string2ll}

-- The part of a redisClient that the parser uses. `bulklen` is `none` for -1.
pub record Reader : Type 0 where
  pub querybuf : Bytes
  pub multibulklen : ℕ
  pub bulklen : Option ℕ
  pub argv : List Bytes

pub data Problem : Type 0 where
  big_count_string : Problem
  invalid_count : Problem
  big_bulk_string : Problem
  expected_dollar : ℕ → Problem
  invalid_bulk : Problem

-- REDIS_OK, REDIS_ERR where data is missing, REDIS_ERR with a reply and the connection to be closed
-- behind it, or a failed assertion.
pub data Parsed : Type 0 where
  complete : Reader → Parsed
  more : Reader → Parsed
  refused : Problem → Reader → Parsed
  aborted : Parsed

abbrev pub inline_max_size : ℕ
inline_max_size = 1024 * 64

-- strchr(s, '\r'): the text before it, and from it on. The search ends at a nul.
unfoldable pub find_cr : Bytes → Option (Bytes × Bytes)
find_cr [] = none
find_cr (c ∷ s) =
    let found = find_cr s in
    if c == 13
    then some ([], c ∷ s)
    else if c == 0
    then none
    else elim found [ none ↦ none | some (line, tail) ↦ some (c ∷ line, tail) ]

-- What one round of the loop finds: an argument and what is behind it, or a reason to leave it, with
-- what is known of the length and the buffer from `pos` on.
pub data Bulk : Type 0 where
  argument : Bytes → Bytes → Bulk
  need : Option ℕ → Bytes → Bulk
  problem : Problem → Bulk

unfoldable pub read_argument : ℕ → Bytes → Bulk
read_argument len s =
    if ltb (length s) (len + 2) then need (some len) s else argument (take len s) (drop (len + 2) s)

unfoldable pub checked_length : Option ℤ → Option ℕ
checked_length none = none
checked_length (some (negsuc n)) = none
checked_length (some (pos n)) = if ltb (512 * 1024 * 1024) n then none else some n

-- Behind the '$', whose line ends before `tail`.
unfoldable pub with_length : Bytes → Option ℕ → Bulk
with_length tail none = problem invalid_bulk
with_length tail (some len) = read_argument len (drop 2 tail)

-- The line with a length, of a buffer that begins with it. An empty line has the '\r' in front.
unfoldable pub read_length : Bytes → Bytes × Bytes → Bulk
read_length s ([], tail) = if ltb (length tail) 2 then need none s else problem (expected_dollar 13)
read_length s (c ∷ digits, tail) =
    if ltb (length tail) 2
    then need none s
    else if not (c == b'$')
    then problem (expected_dollar c)
    else with_length tail (checked_length (string2ll digits))

unfoldable pub read_line : ℕ → Bytes → Option (Bytes × Bytes) → Bulk
read_line total s none = if ltb inline_max_size total then problem big_bulk_string else need none s
read_line total s (some found) = read_length s found

-- `total` is sdslen(c->querybuf), which counts the part before `pos` too.
unfoldable pub read_bulk : ℕ → Option ℕ → Bytes → Bulk
read_bulk total (some len) s = read_argument len s
read_bulk total none s = read_line total s (find_cr s)

-- `while(c->multibulklen)`
unfoldable pub bulk_loop : ℕ → ℕ → Option ℕ → List Bytes → Bytes → Parsed
bulk_loop zero total bulklen argv s =
    complete (record { querybuf = s; multibulklen = 0; bulklen = bulklen; argv = argv })
bulk_loop (suc n) total bulklen argv s = elim (read_bulk total bulklen s) [
  | argument a rest ↦ bulk_loop n total none (argv ++ a ∷ []) rest
  | need len rest ↦
      more (record { querybuf = rest; multibulklen = suc n; bulklen = len; argv = argv })
  | problem p ↦
      refused p (record { querybuf = s; multibulklen = suc n; bulklen = none; argv = argv })
]

-- `ll` arguments, behind the line that counts them.
unfoldable pub with_count : Reader → Bytes → Option ℤ → Parsed
with_count c tail none = refused invalid_count c
with_count c tail (some (negsuc n)) = complete (record c { querybuf = drop 2 tail })
with_count c tail (some (pos n)) =
    if ltb (1024 * 1024) n
    then refused invalid_count c
    else if n == 0
    then complete (record c { querybuf = drop 2 tail })
    else bulk_loop n (length c.querybuf) c.bulklen c.argv (drop 2 tail)

unfoldable pub read_count : Reader → Option (Bytes × Bytes) → Parsed
read_count c none =
    if ltb inline_max_size (length c.querybuf) then refused big_count_string c else more c
read_count c (some ([], tail)) = if ltb (length tail) 2 then more c else aborted
read_count c (some (x ∷ digits, tail)) =
    if ltb (length tail) 2
    then more c
    else if x == b'*'
    then with_count c tail (string2ll digits)
    else aborted

unfoldable pub process_multibulk_buffer : Reader → Parsed
process_multibulk_buffer c =
    if c.multibulklen == 0
    then if length c.argv == 0 then read_count c (find_cr c.querybuf) else aborted
    else bulk_loop c.multibulklen (length c.querybuf) c.bulklen c.argv c.querybuf
