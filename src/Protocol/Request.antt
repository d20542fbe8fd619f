-- ===== src/Protocol/Request.antt =====
-- networking.c: a whole request is parsed as its arguments.
use gridapps.Protocol.Line.{find_cr-line}
use gridapps.Util.Number.RoundTrip.{string2ll-print, ll2string-print}
use gridapps.Util.Number.{ll2string, print, digits, string2ll}
use gridapps.Protocol.{
  read_argument, read_bulk, read_line, read_length, argument, with_length, checked_length,
  bulk_loop, complete, Reader, process_multibulk_buffer, read_count, with_count,
}
use gridapps.Prelude.{
  none, pos, [], ◌∷◌, Bytes, List, length, ◌++◌, ◌≤◌, ◌≡◌, ◌*◌, ℕ, some, refl, arith, drop, ◌+◌,
  drop-append_more, append-nil, take-append, append_assoc, length-append, ◌<◌, suc, ◌∙◌,
}

abbrev pub crlf : Bytes
crlf = 13 ∷ 10 ∷ []

-- An argument as the protocol sends it: `$`, its length, and its bytes.
abbrev pub bulk : Bytes → Bytes
bulk a = b'$' ∷ (ll2string 32 (pos (length a)) ++ (crlf ++ (a ++ crlf)))

abbrev pub bulks : List Bytes → Bytes
bulks [] = []
bulks (a ∷ args) = bulk a ++ bulks args

-- A request: `*`, the count of the arguments, and the arguments.
abbrev pub request : List Bytes → Bytes
request args = b'*' ∷ (ll2string 32 (pos (length args)) ++ (crlf ++ bulks args))

-- No argument is longer than 512 MB.
abbrev pub Short : List Bytes → Type 0
Short [] = Unit
Short (a ∷ args) = (length a ≤ 512 * 1024 * 1024) × Short args

read_argument-eq :
    (a rest : Bytes) → read_argument (length a) (a ++ (crlf ++ rest)) ≡ argument a rest
unfolding read_argument
read_argument-eq a rest =
    let behind : drop (length a + 2) (a ++ (crlf ++ rest)) ≡ rest =
      drop-append_more a (crlf ++ rest) 2 in
    rw (take-append a (crlf ++ rest), behind) (ground (arith, length-append a (crlf ++ rest)))

-- An argument is read from what is sent for it.
pub read_bulk-bulk :
    (total : ℕ) (a rest : Bytes)
    → length a ≤ 512 * 1024 * 1024
    → read_bulk total none (bulk a ++ rest) ≡ argument a rest
unfolding read_bulk read_line read_length with_length checked_length print
read_bulk-bulk total a rest h =
    let n = length a in
    let text : ll2string 32 (pos n) ≡ digits n [] = ll2string-print (pos n) (omega arith) in
    let same : bulk a ++ rest ≡ b'$' ∷ (digits n [] ++ (13 ∷ 10 ∷ (a ++ (crlf ++ rest)))) =
      rw (text, append_assoc (digits n []) (crlf ++ (a ++ crlf)) rest, append_assoc a crlf rest)
        refl in
    let value : string2ll (digits n []) ≡ some (pos n) = string2ll-print (pos n) (omega arith) in
    rw (same, find_cr-line b'$' n (10 ∷ (a ++ (crlf ++ rest))) (omega arith), value)
      (ground (arith, read_argument-eq a rest))

loop_argument :
    (n total : ℕ) (argv : List Bytes) (s a rest : Bytes)
    → read_bulk total none s ≡ argument a rest
    → bulk_loop (suc n) total none argv s ≡ bulk_loop n total none (argv ++ a ∷ []) rest
unfolding bulk_loop
loop_argument n total argv s a rest h = ground arith

loop-bulks :
    (total : ℕ) (args argv : List Bytes) (rest : Bytes)
    → Short args
    → bulk_loop (length args) total none argv (bulks args ++ rest)
      ≡ complete (record { querybuf = rest; multibulklen = 0; bulklen = none; argv = argv ++ args })
unfolding bulk_loop
loop-bulks total [] argv rest h = rw (append-nil argv) refl
loop-bulks total (a ∷ args) argv rest (short, others) =
    loop_argument (length args) total argv (bulk a ++ bulks args ++ rest) a (bulks args ++ rest) (
      rw (append_assoc (bulk a) (bulks args) rest)
        (read_bulk-bulk total a (bulks args ++ rest) short))
    ∙ loop-bulks total args (argv ++ a ∷ []) rest others
    ∙ rw (append_assoc argv (a ∷ []) args) refl

-- A client that waits for a request.
abbrev pub idle : Bytes → Reader
idle s = record { querybuf = s; multibulklen = 0; bulklen = none; argv = [] }

-- A buffer that begins with a whole request, of at least one and at most 1048576 arguments of at most
-- 512 MB each, is parsed as exactly these arguments, whatever bytes they have, and what is behind the
-- request stays in the buffer.
pub process_multibulk_buffer-request :
    (args : List Bytes) (rest : Bytes)
    → 0 < length args
    → length args ≤ 1024 * 1024
    → Short args
    → process_multibulk_buffer (idle (request args ++ rest))
      ≡ complete (record { querybuf = rest; multibulklen = 0; bulklen = none; argv = args })
unfolding process_multibulk_buffer read_count with_count print
process_multibulk_buffer-request args rest p q h =
    let n = length args in
    let text : ll2string 32 (pos n) ≡ digits n [] = ll2string-print (pos n) (omega arith) in
    let same : request args ++ rest ≡ b'*' ∷ (digits n [] ++ (13 ∷ 10 ∷ (bulks args ++ rest))) =
      rw (text, append_assoc (digits n []) (crlf ++ bulks args) rest) refl in
    let value : string2ll (digits n []) ≡ some (pos n) = string2ll-print (pos n) (omega arith) in
    rw (same, find_cr-line b'*' n (10 ∷ (bulks args ++ rest)) (omega arith), value)
      (ground (arith, loop-bulks (length (request args ++ rest)) args [] rest h))
