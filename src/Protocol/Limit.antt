-- ===== src/Protocol/Limit.antt =====
-- networking.c: the limit of 64 kB for a line of a request.
use gridapps.Protocol.Line.{find_cr-line}
use gridapps.Util.Number.RoundTrip.{ll2string-print, string2ll-print}
use gridapps.Protocol.Request.{crlf, bulk, request, bulks, idle, read_bulk-bulk}
use gridapps.Util.Number.{ll2string, print, digits, string2ll}
use gridapps.Protocol.{
  bulk_loop, process_multibulk_buffer, read_bulk, read_count, read_line, with_count, find_cr,
  inline_max_size, refused, big_bulk_string, argument,
}
use gridapps.Prelude.{
  none, some, refl, pos, suc, [], arith, ◌∷◌, Bytes, List, length, ℕ, ◌++◌, ◌≤◌, ◌<◌, ◌*◌, ◌≡◌,
  append-nil, ap, length-append, sym, ◌∙◌, append_assoc,
}

-- What is sent of a request of two arguments at least, up to the end of the first one.
abbrev pub begun : Bytes → Bytes → List Bytes → Bytes
begun a b args = b'*' ∷ (ll2string 32 (pos (length (a ∷ b ∷ args))) ++ (crlf ++ bulk a))

big_loop :
    (n total : ℕ) (a : Bytes)
    → length a ≤ 512 * 1024 * 1024
    → inline_max_size < total
    → bulk_loop (suc (suc n)) total none [] (bulk a)
      ≡ refused big_bulk_string
          (record { querybuf = []; multibulklen = suc n; bulklen = none; argv = a ∷ [] })
unfolding bulk_loop read_bulk read_line find_cr
big_loop n total a h big =
    let first : read_bulk total none (bulk a) ≡ argument a [] =
      ap (read_bulk total none) (sym (append-nil (bulk a))) ∙ read_bulk-bulk total a [] h in
    ground (arith, first)

-- The limit counts the arguments that are parsed already: where the first of at least two and at most
-- 1048576 arguments is longer than 64 kB, and at most 512 MB, and the data that has arrived ends just
-- behind it, the request, which is whole with the arguments to come, is refused for a too big count
-- string.
pub process_multibulk_buffer-begun :
    (a b : Bytes) (args : List Bytes)
    → inline_max_size < length a
    → length a ≤ 512 * 1024 * 1024
    → length (a ∷ b ∷ args) ≤ 1024 * 1024
    → (request (a ∷ b ∷ args) ≡ begun a b args ++ bulks (b ∷ args))
      × (process_multibulk_buffer (idle (begun a b args))
          ≡ refused big_bulk_string (record {
            querybuf = [];
            multibulklen = suc (length args);
            bulklen = none;
            argv = a ∷ [];
          }))
unfolding process_multibulk_buffer read_count with_count print
process_multibulk_buffer-begun a b args big h q =
    let n = length (a ∷ b ∷ args) in
    let text : ll2string 32 (pos n) ≡ digits n [] = ll2string-print (pos n) (omega arith) in
    let same : begun a b args ≡ b'*' ∷ (digits n [] ++ (13 ∷ 10 ∷ bulk a)) = rw text refl in
    let value : string2ll (digits n []) ≡ some (pos n) = string2ll-print (pos n) (omega arith) in
    let size = ll2string 32 (pos (length a)) in
    let total = length (b'*' ∷ (digits n [] ++ (13 ∷ 10 ∷ bulk a))) in
    let large : inline_max_size < total = omega (
      arith,
      length-append (digits n []) (13 ∷ 10 ∷ bulk a),
      length-append size (crlf ++ (a ++ crlf)),
      length-append a crlf,
    ) in
    (
      ap (b'*' ∷◌) (sym (append_assoc (ll2string 32 (pos n)) (crlf ++ bulk a) (bulks (b ∷ args)))),
      rw (same, find_cr-line b'*' n (10 ∷ bulk a) (omega arith), value)
          (ground (arith, big_loop (length args) total a h large)),
    )
