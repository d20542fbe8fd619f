-- ===== src/Tests/Requests.antt =====
-- Requests at concrete values.
use gridapps.Protocol.Fed.{fed, process_multibulk_buffer-fed}
use gridapps.Protocol.Limit.{begun, process_multibulk_buffer-begun}
use gridapps.Util.Number.{ll2string, print, digits}
use gridapps.Protocol.Request.{request, idle, bulks, crlf, process_multibulk_buffer-request}
use gridapps.Protocol.{process_multibulk_buffer, complete, refused, big_bulk_string, Reader, more}
use gridapps.Protocol.{
  read_count, find_cr, with_count, bulk_loop, read_bulk, read_line, read_length, with_length,
  checked_length, read_argument,
}
use gridapps.Util.Number.{string2ll, from_first, scan, with_sign}
use gridapps.Prelude.{
  none, refl, [], arith, ◌∷◌, List, Bytes, length, codes, replicate, ◌≡◌, ◌++◌, length-replicate, ℕ,
  some, inr,
}

abbrev set_request : List Bytes
set_request = codes "SET" ∷ codes "k" ∷ [] ∷ []

request_example :
    process_multibulk_buffer (idle (request set_request ++ codes "*1"))
    ≡ complete
        (record { querybuf = codes "*1"; multibulklen = 0; bulklen = none; argv = set_request })
request_example =
    process_multibulk_buffer-request set_request (codes "*1") (omega arith) (omega arith)
      (ground arith)

-- The first piece ends inside an argument.
abbrev first_piece : Bytes
first_piece = codes "*2" ++ crlf ++ codes "$3" ++ crlf ++ codes "GE"

abbrev kept : Reader
kept = record { querybuf = codes "GE"; multibulklen = 2; bulklen = some 3; argv = [] }

first_piece-kept : process_multibulk_buffer (idle first_piece) ≡ more kept
unfolding process_multibulk_buffer read_count find_cr with_count bulk_loop read_bulk read_line
    read_length with_length checked_length read_argument string2ll from_first scan with_sign
first_piece-kept = refl

fed_example :
    process_multibulk_buffer (fed kept (codes "T"))
    ≡ process_multibulk_buffer (fed (idle first_piece) (codes "T"))
fed_example =
    process_multibulk_buffer-fed (idle first_piece) kept (codes "T") (inr (refl, refl))
      (omega arith) (omega arith) first_piece-kept

-- An argument of one byte more than the limit for lines.
abbrev big_argument : Bytes
big_argument = replicate 65537 b'x'

length-big_argument : length big_argument ≡ 65537
length-big_argument = length-replicate {A = ℕ} 65537 b'x'

begun_example :
    (request (big_argument ∷ codes "k" ∷ [])
      ≡ begun big_argument (codes "k") [] ++ bulks (codes "k" ∷ []))
    × (process_multibulk_buffer (idle (begun big_argument (codes "k") []))
        ≡ refused big_bulk_string
            (record { querybuf = []; multibulklen = 1; bulklen = none; argv = big_argument ∷ [] }))
begun_example =
    process_multibulk_buffer-begun big_argument (codes "k") [] (omega (arith, length-big_argument))
      (omega (arith, length-big_argument)) (omega arith)

request_text :
    request set_request
    ≡ codes "*3"
      ++ crlf
      ++ codes "$3"
      ++ crlf
      ++ codes "SET"
      ++ crlf
      ++ codes "$1"
      ++ crlf
      ++ codes "k"
      ++ crlf
      ++ codes "$0"
      ++ crlf
      ++ crlf
unfolding ll2string print digits
request_text = refl
