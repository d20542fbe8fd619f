-- ===== src/Tests/Numbers.antt =====
-- Witnesses on numbers and on strings as objects.
use gridapps.Reply.{wild}
use gridapps.Util.Number.RoundTrip.{string2l-eq-string2ll, string2ll_iff}
use gridapps.Strings.Range.{getrange_reply}
use gridapps.Strings.Range.Slice.{carried, slice, getrange_reply-slice, getrange_reply-wild}
use gridapps.Util.Number.{string2ll, string2l, ll2string}
use gridapps.Prelude.{some, pos, negsuc, arith, codes, ◌≡◌, ◌^◌, ◌↔◌, InInt64, ◌+◌}

string2ll_iff_example :
    (string2ll (codes "-42") ≡ some (negsuc 41))
    ↔ (InInt64 (negsuc 41) × (ll2string 32 (negsuc 41) ≡ codes "-42"))
string2ll_iff_example = string2ll_iff (codes "-42") (negsuc 41)

string2l_example : string2l (codes "-42") ≡ string2ll (codes "-42")
string2l_example = string2l-eq-string2ll (codes "-42")

slice_example :
    carried (getrange_reply (codes "hello") (negsuc 2) (pos 9))
    ≡ some (slice (codes "hello") (negsuc 2) (pos 9))
slice_example = getrange_reply-slice (codes "hello") (negsuc 2) (pos 9) (omega arith) (omega arith)

wild_example : getrange_reply (codes "hello") (pos 0) (pos (2 ^ 32)) ≡ wild 0 (2 ^ 32 + 1)
wild_example =
    getrange_reply-wild (codes "hello") (2 ^ 32) (omega arith) (omega arith) (omega arith)
