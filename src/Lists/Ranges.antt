-- ===== src/Lists/Ranges.antt =====
-- t_list.c: LRANGE and LTRIM.
use mathlib.Core.Option
use gridapps.Prelude.{
  none, some, pos, zero, suc, [], ◌∷◌, ℤ, List, ℕ, Option, Bytes, length, drop, take, if◌then◌else◌,
  ◌-◌, ltb_ℤ, ltb, ◌+◌, ◌+ℤ◌, ◌||◌, ◌/◌, leb_ℤ, ◌-ℤ◌, pos_part,
}
use gridapps.Lists.{changed, with_list, store_list, list_index, atoi, wrap32}
use gridapps.Strings.Basic.{abort}
use gridapps.Reply.{Reply, Replies, nil, cons, multi, ok, bulk}
use gridapps.Db.{◌>>=◌, ◌>>◌, pure, Env, M, lookup_key_write, lookup_key_read}

-- `if (n < 0) n = llen+n`
unfoldable pub from_tail : ℤ → ℤ → ℤ
unfolding wrap32
from_tail llen n = if ltb_ℤ n (pos 0) then wrap32 (llen +ℤ n) else n

abbrev pub not_negative : ℤ → ℤ
not_negative n = if ltb_ℤ n (pos 0) then pos 0 else n

-- The first and the last place of a range; `none` if the range is empty.
unfoldable pub clip : ℤ → ℤ → ℤ → Option (ℕ × ℕ)
clip llen start end' =
    if ltb_ℤ end' start || leb_ℤ llen start
    then none
    else some (pos_part start, pos_part (if leb_ℤ llen end' then llen -ℤ pos 1 else end'))

unfoldable pub range_of : ℤ → ℤ → ℤ → Option (ℕ × ℕ)
unfolding from_tail clip
range_of llen start end' = clip llen (not_negative (from_tail llen start)) (from_tail llen end')

-- `int llen`
abbrev pub llen_of : List Bytes → ℤ
llen_of l = wrap32 (pos (length l))

-- So many elements from a node on; `none` is a read behind the last.
unfoldable pub read_run : ℕ → List Bytes → Option (List Bytes)
read_run zero l = some []
read_run (suc n) [] = none
read_run (suc n) (x ∷ l) = Option.map (λ xs. x ∷ xs) (read_run n l)

-- From behind the middle, the place is reached from the tail.
abbrev pub nearest : ℤ → ℕ → ℤ
nearest llen start = if ltb (pos_part llen / 2) start then pos start -ℤ llen else pos start

unfoldable pub read_from : List Bytes → ℕ → Option ℕ → Option (List Bytes)
read_from l n none = read_run n []
read_from l n (some i) = read_run n (drop i l)

unfoldable pub elements : List Bytes → Option (ℕ × ℕ) → Option (List Bytes)
unfolding list_index
elements l none = some []
elements l (some (s, e)) = read_from l (e - s + 1) (list_index (length l) (nearest (llen_of l) s))

abbrev pub bulks : List Bytes → Replies
bulks [] = nil
bulks (x ∷ l) = cons (bulk x) (bulks l)

unfoldable pub multi_bulk : Option (List Bytes) → M Reply
unfolding pure abort
multi_bulk none = abort
multi_bulk (some l) = pure (multi (bulks l))

unfoldable pub lrange_command : Env → Bytes → Bytes → Bytes → M Reply
unfolding pure
lrange_command env key start end' = do
  found ← lookup_key_read env key
  with_list (multi nil)
      (λ l. multi_bulk (elements l (range_of (llen_of l) (atoi start) (atoi end')))) found

-- How many elements go at the head, and how many at the tail; a loop to a negative number has no
-- rounds.
unfoldable pub trims : ℤ → Option (ℕ × ℕ) → ℕ × ℕ
trims llen none = (pos_part llen, 0)
trims llen (some (s, e)) = (s, pos_part llen - e - 1)

-- One deletion at an end for each; `none` is one from an empty list.
unfoldable pub del_first : ℕ → List Bytes → Option (List Bytes)
del_first zero l = some l
del_first (suc n) [] = none
del_first (suc n) (x ∷ l) = del_first n l

unfoldable pub del_last : ℕ → List Bytes → Option (List Bytes)
del_last zero l = some l
del_last (suc n) [] = none
del_last (suc n) (x ∷ l) = del_last n (take (length l) (x ∷ l))

abbrev pub del_last_of : ℕ → Option (List Bytes) → Option (List Bytes)
del_last_of n none = none
del_last_of n (some l) = del_last n l

unfoldable pub trimmed : List Bytes → ℕ × ℕ → Option (List Bytes)
trimmed l (ltrim, rtrim) = del_last_of rtrim (del_first ltrim l)

unfoldable pub trim_rest : Bytes → Option (List Bytes) → M Reply
unfolding abort
trim_rest key none = abort
trim_rest key (some l) = do store_list key l; changed key ok

unfoldable pub ltrim_command : Env → Bytes → Bytes → Bytes → M Reply
ltrim_command env key start end' = do
  found ← lookup_key_write env key
  with_list ok
      (λ l.
        trim_rest key
          (trimmed l (trims (llen_of l) (range_of (llen_of l) (atoi start) (atoi end')))))
      found
