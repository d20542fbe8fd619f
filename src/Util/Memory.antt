-- ===== src/Util/Memory.antt =====
-- memtoll of util.c: amounts of memory such as `10mb`. The text is a C string, so it has no nul.
use mathlib.Core.List.{map}
use gridapps.Db.{is_some}
use mathlib.Core.Option.{IsSome}
use gridapps.Util.Number.{is_digit}
use mathlib.Core.Option
use gridapps.Prelude.{
  true, none, some, pos, negsuc, [], ◌∷◌, Bytes, ℕ, ℤ, if◌then◌else◌, Bool, Option, ◌*◌, ◌==◌, leb,
  bytes_eq, ◌||◌, neg, ◌&&◌, codes, ◌+◌, length, llong_max, wrap64, not, false, refl, ◌≡◌,
}
use gridapps.Object.{strtoll, strtoll_digits}

-- The longest start of a text that has digits only, and what is behind it.
unfoldable pub span_digits : Bytes → Bytes × Bytes
span_digits [] = ([], [])
span_digits (c ∷ s) =
    let rest = span_digits s in if is_digit c then (c ∷ rest.0, rest.1) else ([], c ∷ s)

-- The number with its sign, and the unit at `u`.
unfoldable pub number_and_unit : Bytes → Bytes × Bytes
number_and_unit [] = ([], [])
number_and_unit (c ∷ s) =
    let rest = span_digits s in if c == b'-' then (c ∷ rest.0, rest.1) else span_digits (c ∷ s)

-- tolower in the C locale
abbrev pub to_lower : ℕ → ℕ
to_lower c = if leb b'A' c && leb c b'Z' then c + 32 else c

-- `!strcasecmp(u, name)`
unfoldable pub same_unit : Bytes → Bytes → Bool
same_unit u name = bytes_eq (map to_lower u) name

-- `mul`, or `none` for an unknown unit
unfoldable pub unit_multiplier : Bytes → Option ℕ
unit_multiplier u =
    if same_unit u [] || same_unit u (codes "b")
    then some 1
    else if same_unit u (codes "k")
    then some 1000
    else if same_unit u (codes "kb")
    then some 1024
    else if same_unit u (codes "m")
    then some (1000 * 1000)
    else if same_unit u (codes "mb")
    then some (1024 * 1024)
    else if same_unit u (codes "g")
    then some (1000 * 1000 * 1000)
    else if same_unit u (codes "gb")
    then some (1024 * 1024 * 1024)
    else none

-- The product of an integer and a multiplier.
abbrev pub scale : ℤ → ℕ → ℤ
scale (pos n) m = pos (n * m)
scale (negsuc n) m = neg ((n + 1) * m)

-- The value and `*err`. The buffer has 128 bytes.
unfoldable pub memtoll : Bytes → ℤ × Bool
memtoll p =
    let (number, u) = number_and_unit p in
    if leb 128 (length number) then (llong_max, true) else (
      wrap64 (scale (strtoll number).value (Option.get_or (unit_multiplier u) 1)),
      not (is_some (unit_multiplier u)),
    )

one_gigabyte : memtoll (codes "1Gb") ≡ (pos 1073741824, false)
unfolding memtoll number_and_unit span_digits wrap64 unit_multiplier strtoll same_unit
    strtoll_digits bytes_eq
one_gigabyte = refl

unknown_unit : memtoll (codes "-3x") ≡ (negsuc 2, true)
unfolding memtoll number_and_unit span_digits wrap64 unit_multiplier strtoll same_unit
    strtoll_digits bytes_eq
unknown_unit = refl
