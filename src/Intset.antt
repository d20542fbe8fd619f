-- ===== src/Intset.antt =====
-- intset.c: a set of integers as an ascending array, all elements in one of three widths. An element
-- stands as the value that it decodes to; the bytes of the array are not modelled, so neither are
-- the byte order and the order in which an upgrade moves the elements.
pub mod Search
pub mod Insert
pub mod Valid
pub mod Member
use gridapps.Prelude.{
  true, false, none, some, refl, pos, negsuc, zero, suc, [], ◌∷◌, ℕ, ℤ, List, ◌≡◌, if◌then◌else◌,
  get_or, ◌+◌, Bool, Option, ◌%◌, ltb_ℤ, ◌-◌, not, length, ltb, leb, ◌^◌, ◌/◌, ◌&&◌, ◌==◌, ◌++◌,
  ◌*◌, ◌||◌,
}

pub record Intset : Type 0 where
  pub encoding : ℕ
  pub contents : List ℤ

-- sizeof(int16_t), sizeof(int32_t), sizeof(int64_t)
abbrev pub enc_int16 : ℕ
enc_int16 = 2

abbrev pub enc_int32 : ℕ
enc_int32 = 4

abbrev pub enc_int64 : ℕ
enc_int64 = 8

unfoldable pub intset_value_encoding : ℤ → ℕ
intset_value_encoding v =
    if ltb_ℤ v (negsuc (2 ^ 31 - 1)) || ltb_ℤ (pos (2 ^ 31 - 1)) v
    then enc_int64
    else if ltb_ℤ v (negsuc (2 ^ 15 - 1)) || ltb_ℤ (pos (2 ^ 15 - 1)) v
    then enc_int32
    else enc_int16

-- `_intsetGet`; the position is in range where the code calls it.
abbrev pub value_at : List ℤ → ℕ → ℤ
value_at xs i = get_or xs i (pos 0)

abbrev pub intset_new : Intset
intset_new = record { encoding = enc_int16; contents = [] }

-- The variables of the search when its loop ends; `mid` and `cur` are those of the last round.
pub record Probe : Type 0 where
  pub low : ℕ
  pub mid : ℕ
  pub cur : ℤ

-- `while(max >= min)`, with `high` for max + 1. A round halves what is left, so as many rounds as
-- there are elements are enough.
unfoldable pub search_loop : ℕ → List ℤ → ℤ → ℕ → ℕ → Probe → Probe
search_loop zero xs value low high r = record r { low = low }
search_loop (suc fuel) xs value low high r =
    let mid = (low + high - 1) / 2 in
    let cur = value_at xs mid in
    let up =
      search_loop fuel xs value (mid + 1) high (record { low = low; mid = mid; cur = cur }) in
    let down = search_loop fuel xs value low mid (record { low = low; mid = mid; cur = cur }) in
    if ltb low high
    then if ltb_ℤ cur value
      then up
      else if ltb_ℤ value cur
      then down
      else record { low = low; mid = mid; cur = cur }
    else record r { low = low }

abbrev pub eq_ℤ : ℤ → ℤ → Bool
eq_ℤ a b = not (ltb_ℤ a b) && not (ltb_ℤ b a)

-- Whether the value was found, and its position or the one where it can be inserted.
unfoldable pub intset_search : List ℤ → ℤ → Bool × ℕ
intset_search xs value =
    if length xs == 0
    then (false, 0)
    else if ltb_ℤ (value_at xs (length xs - 1)) value
    then (false, length xs)
    else if ltb_ℤ value (value_at xs 0)
    then (false, 0)
    else let r =
        search_loop (length xs) xs value 0 (length xs)
          (record { low = 0; mid = 0; cur = negsuc 0 }) in
      if eq_ℤ value r.cur then (true, r.mid) else (false, r.low)

-- The value goes to one end, since it lies outside the range of the old width.
unfoldable pub intset_upgrade_and_add : Intset → ℤ → Intset
intset_upgrade_and_add s value = record {
  encoding = intset_value_encoding value;
  contents = if ltb_ℤ value (pos 0) then value ∷ s.contents else s.contents ++ value ∷ [];
}

-- intsetMoveTail and `_intsetSet`: the elements from a position on move up by one.
unfoldable pub insert_at : ℕ → ℤ → List ℤ → List ℤ
insert_at zero v xs = v ∷ xs
insert_at (suc p) v [] = v ∷ []
insert_at (suc p) v (x ∷ xs) = x ∷ insert_at p v xs

-- intsetMoveTail over a position.
unfoldable pub remove_at : ℕ → List ℤ → List ℤ
remove_at p [] = []
remove_at zero (x ∷ xs) = xs
remove_at (suc p) (x ∷ xs) = x ∷ remove_at p xs

-- Behind the search, with its result.
unfoldable pub add_at : Intset → ℤ → Bool × ℕ → Intset × Bool
add_at s value (true, p) = (s, false)
add_at s value (false, p) = (record s { contents = insert_at p value s.contents }, true)

-- The set, and `*success`.
unfoldable pub intset_add : Intset → ℤ → Intset × Bool
intset_add s value =
    if ltb s.encoding (intset_value_encoding value)
    then (intset_upgrade_and_add s value, true)
    else add_at s value (intset_search s.contents value)

-- Behind the search, with its result.
unfoldable pub remove_found : Intset → Bool × ℕ → Intset × Bool
remove_found s (true, p) = (record s { contents = remove_at p s.contents }, true)
remove_found s (false, p) = (s, false)

unfoldable pub intset_remove : Intset → ℤ → Intset × Bool
intset_remove s value =
    if leb (intset_value_encoding value) s.encoding
    then remove_found s (intset_search s.contents value)
    else (s, false)

unfoldable pub intset_find : Intset → ℤ → Bool
intset_find s value =
    leb (intset_value_encoding value) s.encoding && (intset_search s.contents value).0

-- `*value` when the position is in range, else 0 is returned.
unfoldable pub intset_get : Intset → ℕ → Option ℤ
intset_get s p = if ltb p (length s.contents) then some (value_at s.contents p) else none

-- With rand() given.
unfoldable pub intset_random : ℕ → Intset → ℤ
intset_random random s = value_at s.contents (random % length s.contents)

-- The header has 8 bytes.
unfoldable pub intset_blob_len : Intset → ℕ
intset_blob_len s = 8 + length s.contents * s.encoding

search_runs : intset_search (negsuc 4 ∷ pos 1 ∷ pos 3 ∷ pos 9 ∷ []) (pos 4) ≡ (false, 3)
unfolding intset_search search_loop
search_runs = refl
