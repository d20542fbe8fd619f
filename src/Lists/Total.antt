-- ===== src/Lists/Total.antt =====
-- t_list.c: LRANGE reads and LTRIM deletes only elements that are there, whatever the length of the
-- list: an int that holds it wrongly is never more than it.
use gridapps.Prelude.{
  none, some, refl, pos, negsuc, inl, inr, [], arith, ℤ, ℕ, ◌-ℤ◌, List, Option, Bool-cases, ◌≡◌,
  pos_part, Bytes, ◌≤◌, ltb, ◌<◌, ◌||◌, ◌+◌, leb, ◌-◌, ◌/◌, length, drop, take, ap, ◌∙◌,
  length-drop,
}
use gridapps.Lists.Chosen.{clip-pos, clip-negsuc}
use gridapps.Lists.Taken.{read_run-take, del_first-drop, del_last-take}
use gridapps.Lists.Ranges.{
  clip, range_of, not_negative, elements, read_from, trimmed, trims, nearest, del_last, del_last_of,
  llen_of, from_tail,
}
use gridapps.Lists.{wrap32, list_index}

-- The range lies in the first elements that an int counts.
abbrev InPart : ℤ → Option (ℕ × ℕ) → Type 0
InPart llen none = Unit
InPart llen (some (s, e)) = (s ≤ e) × (e < pos_part llen)

clip-InPart : (llen : ℤ) (s : ℕ) (e : ℤ) → InPart llen (clip llen (pos s) e)
unfolding clip
clip-InPart (pos n) s (pos e) = elim (Bool-cases (ltb e s || leb n s)) [
  | inl out ↦ rw (clip-pos n s e, out) tt
  | inr within ↦ elim (Bool-cases (leb n e)) [
    | inl over ↦ rw (clip-pos n s e, within, over) (ground arith, ground arith)
    | inr under ↦ rw (clip-pos n s e, within, under) (ground arith, ground arith)
  ]
]
clip-InPart (pos n) s (negsuc e) = rw (clip-negsuc n s e) tt
clip-InPart (negsuc n) s e =
    let empty : clip (negsuc n) (pos s) e ≡ none = ground arith in rw empty tt

not_negative-pos : (n : ℤ) → (k : ℕ) × (not_negative n ≡ pos k)
not_negative-pos (pos n) = (n, ground arith)
not_negative-pos (negsuc n) = (0, ground arith)

range_of-InPart : (llen a b : ℤ) → InPart llen (range_of llen a b)
unfolding range_of
range_of-InPart llen a b =
    let (k, e) = not_negative-pos (from_tail llen a) in rw e (clip-InPart llen k (from_tail llen b))

llen_of-small : (n : ℕ) → pos_part (wrap32 (pos n)) ≤ n
unfolding wrap32
llen_of-small n = ground arith

-- The element is there, and all that are read behind it.
list_index-there :
    (n s m : ℕ) (llen : ℤ)
    → llen ≡ pos m
    → s < m
    → m ≤ n
    → (i : ℕ) × (list_index n (nearest llen s) ≡ some i) × (i + (m - s) ≤ n)
unfolding list_index ◌-ℤ◌
list_index-there n s m llen q h k = elim (Bool-cases (ltb (m / 2) s)) [
  | inl far ↦ (n - 1 - (m - s - 1), rw q (ground arith), omega arith)
  | inr near ↦ (s, rw q (ground arith), omega arith)
]

as_pos : (v : ℤ) → 0 < pos_part v → v ≡ pos (pos_part v)
as_pos (pos n) h = refl
as_pos (negsuc n) h = absurd (omega arith)

elements-Some :
    (l : List Bytes) (r : Option (ℕ × ℕ))
    → InPart (llen_of l) r
    → (m : List Bytes) × (elements l r ≡ some m)
unfolding elements read_from
elements-Some l none h = ([], refl)
elements-Some l (some (s, e)) (q, k) =
    let m = pos_part (llen_of l) in
    let (i, found, room) =
      list_index-there (length l) s m (llen_of l) (as_pos (llen_of l) (omega arith)) (omega arith)
        (llen_of-small (length l)) in
    (
      take (e - s + 1) (drop i l),
      ap (read_from l (e - s + 1)) found
          ∙ read_run-take (e - s + 1) (drop i l) (omega (arith, length-drop i l)),
    )

trimmed-Some :
    (l : List Bytes) (r : Option (ℕ × ℕ))
    → InPart (llen_of l) r
    → (m : List Bytes) × (trimmed l (trims (llen_of l) r) ≡ some m)
unfolding trimmed trims del_last
trimmed-Some l none h =
    let m = pos_part (llen_of l) in
    (drop m l, ap (del_last_of 0) (del_first-drop m l (llen_of-small (length l))))
trimmed-Some l (some (s, e)) (q, k) =
    let m = pos_part (llen_of l) in
    let few : m ≤ length l = llen_of-small (length l) in
    let left = m - e - 1 in
    (
      take (length (drop s l) - left) (drop s l),
      ap (del_last_of left) (del_first-drop s l (omega arith))
          ∙ del_last-take left (drop s l) (omega (arith, length-drop s l)),
    )

module _ (l : List Bytes) (a b : ℤ) where
  pub elements_total : (m : List Bytes) × (elements l (range_of (llen_of l) a b) ≡ some m)
  elements_total = elements-Some l _ (range_of-InPart (llen_of l) a b)

  pub trimmed_total :
      (m : List Bytes) × (trimmed l (trims (llen_of l) (range_of (llen_of l) a b)) ≡ some m)
  trimmed_total = trimmed-Some l _ (range_of-InPart (llen_of l) a b)
