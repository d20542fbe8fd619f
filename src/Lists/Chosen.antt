-- ===== src/Lists/Chosen.antt =====
-- t_list.c: the range of LRANGE and LTRIM against a description of it by the places of the elements.
use gridapps.Prelude.{
  false, refl, pos, negsuc, zero, suc, [], arith, ◌∷◌, ℕ, List, ℤ, Bool, Bytes, ◌<◌, leb, length,
  ◌≤◌, ◌+◌, if◌then◌else◌, ◌^◌, ◌&&◌, ◌≡◌, take, ◌-◌, drop, ◌∙◌, none, some, inl, inr, sym, Option,
  Bool-cases, ◌+ℤ◌, ◌-ℤ◌, ltb, ◌||◌,
}
use gridapps.Lists.Ranges.{range_of, not_negative, from_tail, clip}
use gridapps.Lists.{wrap32}

-- Whether a place is at or behind the first index of a range, in a list of length `n`. A negative
-- index `- (a + 1)` means the element with `a` others behind it.
abbrev pub from_start : ℕ → ℤ → ℕ → Bool
from_start n (pos a) i = leb a i
from_start n (negsuc a) i = leb n (i + a + 1)

abbrev pub to_end : ℕ → ℤ → ℕ → Bool
to_end n (pos b) i = leb i b
to_end n (negsuc b) i = leb (i + b + 1) n

-- The elements whose places pass a test; the places begin at `i`.
abbrev pub keep : (ℕ → Bool) → ℕ → List Bytes → List Bytes
keep p i [] = []
keep p i (x ∷ l) = if p i then x ∷ keep p (i + 1) l else keep p (i + 1) l

-- The elements from one index to another.
abbrev pub chosen : List Bytes → ℤ → ℤ → List Bytes
chosen l a b = keep (λ i. from_start (length l) a i && to_end (length l) b i) 0 l

abbrev pub InInt32 : ℤ → Type 0
InInt32 (pos n) = n < 2 ^ 31
InInt32 (negsuc n) = n < 2 ^ 31

pub keep_none :
    (p : ℕ → Bool) (i : ℕ) (l : List Bytes)
    → ((j : ℕ) → i ≤ j → j < i + length l → p j ≡ false)
    → keep p i l ≡ []
keep_none p i [] h = refl
keep_none p i (x ∷ l) h =
    rw (h i (omega arith) (omega arith))
      (keep_none p (i + 1) l λ j a b. h j (omega arith) (omega arith))

take-nil : (n : ℕ) → take {A = Bytes} n [] ≡ []
take-nil zero = refl
take-nil (suc n) = refl

keep_taking :
    (p : ℕ → Bool) (e i : ℕ) (l : List Bytes)
    → ((j : ℕ) → i ≤ j → j < i + length l → p j ≡ leb j e)
    → keep p i l ≡ take (e + 1 - i) l
keep_taking p e i [] h = sym (take-nil (e + 1 - i))
keep_taking p e i (x ∷ l) h =
    let rest = keep_taking p e (i + 1) l (λ j a b. h j (omega arith) (omega arith)) in
    let here = h i (omega arith) (omega arith) in
    elim (Bool-cases (leb i e)) [
      | inl inside ↦
          let more : e + 1 - i ≡ suc (e + 1 - (i + 1)) = ground arith in
          rw (more, here, inside, rest)
      | inr outside ↦
          let all : e + 1 - i ≡ 0 = ground arith in
          let less : e + 1 - (i + 1) ≡ 0 = ground arith in rw (all, here, outside, rest, less)
    ]

pub keep-drop :
    (p : ℕ → Bool) (s e k i : ℕ) (l : List Bytes)
    → i + k ≡ s
    → ((j : ℕ) → i ≤ j → j < i + length l → p j ≡ (leb s j && leb j e))
    → keep p i l ≡ take (e + 1 - s) (drop k l)
keep-drop p s e zero i l q h =
    let same : i ≡ s = omega arith in
    keep_taking p e i l (λ j a b. ground (arith, h j a b)) ∙ rw same refl
keep-drop p s e (suc k) i [] q h = sym (take-nil (e + 1 - s))
keep-drop p s e (suc k) i (x ∷ l) q h =
    let out : p i ≡ false = ground (arith, h i) in
    rw out (keep-drop p s e k (i + 1) l (omega arith) (λ j a b. h j (omega arith) (omega arith)))

-- The range that the two commands compute is that of the places between the indices.
abbrev pub Clips : (ℕ → Bool) → ℕ → Option (ℕ × ℕ) → Type 0
Clips p n none = (j : ℕ) → j < n → p j ≡ false
Clips p n (some (s, e)) = (s ≤ e) × (e < n) × ((j : ℕ) → j < n → p j ≡ (leb s j && leb j e))

pub wrap32_id : (v : ℤ) → InInt32 v → wrap32 v ≡ v
unfolding wrap32
wrap32_id (pos n) h = ground arith
wrap32_id (negsuc n) h = ground arith

-- The places that the indices mean.
abbrev start_place : ℕ → ℤ → ℕ
start_place n (pos a) = a
start_place n (negsuc a) = n - (a + 1)

abbrev end_place : ℕ → ℤ → ℤ
end_place n (pos b) = pos b
end_place n (negsuc b) = pos n +ℤ negsuc b

abbrev up_to : ℤ → ℕ → Bool
up_to (pos e) j = leb j e
up_to (negsuc e) j = false

sum_small : (n a : ℕ) → n < 2 ^ 31 → a < 2 ^ 31 → InInt32 (pos n +ℤ negsuc a)
unfolding ◌+ℤ◌
sum_small n a h k = ground arith

from_tail-start :
    (n : ℕ) (a : ℤ)
    → n < 2 ^ 31
    → InInt32 a
    → not_negative (from_tail (pos n) a) ≡ pos (start_place n a)
unfolding from_tail ◌+ℤ◌
from_tail-start n (pos a) h k = ground arith
from_tail-start n (negsuc a) h k = ground (arith, wrap32_id (pos n +ℤ negsuc a), sum_small n a h k)

from_tail-end : (n : ℕ) (b : ℤ) → n < 2 ^ 31 → InInt32 b → from_tail (pos n) b ≡ end_place n b
unfolding from_tail
from_tail-end n (pos b) h k = ground arith
from_tail-end n (negsuc b) h k = ground (arith, wrap32_id (pos n +ℤ negsuc b), sum_small n b h k)

from_start-place : (n i : ℕ) (a : ℤ) → from_start n a i ≡ leb (start_place n a) i
from_start-place n i (pos a) = refl
from_start-place n i (negsuc a) = ground arith

to_end-place : (n i : ℕ) (b : ℤ) → to_end n b i ≡ up_to (end_place n b) i
unfolding ◌+ℤ◌
to_end-place n i (pos b) = refl
to_end-place n i (negsuc b) = ground arith

pub clip-pos :
    (n s e : ℕ)
    → clip (pos n) (pos s) (pos e)
      ≡ (if ltb e s || leb n s then none else some (s, if leb n e then n - 1 else e))
unfolding clip ◌-ℤ◌
clip-pos n s e = ground arith

pub clip-negsuc : (n s e : ℕ) → clip (pos n) (pos s) (negsuc e) ≡ none
unfolding clip
clip-negsuc n s e = ground arith

clip-Clips :
    (p : ℕ → Bool) (n s : ℕ) (e : ℤ)
    → ((j : ℕ) → p j ≡ (leb s j && up_to e j))
    → Clips p n (clip (pos n) (pos s) e)
clip-Clips p n s (pos e) h = elim (Bool-cases (ltb e s || leb n s)) [
  | inl out ↦ rw (clip-pos n s e, out) λ j k. ground (arith, h j)
  | inr within ↦ elim (Bool-cases (leb n e)) [
    | inl over ↦
        rw (clip-pos n s e, within, over) (ground arith, ground arith, λ j k. ground (arith, h j))
    | inr under ↦
        rw (clip-pos n s e, within, under) (ground arith, ground arith, λ j k. ground (arith, h j))
  ]
]
clip-Clips p n s (negsuc e) h = rw (clip-negsuc n s e) λ j k. ground (arith, h j)

pub range_of-Clips :
    (n : ℕ) (a b : ℤ)
    → n < 2 ^ 31
    → InInt32 a
    → InInt32 b
    → Clips (λ i. from_start n a i && to_end n b i) n (range_of (wrap32 (pos n)) a b)
unfolding range_of
range_of-Clips n a b small ha hb =
    rw (wrap32_id (pos n) small, from_tail-start n a small ha, from_tail-end n b small hb)
      (clip-Clips (λ i. from_start n a i && to_end n b i) n (start_place n a) (end_place n b)
        (λ j. rw (from_start-place n j a, to_end-place n j b) refl))
