-- ===== src/Lists/Edited.antt =====
-- t_list.c: what LREM takes out, where LINSERT puts, and what a pop takes.
use mathlib.Core.Option
use gridapps.Lists.{last, list_type_pop, list_type_push}
use Prim.Native.Nat.{min}
use gridapps.Prelude.{
  refl, zero, suc, inl, inr, [], arith, ◌∷◌, ℕ, Bytes, if◌then◌else◌, List, ◌==◌, bytes_eq, ◌≡◌,
  ◌+◌, Bool-cases, true, false, ◌≤◌, ap, ◌∙◌, none, some, leb, Bool, ◌++◌, Option, bytes_eq_iff,
}
use gridapps.Lists.Edits.{lrem_loop, insert_by}
use gridapps.Multi.Watch.{count_key}

-- The list without the first so many elements that equal the value.
abbrev pub without_first : ℕ → Bytes → List Bytes → List Bytes
without_first zero v l = l
without_first (suc k) v [] = []
without_first (suc k) v (x ∷ l) =
    if bytes_eq x v then without_first k v l else x ∷ without_first (suc k) v l

-- How many are to go; 0 is no limit.
abbrev pub quota : ℕ → ℕ → ℕ
quota n all = if n == 0 then all else min n all

without_first-other :
    (k : ℕ) (v x : Bytes) (l : List Bytes)
    → bytes_eq x v ≡ false
    → without_first k v (x ∷ l) ≡ x ∷ without_first k v l
without_first-other zero v x l h = refl
without_first-other (suc k) v x l h = rw h refl

without_first-same :
    (k : ℕ) (v x : Bytes) (l : List Bytes)
    → bytes_eq x v ≡ true
    → without_first (k + 1) v (x ∷ l) ≡ without_first k v l
without_first-same k v x l h = let one : k + 1 ≡ suc k = omega arith in rw (one, h) refl

-- A limit above the count of the elements is none.
without_first-more :
    (k : ℕ) (v : Bytes) (l : List Bytes)
    → count_key l v ≤ k
    → without_first k v l ≡ without_first (count_key l v) v l
without_first-more zero v [] h = refl
without_first-more (suc k) v [] h = refl
without_first-more zero v (x ∷ l) h =
    let none_left : count_key (x ∷ l) v ≡ 0 = omega arith in rw none_left refl
without_first-more (suc k) v (x ∷ l) h = elim (Bool-cases (bytes_eq x v)) [
  | inl same ↦
      let here : count_key (x ∷ l) v ≡ count_key l v + 1 = ground arith in
      rw (here, without_first-same (count_key l v) v x l same, same)
        (without_first-more k v l (omega arith))
  | inr other ↦
      let here : count_key (x ∷ l) v ≡ count_key l v = ground arith in
      rw (here, without_first-other (count_key l v) v x l other, other)
        (ap (λ m. x ∷ m) (without_first-more (suc k) v l (omega arith)))
]

-- The test for a value by all its bytes.
abbrev pub equals : Bytes → Bytes → Bool
equals v x = bytes_eq x v

-- The loop, from what was removed before it on.
lrem_loop-all :
    (r : ℕ) (v : Bytes) (l : List Bytes)
    → lrem_loop 0 r (equals v) l ≡ (r + count_key l v, without_first (count_key l v) v l)
unfolding lrem_loop
lrem_loop-all r v [] = ground arith
lrem_loop-all r v (x ∷ l) = elim (Bool-cases (bytes_eq x v)) [
  | inl same ↦
      ground (arith, lrem_loop-all (r + 1) v l, without_first-same (count_key l v) v x l same)
  | inr other ↦ ground (arith, lrem_loop-all r v l, without_first-other (count_key l v) v x l other)
]

lrem_loop-limit :
    (n d r : ℕ) (v : Bytes) (l : List Bytes)
    → r + (d + 1) ≡ n
    → lrem_loop n r (equals v) l ≡ (r + min (d + 1) (count_key l v), without_first (d + 1) v l)
unfolding lrem_loop
lrem_loop-limit n zero r v [] h = ground arith
lrem_loop-limit n (suc d) r v [] h = ground arith
lrem_loop-limit n zero r v (x ∷ l) h = elim (Bool-cases (bytes_eq x v)) [
  | inl same ↦ ground (arith, without_first-same 0 v x l same)
  | inr other ↦ ground (arith, lrem_loop-limit n 0 r v l h, without_first-other 1 v x l other)
]
lrem_loop-limit n (suc d) r v (x ∷ l) h = elim (Bool-cases (bytes_eq x v)) [
  | inl same ↦
      ground (
        arith,
        lrem_loop-limit n d (r + 1) v l (omega arith),
        without_first-same (d + 1) v x l same,
      )
  | inr other ↦
      ground (arith, lrem_loop-limit n (suc d) r v l h, without_first-other (suc d + 1) v x l other)
]

-- The loop of LREM, from the head: with a limit that is not 0 it removes that many of the elements
-- that equal the value, the first ones, or all where there are fewer; with no limit all. It counts
-- what it removes and leaves the rest in its order.
pub lrem_loop-quota :
    (n : ℕ) (v : Bytes) (l : List Bytes)
    → lrem_loop n 0 (equals v) l
      ≡ (quota n (count_key l v), without_first (quota n (count_key l v)) v l)
lrem_loop-quota zero v l =
    let all : 0 + count_key l v ≡ count_key l v = omega arith in
    lrem_loop-all 0 v l ∙ λ i. (all i, without_first (count_key l v) v l)
lrem_loop-quota (suc n) v l =
    lrem_loop-limit (suc n) n 0 v l (omega arith)
    ∙ elim (Bool-cases (leb (count_key l v) (n + 1))) [
      | inl few ↦ ground (arith, without_first-more (n + 1) v l)
      | inr many ↦
          let least : min (n + 1) (count_key l v) ≡ n + 1 = ground arith in
          let one : n + 1 ≡ suc n = omega arith in rw (least, one) (ground arith)
    ]

-- The value is beside the first element that equals the pivot, or there is none.
abbrev pub Beside : Bool → Bytes → Bytes → List Bytes → Option (List Bytes) → Type 0
Beside after pivot value l none = count_key l pivot ≡ 0
Beside after pivot value l (some m) =
    (a : List Bytes) × (b : List Bytes) × (l ≡ a ++ pivot ∷ b)
    × (count_key a pivot ≡ 0)
    × (m ≡ a ++ (if after then pivot ∷ value ∷ b else value ∷ pivot ∷ b))

Beside-behind :
    (after : Bool) (pivot value x : Bytes) (l : List Bytes) (r : Option (List Bytes))
    → bytes_eq x pivot ≡ false
    → Beside after pivot value l r
    → Beside after pivot value (x ∷ l) (Option.map (λ m. x ∷ m) r)
Beside-behind after pivot value x l none h b = ground arith
Beside-behind after pivot value x l (some m) h (a, b, e, c, f) =
    (x ∷ a, b, ap (λ k. x ∷ k) e, ground arith, ap (λ k. x ∷ k) f)

pub insert_by-Beside :
    (after : Bool) (pivot value : Bytes) (l : List Bytes)
    → Beside after pivot value l (insert_by after (equals pivot) value l)
unfolding insert_by
insert_by-Beside after pivot value [] = refl
insert_by-Beside after pivot value (x ∷ l) = elim (Bool-cases (bytes_eq x pivot)) [
  | inl same ↦
      let e : x ≡ pivot = (bytes_eq_iff x pivot).0 same in
      rw same ([], l, ap (λ k. k ∷ l) e, refl, rw e refl)
  | inr other ↦ rw other (
      Beside-behind after pivot value x l (insert_by after (equals pivot) value l) other
        (insert_by-Beside after pivot value l))
]

last-split : (x : Bytes) (l : List Bytes) → x ∷ l ≡ (last x l).1 ++ (last x l).0 ∷ []
unfolding last
last-split x [] = refl
last-split x (y ∷ l) = ap (λ k. x ∷ k) (last-split y l)

-- What is popped at an end is what was pushed there.
pub list_type_pop-push :
    (at_head : Bool) (x : Bytes) (l : List Bytes)
    → (v : Bytes) × (rest : List Bytes) × (list_type_pop at_head (x ∷ l) ≡ some (v, rest))
      × (x ∷ l ≡ list_type_push at_head v rest)
unfolding list_type_pop list_type_push
list_type_pop-push true x l = (x, l, refl, refl)
list_type_pop-push false x l = ((last x l).0, (last x l).1, refl, last-split x l)
