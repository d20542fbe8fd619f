-- ===== src/Lists/Taken.antt =====
-- t_list.c: what LRANGE reads and what LTRIM leaves are the elements that the two indices choose.
use gridapps.Prelude.{
  none, some, refl, zero, suc, [], arith, ◌∷◌, ◌-ℤ◌, ℕ, List, ◌<◌, Bytes, Bool, ◌≡◌, ◌≤◌, Option,
  take, drop, ℤ, length, ap, sym, ◌-◌, ◌^◌, ◌+◌, length-take, length-drop, ◌∙◌, pos,
}
use gridapps.Lists.Chosen.{
  Clips, keep, keep_none, keep-drop, chosen, InInt32, range_of-Clips, wrap32_id,
}
use gridapps.Lists.Ranges.{
  elements, read_run, read_from, trimmed, trims, del_first, del_last, del_last_of, llen_of,
  range_of, nearest,
}
use gridapps.Lists.{list_index}

list_index-nearest : (n s : ℕ) → s < n → list_index n (nearest (pos n) s) ≡ some s
unfolding list_index ◌-ℤ◌
list_index-nearest n s h = ground arith

pub read_run-take : (n : ℕ) (l : List Bytes) → n ≤ length l → read_run n l ≡ some (take n l)
unfolding read_run
read_run-take zero l h = refl
read_run-take (suc n) [] h = absurd (omega arith)
read_run-take (suc n) (x ∷ l) h = rw (read_run-take n l (omega arith)) refl

elements-Clips :
    (p : ℕ → Bool) (l : List Bytes) (r : Option (ℕ × ℕ))
    → length l < 2 ^ 31
    → Clips p (length l) r
    → elements l r ≡ some (keep p 0 l)
unfolding elements read_from
elements-Clips p l none small h = ap some (sym (keep_none p 0 l (λ j a b. h j (omega arith))))
elements-Clips p l (some (s, e)) small (q, k, h) =
    let count : e - s + 1 ≡ e + 1 - s = omega arith in
    rw (wrap32_id (pos (length l)) small, list_index-nearest (length l) s (omega arith), count)
      (read_run-take (e + 1 - s) (drop s l) (omega (arith, length-drop s l))
        ∙ ap some (sym (keep-drop p s e s 0 l (omega arith) (λ j a b. h j (omega arith)))))

pub del_first-drop : (n : ℕ) (l : List Bytes) → n ≤ length l → del_first n l ≡ some (drop n l)
unfolding del_first
del_first-drop zero l h = refl
del_first-drop (suc n) [] h = absurd (omega arith)
del_first-drop (suc n) (x ∷ l) h = del_first-drop n l (omega arith)

take-take : (a b : ℕ) (l : List Bytes) → a ≤ b → take a (take b l) ≡ take a l
take-take zero b l h = refl
take-take (suc a) zero l h = absurd (omega arith)
take-take (suc a) (suc b) [] h = refl
take-take (suc a) (suc b) (x ∷ l) h = ap (λ m. x ∷ m) (take-take a b l (omega arith))

take_all : (l : List Bytes) → take (length l) l ≡ l
take_all [] = refl
take_all (x ∷ l) = ap (λ m. x ∷ m) (take_all l)

drop_all : (l : List Bytes) → drop (length l) l ≡ []
drop_all [] = refl
drop_all (x ∷ l) = drop_all l

pub del_last-take :
    (n : ℕ) (l : List Bytes) → n ≤ length l → del_last n l ≡ some (take (length l - n) l)
unfolding del_last
del_last-take zero l h =
    let all : length l - 0 ≡ length l = omega arith in rw (all, take_all l) refl
del_last-take (suc n) [] h = absurd (omega arith)
del_last-take (suc n) (x ∷ l) h =
    let init = take (length l) (x ∷ l) in
    let long : length init ≡ length l = omega (arith, length-take (length l) (x ∷ l)) in
    let left : suc (length l) - suc n ≡ length init - n = omega arith in
    del_last-take n init (omega arith)
    ∙ ap some (
        take-take (length init - n) (length l) (x ∷ l) (omega arith)
        ∙ ap (λ k. take k (x ∷ l)) (sym left))

trimmed-Clips :
    (p : ℕ → Bool) (l : List Bytes) (r : Option (ℕ × ℕ))
    → Clips p (length l) r
    → trimmed l (trims (pos (length l)) r) ≡ some (keep p 0 l)
unfolding trimmed trims del_last
trimmed-Clips p l none h =
    ap (del_last_of 0) (del_first-drop (length l) l (omega arith))
    ∙ ap some (drop_all l ∙ sym (keep_none p 0 l (λ j a b. h j (omega arith))))
trimmed-Clips p l (some (s, e)) (q, k, h) =
    let left : length (drop s l) - (length l - e - 1) ≡ e + 1 - s =
      omega (arith, length-drop s l) in
    ap (del_last_of (length l - e - 1)) (del_first-drop s l (omega arith))
    ∙ del_last-take (length l - e - 1) (drop s l) (omega (arith, length-drop s l))
    ∙ ap (λ n. some (take n (drop s l))) left
    ∙ ap some (sym (keep-drop p s e s 0 l (omega arith) (λ j a b. h j (omega arith))))

module _ (l : List Bytes) (a b : ℤ) (small : length l < 2 ^ 31) (ha : InInt32 a)
    (hb : InInt32 b) where
  pub elements-chosen : elements l (range_of (llen_of l) a b) ≡ some (chosen l a b)
  elements-chosen = elements-Clips _ l _ small (range_of-Clips (length l) a b small ha hb)

  pub trimmed-chosen :
      trimmed l (trims (llen_of l) (range_of (llen_of l) a b)) ≡ some (chosen l a b)
  trimmed-chosen =
      ap (λ n. trimmed l (trims n (range_of (llen_of l) a b))) (wrap32_id (pos (length l)) small)
      ∙ trimmed-Clips _ l _ (range_of-Clips (length l) a b small ha hb)
