-- ===== src/Util/Glob/Classes.antt =====
-- util.c: the loop of stringmatchlen over a class finds whether a byte is in the set.
use gridapps.Util.Glob.Pattern.{set_round, class_set, bracket, with_member, complement}
use gridapps.Util.Glob.{
  class_round, class_loop, negated, class_at, Class, beyond, closed, Member, escape, member, close,
  range, in_range, single, fold, open_escape, end,
}
use gridapps.Prelude.{
  true, false, none, some, refl, zero, suc, inl, inr, [], ◌∷◌, Bool, ℕ, ◌||◌, Option, Bytes, ◌≡◌,
  ap, Bool-cases, ◌==◌, sym, length, ◌∙◌, ◌+◌,
}

-- The class that a set is for the byte `c`.
abbrev pub closing : Bool → ℕ → Option ((ℕ → Bool) × Bytes) → Class
closing m c none = beyond
closing m c (some (f, q)) = closed (m || f c) q

or_assoc : (a b d : Bool) → (a || (b || d)) ≡ ((a || b) || d)
or_assoc true b d = refl
or_assoc false b d = refl

or_false : (a : Bool) → (a || false) ≡ a
or_false true = refl
or_false false = refl

closing-with_member :
    (m : Bool) (c : ℕ) (g : ℕ → Bool) (o : Option ((ℕ → Bool) × Bytes))
    → closing m c (with_member g o) ≡ closing (m || g c) c o
closing-with_member m c g none = refl
closing-with_member m c g (some (f, q)) = ap (λ b. closed b q) (or_assoc m (g c) (f c))

round-set :
    (f : Bool → Bytes → Class) (g : Bytes → Option ((ℕ → Bool) × Bytes)) (nocase : Bool) (c : ℕ)
    (m : Bool) (x : Member)
    → ((m' : Bool) (q : Bytes) → f m' q ≡ closing m' c (g q))
    → class_round f nocase c m x ≡ closing m c (set_round g nocase x)
unfolding class_round set_round
round-set f g nocase c m (escape b q) h =
    h (m || b == c) q ∙ sym (closing-with_member m c (λ x. b == x) (g q))
round-set f g nocase c m open_escape h = refl
round-set f g nocase c m (close q) h = ap (λ b. closed b q) (sym (or_false m))
round-set f g nocase c m end h = ap (λ b. closed b []) (sym (or_false m))
round-set f g nocase c m (range a e q) h =
    h (m || in_range nocase a e c) q
    ∙ sym (closing-with_member m c (λ x. in_range nocase a e x) (g q))
round-set f g nocase c m (single a q) h =
    h (m || fold nocase a == fold nocase c) q
    ∙ sym (closing-with_member m c (λ x. fold nocase a == fold nocase x) (g q))

class_loop-set :
    (n : ℕ) (nocase : Bool) (c : ℕ) (m : Bool) (p : Bytes)
    → class_loop n nocase c m p ≡ closing m c (class_set n nocase p)
unfolding class_loop class_set
class_loop-set zero nocase c m p = ap (λ b. closed b p) (sym (or_false m))
class_loop-set (suc n) nocase c m p =
    round-set (class_loop n nocase c) (class_set n nocase) nocase c m (member p)
      (λ m' q. class_loop-set n nocase c m' q)

negated-closing :
    (c : ℕ) (o : Option ((ℕ → Bool) × Bytes))
    → negated (closing false c o) ≡ closing false c (complement o)
unfolding negated
negated-closing c none = refl
negated-closing c (some (f, q)) = refl

-- A class with its brackets, for any byte.
pub class_at-bracket :
    (nocase : Bool) (c : ℕ) (p : Bytes) → class_at nocase c p ≡ closing false c (bracket nocase p)
unfolding class_at bracket
class_at-bracket nocase c [] = class_loop-set 1 nocase c false []
class_at-bracket nocase c (a ∷ p) = elim (Bool-cases (a == b'^')) [
  | inl hat ↦
      rw (hat, class_loop-set (length p + 1) nocase c false p)
        (negated-closing c (class_set (length p + 1) nocase p))
  | inr other ↦ rw other (class_loop-set (length (a ∷ p) + 1) nocase c false (a ∷ p))
]
