-- ===== src/Util/Glob/Pattern.antt =====
-- util.c: what a pattern of stringmatchlen means.
use gridapps.Prelude.{
  true, false, none, some, zero, suc, [], ◌∷◌, ℕ, List, Option, Bool, Bytes, not, length, ◌≡◌, ◌||◌,
  ◌==◌, if◌then◌else◌, ◌++◌, ◌+◌,
}
use gridapps.Util.Glob.{
  Member, member, escape, open_escape, close, end, range, single, fold, in_range, skip_stars,
}

-- A star, or one byte of a set.
pub data Token : Type 0 where
  star : Token
  one : (ℕ → Bool) → Token

abbrev pub Matches : List Token → Bytes → Type 0
Matches [] s = s ≡ []
Matches (star ∷ ts) s = (a : Bytes) × (b : Bytes) × (s ≡ a ++ b) × Matches ts b
Matches (one f ∷ ts) s = (c : ℕ) × (t : Bytes) × (s ≡ c ∷ t) × (f c ≡ true) × Matches ts t

-- A class as the set of its members, and the pattern behind it; `none` where it ends in a backslash.
abbrev pub with_member : (ℕ → Bool) → Option ((ℕ → Bool) × Bytes) → Option ((ℕ → Bool) × Bytes)
with_member g none = none
with_member g (some (f, q)) = some (λ c. g c || f c, q)

unfoldable pub set_round :
    (Bytes → Option ((ℕ → Bool) × Bytes)) → Bool → Member → Option ((ℕ → Bool) × Bytes)
set_round f nocase (escape b q) = with_member (λ c. b == c) (f q)
set_round f nocase open_escape = none
set_round f nocase (close q) = some (λ c. false, q)
set_round f nocase end = some (λ c. false, [])
set_round f nocase (range a e q) = with_member (λ c. in_range nocase a e c) (f q)
set_round f nocase (single a q) = with_member (λ c. fold nocase a == fold nocase c) (f q)

unfoldable pub class_set : ℕ → Bool → Bytes → Option ((ℕ → Bool) × Bytes)
class_set zero nocase p = some (λ c. false, p)
class_set (suc n) nocase p = set_round (class_set n nocase) nocase (member p)

abbrev pub complement : Option ((ℕ → Bool) × Bytes) → Option ((ℕ → Bool) × Bytes)
complement none = none
complement (some (f, q)) = some (λ c. not (f c), q)

unfoldable pub bracket : Bool → Bytes → Option ((ℕ → Bool) × Bytes)
unfolding class_set
bracket nocase [] = class_set 1 nocase []
bracket nocase (a ∷ p) =
    if a == b'^'
    then complement (class_set (length p + 1) nocase p)
    else class_set (length (a ∷ p) + 1) nocase (a ∷ p)

-- A token in front of the tokens of the rest.
abbrev pub in_front : Token → Option (List Token) → Option (List Token)
in_front t none = none
in_front t (some ts) = some (t ∷ ts)

abbrev pub set_in_front :
    (Bytes → Option (List Token)) → Option ((ℕ → Bool) × Bytes) → Option (List Token)
set_in_front f none = none
set_in_front f (some (g, q)) = in_front (one g) (f q)

-- A byte of the pattern stands for itself.
abbrev pub literal : Bool → ℕ → ℕ → Bool
literal nocase c x = fold nocase c == fold nocase x

abbrev pub escaped_set : Bool → Bytes → Option ((ℕ → Bool) × Bytes)
escaped_set nocase [] = some (literal nocase b'\\', [])
escaped_set nocase (c ∷ q) = some (literal nocase c, q)

-- The bytes that are matched by what begins with `c`, which is no star, and the pattern behind it.
unfoldable pub byte_set : Bool → ℕ → Bytes → Option ((ℕ → Bool) × Bytes)
byte_set nocase c q =
    if c == b'?'
    then some (λ x. true, q)
    else if c == b'['
    then bracket nocase q
    else if c == b'\\'
    then escaped_set nocase q
    else some (literal nocase c, q)

-- A star for a run of stars, a set of bytes for anything else.
unfoldable pub tokens_round : Bool → (Bytes → Option (List Token)) → Bytes → Option (List Token)
tokens_round nocase f [] = some []
tokens_round nocase f (c ∷ q) =
    if c == b'*' then in_front star (f (skip_stars q)) else set_in_front f (byte_set nocase c q)

unfoldable pub tokens_loop : ℕ → Bool → Bytes → Option (List Token)
tokens_loop zero nocase p = none
tokens_loop (suc n) nocase p = tokens_round nocase (tokens_loop n nocase) p

-- The tokens of a pattern; `none` if a class in it ends in a backslash.
unfoldable pub tokens : Bool → Bytes → Option (List Token)
unfolding tokens_loop
tokens nocase p = tokens_loop (length p + 1) nocase p
