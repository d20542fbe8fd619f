-- ===== src/Util/Glob/Stars.antt =====
-- util.c: the loop behind a star against the meaning of the star.
use gridapps.Util.Glob.Pattern.{Token, Matches, star, in_front, one, set_in_front}
use gridapps.Util.Glob.{Match, any_suffix, skip_stars, hit, miss, wild}
use gridapps.Prelude.{
  refl, [], arith, ◌∷◌, Bytes, List, ℕ, sym, ap, append-nil, false, none, some, inl, inr, Bool,
  ◌==◌, Bool-cases, Option, ◌≡◌,
}

abbrev pub Decides : Type 0 → Match → Type 0
Decides G hit = G
Decides G miss = ¬ G
Decides G wild = ⊥

-- The patterns are those of which `f` decides all but the empty string.
abbrev pub DecidesRest : (Bytes → Match) → List Token → Type 0
DecidesRest f ts = (c : ℕ) (s : Bytes) → Decides (Matches ts (c ∷ s)) (f (c ∷ s))

pub star_all : (s : Bytes) → Matches (star ∷ []) s
star_all s = (s, [], sym (append-nil s), refl)

pub star_more :
    (ts : List Token) (c : ℕ) (s : Bytes) → Matches (star ∷ ts) s → Matches (star ∷ ts) (c ∷ s)
star_more ts c s (a, b, e, m) = (c ∷ a, b, ap (c ∷◌) e, m)

pub star_less :
    (ts : List Token) (c : ℕ) (s : Bytes)
    → Matches (star ∷ ts) (c ∷ s)
    → ¬ Matches ts (c ∷ s)
    → Matches (star ∷ ts) s
star_less ts c s ([], b, e, m) h = absurd (h (rw e m))
star_less ts c s (x ∷ a, b, e, m) h = (a, b, ground arith, m)

pub star_nil : (ts : List Token) → ¬ Matches ts [] → ¬ Matches (star ∷ ts) []
star_nil ts h ([], b, e, m) = h (rw e m)
star_nil ts h (x ∷ a, b, e, m) = ground arith

-- The loop behind a star decides for any place where the rest may begin.
pub any_suffix-Decides :
    (f : Bytes → Match) (ts : List Token) (s : Bytes)
    → DecidesRest f ts
    → ¬ Matches ts []
    → Decides (Matches (star ∷ ts) s) (any_suffix f s)
unfolding any_suffix
any_suffix-Decides f ts [] h nonempty = star_nil ts nonempty
any_suffix-Decides f ts (c ∷ s) h nonempty =
    go (f (c ∷ s)) (any_suffix f s) (h c s) (any_suffix-Decides f ts s h nonempty)
  where
    go :
        (here later : Match)
        → Decides (Matches ts (c ∷ s)) here
        → Decides (Matches (star ∷ ts) s) later
        → Decides
            (Matches (star ∷ ts) (c ∷ s))
            (elim here [ hit ↦ hit | wild ↦ wild | miss ↦ later ])
    go hit later d e = ([], c ∷ s, refl, d)
    go miss hit d e = star_more ts c s e
    go miss miss d e = λ m. e (star_less ts c s m d)
    go miss wild d e = e
    go wild later d e = d

-- Stars are skipped, so no star is in front of what is left.
abbrev pub StartsPlain : Bytes → Type 0
StartsPlain [] = Unit
StartsPlain (c ∷ q) = (c == b'*') ≡ false

pub skip_stars-StartsPlain : (q : Bytes) → StartsPlain (skip_stars q)
unfolding skip_stars
skip_stars-StartsPlain [] = tt
skip_stars-StartsPlain (c ∷ q) = elim (Bool-cases (c == b'*')) [
  | inl asterisk ↦ rw asterisk (skip_stars-StartsPlain q)
  | inr other ↦ rw other other
]

-- What begins with a set of bytes does not match the empty string.
pub set_in_front-nonempty :
    (f : Bytes → Option (List Token)) (o : Option ((ℕ → Bool) × Bytes)) (ts : List Token)
    → set_in_front f o ≡ some ts
    → ¬ Matches ts []
set_in_front-nonempty f none ts h = ground arith
set_in_front-nonempty f (some (g, q)) ts h = go (f q) h
  where
    go : (o : Option (List Token)) → in_front (one g) o ≡ some ts → ¬ Matches ts []
    go none h = ground arith
    go (some us) h =
        let same : one g ∷ us ≡ ts = ground arith in rw (← same) λ (c, t, e, _, _). ground arith

-- How the loop goes on by the set that the pattern begins with.
