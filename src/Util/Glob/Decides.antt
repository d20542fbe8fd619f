-- ===== src/Util/Glob/Decides.antt =====
-- util.c: stringmatchlen decides whether a string matches a pattern.
use gridapps.Util.Glob.Stars.{
  Decides, DecidesRest, star_all, star_nil, any_suffix-Decides, StartsPlain, skip_stars-StartsPlain,
  set_in_front-nonempty,
}
use gridapps.Util.Glob.Classes.{closing, class_at-bracket}
use gridapps.Util.Glob.Pattern.{
  Token, Matches, star, in_front, one, set_in_front, byte_set, escaped_set, bracket, tokens_loop,
  tokens_round, tokens,
}
use gridapps.Util.Glob.{
  Match, skip_stars, hit, miss, wild, match_class, match_escape, match_round, advance, match_byte,
  match_any, match_star, match_loop, stringmatchlen,
}
use gridapps.Prelude.{
  refl, [], arith, ◌∷◌, Bytes, List, ℕ, false, none, some, inl, inr, Bool, ◌==◌, Bool-cases, Option,
  ◌≡◌, if◌then◌else◌, true, zero, suc, ◌<◌, length, ◌+◌,
}

-- The run ends with an answer, and the answer is right about `G`.
abbrev take_set : (Bytes → Bytes → Match) → Option ((ℕ → Bool) × Bytes) → ℕ → Bytes → Match
take_set f none d s = wild
take_set f (some (g, q)) d s = if g d then advance f q (d ∷ s) else miss

match_class-closing :
    (f : Bytes → Bytes → Match) (o : Option ((ℕ → Bool) × Bytes)) (d : ℕ) (s : Bytes)
    → match_class f (closing false d o) (d ∷ s) ≡ take_set f o d s
unfolding match_class
match_class-closing f none d s = refl
match_class-closing f (some (g, q)) d s = elim (Bool-cases (g d)) [
  | inl member ↦ rw member refl
  | inr other ↦ rw other refl
]

match_escape-set :
    (f : Bytes → Bytes → Match) (nocase : Bool) (q : Bytes) (d : ℕ) (s : Bytes)
    → match_escape nocase f q (d ∷ s) ≡ take_set f (escaped_set nocase q) d s
unfolding match_escape match_byte
match_escape-set f nocase [] d s = refl
match_escape-set f nocase (c ∷ q) d s = refl

match_round-byte_set :
    (f : Bytes → Bytes → Match) (nocase : Bool) (c : ℕ) (q : Bytes) (d : ℕ) (s : Bytes)
    → (c == b'*') ≡ false
    → match_round nocase f (c ∷ q) (d ∷ s) ≡ take_set f (byte_set nocase c q) d s
unfolding match_round byte_set match_any match_byte
match_round-byte_set f nocase c q d s other = elim (Bool-cases (c == b'?')) [
  | inl any ↦ rw (other, any) refl
  | inr a ↦ elim (Bool-cases (c == b'[')) [
    | inl class ↦
        rw (other, a, class, class_at-bracket nocase d q)
          (match_class-closing f (bracket nocase q) d s)
    | inr b ↦ elim (Bool-cases (c == b'\\')) [
      | inl slash ↦ rw (other, a, b, slash) (match_escape-set f nocase q d s)
      | inr e ↦ rw (other, a, b, e) refl
    ]
  ]
]

tokens-nil : (n : ℕ) (nocase : Bool) (ts : List Token) → tokens_loop n nocase [] ≡ some ts → ts ≡ []
unfolding tokens_loop tokens_round
tokens-nil zero nocase ts h = ground arith
tokens-nil (suc n) nocase ts h = ground arith

tokens-plain :
    (n : ℕ) (nocase : Bool) (c : ℕ) (q : Bytes) (ts : List Token)
    → (c == b'*') ≡ false
    → tokens_loop n nocase (c ∷ q) ≡ some ts
    → ¬ Matches ts []
unfolding tokens_loop tokens_round
tokens-plain zero nocase c q ts other h = ground arith
tokens-plain (suc n) nocase c q ts other h =
    set_in_front-nonempty (tokens_loop n nocase) (byte_set nocase c q) ts (rw other at h)

stars-cases :
    (o : Option (List Token)) (ts : List Token)
    → in_front star o ≡ some ts
    → (us : List Token) × (o ≡ some us) × (ts ≡ star ∷ us)
stars-cases none ts h = ground arith
stars-cases (some us) ts h = (us, refl, ground arith)

after_stars :
    (n : ℕ) (nocase : Bool) (r : Bytes) (us : List Token)
    → StartsPlain r
    → tokens_loop n nocase r ≡ some us
    → Decides (Matches (star ∷ us) []) (elim r [ [] ↦ hit | _ ↦ miss ])
after_stars n nocase [] us plain h = rw (tokens-nil n nocase us h) (star_all [])
after_stars n nocase (c ∷ r) us plain h = star_nil us (tokens-plain n nocase c r us plain h)

-- After the last byte of the string, a pattern may have stars left.
only_stars :
    (n : ℕ) (nocase : Bool) (q : Bytes) (ts : List Token)
    → tokens_loop n nocase q ≡ some ts
    → Decides (Matches ts []) (elim (skip_stars q) [ [] ↦ hit | _ ↦ miss ])
unfolding skip_stars tokens_loop tokens_round
only_stars n nocase [] ts h = rw (tokens-nil n nocase ts h) refl
only_stars zero nocase (c ∷ q) ts h = ground arith
only_stars (suc n) nocase (c ∷ q) ts h = elim (Bool-cases (c == b'*')) [
  | inl asterisk ↦
      let (us, rest, same) =
        stars-cases (tokens_loop n nocase (skip_stars q)) ts (rw asterisk at h) in
      rw (asterisk, same) (after_stars n nocase (skip_stars q) us (skip_stars-StartsPlain q) rest)
  | inr other ↦ rw other (tokens-plain (suc n) nocase c q ts other h)
]

module _ (n : ℕ) (nocase : Bool) where
  advance-Decides :
      (f : Bytes → Bytes → Match) (q : Bytes) (ts : List Token) (d : ℕ) (s : Bytes)
      → tokens_loop n nocase q ≡ some ts
      → DecidesRest (f q) ts
      → Decides (Matches ts s) (advance f q (d ∷ s))
  unfolding advance
  advance-Decides f q ts d [] h ih = only_stars n nocase q ts h
  advance-Decides f q ts d (e ∷ s) h ih = ih e s

one-Decides :
    (g : ℕ → Bool) (ts : List Token) (d : ℕ) (s : Bytes) (r : Match)
    → Decides (Matches ts s) r
    → Decides (Matches (one g ∷ ts) (d ∷ s)) (if g d then r else miss)
one-Decides g ts d s r h = elim (Bool-cases (g d)) [
  | inl member ↦ rw member (onward r h member)
  | inr other ↦ rw other λ (c, t, e, m, _). ground arith
]
  where
    onward :
        (r : Match)
        → Decides (Matches ts s) r
        → g d ≡ true
        → Decides (Matches (one g ∷ ts) (d ∷ s)) r
    onward hit h m = (d, s, refl, m, h)
    onward miss h m = λ (c, t, e, m', k). let same : t ≡ s = ground arith in h (rw (← same) k)
    onward wild h m = h

set-cases :
    (f : Bytes → Option (List Token)) (o : Option ((ℕ → Bool) × Bytes)) (ts : List Token)
    → set_in_front f o ≡ some ts
    → (g : ℕ → Bool) × (q : Bytes) × (us : List Token) × (o ≡ some (g, q))
      × (f q ≡ some us)
      × (ts ≡ one g ∷ us)
set-cases f none ts h = ground arith
set-cases f (some (g, q)) ts h = let (us, rest, same) = go (f q) h in (g, q, us, refl, rest, same)
  where
    go :
        (o : Option (List Token))
        → in_front (one g) o ≡ some ts
        → (us : List Token) × (o ≡ some us) × (ts ≡ one g ∷ us)
    go none h = ground arith
    go (some us) h = (us, refl, ground arith)

star-Decides :
    (n : ℕ) (nocase : Bool) (f : Bytes → Bytes → Match) (r : Bytes) (us : List Token) (s : Bytes)
    → StartsPlain r
    → tokens_loop n nocase r ≡ some us
    → DecidesRest (f r) us
    → Decides (Matches (star ∷ us) s) (match_star f r s)
unfolding match_star
star-Decides n nocase f [] us s plain h ih = rw (tokens-nil n nocase us h) (star_all s)
star-Decides n nocase f (c ∷ r) us s plain h ih =
    any_suffix-Decides (f (c ∷ r)) us s ih (tokens-plain n nocase c r us plain h)

loop-Decides :
    (n : ℕ) (nocase : Bool) (p : Bytes) (ts : List Token)
    → tokens_loop n nocase p ≡ some ts
    → DecidesRest (match_loop n nocase p) ts
unfolding match_loop tokens_loop tokens_round match_round
loop-Decides zero nocase p ts h d s = ground arith
loop-Decides (suc n) nocase [] ts h d s =
    let same : ts ≡ [] = ground arith in rw same λ e. ground arith
loop-Decides (suc n) nocase (c ∷ q) ts h d s = elim (Bool-cases (c == b'*')) [
  | inl asterisk ↦
      let (us, rest, same) =
        stars-cases (tokens_loop n nocase (skip_stars q)) ts (rw asterisk at h) in
      rw (asterisk, same)
        (star-Decides n nocase (match_loop n nocase) (skip_stars q) us (d ∷ s)
          (skip_stars-StartsPlain q) rest (loop-Decides n nocase (skip_stars q) us rest))
  | inr other ↦
      let (g, q', us, set, rest, same) =
        set-cases (tokens_loop n nocase) (byte_set nocase c q) ts (rw other at h) in
      rw (match_round-byte_set (match_loop n nocase) nocase c q d s other, set, same)
        (one-Decides g us d s (advance (match_loop n nocase) q' (d ∷ s)) (
          advance-Decides n nocase (match_loop n nocase) q' us d s rest
            (loop-Decides n nocase q' us rest)))
]

-- For a pattern in which no class ends in a backslash and a string that is not empty, stringmatchlen
-- stays inside both and answers whether the string matches: a run of stars stands for any bytes, and
-- anything else for one byte of a set.
pub stringmatchlen-Decides :
    (pattern string : Bytes) (nocase : Bool) (ts : List Token)
    → tokens nocase pattern ≡ some ts
    → 0 < length string
    → Decides (Matches ts string) (stringmatchlen pattern string nocase)
unfolding stringmatchlen tokens
stringmatchlen-Decides pattern [] nocase ts h p = absurd (omega arith)
stringmatchlen-Decides pattern (c ∷ s) nocase ts h p =
    loop-Decides (length pattern + 1) nocase pattern ts h c s
