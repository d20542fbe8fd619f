-- ===== src/Util/Glob.antt =====
-- util.c: stringmatchlen. A pattern and a string are what is left of them; behind each stands a nul.
-- Reading farther is the result `wild`.
pub mod Pattern
pub mod Classes
pub mod Stars
pub mod Decides
use gridapps.Prelude.{
  true, false, zero, suc, [], ◌∷◌, Bool, Bytes, ℕ, if◌then◌else◌, leb, ◌||◌, ◌&&◌, ◌+◌, ◌==◌, ◌%◌,
  refl, length, codes, not, ◌≡◌,
}

pub data Match : Type 0 where
  hit : Match
  miss : Match
  wild : Match

abbrev pub of_bool : Bool → Match
of_bool true = hit
of_bool false = miss

-- The first byte, or the nul behind the text.
abbrev pub head : Bytes → ℕ
head [] = 0
head (c ∷ s) = c

-- tolower in the C locale
unfoldable pub tolower : ℕ → ℕ
tolower c = if leb b'A' c && leb c b'Z' then c + 32 else c

unfoldable pub fold : Bool → ℕ → ℕ
unfolding tolower
fold nocase c = if nocase then tolower c else c

-- A `char` is signed: the order of the bytes as such.
abbrev pub char_leb : ℕ → ℕ → Bool
char_leb a b = leb ((a + 128) % 256) ((b + 128) % 256)

-- `a-e` in a class; the ends are swapped as they are written, and folded then.
unfoldable pub in_range : Bool → ℕ → ℕ → ℕ → Bool
unfolding fold
in_range nocase a e c =
    let start = if char_leb a e then a else e in
    let end = if char_leb a e then e else a in
    char_leb (fold nocase start) (fold nocase c) && char_leb (fold nocase c) (fold nocase end)

-- What the loop over a class leaves: whether a member of it is the byte, and the pattern behind it.
pub data Class : Type 0 where
  closed : Bool → Bytes → Class
  beyond : Class

-- The three kinds of members, by what follows in the pattern.
pub data Member : Type 0 where
  escape : ℕ → Bytes → Member
  open_escape : Member
  close : Bytes → Member
  end : Member
  range : ℕ → ℕ → Bytes → Member
  single : ℕ → Bytes → Member

unfoldable pub member : Bytes → Member
member [] = end
member (a ∷ []) = if a == b'\\' then open_escape else if a == b']' then close [] else single a []
member (a ∷ b ∷ []) =
    if a == b'\\' then escape b [] else if a == b']' then close (b ∷ []) else single a (b ∷ [])
member (a ∷ b ∷ e ∷ q) =
    if a == b'\\'
    then escape b (e ∷ q)
    else if a == b']'
    then close (b ∷ e ∷ q)
    else if b == b'-'
    then range a e q
    else single a (b ∷ e ∷ q)

-- One round of the loop over a class, for the byte `c`, and how it goes on.
unfoldable pub class_round : (Bool → Bytes → Class) → Bool → ℕ → Bool → Member → Class
class_round f nocase c matched (escape b q) = f (matched || b == c) q
class_round f nocase c matched open_escape = beyond
class_round f nocase c matched (close q) = closed matched q
class_round f nocase c matched end = closed matched []
class_round f nocase c matched (range a e q) = f (matched || in_range nocase a e c) q
class_round f nocase c matched (single a q) = f (matched || fold nocase a == fold nocase c) q

-- It has fuel for as many rounds as the pattern has bytes, and one.
unfoldable pub class_loop : ℕ → Bool → ℕ → Bool → Bytes → Class
class_loop zero nocase c matched p = closed matched p
class_loop (suc n) nocase c matched p =
    class_round (class_loop n nocase c) nocase c matched (member p)

unfoldable pub negated : Class → Class
negated (closed matched q) = closed (not matched) q
negated beyond = beyond

-- `[`, with the byte at the string; the class begins behind a `^`.
unfoldable pub class_at : Bool → ℕ → Bytes → Class
class_at nocase c [] = class_loop 1 nocase c false []
class_at nocase c (a ∷ p) =
    if a == b'^'
    then negated (class_loop (length p + 1) nocase c false p)
    else class_loop (length (a ∷ p) + 1) nocase c false (a ∷ p)

unfoldable pub skip_stars : Bytes → Bytes
skip_stars [] = []
skip_stars (c ∷ p) = let rest = skip_stars p in if c == b'*' then rest else c ∷ p

-- stringLen is negative, as a class or an escaped nul has taken the nul behind an empty string.
unfoldable pub past_end : Bytes → Match
unfolding skip_stars
past_end [] = miss
past_end (c ∷ p) =
    let rest = past_end p in
    if c == b'?'
    then rest
    else if c == b'*'
    then (elim (skip_stars p) [ [] ↦ hit | _ ↦ wild ])
    else wild

-- The loop behind a star, over the suffixes of the string but the empty one.
unfoldable pub any_suffix : (Bytes → Match) → Bytes → Match
any_suffix f [] = miss
any_suffix f (c ∷ s) =
    let rest = any_suffix f s in elim (f (c ∷ s)) [ hit ↦ hit | wild ↦ wild | miss ↦ rest ]

-- Behind a byte of the string that is taken: at the end of the string only stars may be left.
unfoldable pub advance : (Bytes → Bytes → Match) → Bytes → Bytes → Match
unfolding skip_stars past_end
advance f q [] = past_end q
advance f q (c ∷ []) = elim (skip_stars q) [ [] ↦ hit | _ ↦ miss ]
advance f q (c ∷ d ∷ s) = f q (d ∷ s)

unfoldable pub match_class : (Bytes → Bytes → Match) → Class → Bytes → Match
unfolding advance
match_class f (closed true q) s = advance f q s
match_class f (closed false q) s = miss
match_class f beyond s = wild

unfoldable pub match_byte : Bool → (Bytes → Bytes → Match) → ℕ → Bytes → Bytes → Match
unfolding advance fold
match_byte nocase f c q s = if fold nocase c == fold nocase (head s) then advance f q s else miss

unfoldable pub match_escape : Bool → (Bytes → Bytes → Match) → Bytes → Bytes → Match
unfolding match_byte
match_escape nocase f [] s = match_byte nocase f b'\\' [] s
match_escape nocase f (c ∷ q) s = match_byte nocase f c q s

unfoldable pub match_star : (Bytes → Bytes → Match) → Bytes → Bytes → Match
unfolding any_suffix
match_star f [] s = hit
match_star f (c ∷ q) s = any_suffix (f (c ∷ q)) s

unfoldable pub match_any : (Bytes → Bytes → Match) → Bytes → Bytes → Match
unfolding advance
match_any f q [] = miss
match_any f q (c ∷ s) = advance f q (c ∷ s)

-- One round of the loop, with what is done for a shorter pattern.
unfoldable pub match_round : Bool → (Bytes → Bytes → Match) → Bytes → Bytes → Match
match_round nocase f [] s = elim s [ [] ↦ hit | _ ↦ miss ]
match_round nocase f (c ∷ q) s =
    if c == b'*'
    then match_star f (skip_stars q) s
    else if c == b'?'
    then match_any f q s
    else if c == b'['
    then match_class f (class_at nocase (head s) q) s
    else if c == b'\\'
    then match_escape nocase f q s
    else match_byte nocase f c q s

-- Every round shortens the pattern, so its length and one is enough fuel.
unfoldable pub match_loop : ℕ → Bool → Bytes → Bytes → Match
match_loop zero nocase p s = miss
match_loop (suc n) nocase p s = match_round nocase (match_loop n nocase) p s

unfoldable pub stringmatchlen : Bytes → Bytes → Bool → Match
unfolding match_loop match_round match_any match_star match_escape match_byte match_class class_at
    class_loop member fold in_range tolower any_suffix advance skip_stars past_end class_round
    negated
stringmatchlen pattern string nocase = match_loop (length pattern + 1) nocase pattern string

match_classes : stringmatchlen (codes "h[a-c^]llo*[^x]?") (codes "hbllo world") false ≡ hit
unfolding stringmatchlen
match_classes = refl

match_fold : stringmatchlen (codes "H[A-C]Llo") (codes "hbllO") true ≡ hit
unfolding stringmatchlen
match_fold = refl

match_empty : stringmatchlen (codes "[^a]*") [] false ≡ hit
unfolding stringmatchlen
match_empty = refl

match_beyond : stringmatchlen (codes "[a\\") (codes "a") false ≡ wild
unfolding stringmatchlen
match_beyond = refl
