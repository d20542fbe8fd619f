-- ===== src/Protocol/Pieces.antt =====
-- networking.c: a request that arrives in pieces.
use gridapps.Util.Number.{string2ll}
use gridapps.Protocol.{
  find_cr, read_bulk, read_argument, with_length, read_line, Bulk, argument, inline_max_size, need,
  problem, read_length, bulk_loop, checked_length,
}
use gridapps.Prelude.{
  none, some, refl, inl, inr, [], arith, ◌∷◌, ℕ, Bytes, ◌≡◌, Option, ◌++◌, Option-cases, ◌≤◌,
  Bool-cases, ltb, length, drop-append_le, ◌+◌, take-append_le, drop, length-append, false, suc,
  sym, List, ◌==◌,
}

-- More data behind a line changes neither the line nor what is before it.
pub find_cr-append :
    (s x line tail : Bytes)
    → find_cr s ≡ some (line, tail)
    → find_cr (s ++ x) ≡ some (line, tail ++ x)
unfolding find_cr
find_cr-append [] x line tail h = ground arith
find_cr-append (c ∷ s) x line tail h = elim (Option-cases (find_cr s)) [
  | inl none_found ↦ ground arith
  | inr ((line', tail'), found) ↦ ground (arith, find_cr-append s x line' tail' found)
]

-- While no more than 64 kB are buffered, their number is not looked at.
pub total-read_bulk :
    (t t' : ℕ) (len : Option ℕ) (s : Bytes)
    → t ≤ inline_max_size
    → t' ≤ inline_max_size
    → read_bulk t len s ≡ read_bulk t' len s
unfolding read_bulk read_line
total-read_bulk t t' (some len) s h h' = refl
total-read_bulk t t' none s h h' = ground arith

-- What is found with `x` behind the data, by what is found without it: the same argument, or what
-- is found when reading goes on with what was known. A lack of a length leaves the data as it is.
abbrev pub Extends : ℕ → Bytes → Bytes → Bulk → Bulk → Type 0
Extends t s x (argument a rest) found = found ≡ argument a (rest ++ x)
Extends t s x (need none rest) found = (found ≡ read_bulk t none (rest ++ x)) × (rest ≡ s)
Extends t s x (need (some len) rest) found = found ≡ read_bulk t (some len) (rest ++ x)
Extends t s x (problem p) found = Unit

argument-Extends :
    (t len : ℕ) (whole s x : Bytes)
    → Extends t whole x (read_argument len s) (read_argument len (s ++ x))
unfolding read_argument read_bulk
argument-Extends t len whole s x = elim (Bool-cases (ltb (length s) (len + 2))) [
  | inl short ↦ rw short refl
  | inr enough ↦
      rw
        (enough, take-append_le len s x (ground arith), drop-append_le (len + 2) s x (ground arith))
        (ground (arith, length-append s x))
]

length-Extends :
    (t : ℕ) (whole tail x : Bytes) (o : Option ℕ)
    → 2 ≤ length tail
    → Extends t whole x (with_length tail o) (with_length (tail ++ x) o)
unfolding with_length
length-Extends t whole tail x none h = tt
length-Extends t whole tail x (some len) h =
    rw (drop-append_le 2 tail x h) (argument-Extends t len whole (drop 2 tail) x)

line-Extends :
    (t : ℕ) (s x line tail : Bytes)
    → read_bulk t none (s ++ x) ≡ read_length (s ++ x) (line, tail ++ x)
    → Extends t s x (read_length s (line, tail)) (read_length (s ++ x) (line, tail ++ x))
unfolding read_length
line-Extends t s x [] tail e = elim (Bool-cases (ltb (length tail) 2)) [
  | inl short ↦ rw short (sym e, refl)
  | inr enough ↦ rw enough tt
]
line-Extends t s x (c ∷ digits) tail e = elim (Bool-cases (ltb (length tail) 2)) [
  | inl short ↦ rw short (sym e, refl)
  | inr enough ↦
      let enough' : ltb (length (tail ++ x)) 2 ≡ false = ground (arith, length-append tail x) in
      elim (Bool-cases (c == b'$')) [
        | inl dollar ↦
            rw (enough, enough', dollar)
              (length-Extends t s tail x (checked_length (string2ll digits)) (ground arith))
        | inr other ↦ rw (enough, enough', other) tt
      ]
]

-- What is found of the longer data.
pub bulk-Extends :
    (t t' : ℕ) (b : Option ℕ) (s x : Bytes)
    → t ≤ inline_max_size
    → Extends t' s x (read_bulk t b s) (read_bulk t' b (s ++ x))
unfolding read_bulk read_line
bulk-Extends t t' (some len) s x h = argument-Extends t' len s s x
bulk-Extends t t' none s x h = elim (Option-cases (find_cr s)) [
  | inl none_found ↦
      let small : ltb inline_max_size t ≡ false = ground arith in
      rw (none_found, small) (refl, refl)
  | inr ((line, tail), found) ↦
      let found' = find_cr-append s x line tail found in
      rw (found, found') (line-Extends t' s x line tail (rw found' refl))
]

-- A problem leaves the data of which it was found.
abbrev pub SameProblem : Bulk → Bytes → Bytes → Type 0
SameProblem (problem p) y y' = y ≡ y'
SameProblem (argument a rest) y y' = Unit
SameProblem (need len rest) y y' = Unit

-- Two loops that find the same go on in the same way.
pub loop_same :
    (n t t' : ℕ) (b b' : Option ℕ) (argv : List Bytes) (y y' : Bytes) (found : Bulk)
    → ((argv' : List Bytes) (rest : Bytes)
        → bulk_loop n t none argv' rest ≡ bulk_loop n t' none argv' rest)
    → read_bulk t b y ≡ found
    → read_bulk t' b' y' ≡ found
    → SameProblem found y y'
    → bulk_loop (suc n) t b argv y ≡ bulk_loop (suc n) t' b' argv y'
unfolding bulk_loop
loop_same n t t' b b' argv y y' (argument a rest) ih h h' same =
    ground (arith, ih (argv ++ a ∷ []) rest)
loop_same n t t' b b' argv y y' (need len rest) ih h h' same = ground arith
loop_same n t t' b b' argv y y' (problem p) ih h h' same = ground arith
