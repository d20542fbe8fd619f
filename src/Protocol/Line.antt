-- ===== src/Protocol/Line.antt =====
-- networking.c: the lines of a request, and its arguments.
use gridapps.Util.Number.Digits.{digits_step}
use gridapps.Util.Number.{digits}
use gridapps.Protocol.{find_cr}
use gridapps.Prelude.{some, [], arith, ◌∷◌, ℕ, Bytes, ◌≡◌, ◌<◌, lt_wf, ◌++◌, ◌/◌, ◌+◌, ◌%◌}
use mathlib.Core.WellFounded

digits-append : (v : ℕ) (out s : Bytes) → digits v out ++ s ≡ digits v (out ++ s)
digits-append v =
    WellFounded.induction lt_wf {C = λ m. (out s : Bytes) → digits m out ++ s ≡ digits m (out ++ s)}
      v λ m ih out s. grind (arith, digits_step m out, digits_step m (out ++ s), ih (m / 10))

find_cr-digits :
    (v : ℕ) (out l t : Bytes)
    → find_cr out ≡ some (l, t)
    → find_cr (digits v out) ≡ some (digits v l, t)
unfolding find_cr
find_cr-digits v =
    WellFounded.induction lt_wf
      {C = λ m.
        (out l t : Bytes)
        → find_cr out ≡ some (l, t)
        → find_cr (digits m out) ≡ some (digits m l, t)}
      v
      λ m ih out l t h.
        let digit = b'0' + m % 10 in
        let shorter : m / 10 < m
            → find_cr (digit ∷ out) ≡ some (digit ∷ l, t)
            → find_cr (digits (m / 10) (digit ∷ out)) ≡ some (digits (m / 10) (digit ∷ l), t) =
          λ p. ih (m / 10) p (digit ∷ out) (digit ∷ l) t in
        grind (arith, digits_step m out, digits_step m l, shorter)

-- A line with a mark and a number ends where it should.
pub find_cr-line :
    (x n : ℕ) (t : Bytes)
    → 13 < x
    → find_cr (x ∷ (digits n [] ++ (13 ∷ t))) ≡ some (x ∷ digits n [], 13 ∷ t)
unfolding find_cr
find_cr-line x n t h =
    let found : find_cr (digits n (13 ∷ t)) ≡ some (digits n [], 13 ∷ t) =
      find_cr-digits n (13 ∷ t) [] (13 ∷ t) (ground arith) in
    rw (digits-append n [] (13 ∷ t), found) (ground arith)
