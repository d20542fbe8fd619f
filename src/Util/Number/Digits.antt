-- ===== src/Util/Number/Digits.antt =====
-- One round of the digit loop of ll2string, and what its text begins with.
use mathlib.Core.Logic.{ite, dite, dif_pos}
use mathlib.Core.WellFounded
use mathlib.Core.WellFounded.{Acc, Acc-prop}
use native.Mathlib.Bridge.{le_prop}
use native.Mathlib.Decide.{dec_lt}
use gridapps.Prelude.{
  ℕ, ◌+◌, ◌-◌, ◌*◌, ◌/◌, ◌%◌, ◌≤◌, ◌<◌, ◌≡◌, ◌∙◌, Option, none, some, [], ◌∷◌, ◌++◌, arith, leb,
  ◌&&◌, if◌then◌else◌, lt_wf, Bytes,
}
use gridapps.Util.Number.{emit, digits, scan, ullong_max}

emit_step :
    (v : ℕ) (w : Acc ◌<◌ v) (w' : Acc ◌<◌ (v / 10)) (out : Bytes)
    → emit v w out
      ≡ ite (dec_lt 0 (v / 10)) (emit (v / 10) w' ((b'0' + v % 10) ∷ out)) ((b'0' + v % 10) ∷ out)
unfolding emit
emit_step v (Acc.intro _ smaller) w' out = λ i.
    dite (dec_lt 0 (v / 10))
      (λ h. emit (v / 10) (Acc-prop (smaller (v / 10) (omega arith)) w' i) ((b'0' + v % 10) ∷ out))
      (λ _. (b'0' + v % 10) ∷ out)

-- A round writes the last digit, and goes on as long as a quotient is left.
pub digits_step :
    (v : ℕ) (out : Bytes)
    → digits v out
      ≡ ite (dec_lt 0 (v / 10)) (digits (v / 10) ((b'0' + v % 10) ∷ out)) ((b'0' + v % 10) ∷ out)
unfolding digits
digits_step v out = emit_step v (lt_wf.apply v) (lt_wf.apply (v / 10)) out

-- Reading from the first digit, which may not be 0.
abbrev pub scan_first : Bytes → Option ℕ
scan_first [] = none
scan_first (c ∷ s) = if leb b'1' c && leb c b'9' then scan s (c - b'0') else none

-- Reading the last digit of `v` behind the digits before it gives `v`.
scan_last :
    (v : ℕ) (out : Bytes) → v ≤ ullong_max → scan ((b'0' + v % 10) ∷ out) (v / 10) ≡ scan out v
unfolding scan
scan_last v out h = ground arith

pub scan_first-digits :
    (v : ℕ) (out : Bytes) → 0 < v → v ≤ ullong_max → scan_first (digits v out) ≡ scan out v
scan_first-digits v =
    WellFounded.induction lt_wf
      {C = λ m. (out : Bytes) → 0 < m → m ≤ ullong_max → scan_first (digits m out) ≡ scan out m} v
      λ m ih out p fits. grind (arith, digits_step m out, scan_last m out fits, ih (m / 10))

-- The last digit of a longer number is written first.
digits_snoc :
    (v c : ℕ) (out : Bytes)
    → 0 < v
    → b'0' ≤ c
    → c ≤ b'9'
    → digits (v * 10 + (c - b'0')) out ≡ digits v (c ∷ out)
digits_snoc v c out p lo hi =
    let quotient : (v * 10 + (c - b'0')) / 10 ≡ v = omega arith in
    let digit : b'0' + (v * 10 + (c - b'0')) % 10 ≡ c = omega arith in
    digits_step (v * 10 + (c - b'0')) out ∙ rw (quotient, digit, dif_pos (dec_lt 0 v) le_prop p)

-- A text that is read as `r` behind `v` is the rest of the digits of `r`.
pub digits-scan :
    (s : Bytes) (v r : ℕ) (out : Bytes)
    → 0 < v
    → scan s v ≡ some r
    → digits r out ≡ digits v (s ++ out)
unfolding scan
digits-scan [] v r out p h = ground arith
digits-scan (c ∷ s) v r out p h =
    ground (arith, digits-scan s (v * 10 + (c - b'0')) r out, digits_snoc v c (s ++ out))
