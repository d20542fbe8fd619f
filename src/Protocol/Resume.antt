-- ===== src/Protocol/Resume.antt =====
-- networking.c: the parser goes on with what it has kept of a request.
use gridapps.Protocol.{
  Bulk, read_argument, bulk_loop, argument, Parsed, inline_max_size, need, more, read_bulk, problem,
  complete, refused, aborted,
}
use gridapps.Prelude.{
  none, some, refl, zero, suc, inl, inr, [], arith, ◌∷◌, ℕ, Bytes, Option, ◌≤◌, Bool-cases, List,
  ltb, ◌≡◌, ◌++◌, length, ◌<◌, ◌+◌,
}
use gridapps.Protocol.Pieces.{Extends, SameProblem, loop_same, total-read_bulk, bulk-Extends}

same_self : (found : Bulk) (y : Bytes) → SameProblem found y y
same_self (argument a rest) y = tt
same_self (need len rest) y = tt
same_self (problem p) y = refl

argument-SameProblem : (len : ℕ) (s y y' : Bytes) → SameProblem (read_argument len s) y y'
unfolding read_argument
argument-SameProblem len s y y' = elim (Bool-cases (ltb (length s) (len + 2))) [
  | inl short ↦ rw short tt
  | inr enough ↦ rw enough tt
]

total-bulk_loop :
    (n t t' : ℕ) (b : Option ℕ) (argv : List Bytes) (s : Bytes)
    → t ≤ inline_max_size
    → t' ≤ inline_max_size
    → bulk_loop n t b argv s ≡ bulk_loop n t' b argv s
unfolding bulk_loop
total-bulk_loop zero t t' b argv s h h' = refl
total-bulk_loop (suc n) t t' b argv s h h' =
    loop_same n t t' b b argv s s (read_bulk t b s)
      (λ argv' rest. total-bulk_loop n t t' none argv' rest h h') refl
      (total-read_bulk t' t b s h' h) (same_self (read_bulk t b s) s)

-- Where a loop lacks data, the loop over the longer data goes on as one over what was kept.
abbrev pub Resumes : ℕ → Bytes → Parsed → Parsed → Type 0
Resumes t x (more r) whole =
    (0 < r.multibulklen) × (whole ≡ bulk_loop r.multibulklen t r.bulklen r.argv (r.querybuf ++ x))
Resumes t x (complete r) whole = Unit
Resumes t x (refused p r) whole = Unit
Resumes t x aborted whole = Unit

module _ (t t' t'' : ℕ) (small : t ≤ inline_max_size) (small' : t' ≤ inline_max_size)
    (small'' : t'' ≤ inline_max_size) (x : Bytes) where
  step-Resumes :
      (n : ℕ) (b : Option ℕ) (argv : List Bytes) (s : Bytes) (found : Bulk)
      → read_bulk t b s ≡ found
      → Extends t' s x found (read_bulk t' b (s ++ x))
      → ((argv' : List Bytes) (rest : Bytes)
          → Resumes t'' x (bulk_loop n t none argv' rest) (bulk_loop n t' none argv' (rest ++ x)))
      → Resumes t'' x (bulk_loop (suc n) t b argv s) (bulk_loop (suc n) t' b argv (s ++ x))
  unfolding bulk_loop
  step-Resumes n b argv s (argument a rest) h e ih =
      let first : bulk_loop (suc n) t b argv s ≡ bulk_loop n t none (argv ++ a ∷ []) rest =
        ground arith in
      let whole : bulk_loop (suc n) t' b argv (s ++ x)
          ≡ bulk_loop n t' none (argv ++ a ∷ []) (rest ++ x) =
        ground arith in
      rw (first, whole) (ih (argv ++ a ∷ []) rest)
  step-Resumes n b argv s (need none rest) h (e, same) ih =
      let first : bulk_loop (suc n) t b argv s
          ≡ more (record { querybuf = rest; multibulklen = suc n; bulklen = none; argv = argv }) =
        ground arith in
      rw first (
        omega arith,
        loop_same n t' t'' b none argv (s ++ x) (rest ++ x) (read_bulk t' none (rest ++ x))
            (λ argv' r. total-bulk_loop n t' t'' none argv' r small' small'') e
            (total-read_bulk t'' t' none (rest ++ x) small'' small')
            (rw same (same_self (read_bulk t' none (s ++ x)) (s ++ x))),
      )
  step-Resumes n b argv s (need (some len) rest) h e ih =
      let first : bulk_loop (suc n) t b argv s
          ≡ more
              (record { querybuf = rest; multibulklen = suc n; bulklen = some len; argv = argv }) =
        ground arith in
      rw first (
        omega arith,
        loop_same n t' t'' b (some len) argv (s ++ x) (rest ++ x)
            (read_bulk t' (some len) (rest ++ x))
            (λ argv' r. total-bulk_loop n t' t'' none argv' r small' small'') e
            (total-read_bulk t'' t' (some len) (rest ++ x) small'' small')
            (unfold read_bulk in argument-SameProblem len (rest ++ x) (s ++ x) (rest ++ x)),
      )
  step-Resumes n b argv s (problem p) h e ih =
      let first : bulk_loop (suc n) t b argv s
          ≡ refused p (record { querybuf = s; multibulklen = suc n; bulklen = none; argv = argv }) =
        ground arith in
      rw first tt

  -- The loop over a longer buffer, from any point on.
  pub loop-Resumes :
      (n : ℕ) (b : Option ℕ) (argv : List Bytes) (s : Bytes)
      → Resumes t'' x (bulk_loop n t b argv s) (bulk_loop n t' b argv (s ++ x))
  unfolding bulk_loop
  loop-Resumes zero b argv s = tt
  loop-Resumes (suc n) b argv s =
      step-Resumes n b argv s (read_bulk t b s) refl (bulk-Extends t t' b s x small)
        (λ argv' rest. loop-Resumes n none argv' rest)
