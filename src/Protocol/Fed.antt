-- ===== src/Protocol/Fed.antt =====
-- networking.c: processMultibulkBuffer on data that arrives in pieces.
use gridapps.Util.Number.{string2ll}
use gridapps.Protocol.{
  Reader, inline_max_size, with_count, read_count, more, process_multibulk_buffer, Parsed, find_cr,
}
use gridapps.Prelude.{
  none, some, pos, negsuc, inl, inr, arith, Bytes, ℕ, ◌++◌, ◌≤◌, length, length-append, Option, ◌≡◌,
  ℤ, Bool-cases, ◌⊎◌, ltb, ◌*◌, ◌==◌, drop-append_le, drop, false, refl, [], ◌∷◌, ◌<◌, Option-cases,
  sym, ◌∙◌, ap, true,
}
use gridapps.Protocol.Resume.{Resumes, loop-Resumes}
use gridapps.Protocol.Pieces.{find_cr-append}

-- The client when more data has arrived.
abbrev pub fed : Reader → Bytes → Reader
fed c x = record c { querybuf = c.querybuf ++ x }

idle-process :
    (c : Reader)
    → c.multibulklen ≡ 0
    → c.argv ≡ []
    → process_multibulk_buffer c ≡ read_count c (find_cr c.querybuf)
unfolding process_multibulk_buffer
idle-process c idle empty =
    let no_arguments : (length c.argv == 0) ≡ true = rw empty refl in ground arith

module _ (c : Reader) (x : Bytes) (t : ℕ) (small : t ≤ inline_max_size)
    (fits : length (c.querybuf ++ x) ≤ inline_max_size) where
  fits_now : length c.querybuf ≤ inline_max_size
  fits_now = omega (arith, length-append c.querybuf x)

  count-Resumes :
      (tail : Bytes) (v : Option ℤ)
      → 2 ≤ length tail
      → Resumes t x (with_count c tail v) (with_count (fed c x) (tail ++ x) v)
  unfolding with_count
  count-Resumes tail none h = tt
  count-Resumes tail (some (negsuc n)) h = tt
  count-Resumes tail (some (pos n)) h = elim (Bool-cases (ltb (1024 * 1024) n)) [
    | inl many ↦ rw many tt
    | inr few ↦ elim (Bool-cases (n == 0)) [
      | inl zero_count ↦ rw (few, zero_count) tt
      | inr some_count ↦
          rw (few, some_count, drop-append_le 2 tail x h)
            (loop-Resumes (length c.querybuf) (length (c.querybuf ++ x)) t fits_now fits small x n
              c.bulklen c.argv (drop 2 tail))
    ]
  ]

  no_line : read_count c none ≡ more c
  unfolding read_count
  no_line =
      let limit : ltb inline_max_size (length c.querybuf) ≡ false = ground (arith, fits_now) in
      rw limit refl

  -- Without a whole line the buffer is left as it is.
  line-Resumes :
      (line tail : Bytes)
      → (read_count c (some (line, tail)) ≡ more c)
        ⊎ Resumes t x
            (read_count c (some (line, tail)))
            (read_count (fed c x) (some (line, tail ++ x)))
  unfolding read_count
  line-Resumes [] tail = elim (Bool-cases (ltb (length tail) 2)) [
    | inl short ↦ inl (rw short refl)
    | inr enough ↦ inr (rw enough tt)
  ]
  line-Resumes (d ∷ digits) tail = elim (Bool-cases (ltb (length tail) 2)) [
    | inl short ↦ inl (rw short refl)
    | inr enough ↦
        let enough' : ltb (length (tail ++ x)) 2 ≡ false = ground (arith, length-append tail x) in
        elim (Bool-cases (d == b'*')) [
          | inl star ↦
              inr
                (rw (enough, enough', star) (count-Resumes tail (string2ll digits) (ground arith)))
          | inr other ↦ inr (rw (enough, enough', other) tt)
        ]
  ]

  -- In the state between two requests.
  idle-Resumes :
      c.multibulklen ≡ 0
      → c.argv ≡ []
      → (process_multibulk_buffer c ≡ more c)
        ⊎ Resumes t x (process_multibulk_buffer c) (process_multibulk_buffer (fed c x))
  idle-Resumes idle empty =
      let first = idle-process c idle empty in
      let whole = idle-process (fed c x) idle empty in
      elim (Option-cases (find_cr c.querybuf)) [
        | inl none_found ↦ inl (first ∙ ap (read_count c) none_found ∙ no_line)
        | inr ((line, tail), found) ↦
            rw
              (
                first ∙ ap (read_count c) found,
                whole ∙ ap (read_count (fed c x)) (find_cr-append c.querybuf x line tail found),
              )
              (line-Resumes line tail)
      ]

  busy-Resumes :
      0 < c.multibulklen
      → Resumes t x (process_multibulk_buffer c) (process_multibulk_buffer (fed c x))
  unfolding process_multibulk_buffer
  busy-Resumes busy =
      let waits : (c.multibulklen == 0) ≡ false = ground arith in
      rw waits (
        loop-Resumes (length c.querybuf) (length (c.querybuf ++ x)) t fits_now fits small x
          c.multibulklen c.bulklen c.argv c.querybuf)

more_injective : (r r' : Reader) → more r ≡ more r' → r ≡ r'
more_injective r r' h = ground arith

-- The loop that goes on is the parser on the longer buffer.
resumed :
    (r : Reader) (x : Bytes) (whole : Parsed)
    → Resumes (length (r.querybuf ++ x)) x (more r) whole
    → process_multibulk_buffer (fed r x) ≡ whole
unfolding process_multibulk_buffer
resumed r x whole (busy, same) =
    let waits : (r.multibulklen == 0) ≡ false = ground arith in rw waits (sym same)

-- Let a client be inside a request, or between two with no arguments. Where the parser lacks data, it
-- keeps what it needs: when more arrives, it does what it would have done on all the data at once, so
-- the outcome does not depend on how the data arrives, as long as no more than 64 kB are buffered.
pub process_multibulk_buffer-fed :
    (c r : Reader) (x : Bytes)
    → (0 < c.multibulklen) ⊎ ((c.multibulklen ≡ 0) × (c.argv ≡ []))
    → length (c.querybuf ++ x) ≤ inline_max_size
    → length (r.querybuf ++ x) ≤ inline_max_size
    → process_multibulk_buffer c ≡ more r
    → process_multibulk_buffer (fed r x) ≡ process_multibulk_buffer (fed c x)
process_multibulk_buffer-fed c r x (inl busy) fits small h =
    resumed r x (process_multibulk_buffer (fed c x))
      (rw h at (busy-Resumes c x (length (r.querybuf ++ x)) small fits busy))
process_multibulk_buffer-fed c r x (inr (idle, empty)) fits small h =
    elim (idle-Resumes c x (length (r.querybuf ++ x)) small fits idle empty) [
      | inl kept ↦
          let same : r ≡ c = more_injective r c (sym h ∙ kept) in
          ap (λ z. process_multibulk_buffer (fed z x)) same
      | inr resumes ↦ resumed r x (process_multibulk_buffer (fed c x)) (rw h at resumes)
    ]
