-- ===== src/Rdb/Text.antt =====
-- rdb.c: strings are read back as they were saved, compressed or not.
use gridapps.Rdb.Reads.{
  Reads, IsLzf, Stored, first_written-eq, verbatim-Reads, long_long-Reads, try_integer-Reads,
}
use gridapps.Util.Number.RoundTrip.{ll2string-print}
use gridapps.Util.Number.{print}
use gridapps.Object.{get_decoded_object, Robj, raw, int, list, set, zset, hash}
use gridapps.Prelude.{
  false, some, [], arith, Bytes, ℕ, ◌≢◌, Option, Bool, ◌≡◌, ◌<◌, ◌⊎◌, length, ◌++◌, refl, inl, inr,
  ◌∷◌, Bool-cases, leb, Option-cases, ◌&&◌, ◌-◌, true, append_assoc, ltb, if◌then◌else◌,
}
use gridapps.Rdb.{
  load_lzf_string_object, load_lzf_data, load_string_object, load_len, save_len,
  save_lzf_string_object, save_raw_string, save_long_long_as_string_object, first_written,
  try_integer_encoding, lenerr, save_string_object,
}
use gridapps.Rdb.Length.{load_len-save_len, fread-append}

-- A compressed text of at least one byte, which is decompressed to `s`.
compressed-Reads :
    (decompress : Bytes → ℕ → Option Bytes) (encode : Bool) (s c rest : Bytes)
    → length s < lenerr
    → 0 < length c
    → length c < lenerr
    → decompress c (length s) ≡ some s
    → Reads decompress encode (195 ∷ (save_len (length c) ++ (save_len (length s) ++ c))) s rest
unfolding load_string_object load_lzf_string_object load_lzf_data get_decoded_object load_len
compressed-Reads decompress encode s c rest h p q back = (
  raw s,
  rw
      (
        append_assoc (save_len (length c)) (save_len (length s) ++ c) rest,
        append_assoc (save_len (length s)) c rest,
        load_len-save_len (length c) (save_len (length s) ++ (c ++ rest)) (omega arith),
        load_len-save_len (length s) (c ++ rest) (omega arith),
        fread-append c rest,
      )
      (ground arith),
  refl,
  refl,
  (λ e. refl),
)

either-way :
    (decompress : Bytes → ℕ → Option Bytes) (encode b : Bool) (out s rest : Bytes)
    → (out ≡ []) ⊎ ((out ≢ []) × Reads decompress encode out s rest)
    → ((if b then out else []) ≡ [])
      ⊎ (((if b then out else []) ≢ []) × Reads decompress encode (if b then out else []) s rest)
either-way decompress encode true out s rest h = h
either-way decompress encode false out s rest h = inl refl

first-Reads :
    (decompress : Bytes → ℕ → Option Bytes) (encode : Bool) (out other s rest : Bytes)
    → (out ≡ []) ⊎ ((out ≢ []) × Reads decompress encode out s rest)
    → Reads decompress encode other s rest
    → Reads decompress encode (first_written out other) s rest
unfolding first_written
first-Reads decompress encode out other s rest (inl none_written) r = rw none_written r
first-Reads decompress encode out other s rest (inr (written, read)) r =
    rw (first_written-eq out other written) read

module _ (compress decompress : Bytes → ℕ → Option Bytes) (lzf : IsLzf compress decompress) where
  lzf-Reads :
      (encode : Bool) (s rest : Bytes)
      → length s < lenerr
      → (save_lzf_string_object compress s ≡ [])
        ⊎ ((save_lzf_string_object compress s ≢ [])
            × Reads decompress encode (save_lzf_string_object compress s) s rest)
  unfolding save_lzf_string_object
  lzf-Reads encode s rest h = elim (Bool-cases (leb (length s) 4)) [
    | inl short ↦ inl (rw short refl)
    | inr long ↦ elim (Option-cases (compress s (length s - 4))) [
      | inl none_made ↦ inl (rw (long, none_made) refl)
      | inr (c, made) ↦
          let (p, q, back) = lzf s (length s - 4) c made in
          inr (
            rw (long, made) (ground arith),
            rw (long, made) (compressed-Reads decompress encode s c rest h p (omega arith) back),
          )
    ]
  ]

  -- The first of three ways that writes.
  pub raw-Reads :
      (encode rdbcompression : Bool) (s rest : Bytes)
      → length s < lenerr
      → Reads decompress encode (save_raw_string compress rdbcompression s) s rest
  unfolding save_raw_string
  raw-Reads encode rdbcompression s rest h =
      first-Reads decompress encode _ _ s rest
        (either-way decompress encode (leb (length s) 11) (try_integer_encoding s) s rest
          (try_integer-Reads decompress encode s rest))
        (first-Reads decompress encode _ _ s rest
          (either-way decompress encode (rdbcompression && ltb 20 (length s))
            (save_lzf_string_object compress s) s rest (lzf-Reads encode s rest h))
          (verbatim-Reads decompress encode s rest h))

  -- A raw string below the longest length, or an integer of a `long long`, is saved so that reading
  -- takes exactly what was written and gives a string of the same bytes, which is raw unless an
  -- integer encoding is asked for: with or without compression, for any compression library whose
  -- output has between one byte and as many as it is given, and is decompressed to its input.
  pub load_string_object-save_string_object :
      (encode rdbcompression : Bool) (o : Robj) (s rest : Bytes)
      → Stored o
      → get_decoded_object o ≡ some s
      → (out : Bytes) × (save_string_object compress rdbcompression o ≡ some out)
        × Reads decompress encode out s rest
  unfolding save_string_object get_decoded_object
  load_string_object-save_string_object encode rdbcompression (int v) s rest h e =
      let same : print v ≡ s = ground (arith, ll2string-print v h) in
      (
        save_long_long_as_string_object v,
        refl,
        rw (← same) (long_long-Reads decompress encode v rest h),
      )
  load_string_object-save_string_object encode rdbcompression (raw t) s rest h e =
      let same : t ≡ s = ground arith in
      (
        save_raw_string compress rdbcompression t,
        refl,
        rw (← same) (raw-Reads encode rdbcompression t rest h),
      )
  load_string_object-save_string_object encode rdbcompression (list l) s rest h e = absurd h
  load_string_object-save_string_object encode rdbcompression (set l) s rest h e = absurd h
  load_string_object-save_string_object encode rdbcompression (zset l) s rest h e = absurd h
  load_string_object-save_string_object encode rdbcompression (hash l) s rest h e = absurd h
