-- ===== src/Rdb/Reads.antt =====
-- rdb.c: what it means that a text is read as it was saved, and strings that are saved as integers or
-- verbatim.
use gridapps.Util.Number.RoundTrip.{
  ll2string-print, length-print-le, string2l-eq-string2ll, string2ll-print,
}
use gridapps.Util.Number.{print, ll2string}
use gridapps.Object.{
  get_decoded_object, create_string_object_from_long_long, in_long_range, Robj, raw, strtoll,
  at_nul, int, try_object_encoding,
}
use gridapps.Prelude.{
  false, some, pos, negsuc, [], arith, Bytes, ℤ, ℕ, ◌≢◌, Option, InInt64, Bool, ◌≡◌, ◌<◌, ◌⊎◌,
  length, ◌≤◌, ◌++◌, refl, inl, inr, ◌∷◌, ◌∙◌, bytes_eq_iff, Bool-cases, ◌&&◌, bytes_eq,
  append_assoc,
}
use gridapps.Rdb.{
  encode_integer, load_raw, integer_object, loaded, fits, load_string_object, save_len,
  save_long_long_as_string_object, first_written, try_integer_encoding, lenerr,
}
use gridapps.Rdb.Length.{load_len-save_len, fread-append}
use gridapps.Rdb.Integer.{encode_integer-Reads, sdsfromlonglong-print}

-- The text written is read as a string object of these bytes, and a raw one where no integer
-- encoding is asked for; what follows is left. Encoding the object again gives what encoding the
-- bytes gives.
abbrev pub Reads : (Bytes → ℕ → Option Bytes) → Bool → Bytes → Bytes → Bytes → Type 0
Reads decompress encode out s rest =
    (o : Robj) × (load_string_object decompress encode (out ++ rest) ≡ loaded o rest)
    × (get_decoded_object o ≡ some s)
    × (try_object_encoding 1 o ≡ try_object_encoding 1 (raw s))
    × (encode ≡ false → o ≡ raw s)

-- What lzf.h says: a compressed text has at least one byte and at most as many as are asked for,
-- and it is decompressed to what it was.
abbrev pub IsLzf : (Bytes → ℕ → Option Bytes) → (Bytes → ℕ → Option Bytes) → Type 0
IsLzf compress decompress =
    (s : Bytes) (n : ℕ) (c : Bytes)
    → compress s n ≡ some c
    → (0 < length c) × (length c ≤ n) × (decompress c (length s) ≡ some s)

-- A string that a dump holds: a raw one whose length is saved in 32 bits, or a `long long`.
abbrev pub Stored : Robj → Type 0
Stored (raw s) = length s < lenerr
Stored (int v) = InInt64 v
Stored _ = ⊥

-- A value encoded again, and its text.
pub encoded-int :
    (v : ℤ) → InInt64 v → try_object_encoding 1 (int v) ≡ try_object_encoding 1 (raw (print v))
unfolding try_object_encoding
encoded-int v h = rw (string2l-eq-string2ll (print v), string2ll-print v h) (ground arith)

integer_object-decoded :
    (encode : Bool) (v : ℤ)
    → InInt64 v
    → (get_decoded_object (integer_object encode v) ≡ some (print v))
      × (try_object_encoding 1 (integer_object encode v) ≡ try_object_encoding 1 (raw (print v)))
      × (encode ≡ false → integer_object encode v ≡ raw (print v))
unfolding integer_object get_decoded_object create_string_object_from_long_long in_long_range
integer_object-decoded encode v h =
    ground (arith, sdsfromlonglong-print v, ll2string-print v h, encoded-int v h)

encode_integer-InInt64 : (v : ℤ) → encode_integer v ≢ [] → InInt64 v
unfolding encode_integer
encode_integer-InInt64 (pos n) h = ground arith
encode_integer-InInt64 (negsuc n) h = ground arith

nil-or-not : (s : Bytes) → (s ≡ []) ⊎ (s ≢ [])
nil-or-not [] = ground arith
nil-or-not (c ∷ s) = ground arith

-- The first of two ways to save, if it writes.
pub first_written-eq : (s t : Bytes) → s ≢ [] → first_written s t ≡ s
unfolding first_written
first_written-eq [] t h = ground arith
first_written-eq (c ∷ s) t h = ground arith

integer-Reads :
    (decompress : Bytes → ℕ → Option Bytes) (encode : Bool) (v : ℤ) (rest : Bytes)
    → (encode_integer v ≡ [])
      ⊎ ((encode_integer v ≢ [])
          × InInt64 v
          × Reads decompress encode (encode_integer v) (print v) rest)
integer-Reads decompress encode v rest = elim (nil-or-not (encode_integer v)) [
  | inl none_written ↦ inl none_written
  | inr written ↦
      let fits = encode_integer-InInt64 v written in
      let (bytes, again, as_raw) = integer_object-decoded encode v fits in
      elim (encode_integer-Reads decompress encode v rest) [
        | inl none_written ↦ absurd (written none_written)
        | inr read ↦ inr (written, fits, (integer_object encode v, read, bytes, again, as_raw))
      ]
]

pub verbatim-Reads :
    (decompress : Bytes → ℕ → Option Bytes) (encode : Bool) (s rest : Bytes)
    → length s < lenerr
    → Reads decompress encode (save_len (length s) ++ s) s rest
unfolding load_string_object load_raw get_decoded_object
verbatim-Reads decompress encode s rest h = (
  raw s,
  rw
      (
        append_assoc (save_len (length s)) s rest,
        load_len-save_len (length s) (s ++ rest) (omega arith),
        fread-append s rest,
      )
      (ground arith),
  refl,
  refl,
  (λ e. refl),
)

-- A value of a `long long` is read back, as an integer or as its text.
pub long_long-Reads :
    (decompress : Bytes → ℕ → Option Bytes) (encode : Bool) (v : ℤ) (rest : Bytes)
    → InInt64 v
    → Reads decompress encode (save_long_long_as_string_object v) (print v) rest
unfolding save_long_long_as_string_object first_written
long_long-Reads decompress encode v rest h = elim (integer-Reads decompress encode v rest) [
  | inl none_written ↦
      rw (none_written, ll2string-print v h)
        (verbatim-Reads decompress encode (print v) rest (omega (arith, length-print-le v h)))
  | inr (written, fits, read) ↦
      rw
        (first_written-eq (encode_integer v) (save_len (length (ll2string 32 v)) ++ ll2string 32 v)
          written)
        read
]

try_integer_encoding-print :
    (s : Bytes)
    → (try_integer_encoding s ≡ [])
      ⊎ ((v : ℤ) × (try_integer_encoding s ≡ encode_integer v) × (ll2string 32 v ≡ s))
unfolding try_integer_encoding
try_integer_encoding-print s =
    elim (Bool-cases (at_nul (strtoll s).eptr && bytes_eq (ll2string 32 (strtoll s).value) s)) [
      | inl same ↦ inr (
        (strtoll s).value,
        rw same refl,
        ground (arith, bytes_eq_iff (ll2string 32 (strtoll s).value) s),
      )
      | inr other ↦ inl (rw other refl)
    ]

-- A text that is encoded as an integer is the one that the integer prints as.
pub try_integer-Reads :
    (decompress : Bytes → ℕ → Option Bytes) (encode : Bool) (s rest : Bytes)
    → (try_integer_encoding s ≡ [])
      ⊎ ((try_integer_encoding s ≢ []) × Reads decompress encode (try_integer_encoding s) s rest)
try_integer-Reads decompress encode s rest = elim (try_integer_encoding-print s) [
  | inl none_written ↦ inl none_written
  | inr (v, same, text) ↦ elim (integer-Reads decompress encode v rest) [
    | inl none_written ↦ inl (same ∙ none_written)
    | inr (written, fits, read) ↦
        inr (rw same written, rw (same, ← text, ll2string-print v fits) read)
  ]
]
