-- ===== src/Object/Encoding.antt =====
-- An encoded string stands for the bytes that it was made from.
use gridapps.Prelude.{ℕ, Bytes, ◌≡◌, some, Option-cases, length, inl, arith, inr, sym, ◌∙◌}
use gridapps.Object.{get_decoded_object, string_object_len, try_object_encoding, raw, string2l}
use gridapps.Util.Number.RoundTrip.{string2ll_iff, string2l-eq-string2ll}

-- Encoding a string and decoding it gives the string back, whatever the count of references.
pub get_decoded_object-try_object_encoding :
    (refcount : ℕ) (s : Bytes) → get_decoded_object (try_object_encoding refcount (raw s)) ≡ some s
unfolding get_decoded_object try_object_encoding
get_decoded_object-try_object_encoding refcount s = elim (Option-cases (string2l s)) [
  | inl e ↦ rw e (ground arith)
  | inr (v, e) ↦
      rw e (ground (arith, ((string2ll_iff s v).0 (sym (string2l-eq-string2ll s) ∙ e)).1))
]

-- The length of an encoded string is that of its bytes.
pub string_object_len-try_object_encoding :
    (refcount : ℕ) (s : Bytes)
    → string_object_len (try_object_encoding refcount (raw s)) ≡ some (length s)
unfolding string_object_len try_object_encoding
string_object_len-try_object_encoding refcount s = elim (Option-cases (string2l s)) [
  | inl e ↦ rw e (ground arith)
  | inr (v, e) ↦
      rw e (ground (arith, ((string2ll_iff s v).0 (sym (string2l-eq-string2ll s) ∙ e)).1))
]
