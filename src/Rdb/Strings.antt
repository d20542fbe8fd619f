-- ===== src/Rdb/Strings.antt =====
-- rdb.c: the branch for strings of rdbSaveObject and rdbLoadObject, as a format.
use gridapps.Util.Number.RoundTrip.{ll2string-print}
use mathlib.Core.Option.{some-injective}
use gridapps.Util.Number.{ll2string, print}
use gridapps.Rdb.Restore.{Restores}
use gridapps.Rdb.Reads.{Stored, IsLzf, encoded-int}
use gridapps.Rdb.Text.{load_string_object-save_string_object}
use gridapps.Rdb.Snapshot.{Config, Format}
use gridapps.Object.{Robj, get_decoded_object, raw, try_object_encoding, int, list, set, zset, hash}
use gridapps.Rdb.{Load, loaded, null, save_string_object, panic, load_string_object}
use gridapps.Prelude.{
  true, none, some, refl, [], arith, Option, Bytes, ℕ, Bool, ◌≡◌, if◌then◌else◌, ◌==◌, sym, ◌∙◌, ap,
}

-- A string is read with an integer encoding asked for, and encoded again.
unfoldable pub encoded : Load → Load
encoded (loaded o rest) = loaded (try_object_encoding 1 o) rest
encoded null = null
encoded panic = panic

-- The type is REDIS_STRING.
unfoldable pub typed : Option Bytes → Option (ℕ × Bytes)
typed none = none
typed (some out) = some (0, out)

-- The other types have no part in this format, which takes them for unknown.
unfoldable pub string_format :
    (Bytes → ℕ → Option Bytes) → (Bytes → ℕ → Option Bytes) → Bool → Format
string_format compress decompress rdbcompression = record {
  save = λ o. typed (save_string_object compress rdbcompression o);
  load = λ type s. if type == 0 then encoded (load_string_object decompress true s) else panic;
}

-- A string is restored as the encoding of its bytes.
abbrev pub as_encoded : Robj → Robj
as_encoded (raw s) = try_object_encoding 1 (raw s)
as_encoded o = o

as_encoded-decoded :
    (o : Robj) (s : Bytes)
    → Stored o
    → get_decoded_object o ≡ some s
    → as_encoded o ≡ try_object_encoding 1 (raw s)
unfolding get_decoded_object try_object_encoding
as_encoded-decoded (raw t) s h e = ground arith
as_encoded-decoded (int v) s h e =
    let same : print v ≡ s = ground (arith, ll2string-print v h) in
    encoded-int v h ∙ ap (λ t. try_object_encoding 1 (raw t)) same
as_encoded-decoded (list l) s h e = absurd h
as_encoded-decoded (set l) s h e = absurd h
as_encoded-decoded (zset l) s h e = absurd h
as_encoded-decoded (hash l) s h e = absurd h

Stored-decoded : (o : Robj) → Stored o → (s : Bytes) × (get_decoded_object o ≡ some s)
unfolding get_decoded_object
Stored-decoded (raw t) h = (t, refl)
Stored-decoded (int v) h = (ll2string 32 v, refl)
Stored-decoded (list l) h = absurd h
Stored-decoded (set l) h = absurd h
Stored-decoded (zset l) h = absurd h
Stored-decoded (hash l) h = absurd h

-- The format of strings restores a string of the same bytes, with the encoding that tryObjectEncoding
-- gives them: an object with the integer encoding if they are the text of a long, else a raw one.
pub string_format-Restores :
    (c : Config)
    → IsLzf c.compress c.decompress
    → c.format ≡ string_format c.compress c.decompress c.rdbcompression
    → Restores c Stored as_encoded
unfolding string_format typed encoded
string_format-Restores c lzf format o h =
    let (s, bytes) = Stored-decoded o h in
    let restored =
      load_string_object-save_string_object c.compress c.decompress lzf true c.rdbcompression o s in
    let (out, saves, _) = restored [] h bytes in
    (
      0,
      out,
      omega arith,
      rw (format, saves) refl,
      (λ rest.
          let (out', saves', (o', reads, decoded, again, as_raw)) = restored rest h bytes in
          let same : out ≡ out' = some-injective out out' (sym saves ∙ saves') in
          rw (format, same, reads, as_encoded-decoded o s h bytes) (ap (λ x. loaded x rest) again)),
    )
