-- ===== src/Strings/Sound.antt =====
-- t_string.c: how the commands on strings end, and what they keep of the keyspace.
use gridapps.Util.Number.{ll2string}
use gridapps.Strings.Bit.{getbit_rest, setbit_write, setbit_rest}
use gridapps.Strings.Range.{
  decoded, strlen_command, append_command, write_value, finish_write, setrange_rest, getrange_rest,
  sdsgrowzero, write_range, zero_filled,
}
use gridapps.Db.Keeps.{
  Keeps, Keeps-pure, Keeps-if, keeps_rules, Keeps-read_bind, Keeps-lookup_bind, KeepsAt,
  put-IsSound, KeepsAt-Keeps, Keeps-bind,
}
use gridapps.Strings.Basic.{
  with_long, with_long_long, bulk_reply, get_generic_command, get_command, getset_command, abort,
}
use gridapps.Reply.{Message, Reply, error, not_an_integer, value_out_of_range, integer}
use gridapps.Db.{Env, M, pure, ◌>>=◌}
use gridapps.Object.{
  get_long_long_from_object, Robj, is_string, raw, int, in_long_range, get_decoded_object,
  string_object_len, try_object_encoding,
}
use mathlib.Core.Option
use gridapps.Prelude.{
  true, none, some, inl, inr, arith, Option, ◌≡◌, Bool, ◌≢◌, ℤ, if◌then◌else◌, Option-cases, Bytes,
  pos, ℕ, ◌+◌, ◌<◌, length, two63, leb, ◌||◌, ltb,
}

-- What is read as a number: no object, or a string.
abbrev pub IsText : Option Robj → Type 0
IsText none = Unit
IsText (some o) = is_string o ≡ true

get_long_long-total : (e : Bool) (o : Option Robj) → IsText o → get_long_long_from_object e o ≢ none
unfolding get_long_long_from_object is_string
get_long_long-total e none t = ground arith
get_long_long-total e (some (raw s)) t = ground arith
get_long_long-total e (some (int v)) t = ground arith
get_long_long-total e (some o) t = ground arith

module _ (env : Env) (o : Option Robj) (msg : Option Message) (k : ℤ → M Reply) where
  pub Keeps-with_long : IsText o → ((v : ℤ) → Keeps (k v)) → Keeps (with_long env o msg k)
  unfolding with_long
  Keeps-with_long t h = elim (Option-cases (get_long_long_from_object env.erange o)) [
    | inl e ↦ absurd (get_long_long-total env.erange o t e)
    | inr (r, e) ↦ rw (e, with_long) (answer r)
  ]
    where
      answer :
          (r : Option ℤ)
          → Keeps (elim r [
            | none ↦ pure (error (Option.get_or msg not_an_integer))
            | some v ↦
                if in_long_range v then k v else pure (error (Option.get_or msg value_out_of_range))
          ])
      answer none = search Keeps-pure
      answer (some v) = search (Keeps-pure, Keeps-if, h)

  pub Keeps-with_long_long : IsText o → ((v : ℤ) → Keeps (k v)) → Keeps (with_long_long env o msg k)
  unfolding with_long_long
  Keeps-with_long_long t h = elim (Option-cases (get_long_long_from_object env.erange o)) [
    | inl e ↦ absurd (get_long_long-total env.erange o t e)
    | inr (r, e) ↦ rw (e, with_long_long) (answer r)
  ]
    where
      answer :
          (r : Option ℤ)
          → Keeps (elim r [ none ↦ pure (error (Option.get_or msg not_an_integer)) | some v ↦ k v ])
      answer none = search Keeps-pure
      answer (some v) = h v

pub Keeps-decoded : (o : Robj) → is_string o ≡ true → Keeps (decoded o)
unfolding decoded is_string get_decoded_object
Keeps-decoded (raw s) t = search Keeps-pure
Keeps-decoded (int v) t = search Keeps-pure
Keeps-decoded o t = absurd (cc)

pub Keeps-bulk : (o : Robj) → is_string o ≡ true → Keeps (bulk_reply (get_decoded_object o))
unfolding bulk_reply is_string get_decoded_object
Keeps-bulk (raw s) t = search Keeps-pure
Keeps-bulk (int v) t = search Keeps-pure
Keeps-bulk o t = absurd (cc)

pub Keeps-len :
    (o : Robj)
    → is_string o ≡ true
    → Keeps {A = Reply}
        (elim (string_object_len o) [ none ↦ abort | some n ↦ pure (integer (pos n)) ])
unfolding is_string string_object_len
Keeps-len (raw s) t = search Keeps-pure
Keeps-len (int v) t = search Keeps-pure
Keeps-len o t = absurd (cc)

-- Decoding a string changes nothing.
pub KeepsAt-decoded_bind :
    {B : Type 0} (key : Bytes) (o : Robj) (f : Bytes → M B)
    → is_string o ≡ true
    → ((s : Bytes) → KeepsAt key (some o) (f s))
    → KeepsAt key (some o) (decoded o >>= f)
unfolding decoded is_string get_decoded_object ◌>>=◌ pure
KeepsAt-decoded_bind key (raw s) f t k = record { at = (k s).at }
KeepsAt-decoded_bind key (int v) f t k = record { at = (k (ll2string 32 v)).at }
KeepsAt-decoded_bind key o f t k = absurd (cc)

pub Keeps-write_value : (key s : Bytes) → Keeps (write_value key s)
unfolding write_value
Keeps-write_value key s = record { at = λ k h. put-IsSound key (raw s) k h }

pub Keeps-finish_write : (key s : Bytes) → Keeps (finish_write key s)
unfolding finish_write
Keeps-finish_write key s = search (keeps_rules, Keeps-write_value)

Keeps-sdsgrowzero : (s : Bytes) (len : ℕ) → len < two63 → Keeps (sdsgrowzero s len)
unfolding sdsgrowzero
Keeps-sdsgrowzero s len h =
    let fits : (leb len (length s) || ltb len two63) ≡ true = ground arith in
    rw fits (Keeps-pure (zero_filled s len))

pub Keeps-write_range :
    (key : Bytes) (offset : ℕ) (value s : Bytes)
    → offset + length value < two63
    → Keeps (write_range key offset value s)
unfolding write_range
Keeps-write_range key offset value s h =
    Keeps-bind _ _ (Keeps-sdsgrowzero s (offset + length value) h) (λ t. Keeps-finish_write key _)

pub encoded_is_string : (s : Bytes) → is_string (try_object_encoding 1 (raw s)) ≡ true
unfolding is_string try_object_encoding
encoded_is_string s = ground arith

pub ruleset text_rules =
    (keeps_rules, Keeps-decoded, Keeps-bulk, KeepsAt-decoded_bind, Keeps-finish_write)

module _ (env : Env) (key : Bytes) where
  pub get_generic-Keeps : Keeps (get_generic_command env key)
  unfolding get_generic_command
  get_generic-Keeps = Keeps-read_bind env key _ (search text_rules) (λ o. search text_rules)

  pub get-Keeps : Keeps (get_command env key)
  unfolding get_command
  get-Keeps = search (text_rules, get_generic-Keeps)

  pub getset-Keeps : (val : Bytes) → Keeps (getset_command env key val)
  unfolding getset_command
  getset-Keeps val = search (text_rules, get_generic-Keeps)

  pub strlen-Keeps : Keeps (strlen_command env key)
  unfolding strlen_command
  strlen-Keeps = Keeps-read_bind env key _ (search text_rules) (λ o. search (text_rules, Keeps-len))

  pub append-Keeps : (value : Bytes) → Keeps (append_command env key value)
  unfolding append_command
  append-Keeps value =
      Keeps-lookup_bind env key _ (search (text_rules, encoded_is_string) depth 8)
        (λ o. search text_rules depth 8)

  pub setrange_rest-Keeps :
      (offset : ℕ) (value : Bytes)
      → offset + length value < two63
      → Keeps (setrange_rest env key offset value)
  unfolding setrange_rest
  setrange_rest-Keeps offset value h =
      Keeps-lookup_bind env key _ (search (text_rules, Keeps-write_range) depth 8)
        (λ o. search (text_rules, Keeps-write_range) depth 8)

  pub getrange_rest-Keeps : (start end' : ℤ) → Keeps (getrange_rest env key start end')
  unfolding getrange_rest
  getrange_rest-Keeps start end' =
      Keeps-read_bind env key _ (search text_rules) (λ o. search text_rules)

  pub getbit_rest-Keeps : (offset : ℕ) → Keeps (getbit_rest env key offset)
  unfolding getbit_rest
  getbit_rest-Keeps offset = Keeps-read_bind env key _ (search text_rules) (λ o. search text_rules)

  pub setbit_write-Keeps : (s : Bytes) (offset on : ℕ) → Keeps (setbit_write key s offset on)
  unfolding setbit_write
  setbit_write-Keeps s offset on = search (text_rules, Keeps-write_value)

  pub setbit_rest-Keeps : (offset on : ℕ) → Keeps (setbit_rest env key offset on)
  unfolding setbit_rest
  setbit_rest-Keeps offset on =
      Keeps-lookup_bind env key _ (search (text_rules, setbit_write-Keeps) depth 8)
        (λ o. search (text_rules, setbit_write-Keeps) depth 8)

-- Reading a number changes nothing.
pub KeepsAt-with_long_long :
    (env : Env) (key : Bytes) (at : Option Robj) (o : Option Robj) (msg : Option Message)
    (k : ℤ → M Reply)
    → IsText o
    → ((v : ℤ) → KeepsAt key at (k v))
    → KeepsAt key at (with_long_long env o msg k)
unfolding with_long_long
KeepsAt-with_long_long env key at o msg k t h =
    elim (Option-cases (get_long_long_from_object env.erange o)) [
      | inl e ↦ absurd (get_long_long-total env.erange o t e)
      | inr (r, e) ↦ rw (with_long_long, e) (answer r)
    ]
  where
    answer :
        (r : Option ℤ)
        → KeepsAt key at
            (elim r [ none ↦ pure (error (Option.get_or msg not_an_integer)) | some v ↦ k v ])
    answer none = KeepsAt-Keeps key at _ (Keeps-pure _)
    answer (some v) = h v
