-- ===== src/Strings/Counter/Exact.antt =====
-- INCR and its kin: the test before the addition lets through exactly the sums that are in range.
use gridapps.Db.Evict.{IsSound, evict, lookup_key_write-eq}
use gridapps.Reply.{error, would_overflow, integer, Message, Reply}
use gridapps.Db.Effects.{dirtied, signalled, written, reply_of}
use gridapps.Strings.Basic.{with_long_long}
use gridapps.Object.{
  in_long_range, is_string, int, create_string_object_from_long_long, Robj,
  get_long_long_from_object, raw,
}
use gridapps.Db.{
  ◌>>=◌, Keyspace, db_add, pure, db_overwrite, signal_modified_key, done, Env, add_dirty, present,
  M,
}
use gridapps.Strings.Counter.{would_pass, incr_rest, incr_decr_command, decrby_command}
use gridapps.Prelude.{
  false, pos, negsuc, arith, ◌+ℤ◌, ◌-ℤ◌, ℤ, InInt64, ◌≡◌, ◌↔◌, true, none, some, Bytes, Bool,
  Option, find, wrap64_id, refl, inl, inr, Bool-cases, wrap64, ℕ, if◌then◌else◌, llong_min, ◌<◌,
  ◌∙◌, two63,
}

-- The true sum of two long longs is one exactly when the test finds no overflow.
pub would_pass_iff :
    (oldvalue incr : ℤ)
    → InInt64 oldvalue
    → InInt64 incr
    → (would_pass oldvalue incr ≡ false) ↔ InInt64 (oldvalue +ℤ incr)
unfolding would_pass ◌+ℤ◌ ◌-ℤ◌
would_pass_iff (pos a) (pos b) h k = ground arith
would_pass_iff (pos a) (negsuc b) h k = ground arith
would_pass_iff (negsuc a) (pos b) h k = ground arith
would_pass_iff (negsuc a) (negsuc b) h k = ground arith

-- What INCR leaves: the sum, as an encoded integer, under the key.
abbrev pub after_incr : Bytes → ℤ → Keyspace → Keyspace
after_incr key v s = dirtied 1 (signalled key (written key (int v) s))

in_long_range_iff : (v : ℤ) → (in_long_range v ≡ true) ↔ InInt64 v
unfolding in_long_range
in_long_range_iff v = ground arith

incr_rest-eq :
    (key : Bytes) (value incr : ℤ) (s : Keyspace)
    → InInt64 (value +ℤ incr)
    → would_pass value incr ≡ false
    → incr_rest key (present s.dict key) value incr s
      ≡ done (integer (value +ℤ incr), after_incr key (value +ℤ incr) s)
unfolding incr_rest db_add db_overwrite signal_modified_key add_dirty dirtied signalled written
    create_string_object_from_long_long ◌>>=◌ pure
incr_rest-eq key value incr s fits passes =
    rw (passes, wrap64_id (value +ℤ incr) fits)
      (ground (arith, (in_long_range_iff (value +ℤ incr)).1 fits))

incr_rest-overflow :
    (key : Bytes) (b : Bool) (value incr : ℤ) (s : Keyspace)
    → would_pass value incr ≡ true
    → incr_rest key b value incr s ≡ done (error would_overflow, s)
unfolding incr_rest pure
incr_rest-overflow key b value incr s passes = rw passes

out_of_range :
    (value incr : ℤ)
    → InInt64 value
    → InInt64 incr
    → would_pass value incr ≡ true
    → in_long_range (value +ℤ incr) ≡ false
out_of_range value incr hv hi passes = elim (Bool-cases (in_long_range (value +ℤ incr))) [
  | inl fits ↦
      let clear =
        (would_pass_iff value incr hv hi).1 ((in_long_range_iff (value +ℤ incr)).0 fits) in
      cc
  | inr e ↦ e
]

negated : wrap64 (pos 0 -ℤ llong_min) ≡ llong_min
unfolding wrap64 ◌-ℤ◌
negated = refl

sum_fits : (a : ℕ) → a < two63 → InInt64 (pos a +ℤ llong_min)
unfolding ◌+ℤ◌
sum_fits a h = ground arith

pub with_long_long-read :
    (env : Env) (o : Option Robj) (msg : Option Message) (k : ℤ → M Reply) (v : ℤ) (s : Keyspace)
    → get_long_long_from_object env.erange o ≡ some (some v)
    → with_long_long env o msg k s ≡ k v s
unfolding with_long_long
with_long_long-read env o msg k v s e = rw (e, with_long_long)

-- The value is read from a string or from no object.
incr_decr_command-read :
    (env : Env) (key : Bytes) (incr value : ℤ) (s : Keyspace) (o : Option Robj)
    → IsSound s
    → find (evict env key s).dict key ≡ o
    → get_long_long_from_object env.erange o ≡ some (some value)
    → incr_decr_command env key incr s
      ≡ incr_rest key (present (evict env key s).dict key) value incr (evict env key s)
unfolding incr_decr_command ◌>>=◌ is_string get_long_long_from_object
incr_decr_command-read env key incr value s none h e r =
    rw (lookup_key_write-eq env key s h, e)
      (with_long_long-read env none none (λ v. incr_rest key false v incr) value (evict env key s)
        r)
incr_decr_command-read env key incr value s (some (raw t)) h e r =
    rw (lookup_key_write-eq env key s h, e)
      (with_long_long-read env (some (raw t)) none (λ v. incr_rest key true v incr) value
        (evict env key s) r)
incr_decr_command-read env key incr value s (some (int v)) h e r =
    rw (lookup_key_write-eq env key s h, e)
      (with_long_long-read env (some (int v)) none (λ v. incr_rest key true v incr) value
        (evict env key s) r)
incr_decr_command-read env key incr value s (some o) h e r = absurd (cc)

-- INCR, DECR, INCRBY and DECRBY all end in this. Where the value under the key, or 0 for no key, is
-- read as a long long, the reply and the new value are the true sum if that is a long long; if it is
-- not, the reply is the overflow error and nothing beyond the lookup has changed.
pub incr_decr_command-exact :
    (env : Env) (key : Bytes) (incr value : ℤ) (s : Keyspace)
    → IsSound s
    → InInt64 incr
    → InInt64 value
    → get_long_long_from_object env.erange (find (evict env key s).dict key) ≡ some (some value)
    → incr_decr_command env key incr s ≡ (
        if in_long_range (value +ℤ incr)
        then done (integer (value +ℤ incr), after_incr key (value +ℤ incr) (evict env key s))
        else done (error would_overflow, evict env key s))
incr_decr_command-exact env key incr value s h hi hv read =
    incr_decr_command-read env key incr value s _ h refl read
    ∙ elim (Bool-cases (would_pass value incr)) [
      | inl passes ↦
          incr_rest-overflow key (present (evict env key s).dict key) value incr (evict env key s)
            passes
          ∙ rw (out_of_range value incr hv hi passes)
      | inr fits ↦
          let sum = (would_pass_iff value incr hv hi).0 fits in
          incr_rest-eq key value incr (evict env key s) sum fits
          ∙ rw ((in_long_range_iff (value +ℤ incr)).1 sum)
    ]

-- DECRBY by the least long long cannot be negated: from a value that is not negative it subtracts
-- 2 ^ 63 where it should add it, and replies with a sum below the old value instead of the error.
pub decrby_command-least :
    (env : Env) (key arg : Bytes) (a : ℕ) (s : Keyspace)
    → IsSound s
    → a < two63
    → get_long_long_from_object env.erange (some (raw arg)) ≡ some (some llong_min)
    → get_long_long_from_object env.erange (find (evict env key s).dict key) ≡ some (some (pos a))
    → reply_of (decrby_command env key arg s) ≡ some (integer (pos a +ℤ llong_min))
unfolding decrby_command
decrby_command-least env key arg a s h small least read = rw (
  with_long_long-read env (some (raw arg)) none
      (λ n. incr_decr_command env key (wrap64 (pos 0 -ℤ n))) llong_min s least,
  negated,
  incr_decr_command-exact env key llong_min (pos a) s h (omega arith) (omega arith) read,
  (in_long_range_iff (pos a +ℤ llong_min)).1 (sum_fits a small),
)
