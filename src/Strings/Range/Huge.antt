-- ===== src/Strings/Range/Huge.antt =====
-- t_string.c: SETRANGE where the sum of the offset and the length is no `long long`.
use gridapps.Db.Effects.{written}
use gridapps.Blocking.Cells.{db_add-written}
use gridapps.Reply.{Reply}
use gridapps.Db.Evict.{IsSound, evict, lookup_key_write-eq}
use gridapps.Commands.{run, setrange}
use gridapps.Strings.Range.{
  check_string_length, sdsgrowzero, write_range, setrange_rest, size_sum, setrange_command,
  finish_write, write_at,
}
use gridapps.Object.{in_long_range, get_long_long_from_object, raw}
use gridapps.Strings.Basic.{with_long, abort}
use gridapps.Db.{◌>>=◌, Env, Keyspace, M, aborted, bind_outcome}
use gridapps.Prelude.{
  true, false, none, some, pos, ◌≡◌, ◌+◌, ◌<◌, ◌≤◌, ℕ, ℤ, Bytes, arith, refl, find, length, ap, ◌∙◌,
  two63, two64, [], wrap64, ◌+ℤ◌, ◌==◌,
}

with_long-read :
    (env : Env) (arg : Bytes) (v : ℤ) (k : ℤ → M Reply) (s : Keyspace)
    → get_long_long_from_object env.erange (some (raw arg)) ≡ some (some v)
    → in_long_range v ≡ true
    → with_long env (some (raw arg)) none k s ≡ k v s
unfolding with_long
with_long-read env arg v k s e r = rw (e, with_long, r) refl

in_range : (m : ℕ) → m < two63 → in_long_range (pos m) ≡ true
unfolding in_long_range
in_range m h = ground arith

-- The sum is negative when it is read back, and so below the limit of 512 MB.
passes : (m n : ℕ) → two63 ≤ m + n → m + n < two64 → check_string_length (size_sum (pos m) n) ≡ true
unfolding check_string_length size_sum wrap64 ◌+ℤ◌
passes m n h k = ground arith

sdsgrowzero-aborts : (len : ℕ) (s : Keyspace) → two63 ≤ len → sdsgrowzero [] len s ≡ aborted
unfolding sdsgrowzero abort
sdsgrowzero-aborts len s h = ground arith

write_range-aborts :
    (key value : Bytes) (m : ℕ) (s : Keyspace)
    → two63 ≤ m + length value
    → write_range key m value [] s ≡ aborted
unfolding write_range ◌>>=◌
write_range-aborts key value m s h =
    ap (λ o. bind_outcome o (λ t. finish_write key (write_at m value t)))
      (sdsgrowzero-aborts (m + length value) s h)

rest_aborts :
    (env : Env) (key value : Bytes) (m : ℕ) (s : Keyspace)
    → IsSound s
    → find (evict env key s).dict key ≡ none
    → m < two63
    → two63 ≤ m + length value
    → m + length value < two64
    → setrange_rest env key m value s ≡ aborted
unfolding setrange_rest ◌>>=◌
rest_aborts env key value m s sound missing h k l =
    let new = evict env key s in
    let some_bytes : (length value == 0) ≡ false = ground arith in
    rw
      (
        lookup_key_write-eq env key s sound,
        missing,
        some_bytes,
        passes m (length value) k l,
        db_add-written key (raw []) new missing,
      )
      (write_range-aborts key value m (written key (raw []) new) k)

-- From a sound keyspace, SETRANGE of a missing key aborts the server where its offset is read as a
-- number of 0 to 2^63 - 1 and ends, with the length of the value added, at 2^63 or behind, but below
-- 2^64: the test on the length passes, and the string cannot grow to it.
pub setrange_command-aborts :
    (env : Env) (key offset value : Bytes) (m : ℕ) (s : Keyspace)
    → IsSound s
    → find (evict env key s).dict key ≡ none
    → get_long_long_from_object env.erange (some (raw offset)) ≡ some (some (pos m))
    → m < two63
    → two63 ≤ m + length value
    → m + length value < two64
    → run env (setrange key offset value) s ≡ aborted
unfolding run setrange_command
setrange_command-aborts env key offset value m s sound missing read h k l =
    with_long-read env offset (pos m) _ s read (in_range m h)
    ∙ rest_aborts env key value m s sound missing h k l
