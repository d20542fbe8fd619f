-- ===== src/Tests/Commands.antt =====
-- Witnesses on the keyspace and the commands.
use gridapps.Strings.Range.Huge.{setrange_command-aborts}
use gridapps.Strings.Basic.Store.{string_at, set_command-total}
use gridapps.Keys.Rename.{rename_command-total}
use gridapps.Strings.Counter.Exact.{after_incr, decrby_command-least, incr_decr_command-exact}
use gridapps.Keys.Expiry.{expire-revives}
use gridapps.Strings.Basic.Read.{get-set}
use gridapps.Reply.{bulk, integer, ok, error, would_overflow}
use gridapps.Commands.Sound.{run-Keeps}
use gridapps.Strings.Counter.{incr_decr_command, decrby_command}
use gridapps.Commands.{run, Command}
use gridapps.Db.Evict.{evict, counts_expired, expire_if_needed-eq, IsSound, SameAt}
use gridapps.Tests.{master_at, sample, sample-IsSound}
use gridapps.Db.Keeps.{Keeps}
use gridapps.Keys.{expire_rest, rename_command, has_time}
use gridapps.Db.Effects.{reply_of}
use gridapps.Object.{get_long_long_from_object, strtoll, strtoll_digits, parsed, in_long_range, raw}
use gridapps.Strings.Basic.{get_command, set_command}
use gridapps.Db.{◌>>=◌, expire_if_needed, Keyspace, done, time_or_minus_one, aborted}
use gridapps.Prelude.{
  none, some, refl, pos, [], arith, ◌∷◌, find, codes, ◌≡◌, if◌then◌else◌, ◌+ℤ◌, ◌+◌, llong_min,
  ◌++◌, Bytes, ◌≢◌, bytes_eq, false, two63, ◌-◌,
}

expire_if_needed_example :
    expire_if_needed (master_at 60) (codes "t") sample
    ≡ done
        (counts_expired (master_at 60) (codes "t") sample, evict (master_at 60) (codes "t") sample)
expire_if_needed_example = expire_if_needed-eq (master_at 60) (codes "t") sample sample-IsSound

set_example :
    (s' : Keyspace) × (set_command (master_at 60) (codes "t") (codes "7") sample ≡ done (ok, s'))
    × IsSound s'
    × (string_at s' (codes "t") ≡ some (codes "7"))
    × (find s'.expires (codes "t") ≡ none)
    × ((j : Bytes) → j ≢ codes "t" → SameAt j s' sample)
    × (s'.dirty ≡ sample.dirty + 1)
    × (s'.touched ≡ sample.touched ++ codes "t" ∷ [])
set_example = set_command-total (master_at 60) (codes "t") (codes "7") sample sample-IsSound

get-set_example :
    reply_of (
      (set_command (master_at 60) (codes "t") (codes "-7") >>= λ _.
      get_command (master_at 70) (codes "t"))
        sample)
    ≡ some (bulk (codes "-7"))
get-set_example =
    get-set (master_at 60) (master_at 70) (codes "t") (codes "-7") sample sample-IsSound

incr_example : incr_decr_command (master_at 60) (codes "n") (pos 1) sample ≡ (
    if in_long_range (pos 41 +ℤ pos 1)
    then done (
      integer (pos 41 +ℤ pos 1),
      after_incr (codes "n") (pos 41 +ℤ pos 1) (evict (master_at 60) (codes "n") sample),
    )
    else done (error would_overflow, evict (master_at 60) (codes "n") sample))
unfolding get_long_long_from_object find bytes_eq evict
incr_example =
    incr_decr_command-exact (master_at 60) (codes "n") (pos 1) (pos 41) sample sample-IsSound
      (omega arith) (omega arith) refl

decrby_example :
    reply_of (decrby_command (master_at 60) (codes "n") (codes "-9223372036854775808") sample)
    ≡ some (integer (pos 41 +ℤ llong_min))
unfolding get_long_long_from_object find bytes_eq evict strtoll strtoll_digits parsed
decrby_example =
    decrby_command-least (master_at 60) (codes "n") (codes "-9223372036854775808") 41 sample
      sample-IsSound (omega arith) refl refl

rename_example :
    (s' : Keyspace) × (rename_command (master_at 40) (codes "t") (codes "n") sample ≡ done (ok, s'))
    × (find s'.dict (codes "n") ≡ some (raw (codes "old")))
    × (let expire =
          time_or_minus_one (find (evict (master_at 40) (codes "t") sample).expires (codes "t")) in
        find s'.expires (codes "n") ≡ (if has_time expire then some expire else none))
    × (find s'.dict (codes "t") ≡ none)
    × (find s'.expires (codes "t") ≡ none)
    × ((j : Bytes) → j ≢ codes "t" → j ≢ codes "n" → SameAt j s' sample)
unfolding find bytes_eq evict
rename_example =
    rename_command-total (master_at 40) (codes "t") (codes "n") (raw (codes "old")) sample
      sample-IsSound (λ e. ground arith) refl

revives_example :
    reply_of (
      (expire_rest (master_at 60) (codes "t") (pos 10) >>= λ _.
      get_command (master_at 60) (codes "t"))
        sample)
    ≡ some (bulk (codes "old"))
unfolding find bytes_eq
revives_example =
    expire-revives (master_at 60) (codes "t") (codes "old") 50 10 sample sample-IsSound refl refl
      (omega arith) (omega arith) (omega arith)

-- It writes at the last place that the test on the length takes.
abbrev far : Command
far = Command.setrange (codes "s") (codes "536870911") (codes "x")

run_example : Keeps (run (master_at 60) far)
unfolding strtoll strtoll_digits
run_example = run-Keeps (master_at 60) far (omega arith)

reads_most :
    get_long_long_from_object false (some (raw (codes "9223372036854775807")))
    ≡ some (some (pos (two63 - 1)))
unfolding get_long_long_from_object strtoll strtoll_digits parsed
reads_most = refl

huge_example :
    run
      (master_at 60)
      (Command.setrange (codes "z") (codes "9223372036854775807") (codes "x"))
      sample
    ≡ aborted
unfolding find bytes_eq evict
huge_example =
    setrange_command-aborts (master_at 60) (codes "z") (codes "9223372036854775807") (codes "x")
      (two63 - 1) sample sample-IsSound refl reads_most (omega arith) (omega arith) (omega arith)
