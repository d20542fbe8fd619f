-- ===== src/Blocking/Pops.antt =====
-- t_list.c: RPOPLPUSH, and the pops that wait.
use gridapps.Prelude.{
  false, none, some, pos, [], ◌∷◌, Bytes, ℕ, ℤ, Bool, Option, List, if◌then◌else◌, length, ltb_ℤ,
  find, wrap64, ◌+ℤ◌, ◌==◌,
}
use gridapps.Blocking.{
  Hall, Handled, tell, on_keys, elements_of, pushed_on, handle_clients_waiting_list_push,
  block_for_keys,
}
use gridapps.Lists.{list_type_pop, pop_generic_command, write_list}
use gridapps.Multi.{map_outcome, and_then}
use gridapps.Db.{
  Env, M, Outcome, done, aborted, lookup_key_write, db_delete, signal_modified_key, add_dirty, ◌>>◌,
  pure,
}
use gridapps.Object.{Robj, list, raw, get_long_long_from_object, in_long_range}
use gridapps.Reply.{
  Reply, bulk, multi, cons, nil, error, wrongtypeerr, nullbulk, nullmultibulk, invalid_timeout,
  negative_timeout,
}

-- The source, which is empty now or not; it may be the target.
unfoldable pub leave_source : Bytes → M Unit
unfolding pure
leave_source src s =
    (do
      if length (elements_of (find s.dict src)) == 0 then db_delete src else pure false
      signal_modified_key src
      add_dirty 1)
      s

abbrev pub source_left : Bytes → Handled × Hall → Outcome Hall
source_left src (b, h) = map_outcome (λ r. r.1) (on_keys (leave_source src) h)

-- The last element `value` of the source, less which it has the elements `rest`.
unfoldable pub move_value :
    Env → ℕ → Bytes → Bytes → Option Robj → Bytes × List Bytes → Hall → Outcome Hall
move_value env c src dst dobj (value, rest) h =
    and_then
      (and_then
        (and_then (on_keys (write_list src rest) h)
          (λ r. handle_clients_waiting_list_push env dst value (r.1)))
        (pushed_on c dst dobj value))
      (source_left src)

abbrev pub move_last :
    Env → ℕ → Bytes → Bytes → Option Robj → Option (Bytes × List Bytes) → Hall → Outcome Hall
move_last env c src dst dobj none h = done (tell c nullbulk h)
move_last env c src dst dobj (some p) h = move_value env c src dst dobj p h

-- When the list of the source is not empty.
abbrev pub to_target : Env → ℕ → Bytes → Bytes → List Bytes → Option Robj × Hall → Outcome Hall
to_target env c src dst l (none, h) = move_last env c src dst none (list_type_pop false l) h
to_target env c src dst l (some (list m), h) =
    move_last env c src dst (some (list m)) (list_type_pop false l) h
to_target env c src dst l (some o, h) = done (tell c wrongtypeerr h)

abbrev pub from_source : Env → ℕ → Bytes → Bytes → Option Robj × Hall → Outcome Hall
from_source env c src dst (none, h) = done (tell c nullbulk h)
from_source env c src dst (some (list []), h) = done (tell c nullbulk h)
from_source env c src dst (some (list (x ∷ l)), h) =
    and_then (on_keys (lookup_key_write env dst) h) (to_target env c src dst (x ∷ l))
from_source env c src dst (some o, h) = done (tell c wrongtypeerr h)

unfoldable pub rpoplpush_command : Env → ℕ → Bytes → Bytes → Hall → Outcome Hall
rpoplpush_command env c src dst h =
    and_then (on_keys (lookup_key_write env src) h) (from_source env c src dst)

-- getTimeoutFromObjectOrReply: the time at which the wait ends, 0 for never, or an error.
pub data Timeout : Type 0 where
  at : ℤ → Timeout
  refused : Reply → Timeout
  asserted : Timeout

abbrev pub timeout_at : Env → ℤ → Timeout
timeout_at env tval =
    if ltb_ℤ tval (pos 0)
    then refused (error negative_timeout)
    else at (if ltb_ℤ (pos 0) tval then wrap64 (tval +ℤ pos env.now) else tval)

unfoldable pub get_timeout : Env → Bytes → Timeout
unfolding in_long_range
get_timeout env arg = elim (get_long_long_from_object env.erange (some (raw arg))) [
  | none ↦ asserted
  | some none ↦ refused (error invalid_timeout)
  | some (some v) ↦ if in_long_range v then timeout_at env v else refused (error invalid_timeout)
]

-- The reply of popGenericCommand behind the name of the key.
abbrev pub popped : ℕ → Bytes → Reply × Hall → Outcome Hall
popped c key (r, h) = done (tell c (multi (cons (bulk key) (cons r nil))) h)

-- One key of BLPOP and BRPOP; `k` goes on with the next.
abbrev pub try_key :
    Env → ℕ → Bool → (Hall → Outcome Hall) → Bytes → Option Robj × Hall → Outcome Hall
try_key env c at_head k key (none, h) = k h
try_key env c at_head k key (some (list []), h) = k h
try_key env c at_head k key (some (list (x ∷ l)), h) =
    and_then (on_keys (pop_generic_command env at_head key) h) (popped c key)
try_key env c at_head k key (some o, h) = done (tell c wrongtypeerr h)

unfoldable pub try_keys : Env → ℕ → Bool → (Hall → Outcome Hall) → List Bytes → Hall → Outcome Hall
try_keys env c at_head k [] h = k h
try_keys env c at_head k (key ∷ keys) h =
    and_then (on_keys (lookup_key_write env key) h)
      (try_key env c at_head (try_keys env c at_head k keys) key)

-- In a transaction the client does not wait.
unfoldable pub wait_or_not : Bool → ℕ → Reply → List Bytes → ℤ → Option Bytes → Hall → Outcome Hall
wait_or_not in_multi c r keys timeout target h =
    if in_multi then done (tell c r h) else done (block_for_keys c keys timeout target h)

abbrev pub with_timeout : ℕ → (ℤ → Hall → Outcome Hall) → Timeout → Hall → Outcome Hall
with_timeout c k (at t) h = k t h
with_timeout c k (refused r) h = done (tell c r h)
with_timeout c k asserted h = aborted

-- BLPOP and BRPOP
unfoldable pub blocking_pop_generic_command :
    Env → Bool → ℕ → Bool → List Bytes → Bytes → Hall → Outcome Hall
blocking_pop_generic_command env in_multi c at_head keys arg =
    with_timeout c
      (λ t. try_keys env c at_head (wait_or_not in_multi c nullmultibulk keys t none) keys)
      (get_timeout env arg)

-- `aborted` is the assertion that a list is not empty.
abbrev pub brpoplpush_found : Env → Bool → ℕ → Bytes → Bytes → ℤ → Option Robj × Hall → Outcome Hall
brpoplpush_found env in_multi c src dst t (none, h) =
    wait_or_not in_multi c nullbulk (src ∷ []) t (some dst) h
brpoplpush_found env in_multi c src dst t (some (list []), h) = aborted
brpoplpush_found env in_multi c src dst t (some (list (x ∷ l)), h) =
    rpoplpush_command env c src dst h
brpoplpush_found env in_multi c src dst t (some o, h) = done (tell c wrongtypeerr h)

unfoldable pub brpoplpush_command : Env → Bool → ℕ → Bytes → Bytes → Bytes → Hall → Outcome Hall
brpoplpush_command env in_multi c src dst arg =
    with_timeout c
      (λ t h.
        and_then (on_keys (lookup_key_write env src) h) (brpoplpush_found env in_multi c src dst t))
      (get_timeout env arg)
