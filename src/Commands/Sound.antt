-- ===== src/Commands/Sound.antt =====
-- What it takes that a command runs to its end.
use gridapps.Object.{strtoll}
use gridapps.Keys.Sound.{
  del-Keeps, exists-Keeps, rename-Keeps, expire-Keeps, dbsize-Keeps, type-Keeps, flushdb-Keeps,
  ttl-Keeps, persist-Keeps,
}
use gridapps.Strings.Totals.{
  set_generic-Keeps, setbit-Keeps, getbit-Keeps, setrange-Keeps, getrange-Keeps, incr_decr-Keeps,
  mget_loop-Keeps, incrby-Keeps, decrby-Keeps, mset_generic-Keeps,
}
use gridapps.Strings.Sound.{get-Keeps, append-Keeps, strlen-Keeps, getset-Keeps}
use gridapps.Keys.{rename_command, renamenx_command, expire_command, expireat_command}
use gridapps.Strings.Counter.{incr_command, decr_command}
use gridapps.Db.Keeps.{Keeps, Keeps-pure, Keeps-bind}
use gridapps.Db.Evict.{IsSound}
use gridapps.Db.{Env}
use gridapps.Strings.Basic.{
  set_command, setnx_command, setex_command, mset_command, msetnx_command, mget_command,
}
use gridapps.Commands.{
  run, Command, empty, get, set, setnx, setex, append, strlen, del, exists, setbit, getbit,
  setrange, getrange, incr, decr, mget, incrby, decrby, getset, mset, msetnx, rename, renamenx,
  expire, expireat, type, ttl, persist, dbsize, flushdb, llen, lindex, lset, lpop, rpop, lpushx,
  rpushx, linsert, lrange, ltrim, lrem,
}
use gridapps.Lists.Sound.{
  llen-Keeps, lindex-Keeps, lset-Keeps, pop-Keeps, pushx-Keeps, linsert-Keeps, lrange-Keeps,
  ltrim-Keeps, lrem-Keeps,
}
use gridapps.Prelude.{true, false, none, some, find, pos_part, ◌+◌, length, ◌<◌, two63}

-- The offset and the value of SETRANGE end below 2^63 bytes. Every other command fits.
abbrev pub Fits : Command → Type 0
Fits (setrange k offset v) = pos_part ((strtoll offset).value) + length v < two63
Fits c = Unit

-- Each of the 40 commands of the type Command, with any arguments and at any time, runs to its end
-- from a sound keyspace: no assertion of db.c or object.c fails. It leaves a keyspace in which every
-- key with a time to live exists. Of SETRANGE the offset and the length of the value add up to less
-- than 2^63. The reply `wild` of GETRANGE, which reads outside of its string, counts as an end.
pub run-Keeps : (env : Env) (c : Command) → Fits c → Keeps (run env c)
unfolding run set_command setnx_command setex_command incr_command decr_command mset_command
    msetnx_command mget_command rename_command renamenx_command expire_command expireat_command
run-Keeps env (get k) _ = get-Keeps env k
run-Keeps env (set k v) _ = set_generic-Keeps env k false _ none
run-Keeps env (setnx k v) _ = set_generic-Keeps env k true _ none
run-Keeps env (setex k e v) _ = set_generic-Keeps env k false _ (some e)
run-Keeps env (append k v) _ = append-Keeps env k v
run-Keeps env (strlen k) _ = strlen-Keeps env k
run-Keeps env (del ks) _ = del-Keeps ks
run-Keeps env (exists k) _ = exists-Keeps env k
run-Keeps env (setbit k o b) _ = setbit-Keeps env k o b
run-Keeps env (getbit k o) _ = getbit-Keeps env k o
run-Keeps env (setrange k o v) fits = setrange-Keeps env k o v fits
run-Keeps env (getrange k a b) _ = getrange-Keeps env k a b
run-Keeps env (incr k) _ = incr_decr-Keeps env k _
run-Keeps env (decr k) _ = incr_decr-Keeps env k _
run-Keeps env (mget ks) _ = Keeps-bind _ _ (mget_loop-Keeps env ks) (λ rs. Keeps-pure _)
run-Keeps env (incrby k n) _ = incrby-Keeps env k n
run-Keeps env (decrby k n) _ = decrby-Keeps env k n
run-Keeps env (getset k v) _ = getset-Keeps env k v
run-Keeps env (mset args) _ = mset_generic-Keeps env false args
run-Keeps env (msetnx args) _ = mset_generic-Keeps env true args
run-Keeps env (rename a b) _ = rename-Keeps env false a b
run-Keeps env (renamenx a b) _ = rename-Keeps env true a b
run-Keeps env (expire k n) _ = expire-Keeps env k n _
run-Keeps env (expireat k n) _ = expire-Keeps env k n _
run-Keeps env dbsize _ = dbsize-Keeps
run-Keeps env (type k) _ = type-Keeps env k
run-Keeps env flushdb _ = flushdb-Keeps
run-Keeps env (ttl k) _ = ttl-Keeps env k
run-Keeps env (persist k) _ = persist-Keeps k
run-Keeps env (llen k) _ = llen-Keeps env k
run-Keeps env (lindex k i) _ = lindex-Keeps env k i
run-Keeps env (lset k i v) _ = lset-Keeps env k i v
run-Keeps env (lpop k) _ = pop-Keeps env k true
run-Keeps env (rpop k) _ = pop-Keeps env k false
run-Keeps env (lpushx k v) _ = pushx-Keeps env k true v
run-Keeps env (rpushx k v) _ = pushx-Keeps env k false v
run-Keeps env (linsert k p r v) _ = linsert-Keeps env k p r v
run-Keeps env (lrange k a b) _ = lrange-Keeps env k a b
run-Keeps env (ltrim k a b) _ = ltrim-Keeps env k a b
run-Keeps env (lrem k n v) _ = lrem-Keeps env k n v

pub empty-IsSound : IsSound empty
unfolding find
empty-IsSound = record { owned = λ k p. cc }
