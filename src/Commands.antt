-- ===== src/Commands.antt =====
-- The part of readonlyCommandTable of redis.c whose commands act on one keyspace, with the number of
-- arguments that the table prescribes.
pub mod Sound
use gridapps.Strings.Counter.{incr_command, decr_command, incrby_command, decrby_command}
use gridapps.Strings.Bit.{setbit_command, getbit_command}
use gridapps.Keys.{
  del_command, exists_command, rename_command, renamenx_command, expire_command, expireat_command,
  dbsize_command, type_command, flushdb_command, ttl_command, persist_command,
}
use gridapps.Strings.Range.{append_command, strlen_command, setrange_command, getrange_command}
use gridapps.Strings.Basic.{
  get_command, set_command, setnx_command, setex_command, mget_command, getset_command,
  mset_command, msetnx_command,
}
use gridapps.Lists.{llen_command, lindex_command, lset_command, pop_generic_command, pushx_command}
use gridapps.Lists.Ranges.{lrange_command, ltrim_command}
use gridapps.Lists.Edits.{lrem_command, linsert_command}
use gridapps.Reply.{Reply}
use gridapps.Db.{◌>>=◌, ◌>>◌, Env, pure, Keyspace, M}
use gridapps.Prelude.{[], ◌∷◌, Bytes, List, true, false}

pub data Command : Type 0 where
  get : Bytes → Command
  set : Bytes → Bytes → Command
  setnx : Bytes → Bytes → Command
  setex : Bytes → Bytes → Bytes → Command
  append : Bytes → Bytes → Command
  strlen : Bytes → Command
  del : List Bytes → Command
  exists : Bytes → Command
  setbit : Bytes → Bytes → Bytes → Command
  getbit : Bytes → Bytes → Command
  setrange : Bytes → Bytes → Bytes → Command
  getrange : Bytes → Bytes → Bytes → Command
  incr : Bytes → Command
  decr : Bytes → Command
  mget : List Bytes → Command
  incrby : Bytes → Bytes → Command
  decrby : Bytes → Bytes → Command
  getset : Bytes → Bytes → Command
  mset : List Bytes → Command
  msetnx : List Bytes → Command
  rename : Bytes → Bytes → Command
  renamenx : Bytes → Bytes → Command
  expire : Bytes → Bytes → Command
  expireat : Bytes → Bytes → Command
  dbsize : Command
  type : Bytes → Command
  flushdb : Command
  ttl : Bytes → Command
  persist : Bytes → Command
  llen : Bytes → Command
  lindex : Bytes → Bytes → Command
  lset : Bytes → Bytes → Bytes → Command
  lpop : Bytes → Command
  rpop : Bytes → Command
  lpushx : Bytes → Bytes → Command
  rpushx : Bytes → Bytes → Command
  linsert : Bytes → Bytes → Bytes → Bytes → Command
  lrange : Bytes → Bytes → Bytes → Command
  ltrim : Bytes → Bytes → Bytes → Command
  lrem : Bytes → Bytes → Bytes → Command

-- `c->cmd->proc(c)`
unfoldable pub run : Env → Command → M Reply
run env (get k) = get_command env k
run env (set k v) = set_command env k v
run env (setnx k v) = setnx_command env k v
run env (setex k e v) = setex_command env k e v
run env (append k v) = append_command env k v
run env (strlen k) = strlen_command env k
run env (del ks) = del_command ks
run env (exists k) = exists_command env k
run env (setbit k o b) = setbit_command env k o b
run env (getbit k o) = getbit_command env k o
run env (setrange k o v) = setrange_command env k o v
run env (getrange k a b) = getrange_command env k a b
run env (incr k) = incr_command env k
run env (decr k) = decr_command env k
run env (mget ks) = mget_command env ks
run env (incrby k n) = incrby_command env k n
run env (decrby k n) = decrby_command env k n
run env (getset k v) = getset_command env k v
run env (mset args) = mset_command env args
run env (msetnx args) = msetnx_command env args
run env (rename a b) = rename_command env a b
run env (renamenx a b) = renamenx_command env a b
run env (expire k n) = expire_command env k n
run env (expireat k n) = expireat_command env k n
run env dbsize = dbsize_command
run env (type k) = type_command env k
run env flushdb = flushdb_command
run env (ttl k) = ttl_command env k
run env (persist k) = persist_command k
run env (llen k) = llen_command env k
run env (lindex k i) = lindex_command env k i
run env (lset k i v) = lset_command env k i v
run env (lpop k) = pop_generic_command env true k
run env (rpop k) = pop_generic_command env false k
run env (lpushx k v) = pushx_command env true k v
run env (rpushx k v) = pushx_command env false k v
run env (linsert k p r v) = linsert_command env k p r v
run env (lrange k a b) = lrange_command env k a b
run env (ltrim k a b) = ltrim_command env k a b
run env (lrem k n v) = lrem_command env k n v

-- A server that has just started with no data.
abbrev pub empty : Keyspace
empty = record {
  dict = [];
  expires = [];
  dirty = 0;
  hits = 0;
  misses = 0;
  expired = 0;
  propagated = [];
  touched = [];
}
