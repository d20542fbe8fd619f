-- ===== src/Multi.antt =====
-- multi.c, and the end of processCommand of redis.c: transactions and watched keys, for clients that
-- all use one database.
pub mod Watch
pub mod Exec
pub mod Total
use gridapps.Reply.{
  Reply, multi, ok, error, Replies, queued, nested_multi, discard_without_multi, watch_inside_multi,
  nil, exec_without_multi, cons, nullmultibulk,
}
use mathlib.Core.Option
use gridapps.Prelude.{
  true, false, none, some, [], ◌∷◌, Bool, Map, List, ℕ, Bytes, if◌then◌else◌, ◌==◌, find, bytes_eq,
  del, put, Option, ◌++◌, not, ◌||◌, ◌+◌,
}
use gridapps.Db.{Env, Keyspace, Outcome, done, aborted, present}
use gridapps.Commands.{Command, run, flushdb}

-- What may stand in a transaction: a command on the keyspace, or UNWATCH.
pub data Queued : Type 0 where
  plain : Command → Queued
  unwatch : Queued

-- REDIS_MULTI, REDIS_DIRTY_CAS, the watched keys and the queue of one client.
pub record Client : Type 0 where
  pub in_multi : Bool
  pub dirty_cas : Bool
  pub watched_keys : List Bytes
  pub commands : List Queued

-- The keyspace, `db->watched_keys` with the numbers of the clients, and the clients by number.
pub record Server : Type 0 where
  pub keyspace : Keyspace
  pub watched : Map (List ℕ)
  pub clients : ℕ → Client

pub data Request : Type 0 where
  queueable : Queued → Request
  begin_multi : Request
  exec : Request
  discard : Request
  watch : List Bytes → Request

abbrev pub initial_client : Client
initial_client = record { in_multi = false; dirty_cas = false; watched_keys = []; commands = [] }

abbrev pub update_client : Server → ℕ → Client → Server
update_client s c new = record s { clients = λ i. if i == c then new else s.clients i }

-- The clients that watch a key.
abbrev pub clients_of : Map (List ℕ) → Bytes → List ℕ
clients_of w key = Option.get_or (find w key) []

unfoldable pub has_key : List Bytes → Bytes → Bool
has_key [] key = false
has_key (k ∷ ks) key = bytes_eq k key || has_key ks key

unfoldable pub has_client : List ℕ → ℕ → Bool
has_client [] c = false
has_client (i ∷ is) c = i == c || has_client is c

unfoldable pub watch_for_key : ℕ → Server → Bytes → Server
watch_for_key c s key = if has_key ((s.clients c).watched_keys) key then s else record s {
  watched = put s.watched key (clients_of s.watched key ++ c ∷ []);
  clients =
      (update_client s c
        (record (s.clients c) { watched_keys = (s.clients c).watched_keys ++ key ∷ [] })).clients;
}

unfoldable pub watch_all : ℕ → Server → List Bytes → Server
watch_all c s [] = s
watch_all c s (key ∷ keys) = watch_all c (watch_for_key c s key) keys

-- listDelNode of the first node that holds the client; `none` if there is no such node.
unfoldable pub remove_client : ℕ → List ℕ → Option (List ℕ)
remove_client c [] = none
remove_client c (i ∷ is) =
    let rest = remove_client c is in if i == c then some is else Option.map (λ js. i ∷ js) rest

-- The entry goes away with its last client.
abbrev pub set_clients : Map (List ℕ) → Bytes → List ℕ → Map (List ℕ)
set_clients w key [] = del w key
set_clients w key (i ∷ is) = put w key (i ∷ is)

-- One round of the loop: `is` are the clients left for the key, `keys` the keys left for the client.
unfoldable pub drop_watch : ℕ → Bytes → List Bytes → List ℕ → Server → Server
drop_watch c key keys is s =
    record (update_client s c (record (s.clients c) { watched_keys = keys })) {
      watched = set_clients s.watched key is;
    }

-- The loop over the watched keys of a client; it fails at the assertion, or where the list of clients
-- does not hold this one.
unfoldable pub unwatch_loop : ℕ → List Bytes → Server → Outcome Server
unwatch_loop c [] s = done s
unwatch_loop c (key ∷ keys) s = elim (remove_client c (clients_of s.watched key)) [
  | none ↦ aborted
  | some is ↦ unwatch_loop c keys (drop_watch c key keys is s)
]

unfoldable pub unwatch_all_keys : ℕ → Server → Outcome Server
unwatch_all_keys c s = unwatch_loop c ((s.clients c).watched_keys) s

abbrev pub map_outcome : {A B : Type 0} → (A → B) → Outcome A → Outcome B
map_outcome f (done a) = done (f a)
map_outcome f aborted = aborted

unfoldable pub touch_watched_key : Server → Bytes → Server
touch_watched_key s key = record s {
  clients = λ i.
      if has_client (clients_of s.watched key) i
      then record (s.clients i) { dirty_cas = true }
      else s.clients i;
}

unfoldable pub touch_all : Server → List Bytes → Server
touch_all s [] = s
touch_all s (key ∷ keys) = touch_all (touch_watched_key s key) keys

unfoldable pub any_present : Keyspace → List Bytes → Bool
any_present d [] = false
any_present d (key ∷ keys) = present d.dict key || any_present d keys

unfoldable pub touch_watched_keys_on_flush : Server → Server
touch_watched_keys_on_flush s = record s {
  clients = λ i.
      if any_present s.keyspace ((s.clients i).watched_keys)
      then record (s.clients i) { dirty_cas = true }
      else s.clients i;
}

abbrev pub is_flushdb : Command → Bool
is_flushdb flushdb = true
is_flushdb _ = false

-- signalFlushedDb comes before the keys go.
unfoldable pub signal_flush : Command → Server → Server
signal_flush cmd s = if is_flushdb cmd then touch_watched_keys_on_flush s else s

-- No command of the table reads the flags or the watched keys, so the clients can be marked when the
-- command has run, by the keys that it signalled.
unfoldable pub after_command : Server → Reply × Keyspace → Reply × Server
after_command s (r, d) =
    (r, touch_all (record s { keyspace = record d { touched = [] } }) d.touched)

unfoldable pub unwatch_command : ℕ → Server → Outcome (Reply × Server)
unwatch_command c s =
    map_outcome (λ t. (ok, update_client t c (record (t.clients c) { dirty_cas = false })))
      (unwatch_all_keys c s)

-- A command behind signalFlushedDb.
unfoldable pub call_plain : Env → Command → Server → Outcome (Reply × Server)
call_plain env cmd s =
    map_outcome (after_command s) (run env cmd (record s.keyspace { touched = [] }))

unfoldable pub call : Env → ℕ → Queued → Server → Outcome (Reply × Server)
call env c (plain cmd) s = call_plain env cmd (signal_flush cmd s)
call env c unwatch s = unwatch_command c s

unfoldable pub queue_multi_command : ℕ → Queued → Server → Server
queue_multi_command c cmd s =
    update_client s c (record (s.clients c) { commands = (s.clients c).commands ++ cmd ∷ [] })

unfoldable pub multi_command : ℕ → Server → Reply × Server
multi_command c s =
    if (s.clients c).in_multi
    then (error nested_multi, s)
    else (ok, update_client s c (record (s.clients c) { in_multi = true }))

-- The queue is freed and both flags are cleared.
unfoldable pub reset_multi : ℕ → Server → Server
reset_multi c s =
    update_client s c (record (s.clients c) { in_multi = false; dirty_cas = false; commands = [] })

unfoldable pub discard_command : ℕ → Server → Outcome (Reply × Server)
discard_command c s =
    if not (s.clients c).in_multi
    then done (error discard_without_multi, s)
    else map_outcome (λ t. (ok, t)) (unwatch_all_keys c (reset_multi c s))

unfoldable pub watch_command : ℕ → List Bytes → Server → Reply × Server
watch_command c keys s =
    if (s.clients c).in_multi then (error watch_inside_multi, s) else (ok, watch_all c s keys)

abbrev pub and_then : {A B : Type 0} → Outcome A → (A → Outcome B) → Outcome B
and_then (done a) f = f a
and_then aborted f = aborted

unfoldable pub exec_loop : Env → ℕ → List Queued → Server → Outcome (Replies × Server)
exec_loop env c [] s = done (nil, s)
exec_loop env c (cmd ∷ cmds) s =
    and_then (call env c cmd s)
      λ p. map_outcome (λ q. (cons (p.0) (q.0), q.1)) (exec_loop env c cmds (p.1))

-- The queue was copied to the loop; `server.dirty++` at the end.
unfoldable pub exec_finish : ℕ → Replies × Server → Reply × Server
exec_finish c (rs, s) = (
  multi rs,
  reset_multi c (record s { keyspace = record s.keyspace { dirty = s.keyspace.dirty + 1 } }),
)

unfoldable pub exec_command : Env → ℕ → Server → Outcome (Reply × Server)
exec_command env c s =
    if not (s.clients c).in_multi
    then done (error exec_without_multi, s)
    else if (s.clients c).dirty_cas
    then map_outcome (λ t. (nullmultibulk, t)) (unwatch_all_keys c (reset_multi c s))
    else and_then (unwatch_all_keys c s)
        λ t. map_outcome (exec_finish c) (exec_loop env c ((t.clients c).commands) t)

-- `Exec the command` in processCommand.
unfoldable pub process : Env → ℕ → Request → Server → Outcome (Reply × Server)
process env c (queueable q) s =
    if (s.clients c).in_multi then done (queued, queue_multi_command c q s) else call env c q s
process env c begin_multi s = done (multi_command c s)
process env c exec s = exec_command env c s
process env c discard s = discard_command c s
process env c (watch keys) s = done (watch_command c keys s)
