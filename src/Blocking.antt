-- ===== src/Blocking.antt =====
-- t_list.c: the pushes, and the clients that wait for one. A value that is pushed goes to the first
-- client that waits for the key, or on to the list that this client named.
pub mod Cells
pub mod Push
pub mod Pops
pub mod Lost
pub mod Agree
pub mod Served
use gridapps.Prelude.{
  true, false, none, some, pos, zero, suc, [], ◌∷◌, Option, Map, ℕ, Bool, Bytes, List,
  if◌then◌else◌, ◌++◌, find, length, ◌+◌, ℤ, ◌==◌, put, ◌-◌, not,
}
use gridapps.Lists.{list_type_push, list_type_pop, pop_generic_command, write_list, store_list}
use gridapps.Multi.{clients_of, set_clients, remove_client, map_outcome, and_then}
use gridapps.Db.{
  Keyspace, Env, M, Outcome, done, aborted, is_some, lookup_key_write, db_add, signal_modified_key,
  add_dirty, ◌>>=◌, ◌>>◌, pure,
}
use gridapps.Object.{Robj, list, raw, get_long_long_from_object, in_long_range}
use gridapps.Reply.{
  Reply, Replies, bulk, multi, cons, nil, integer, error, wrongtypeerr, nullbulk, nullmultibulk,
  invalid_timeout, negative_timeout,
}

-- c->bpop: no keys is NULL.
pub record Bpop : Type 0 where
  pub keys : Option (List Bytes)
  pub timeout : ℤ
  pub target : Option Bytes

abbrev pub idle : Bpop
idle = record { keys = none; timeout = pos 0; target = none }

-- One database with db->blocking_keys, the clients by number, server.bpop_blocked_clients,
-- server.unblocked_clients, and what each client was sent.
pub record Hall : Type 0 where
  pub keyspace : Keyspace
  pub blocking_keys : Map (List ℕ)
  pub clients : ℕ → Bpop
  pub bpop_blocked_clients : ℕ
  pub unblocked_clients : List ℕ
  pub sent : List (ℕ × Reply)

abbrev pub update_bpop : (ℕ → Bpop) → ℕ → Bpop → ℕ → Bpop
update_bpop clients c new i = if i == c then new else clients i

-- addReply
unfoldable pub tell : ℕ → Reply → Hall → Hall
tell c r h = record h { sent = h.sent ++ (c, r) ∷ [] }

-- An action on the keyspace.
abbrev pub back : {A : Type 0} → Hall → A × Keyspace → A × Hall
back h (a, k) = (a, record h { keyspace = k })

unfoldable pub on_keys : {A : Type 0} → M A → Hall → Outcome (A × Hall)
on_keys m h = map_outcome (back h) (m h.keyspace)

-- The client at the end of the list of each key.
unfoldable pub wait_for : ℕ → List Bytes → Map (List ℕ) → Map (List ℕ)
wait_for c [] w = w
wait_for c (key ∷ keys) w = wait_for c keys (put w key (clients_of w key ++ c ∷ []))

unfoldable pub block_for_keys : ℕ → List Bytes → ℤ → Option Bytes → Hall → Hall
unfolding wait_for
block_for_keys c keys timeout target h = record h {
  blocking_keys = wait_for c keys h.blocking_keys;
  clients =
      update_bpop h.clients c (record { keys = some keys; timeout = timeout; target = target });
  bpop_blocked_clients = h.bpop_blocked_clients + 1;
}

-- `aborted` is a failed assertion, or the deletion of a node that was not found.
abbrev pub leave_key :
    (Map (List ℕ) → Outcome (Map (List ℕ)))
    → Bytes
    → Map (List ℕ)
    → Option (List ℕ)
    → Outcome (Map (List ℕ))
leave_key f key w none = aborted
leave_key f key w (some is) = f (set_clients w key is)

unfoldable pub leave_keys : ℕ → List Bytes → Map (List ℕ) → Outcome (Map (List ℕ))
leave_keys c [] w = done w
leave_keys c (key ∷ keys) w =
    leave_key (leave_keys c keys) key w (remove_client c (clients_of w key))

unfoldable pub released : ℕ → Hall → Map (List ℕ) → Hall
released c h w = record h {
  blocking_keys = w;
  clients = update_bpop h.clients c (record (h.clients c) { keys = none; target = none });
  bpop_blocked_clients = h.bpop_blocked_clients - 1;
  unblocked_clients = h.unblocked_clients ++ c ∷ [];
}

abbrev pub unblock : ℕ → Hall → Option (List Bytes) → Outcome Hall
unblock c h none = aborted
unblock c h (some keys) = map_outcome (released c h) (leave_keys c keys h.blocking_keys)

unfoldable pub unblock_client_waiting_data : ℕ → Hall → Outcome Hall
unfolding leave_keys released
unblock_client_waiting_data c h = unblock c h ((h.clients c).keys)

-- The list that a key holds; another value is no list.
abbrev pub elements_of : Option Robj → List Bytes
elements_of (some (list l)) = l
elements_of o = []

abbrev pub is_list_or_none : Option Robj → Bool
is_list_or_none none = true
is_list_or_none (some (list l)) = true
is_list_or_none (some o) = false

-- The list of the key, with a value at its end, as the object is pushed to in place.
unfoldable pub push_onto : Bool → Bytes → Bytes → M Unit
unfolding write_list
push_onto at_head key value s =
    write_list key (list_type_push at_head value (elements_of (find s.dict key))) s

-- rpoplpushHandlePush, where no client waits for the key. A key that is new is not signalled.
unfoldable pub store_push : Bytes → Option Robj → Bytes → M Unit
store_push dstkey dstobj value = do
  if is_some dstobj then signal_modified_key dstkey else db_add dstkey (list [])
  push_onto true dstkey value
  add_dirty 1

-- What became of a value that is pushed: no client took it; one was sent it; or it went to a list for
-- a client, and then rewriteClientCommandVector has made the command of the pushing client an LPUSH
-- with one value, so that its argc is 3.
pub data Handled : Type 0 where
  unhandled handled rewriting : Handled

-- The rest of rpoplpushHandlePush, when it is known what became of the value at the target.
abbrev pub pushed_on : ℕ → Bytes → Option Robj → Bytes → Handled × Hall → Outcome (Handled × Hall)
pushed_on c dstkey dstobj value (unhandled, h) =
    map_outcome (λ r. (rewriting, tell c (bulk value) (r.1)))
      (on_keys (store_push dstkey dstobj value) h)
pushed_on c dstkey dstobj value (handled, h) = done (handled, tell c (bulk value) h)
pushed_on c dstkey dstobj value (rewriting, h) = done (rewriting, tell c (bulk value) h)

abbrev pub waiting_on : Bytes → Hall → ℕ
waiting_on key h = length (clients_of h.blocking_keys key)

-- A client that named a list for the value: on to that list, or an error if it is none.
abbrev pub serve_target :
    (ℕ → Bytes → Bytes → Hall → Outcome (Handled × Hall))
    → ℕ
    → Bytes
    → Bytes
    → ℕ
    → Bytes
    → Option Robj × Hall
    → Outcome (Handled × Hall)
serve_target f n key ele c dst (found, h) =
    if is_list_or_none found
    then and_then (f (waiting_on dst h) dst ele h) (pushed_on c dst found ele)
    else f n key ele (tell c wrongtypeerr h)

abbrev pub serve_receiver :
    (ℕ → Bytes → Bytes → Hall → Outcome (Handled × Hall))
    → Env
    → ℕ
    → Bytes
    → Bytes
    → ℕ
    → Option Bytes
    → Hall
    → Outcome (Handled × Hall)
serve_receiver f env n key ele c none h =
    done (handled, tell c (multi (cons (bulk key) (cons (bulk ele) nil))) h)
serve_receiver f env n key ele c (some dst) h =
    and_then (on_keys (lookup_key_write env dst) h) (serve_target f n key ele c dst)

abbrev pub serve_first :
    (ℕ → Bytes → Bytes → Hall → Outcome (Handled × Hall))
    → Env
    → ℕ
    → Bytes
    → Bytes
    → Hall
    → List ℕ
    → Outcome (Handled × Hall)
serve_first f env n key ele h [] = aborted
serve_first f env n key ele h (c ∷ cs) =
    and_then (unblock_client_waiting_data c h)
      (serve_receiver f env n key ele c ((h.clients c).target))

-- The loop over the clients of a key, with `n` rounds left. Every round unblocks a client; without
-- fuel the run is `aborted`.
unfoldable pub serve_waiting : ℕ → Env → ℕ → Bytes → Bytes → Hall → Outcome (Handled × Hall)
serve_waiting fuel env zero key ele h = done (unhandled, h)
serve_waiting zero env (suc n) key ele h = aborted
serve_waiting (suc fuel) env (suc n) key ele h =
    serve_first (serve_waiting fuel env) env n key ele h (clients_of h.blocking_keys key)

-- The fuel is what the server counts as blocked clients.
unfoldable pub handle_clients_waiting_list_push :
    Env → Bytes → Bytes → Hall → Outcome (Handled × Hall)
unfolding serve_waiting
handle_clients_waiting_list_push env key ele h =
    serve_waiting h.bpop_blocked_clients env (waiting_on key h) key ele h

-- `if (!lobj)` and listTypePush
unfoldable pub store_value : Bool → Bool → Bytes → Bytes → M Unit
unfolding pure
store_value at_head made key value = do
  if made then pure tt else db_add key (list [])
  push_onto at_head key value

-- The state of the loop of pushGenericCommand: whether `lobj` is set, whether clients may wait,
-- `addlen` and `pushed`.
abbrev pub Round : Type 0
Round = Bool → Bool → ℕ → ℕ → Hall → Outcome ((Bool × ℕ × ℕ) × Hall)

abbrev pub after_store : Round → ℕ → ℕ → Unit {0} × Hall → Outcome ((Bool × ℕ × ℕ) × Hall)
after_store k addlen pushed (u, h) = k true false addlen (pushed + 1) h

-- The loop runs while `j < c->argc`, from `j` 2, and after a rewriting argc is 3: it ends. No value was
-- pushed to the key before, so that its name, which was replaced too, is not read again.
abbrev pub after_wait :
    Round → Bool → Bytes → Bytes → Bool → ℕ → ℕ → Handled × Hall → Outcome ((Bool × ℕ × ℕ) × Hall)
after_wait k at_head key v made addlen pushed (unhandled, h) =
    and_then (on_keys (store_value at_head made key v) h) (after_store k addlen pushed)
after_wait k at_head key v made addlen pushed (handled, h) = k made true (addlen + 1) pushed h
after_wait k at_head key v made addlen pushed (rewriting, h) = done ((made, addlen + 1, pushed), h)

unfoldable pub push_loop : Env → Bool → Bytes → List Bytes → Round
push_loop env at_head key [] made waiting addlen pushed h = done ((made, addlen, pushed), h)
push_loop env at_head key (v ∷ vs) made true addlen pushed h =
    and_then (handle_clients_waiting_list_push env key v h)
      (after_wait (push_loop env at_head key vs) at_head key v made addlen pushed)
push_loop env at_head key (v ∷ vs) made false addlen pushed h =
    after_wait (push_loop env at_head key vs) at_head key v made addlen pushed (unhandled, h)

abbrev pub count_push : Bytes → ℕ → M Unit
count_push key pushed = do
  if pushed == 0 then pure tt else signal_modified_key key
  add_dirty pushed

unfoldable pub push_end : ℕ → Bytes → (Bool × ℕ × ℕ) × Hall → Outcome Hall
unfolding pure
push_end c key ((made, addlen, pushed), h) =
    let n = if made then length (elements_of (find h.keyspace.dict key)) else 0 in
    map_outcome (λ r. tell c (integer (pos (addlen + n))) (r.1)) (on_keys (count_push key pushed) h)

abbrev pub push_found : Env → ℕ → Bool → Bytes → List Bytes → Option Robj × Hall → Outcome Hall
push_found env c at_head key values (found, h) =
    if is_list_or_none found
    then and_then (push_loop env at_head key values (is_some found) (not (is_some found)) 0 0 h)
        (push_end c key)
    else done (tell c wrongtypeerr h)

-- LPUSH and RPUSH
unfoldable pub push_generic_command : Env → ℕ → Bool → Bytes → List Bytes → Hall → Outcome Hall
push_generic_command env c at_head key values h =
    and_then (on_keys (lookup_key_write env key) h) (push_found env c at_head key values)
