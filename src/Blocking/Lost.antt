-- ===== src/Blocking/Lost.antt =====
-- t_list.c: a push of several values to a key for which a client waits with BRPOPLPUSH: the command of
-- the pushing client is rewritten while its values are still being read.
use gridapps.Blocking.Served.{push_end-handed}
use gridapps.Prelude.{
  none, some, [], ◌∷◌, ℕ, Bytes, find, ◌≡◌, ◌<◌, false, suc, arith, Bool, ◌∙◌, ap, length, List,
  ◌-◌, pos,
}
use gridapps.Blocking.{
  Hall, tell, push_generic_command, push_found, push_loop, push_end, after_wait,
  handle_clients_waiting_list_push, serve_waiting, serve_first, serve_receiver, serve_target,
  pushed_on, unblock_client_waiting_data, unblock, leave_keys, leave_key, released, store_push,
  push_onto, waiting_on, unhandled, rewriting,
}
use gridapps.Blocking.Cells.{on_keys-eq, db_add-written, keyed, written-find, written-written}
use gridapps.Multi.{map_outcome, and_then, clients_of, set_clients, remove_client}
use gridapps.Db.{Env, Keyspace, done, pure, ◌>>=◌, lookup_key_write, add_dirty}
use gridapps.Db.Evict.{IsSound, lookup_key_write-eq, evict-persistent}
use gridapps.Db.Effects.{written, dirtied}
use gridapps.Lists.{write_list, list_type_push}
use gridapps.Db.{modify}
use gridapps.Object.{list}
use gridapps.Reply.{bulk, integer}

-- Client `c` is the first that waits for the key, with BRPOPLPUSH for this key only, to the target `t`.
-- Both keys are missing, and no client waits for the target then.
pub record WaitsToMove (c : ℕ) (cs : List ℕ) (key t : Bytes) (h : Hall) : Type 0 where
  pub sound : IsSound h.keyspace
  pub missing : find h.keyspace.dict key ≡ none
  pub lasting : find h.keyspace.expires key ≡ none
  pub no_target : find h.keyspace.dict t ≡ none
  pub target_lasting : find h.keyspace.expires t ≡ none
  pub waits : clients_of h.blocking_keys key ≡ c ∷ cs
  pub keys : (h.clients c).keys ≡ some (key ∷ [])
  pub target : (h.clients c).target ≡ some t
  pub alone : clients_of (set_clients h.blocking_keys key cs) t ≡ []
  pub counted : 0 < h.bpop_blocked_clients

store_push-new :
    (key v : Bytes) (k : Keyspace)
    → find k.dict key ≡ none
    → store_push key none v k ≡ done (tt, dirtied 1 (written key (list (v ∷ [])) k))
unfolding store_push push_onto write_list modify pure ◌>>=◌ add_dirty written dirtied list_type_push
store_push-new key v k e =
    rw (db_add-written key (list []) k e, written-find key (list []) k)
      (ap (λ t. done (tt, dirtied 1 t)) (written-written key (list []) (list (v ∷ [])) k))

looks :
    (env : Env) (key : Bytes) (k : Keyspace)
    → IsSound k
    → find k.dict key ≡ none
    → find k.expires key ≡ none
    → lookup_key_write env key k ≡ done (none, k)
looks env key k sound missing lasting =
    lookup_key_write-eq env key k sound
    ∙ ap (λ k. done (find k.dict key, k)) (evict-persistent env key k lasting)
    ∙ ap (λ o. done (o, k)) missing

module _ (env : Env) (c : ℕ) (cs : List ℕ) (key t : Bytes) (h : Hall)
    (q : WaitsToMove c cs key t h) where
  -- The client no longer waits.
  abbrev left : Hall
  left = released c h (set_clients h.blocking_keys key cs)

  leaves : unblock_client_waiting_data c h ≡ done left
  unfolding unblock_client_waiting_data leave_keys remove_client
  leaves =
      ap (unblock c h) q.keys
      ∙ ap
          (λ is.
            map_outcome (released c h)
              (leave_key (leave_keys c []) key h.blocking_keys (remove_client c is)))
          q.waits
      ∙ ground arith

  -- The value is in the list of the target, and the client was sent it.
  abbrev pub moved : Bytes → Hall
  moved v = tell c (bulk v) (keyed left (dirtied 1 (written t (list (v ∷ [])) h.keyspace)))

  stores : (v : Bytes) → pushed_on c t none v (unhandled, left) ≡ done (rewriting, moved v)
  unfolding released
  stores v =
      ap (map_outcome (λ r. (rewriting, tell c (bulk v) (r.1))))
        (on_keys-eq (store_push t none v) left tt _ (store_push-new t v h.keyspace q.no_target))

  rounds :
      (f n : ℕ) (v : Bytes) → serve_waiting (suc f) env (suc n) key v h ≡ done (rewriting, moved v)
  unfolding serve_waiting released
  rounds f n v =
      ap (serve_first (serve_waiting f env) env n key v h) q.waits
      ∙ ap
          (λ o.
            and_then o (serve_receiver (serve_waiting f env) env n key v c ((h.clients c).target)))
          leaves
      ∙ ap (λ t. serve_receiver (serve_waiting f env) env n key v c t left) q.target
      ∙ ap (λ o. and_then o (serve_target (serve_waiting f env) n key v c t))
          (on_keys-eq (lookup_key_write env t) left none h.keyspace
            (looks env t h.keyspace q.sound q.no_target q.target_lasting))
      ∙ ap (λ is. and_then (serve_waiting f env (length is) t v left) (pushed_on c t none v))
          q.alone
      ∙ stores v

  serves : (v : Bytes) → handle_clients_waiting_list_push env key v h ≡ done (rewriting, moved v)
  unfolding handle_clients_waiting_list_push
  serves v =
      let fuel : h.bpop_blocked_clients ≡ suc (h.bpop_blocked_clients - 1) =
        omega (arith, q.counted) in
      ap (λ f. serve_waiting f env (waiting_on key h) key v h) fuel
      ∙ ap (λ is. serve_waiting (suc (h.bpop_blocked_clients - 1)) env (length is) key v h) q.waits
      ∙ rounds (h.bpop_blocked_clients - 1) (length cs) v

  -- Where the first client that waits for a missing key does so with BRPOPLPUSH, for this key only,
  -- and its target is missing too, neither key has an expiry time, and no client waits for the target
  -- then, LPUSH or RPUSH of any values to the key moves the first value to the target, sends it to the
  -- client and replies 1. The other values are lost: the result is the same for any of them.
  pub push_generic_command-loses :
      (d : ℕ) (at_head : Bool) (v : Bytes) (vs : List Bytes)
      → push_generic_command env d at_head key (v ∷ vs) h
        ≡ done (tell d (integer (pos 1)) (moved v))
  unfolding push_generic_command push_loop
  push_generic_command-loses d at_head v vs =
      ap (λ o. and_then o (push_found env d at_head key (v ∷ vs)))
        (on_keys-eq (lookup_key_write env key) h none h.keyspace
          (looks env key h.keyspace q.sound q.missing q.lasting))
      ∙ ap
          (λ o.
            and_then
              (and_then o (after_wait (push_loop env at_head key vs) at_head key v false 0 0))
              (push_end d key))
          (serves v)
      ∙ push_end-handed d key (moved v)
