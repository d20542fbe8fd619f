-- ===== src/Blocking/Served.antt =====
-- t_list.c: a value that is pushed goes to the first client that waits for it.
use gridapps.Prelude.{
  false, none, some, pos, suc, [], arith, ◌∷◌, ℕ, Bytes, List, ◌≡◌, Bool, ◌<◌, Map, find, ap, ◌-◌,
  length, ◌∙◌,
}
use gridapps.Blocking.Agree.{Agrees, unblock-Agrees}
use gridapps.Blocking.Cells.{keyed, on_keys-eq}
use gridapps.Blocking.{
  Hall, handled, tell, released, push_generic_command, push_found, push_loop, push_end, count_push,
  after_wait, handle_clients_waiting_list_push, serve_waiting, serve_first, serve_receiver,
  waiting_on,
}
use gridapps.Multi.{map_outcome, and_then, clients_of}
use gridapps.Db.{Env, Keyspace, done, pure, lookup_key_write, add_dirty, modify, ◌>>=◌}
use gridapps.Db.Evict.{IsSound, evict, lookup_key_write-eq}
use gridapps.Reply.{bulk, multi, cons, nil, integer}

-- The first client of a key waits with BLPOP or BRPOP.
pub record FirstPops (c : ℕ) (cs : List ℕ) (keys : List Bytes) (key : Bytes) (h : Hall)
    : Type 0 where
  pub agrees : Agrees h
  pub waits : clients_of h.blocking_keys key ≡ c ∷ cs
  pub its_keys : (h.clients c).keys ≡ some keys
  pub target : (h.clients c).target ≡ none
  pub counted : 0 < h.bpop_blocked_clients

abbrev pub handed : ℕ → Bytes → Bytes → Hall → Hall
handed c key ele h = tell c (multi (cons (bulk key) (cons (bulk ele) nil))) h

handle-served :
    (env : Env) (c : ℕ) (cs : List ℕ) (keys : List Bytes) (key ele : Bytes) (h : Hall)
    → FirstPops c cs keys key h
    → (w : Map (List ℕ)) × (handle_clients_waiting_list_push env key ele h
        ≡ done (handled, handed c key ele (released c h w)))
      × Agrees (released c h w)
unfolding handle_clients_waiting_list_push serve_waiting
handle-served env c cs keys key ele h q =
    let (w, ends, agree) = unblock-Agrees c keys h q.agrees q.its_keys in
    let f = h.bpop_blocked_clients - 1 in
    let fuel : h.bpop_blocked_clients ≡ suc f = omega (arith, q.counted) in
    let next = serve_receiver (serve_waiting f env) env (length cs) key ele c in
    (
      w,
      ap (λ n. serve_waiting n env (waiting_on key h) key ele h) fuel
          ∙ ap (λ is. serve_waiting (suc f) env (length is) key ele h) q.waits
          ∙ ap (serve_first (serve_waiting f env) env (length cs) key ele h) q.waits
          ∙ ap (λ o. and_then o (next ((h.clients c).target))) ends
          ∙ ap (λ t. next t (released c h w)) q.target,
      agree,
    )

count_push-none : (key : Bytes) (k : Keyspace) → count_push key 0 k ≡ done (tt, k)
unfolding pure ◌>>=◌ add_dirty modify
count_push-none key k = ground arith

-- The end of a push of one value that a client took.
pub push_end-handed :
    (d : ℕ) (key : Bytes) (g : Hall)
    → push_end d key ((false, 1, 0), g) ≡ done (tell d (integer (pos 1)) g)
unfolding push_end
push_end-handed d key g =
    ap (map_outcome (λ r. tell d (integer (pos 1)) (r.1)))
      (on_keys-eq (count_push key 0) g tt g.keyspace (count_push-none key g.keyspace))

-- In a sound keyspace, LPUSH or RPUSH of one value to a missing key for which a client waits with
-- BLPOP or BRPOP as the first one, where the two sides of the waits agree and the blocked clients
-- are counted: that client is sent the key and the value, it waits for nothing more, and the sides
-- agree again. The reply is 1, and the value is not stored: the keyspace is that of the lookup.
pub push_generic_command-served :
    (env : Env) (d c : ℕ) (at_head : Bool) (cs : List ℕ) (keys : List Bytes) (key v : Bytes)
    (h : Hall)
    → IsSound h.keyspace
    → find (evict env key h.keyspace).dict key ≡ none
    → FirstPops c cs keys key h
    → (w : Map (List ℕ)) × (push_generic_command env d at_head key (v ∷ []) h
        ≡ done (
            tell d
              (integer (pos 1))
              (handed c key v (keyed (released c h w) (evict env key h.keyspace)))))
      × Agrees (released c h w)
      × (((released c h w).clients c).keys ≡ none)
unfolding push_generic_command push_loop push_end released tell
push_generic_command-served env d c at_head cs keys key v h sound missing q =
    let k = evict env key h.keyspace in
    let b = keyed h k in
    let (w, ends, agree) = handle-served env c cs keys key v b (record {
      agrees = record { sides = q.agrees.sides };
      waits = q.waits;
      its_keys = q.its_keys;
      target = q.target;
      counted = q.counted;
    }) in
    (
      w,
      ap (λ o. and_then o (push_found env d at_head key (v ∷ [])))
            (on_keys-eq (lookup_key_write env key) h (find k.dict key) k
              (lookup_key_write-eq env key h.keyspace sound))
          ∙ ap (λ o. push_found env d at_head key (v ∷ []) (o, b)) missing
          ∙ ap
              (λ o.
                and_then
                  (and_then o (after_wait (push_loop env at_head key []) at_head key v false 0 0))
                  (push_end d key))
              ends
          ∙ push_end-handed d key (handed c key v (released c b w)),
      record { sides = agree.sides },
      ground arith,
    )
