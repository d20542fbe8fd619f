-- ===== src/Blocking/Agree.antt =====
-- t_list.c: the two sides of a wait agree, so a blocked client can always be unblocked.
use mathlib.Core.Option
use gridapps.Prelude.{
  none, some, refl, [], arith, ◌∷◌, List, ℕ, Bytes, ◌≡◌, Map, ℤ, ◌≤◌, Option, ap, ◌+◌, ◌∙◌,
  if◌then◌else◌, ◌==◌, put, bytes_eq_refl, ◌++◌, find-put, bytes_eq_iff, ◌&&◌, bytes_eq,
}
use gridapps.Blocking.{
  Hall, Bpop, block_for_keys, wait_for, leave_keys, leave_key, released, unblock,
  unblock_client_waiting_data,
}
use gridapps.Multi.{map_outcome, clients_of, set_clients}
use gridapps.Multi.Watch.{
  clients_of-set_clients, count_client, count_key, count_client-append, remove_client_total,
}
use gridapps.Db.{done}

-- The keys for which a client waits.
abbrev pub keys_of : Bpop → List Bytes
keys_of b = Option.get_or b.keys []

-- A client is as often in the list of a key as the key is among the keys of the client.
pub record Agrees (h : Hall) : Type 0 where
  pub sides :
      (i : ℕ) (key : Bytes)
      → count_client (clients_of h.blocking_keys key) i ≡ count_key (keys_of (h.clients i)) key

wait_for-count :
    (c : ℕ) (keys : List Bytes) (w : Map (List ℕ)) (i : ℕ) (j : Bytes)
    → count_client (clients_of (wait_for c keys w) j) i
      ≡ count_client (clients_of w j) i + (if c == i then count_key keys j else 0)
unfolding wait_for
wait_for-count c [] w i j = ground arith
wait_for-count c (key ∷ keys) w i j = grind (
  arith,
  wait_for-count c keys (put w key (clients_of w key ++ c ∷ [])) i j,
  find-put w key j (clients_of w key ++ c ∷ []),
  count_client-append (clients_of w key) c i,
  bytes_eq_iff key j,
)

-- One list without one of its places for the client.
one_less :
    (c : ℕ) (key : Bytes) (w : Map (List ℕ)) (is : List ℕ)
    → ((i : ℕ) → count_client (clients_of w key) i ≡ (if c == i then 1 else 0) + count_client is i)
    → (i : ℕ) (j : Bytes)
    → count_client (clients_of w j) i
      ≡ (if c == i && bytes_eq key j then 1 else 0)
        + count_client (clients_of (set_clients w key is) j) i
one_less c key w is less i j = grind (
  arith,
  ap (λ v. count_client v i) (clients_of-set_clients w key j is),
  less i,
  bytes_eq_iff key j,
)

leave_keys_total :
    (c : ℕ) (keys : List Bytes) (w : Map (List ℕ))
    → ((j : Bytes) → count_key keys j ≤ count_client (clients_of w j) c)
    → (u : Map (List ℕ)) × (leave_keys c keys w ≡ done u)
      × ((i : ℕ) (j : Bytes)
          → count_client (clients_of w j) i
            ≡ (if c == i then count_key keys j else 0) + count_client (clients_of u j) i)
unfolding leave_keys
leave_keys_total c [] w h = (w, refl, λ i j. ground arith)
leave_keys_total c (key ∷ keys) w h =
    let (is, found, less) =
      remove_client_total c (clients_of w key) (grind (arith, h key, bytes_eq_refl key)) in
    let (u, ends, left) =
      leave_keys_total c keys (set_clients w key is)
        (λ j. ground (arith, h j, one_less c key w is less c j)) in
    (
      u,
      ap (leave_key (leave_keys c keys) key w) found ∙ ends,
      λ i j. ground (arith, one_less c key w is less i j, left i j),
    )

-- Where the two sides of the waits agree, a client that does not wait can be made to wait for any
-- keys, and the sides agree again.
pub block_for_keys-Agrees :
    (c : ℕ) (keys : List Bytes) (t : ℤ) (target : Option Bytes) (h : Hall)
    → Agrees h
    → (h.clients c).keys ≡ none
    → Agrees (block_for_keys c keys t target h)
unfolding block_for_keys
block_for_keys-Agrees c keys t target h a free = record {
  sides = λ i j. ground (
    arith,
    wait_for-count c keys h.blocking_keys i j,
    a.sides i j,
    ap (λ o. count_key (Option.get_or o []) j) free,
  );
}

-- Where the two sides of the waits agree, a client that waits can be unblocked: no assertion fails and
-- no node is missing, whichever keys it waits for, and the sides agree again, without it.
pub unblock-Agrees :
    (c : ℕ) (keys : List Bytes) (h : Hall)
    → Agrees h
    → (h.clients c).keys ≡ some keys
    → (w : Map (List ℕ)) × (unblock_client_waiting_data c h ≡ done (released c h w))
      × Agrees (released c h w)
unfolding unblock_client_waiting_data released
unblock-Agrees c keys h a waits =
    let (w, ends, left) =
      leave_keys_total c keys h.blocking_keys
        (λ j. ground (arith, a.sides c j, ap (λ o. count_key (Option.get_or o []) j) waits)) in
    (
      w,
      ap (unblock c h) waits ∙ ap (map_outcome (released c h)) ends,
      record {
        sides = λ i j.
            ground (arith, left i j, a.sides i j, ap (λ o. count_key (Option.get_or o []) j) waits);
      },
    )
