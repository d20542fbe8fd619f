-- ===== src/Multi/Watch.antt =====
-- multi.c: the keys that a client watches, the clients that watch a key, and unwatchAllKeys.
use gridapps.Db.{done}
use gridapps.Multi.{
  Server, remove_client, unwatch_loop, clients_of, set_clients, drop_watch, unwatch_all_keys,
}
use gridapps.Prelude.{
  some, refl, inl, inr, [], arith, ◌∷◌, List, Map, ℕ, Bytes, ◌≤◌, ◌≡◌, if◌then◌else◌, bytes_eq, ◌≢◌,
  ◌==◌, ◌+◌, find-del, Bool-cases, find-put, ◌∙◌, ap, bytes_eq_iff, bytes_eq_refl, ◌++◌,
}

abbrev pub count_client : List ℕ → ℕ → ℕ
count_client [] c = 0
count_client (i ∷ is) c = (if i == c then 1 else 0) + count_client is c

abbrev pub count_key : List Bytes → Bytes → ℕ
count_key [] key = 0
count_key (k ∷ ks) key = (if bytes_eq k key then 1 else 0) + count_key ks key

pub count_client-append :
    (is : List ℕ) (c i : ℕ)
    → count_client (is ++ c ∷ []) i ≡ count_client is i + (if c == i then 1 else 0)
count_client-append [] c i = omega arith
count_client-append (j ∷ is) c i = omega (arith, count_client-append is c i)

pub count_key-append :
    (ks : List Bytes) (k j : Bytes)
    → count_key (ks ++ k ∷ []) j ≡ count_key ks j + (if bytes_eq k j then 1 else 0)
count_key-append [] k j = omega arith
count_key-append (l ∷ ks) k j = omega (arith, count_key-append ks k j)

-- A client is as often in the list of a key as the key is in the list of the client.
abbrev pub Agrees : Server → Type 0
Agrees s =
    (c : ℕ) (key : Bytes)
    → count_client (clients_of s.watched key) c ≡ count_key ((s.clients c).watched_keys) key

pub clients_of-set_clients :
    (w : Map (List ℕ)) (key j : Bytes) (is : List ℕ)
    → clients_of (set_clients w key is) j ≡ (if bytes_eq key j then is else clients_of w j)
clients_of-set_clients w key j [] = ground (arith, find-del w key j)
clients_of-set_clients w key j (i ∷ is) = ground (arith, find-put w key j (i ∷ is))

-- What is left of a list of clients, if one is in it.
pub remove_client_total :
    (c : ℕ) (is : List ℕ)
    → 1 ≤ count_client is c
    → (js : List ℕ) × (remove_client c is ≡ some js)
      × ((i : ℕ) → count_client is i ≡ (if c == i then 1 else 0) + count_client js i)
unfolding remove_client
remove_client_total c [] h = absurd (omega arith)
remove_client_total c (i ∷ is) h = elim (Bool-cases (i == c)) [
  | inl e ↦ (is, rw e, λ j. ground arith)
  | inr e ↦
      let ih = remove_client_total c is (ground arith) in
      (i ∷ ih.0, rw (e, ih.1), λ j. ground (arith, ih.2 j))
]

-- What unwatching leaves alone, and which keys the client still watches.
pub record Unwatched (c : ℕ) (left : List Bytes) (s t : Server) : Type 0 where
  pub agrees : Agrees t
  pub same_keyspace : t.keyspace ≡ s.keyspace
  pub still_watched : (t.clients c).watched_keys ≡ left
  pub same_multi : (i : ℕ) → (t.clients i).in_multi ≡ (s.clients i).in_multi
  pub same_dirty : (i : ℕ) → (t.clients i).dirty_cas ≡ (s.clients i).dirty_cas
  pub same_queue : (i : ℕ) → (t.clients i).commands ≡ (s.clients i).commands
  pub others_watch : (i : ℕ) → i ≢ c → (t.clients i).watched_keys ≡ (s.clients i).watched_keys

Unwatched-trans :
    (c : ℕ) (left : List Bytes) (s t u : Server)
    → Unwatched c left s t
    → Unwatched c [] t u
    → Unwatched c [] s u
Unwatched-trans c left s t u a b = record {
  agrees = b.agrees;
  same_keyspace = b.same_keyspace ∙ a.same_keyspace;
  still_watched = b.still_watched;
  same_multi = λ i. b.same_multi i ∙ a.same_multi i;
  same_dirty = λ i. b.same_dirty i ∙ a.same_dirty i;
  same_queue = λ i. b.same_queue i ∙ a.same_queue i;
  others_watch = λ i h. b.others_watch i h ∙ a.others_watch i h;
}

drop_count :
    (c : ℕ) (key : Bytes) (keys : List Bytes) (is : List ℕ) (s : Server)
    → Agrees s
    → (s.clients c).watched_keys ≡ key ∷ keys
    → ((i : ℕ)
        → count_client (clients_of s.watched key) i ≡ (if c == i then 1 else 0) + count_client is i)
    → Agrees (drop_watch c key keys is s)
unfolding drop_watch
drop_count c key keys is s agrees e less i j = grind (
  arith,
  ap (λ w. count_client w i) (clients_of-set_clients s.watched key j is),
  ap (λ l. count_key l j) e,
  agrees i j,
  agrees i key,
  bytes_eq_iff key j,
  less i,
)

drop_watch-Unwatched :
    (c : ℕ) (key : Bytes) (keys : List Bytes) (is : List ℕ) (s : Server)
    → Agrees s
    → (s.clients c).watched_keys ≡ key ∷ keys
    → ((i : ℕ)
        → count_client (clients_of s.watched key) i ≡ (if c == i then 1 else 0) + count_client is i)
    → Unwatched c keys s (drop_watch c key keys is s)
unfolding drop_watch
drop_watch-Unwatched c key keys is s agrees e less = record {
  agrees = λ i j. drop_count c key keys is s agrees e less i j;
  same_keyspace = refl;
  still_watched = ground arith;
  same_multi = λ i. ground arith;
  same_dirty = λ i. ground arith;
  same_queue = λ i. ground arith;
  others_watch = λ i h. ground arith;
}

unwatch_loop_next :
    (c : ℕ) (key : Bytes) (keys : List Bytes) (s : Server) (is : List ℕ)
    → remove_client c (clients_of s.watched key) ≡ some is
    → unwatch_loop c (key ∷ keys) s ≡ unwatch_loop c keys (drop_watch c key keys is s)
unfolding unwatch_loop
unwatch_loop_next c key keys s is h = rw (unwatch_loop, h)

unwatch_loop_total :
    (c : ℕ) (keys : List Bytes) (s : Server)
    → Agrees s
    → (s.clients c).watched_keys ≡ keys
    → (t : Server) × (unwatch_loop c keys s ≡ done t) × Unwatched c [] s t
unfolding unwatch_loop
unwatch_loop_total c [] s agrees e = (
  s,
  refl,
  record {
    agrees = agrees;
    same_keyspace = refl;
    still_watched = e;
    same_multi = λ i. refl;
    same_dirty = λ i. refl;
    same_queue = λ i. refl;
    others_watch = λ i h. refl;
  },
)
unwatch_loop_total c (key ∷ keys) s agrees e =
    let found =
      remove_client_total c (clients_of s.watched key)
        (grind (arith, agrees c key, ap (λ l. count_key l key) e, bytes_eq_refl key)) in
    let step = drop_watch-Unwatched c key keys (found.0) s agrees e (found.2) in
    let ih =
      unwatch_loop_total c keys (drop_watch c key keys (found.0) s) (step.agrees)
        (step.still_watched) in
    (
      ih.0,
      unwatch_loop_next c key keys s (found.0) found.1 ∙ ih.1,
      Unwatched-trans c keys s _ (ih.0) step ih.2,
    )

-- Where the two sides of WATCH agree, unwatchAllKeys passes its assertion. The two sides still agree,
-- the client watches no key, and nothing else has changed.
pub unwatch_all_keys_total :
    (c : ℕ) (s : Server)
    → Agrees s
    → (t : Server) × (unwatch_all_keys c s ≡ done t) × Unwatched c [] s t
unfolding unwatch_all_keys
unwatch_all_keys_total c s agrees = unwatch_loop_total c ((s.clients c).watched_keys) s agrees refl
