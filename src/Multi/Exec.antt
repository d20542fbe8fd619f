-- ===== src/Multi/Exec.antt =====
-- multi.c: EXEC, and the marks that a write leaves on the clients.
use gridapps.Commands.{Command, run}
use gridapps.Reply.{nullmultibulk, Reply}
use gridapps.Multi.Watch.{Agrees, count_client, unwatch_all_keys_total, count_key}
use gridapps.Db.{Env, done, Keyspace}
use gridapps.Multi.{
  Server, touch_all, exec_command, touch_watched_key, reset_multi, has_key, has_client, clients_of,
  initial_client, Client, signal_flush, after_command, touch_watched_keys_on_flush, call,
  call_plain, plain,
}
use gridapps.Prelude.{
  true, refl, [], arith, ◌∷◌, ℕ, Bytes, List, ◌≡◌, ◌∙◌, inl, inr, ◌≤◌, Bool-cases, bytes_eq,
  bytes_eq_iff, ap,
}

counted_client : (is : List ℕ) (c : ℕ) → 1 ≤ count_client is c → has_client is c ≡ true
unfolding has_client
counted_client [] c h = absurd (omega arith)
counted_client (i ∷ is) c h = ground (arith, counted_client is c)

counted_key : (ks : List Bytes) (key : Bytes) → has_key ks key ≡ true → 1 ≤ count_key ks key
unfolding has_key
counted_key [] key h = absurd (ground arith)
counted_key (k ∷ ks) key h = ground (arith, counted_key ks key)

Client-ext :
    (a b : Client)
    → a.in_multi ≡ b.in_multi
    → a.dirty_cas ≡ b.dirty_cas
    → a.watched_keys ≡ b.watched_keys
    → a.commands ≡ b.commands
    → a ≡ b
Client-ext a b m d w q = cc

-- A client that watches a key is in the list of clients of that key.
watcher_listed :
    (s : Server) (c : ℕ) (key : Bytes)
    → Agrees s
    → has_key ((s.clients c).watched_keys) key ≡ true
    → has_client (clients_of s.watched key) c ≡ true
watcher_listed s c key agrees h =
    counted_client (clients_of s.watched key) c
      (omega (arith, agrees c key, counted_key ((s.clients c).watched_keys) key h))

touch_all-dirty :
    (s : Server) (c : ℕ) (keys : List Bytes)
    → (s.clients c).dirty_cas ≡ true
    → ((touch_all s keys).clients c).dirty_cas ≡ true
unfolding touch_all touch_watched_key
touch_all-dirty s c [] h = h
touch_all-dirty s c (key ∷ keys) h = touch_all-dirty (touch_watched_key s key) c keys (ground arith)

touch_all-watcher :
    (s : Server) (c : ℕ) (key : Bytes) (keys : List Bytes)
    → has_client (clients_of s.watched key) c ≡ true
    → has_key keys key ≡ true
    → ((touch_all s keys).clients c).dirty_cas ≡ true
unfolding touch_all touch_watched_key has_key
touch_all-watcher s c key [] listed h = absurd (ground arith)
touch_all-watcher s c key (k ∷ keys) listed h = elim (Bool-cases (bytes_eq k key)) [
  | inl e ↦
      touch_all-dirty (touch_watched_key s k) c keys (grind (arith, bytes_eq_iff k key, listed))
  | inr e ↦ touch_all-watcher (touch_watched_key s k) c key keys listed (ground arith)
]

-- What touching leaves alone.
pub touch_all-Agrees : (s : Server) (keys : List Bytes) → Agrees s → Agrees (touch_all s keys)
unfolding touch_all touch_watched_key
touch_all-Agrees s [] h = h
touch_all-Agrees s (key ∷ keys) h =
    touch_all-Agrees (touch_watched_key s key) keys (λ i j. grind (arith, h i j))

touch_all-in_multi :
    (s : Server) (keys : List Bytes) (c : ℕ)
    → ((touch_all s keys).clients c).in_multi ≡ (s.clients c).in_multi
unfolding touch_all touch_watched_key
touch_all-in_multi s [] c = refl
touch_all-in_multi s (key ∷ keys) c =
    touch_all-in_multi (touch_watched_key s key) keys c ∙ ground arith

-- EXEC of a client that is marked dirty answers with a null multi bulk and runs nothing: the keyspace
-- is the same. The client is out of its transaction, with an empty queue and no watched keys.
pub exec_command-dirty :
    (env : Env) (c : ℕ) (s : Server)
    → Agrees s
    → (s.clients c).in_multi ≡ true
    → (s.clients c).dirty_cas ≡ true
    → (t : Server) × (exec_command env c s ≡ done (nullmultibulk, t))
      × (t.keyspace ≡ s.keyspace)
      × (t.clients c ≡ initial_client)
      × Agrees t
unfolding exec_command reset_multi
exec_command-dirty env c s agrees multi dirty =
    let u = unwatch_all_keys_total c (reset_multi c s) (λ i j. grind (arith, agrees i j)) in
    (
      u.0,
      rw (multi, dirty, u.1),
      u.2.same_keyspace,
      Client-ext _ _ (u.2.same_multi c ∙ ground arith) (u.2.same_dirty c ∙ ground arith)
          u.2.still_watched (u.2.same_queue c ∙ ground arith),
      u.2.agrees,
    )

pub signal_flush-Agrees : (cmd : Command) (s : Server) → Agrees s → Agrees (signal_flush cmd s)
unfolding signal_flush touch_watched_keys_on_flush
signal_flush-Agrees cmd s h i j = grind (arith, h i j)

pub signal_flush-same :
    (cmd : Command) (s : Server) (c : ℕ)
    → ((signal_flush cmd s).keyspace ≡ s.keyspace)
      × (((signal_flush cmd s).clients c).in_multi ≡ (s.clients c).in_multi)
      × (((signal_flush cmd s).clients c).watched_keys ≡ (s.clients c).watched_keys)
unfolding signal_flush touch_watched_keys_on_flush
signal_flush-same cmd s c = (ground arith, ground arith, ground arith)

after_command-watcher :
    (s : Server) (c : ℕ) (key : Bytes) (r : Reply) (d : Keyspace)
    → Agrees s
    → (s.clients c).in_multi ≡ true
    → has_key ((s.clients c).watched_keys) key ≡ true
    → has_key d.touched key ≡ true
    → (((after_command s (r, d)).1.clients c).in_multi ≡ true)
      × (((after_command s (r, d)).1.clients c).dirty_cas ≡ true)
      × Agrees ((after_command s (r, d)).1)
unfolding after_command
after_command-watcher s c key r d agrees multi watches signals =
    let s' : Server = record s { keyspace = record d { touched = [] } } in
    (
      touch_all-in_multi s' d.touched c ∙ multi,
      touch_all-watcher s' c key d.touched (watcher_listed s c key agrees watches) signals,
      touch_all-Agrees s' d.touched agrees,
    )

pub touch_all-keyspace : (s : Server) (keys : List Bytes) → (touch_all s keys).keyspace ≡ s.keyspace
unfolding touch_all touch_watched_key
touch_all-keyspace s [] = refl
touch_all-keyspace s (key ∷ keys) = touch_all-keyspace (touch_watched_key s key) keys

-- Let a client be in a transaction and watch a key, and let the two sides of WATCH agree. If a
-- command that is called for any client then runs to its end and signals that key, an EXEC right
-- behind it by the watching client answers with a null multi bulk, and the dictionary and the times
-- to live are those that the command left.
pub exec-watched_write :
    (env later : Env) (c i : ℕ) (cmd : Command) (s : Server) (key : Bytes) (r : Reply)
    (d : Keyspace)
    → Agrees s
    → (s.clients c).in_multi ≡ true
    → has_key ((s.clients c).watched_keys) key ≡ true
    → run env cmd (record s.keyspace { touched = [] }) ≡ done (r, d)
    → has_key d.touched key ≡ true
    → (t u : Server) × (call env i (plain cmd) s ≡ done (r, t))
      × (exec_command later c t ≡ done (nullmultibulk, u))
      × (u.keyspace.dict ≡ d.dict)
      × (u.keyspace.expires ≡ d.expires)
unfolding call call_plain after_command
exec-watched_write env later c i cmd s key r d agrees multi watches runs signals =
    let s' = signal_flush cmd s in
    let same = signal_flush-same cmd s c in
    let mark =
      after_command-watcher s' c key r d (signal_flush-Agrees cmd s agrees) (same.1 ∙ multi)
        (ap (λ l. has_key l key) same.2 ∙ watches) signals in
    let t = (after_command s' (r, d)).1 in
    let failed = exec_command-dirty later c t mark.2 (mark.0) (mark.1) in
    let left = touch_all-keyspace (record s' { keyspace = record d { touched = [] } }) d.touched in
    (
      t,
      failed.0,
      rw (same.0, runs),
      failed.1,
      ap (λ k. k.dict) (failed.2 ∙ left),
      ap (λ k. k.expires) (failed.2 ∙ left),
    )
