-- ===== src/PubSub/Agree.antt =====
-- pubsub.c: the tables of the server and of the clients say the same, and no assertion fails.
use gridapps.Multi.{clients_of}
use gridapps.Db.{Outcome, done}
use gridapps.PubSub.{
  Hub, remove_key, remove_pattern, same_pattern, send, add_channel, add_pattern, drop_channel,
  drop_pattern, Note, notified, subscriptions,
}
use gridapps.Prelude.{
  some, refl, inl, inr, [], arith, ◌∷◌, List, ℕ, Bytes, ◌≡◌, ◌≤◌, if◌then◌else◌, ◌++◌, bytes_eq,
  ◌+◌, ◌==◌, Bool-cases, ◌&&◌, bytes_eq_iff, Option-cases, true, false, Bool, find-put, ap,
}
use gridapps.Multi.Watch.{
  count_client, count_key, count_key-append, count_client-append, clients_of-set_clients,
}

abbrev pub count_pattern : List (ℕ × Bytes) → ℕ → Bytes → ℕ
count_pattern [] c p = 0
count_pattern (x ∷ xs) c p = (if same_pattern x c p then 1 else 0) + count_pattern xs c p

-- A client is as often in the list of a channel as the channel is with the client, and a client with
-- a pattern as often in the list of patterns as the pattern is with the client.
pub record Agrees (h : Hub) : Type 0 where
  pub of_channels :
      (c : ℕ) (channel : Bytes)
      → count_client (clients_of h.channels channel) c ≡ count_key ((h.clients c).channels) channel
  pub of_patterns :
      (c : ℕ) (pattern : Bytes)
      → count_pattern h.patterns c pattern ≡ count_key ((h.clients c).patterns) pattern

-- The run ends, and `P` holds then.
abbrev pub EndsIn : (Hub → Type 0) → Outcome Hub → Type 0
EndsIn P o = (h : Hub) × (o ≡ done h) × P h

count_pattern-append :
    (xs : List (ℕ × Bytes)) (x : ℕ × Bytes) (c : ℕ) (p : Bytes)
    → count_pattern (xs ++ x ∷ []) c p
      ≡ count_pattern xs c p + (if same_pattern x c p then 1 else 0)
count_pattern-append [] x c p = omega arith
count_pattern-append (y ∷ xs) x c p = omega (arith, count_pattern-append xs x c p)

pub remove_key-count :
    (key : Bytes) (keys left : List Bytes) (j : Bytes)
    → remove_key key keys ≡ some left
    → count_key keys j ≡ (if bytes_eq key j then 1 else 0) + count_key left j
unfolding remove_key
remove_key-count key [] left j h = ground arith
remove_key-count key (k ∷ keys) left j h = elim (Bool-cases (bytes_eq k key)) [
  | inl same ↦ ground (arith, bytes_eq_iff k key)
  | inr other ↦ elim (Option-cases (remove_key key keys)) [
    | inl absent ↦ ground arith
    | inr (js, found) ↦ ground (arith, remove_key-count key keys js j found)
  ]
]

pub remove_pattern_total :
    (c : ℕ) (p : Bytes) (xs : List (ℕ × Bytes))
    → 1 ≤ count_pattern xs c p
    → (ys : List (ℕ × Bytes)) × (remove_pattern c p xs ≡ some ys)
      × ((i : ℕ) (q : Bytes)
          → count_pattern xs i q ≡ (if c == i && bytes_eq p q then 1 else 0) + count_pattern ys i q)
unfolding remove_pattern
remove_pattern_total c p [] h = absurd (omega arith)
remove_pattern_total c p ((i, q) ∷ xs) h = elim (Bool-cases (i == c && bytes_eq q p)) [
  | inl same ↦ (xs, rw same refl, λ j r. ground (arith, bytes_eq_iff q p))
  | inr other ↦
      let (ys, found, less) = remove_pattern_total c p xs (ground arith) in
      ((i, q) ∷ ys, rw (other, found) refl, λ j r. omega (arith, less j r))
]

pub send-Agrees : (c : ℕ) (note : Note) (h : Hub) → Agrees h → Agrees (send c note h)
unfolding send
send-Agrees c note h a = record { of_channels = a.of_channels; of_patterns = a.of_patterns }

notified-Agrees :
    (notify : Bool) (c : ℕ) (note : ℕ → Note) (h : Hub)
    → Agrees h
    → Agrees (notified notify c note h)
notified-Agrees true c note h a = send-Agrees c (note (subscriptions h c)) h a
notified-Agrees false c note h a = a

pub add_channel-Agrees :
    (c : ℕ) (channel : Bytes) (h : Hub) → Agrees h → Agrees (add_channel c channel h)
unfolding add_channel
add_channel-Agrees c channel h a = record {
  of_channels = λ i j. grind (
    arith,
    find-put h.channels channel j (clients_of h.channels channel ++ c ∷ []),
    count_client-append (clients_of h.channels channel) c i,
    count_key-append ((h.clients c).channels) channel j,
    a.of_channels i j,
    a.of_channels c j,
    a.of_channels i channel,
    bytes_eq_iff channel j,
  );
  of_patterns = λ i p. ground (arith, a.of_patterns i p);
}

pub add_pattern-Agrees :
    (c : ℕ) (pattern : Bytes) (h : Hub) → Agrees h → Agrees (add_pattern c pattern h)
unfolding add_pattern
add_pattern-Agrees c pattern h a = record {
  of_channels = λ i j. ground (arith, a.of_channels i j);
  of_patterns = λ i p. grind (
    arith,
    count_pattern-append h.patterns (c, pattern) i p,
    count_key-append ((h.clients c).patterns) pattern p,
    a.of_patterns i p,
    a.of_patterns c p,
  );
}

pub drop_channel-Agrees :
    (c : ℕ) (channel : Bytes) (left : List Bytes) (is : List ℕ) (h : Hub)
    → Agrees h
    → ((j : Bytes)
        → count_key ((h.clients c).channels) j
          ≡ (if bytes_eq channel j then 1 else 0) + count_key left j)
    → ((i : ℕ)
        → count_client (clients_of h.channels channel) i
          ≡ (if c == i then 1 else 0) + count_client is i)
    → Agrees (drop_channel c channel left is h)
unfolding drop_channel
drop_channel-Agrees c channel left is h a keys less = record {
  of_channels = λ i j. grind (
    arith,
    ap (λ w. count_client w i) (clients_of-set_clients h.channels channel j is),
    keys j,
    less i,
    a.of_channels i j,
    a.of_channels i channel,
    bytes_eq_iff channel j,
  );
  of_patterns = λ i p. ground (arith, a.of_patterns i p);
}

pub drop_pattern-Agrees :
    (c : ℕ) (pattern : Bytes) (left : List Bytes) (ps : List (ℕ × Bytes)) (h : Hub)
    → Agrees h
    → ((j : Bytes)
        → count_key ((h.clients c).patterns) j
          ≡ (if bytes_eq pattern j then 1 else 0) + count_key left j)
    → ((i : ℕ) (q : Bytes)
        → count_pattern h.patterns i q
          ≡ (if c == i && bytes_eq pattern q then 1 else 0) + count_pattern ps i q)
    → Agrees (drop_pattern c left ps h)
unfolding drop_pattern
drop_pattern-Agrees c pattern left ps h a keys less = record {
  of_channels = λ i j. ground (arith, a.of_channels i j);
  of_patterns = λ i p. grind (arith, keys p, less i p, a.of_patterns i p, bytes_eq_iff pattern p);
}
