-- ===== src/PubSub/Handle.antt =====
-- pubsub.c: the commands, and a client that goes.
use gridapps.Multi.{has_key}
use gridapps.PubSub.Agree.{Agrees, EndsIn, add_channel-Agrees, add_pattern-Agrees}
use gridapps.PubSub.Total.{
  Leaves, Leaves-refl, Leaves-trans, notified-Leaves, without, unsubscribe_channel-Leaves,
  unsubscribe_pattern-Leaves,
}
use gridapps.PubSub.{
  Hub, Request, subscribe_channel, subscribe_pattern, subscribe_to, send, unsubscribe_from,
  add_channel, add_pattern, psubscribe_to, punsubscribe_from, leave, for_each, remove_key,
  unsubscribe_all_channels, unsubscribe_all_patterns, subscribe, psubscribe, unsubscribe_channel,
  unsubscribe_pattern, handle, subscribe_command, unsubscribe_command, psubscribe_command,
  punsubscribe_command,
}
use gridapps.Prelude.{
  true, refl, inl, inr, [], arith, ◌∷◌, List, Bytes, ℕ, if◌then◌else◌, ◌++◌, Bool-cases, ◌≡◌,
  bytes_eq_refl, ap, Bool, ◌∙◌, false,
}
use gridapps.Db.{Outcome, done}

-- The channels and the patterns of a client.
abbrev Own : Type 0
Own = List Bytes × List Bytes

abbrev own : Hub → ℕ → Own
own h c = ((h.clients c).channels, (h.clients c).patterns)

abbrev each : (Bytes → Own → Own) → List Bytes → Own → Own
each g [] o = o
each g (a ∷ args) o = each g args (g a o)

-- Subscribing twice changes nothing.
abbrev pub including : Bytes → List Bytes → List Bytes
including key keys = if has_key keys key then keys else keys ++ key ∷ []

abbrev pub add_to_channels : Bytes → Own → Own
add_to_channels a (chs, ps) = (including a chs, ps)

abbrev pub add_to_patterns : Bytes → Own → Own
add_to_patterns a (chs, ps) = (chs, including a ps)

abbrev pub take_from_channels : Bytes → Own → Own
take_from_channels a (chs, ps) = (without a chs, ps)

abbrev pub take_from_patterns : Bytes → Own → Own
take_from_patterns a (chs, ps) = (chs, without a ps)

-- What a request makes of the subscriptions of its client.
abbrev pub resulting : Request → Own → Own
resulting (subscribe_to channels) o = each add_to_channels channels o
resulting (unsubscribe_from []) (chs, ps) = ([], ps)
resulting (unsubscribe_from (a ∷ channels)) o = each take_from_channels (a ∷ channels) o
resulting (psubscribe_to patterns) o = each add_to_patterns patterns o
resulting (punsubscribe_from []) (chs, ps) = (chs, [])
resulting (punsubscribe_from (a ∷ patterns)) o = each take_from_patterns (a ∷ patterns) o
resulting leave o = ([], [])

subscribe_channel-Leaves :
    (c : ℕ) (channel : Bytes) (h : Hub)
    → Agrees h
    → EndsIn
        (Leaves c (including channel ((h.clients c).channels)) ((h.clients c).patterns) h)
        (done (subscribe_channel c channel h))
unfolding subscribe_channel send add_channel
subscribe_channel-Leaves c channel h a =
    elim (Bool-cases (has_key ((h.clients c).channels) channel)) [
      | inl there ↦ (
        _,
        refl,
        rw there (notified-Leaves true c (subscribe channel) _ _ h h (Leaves-refl c h a)),
      )
      | inr absent ↦ (
        _,
        refl,
        rw absent (
            notified-Leaves true c (subscribe channel) _ _ h (add_channel c channel h) (record {
              agrees = add_channel-Agrees c channel h a;
              its_channels = ground arith;
              its_patterns = ground arith;
              others = λ i e. ground arith;
            })),
      )
    ]

subscribe_pattern-Leaves :
    (c : ℕ) (pattern : Bytes) (h : Hub)
    → Agrees h
    → EndsIn
        (Leaves c ((h.clients c).channels) (including pattern ((h.clients c).patterns)) h)
        (done (subscribe_pattern c pattern h))
unfolding subscribe_pattern send add_pattern
subscribe_pattern-Leaves c pattern h a =
    elim (Bool-cases (has_key ((h.clients c).patterns) pattern)) [
      | inl there ↦ (
        _,
        refl,
        rw there (notified-Leaves true c (psubscribe pattern) _ _ h h (Leaves-refl c h a)),
      )
      | inr absent ↦ (
        _,
        refl,
        rw absent (
            notified-Leaves true c (psubscribe pattern) _ _ h (add_pattern c pattern h) (record {
              agrees = add_pattern-Agrees c pattern h a;
              its_channels = ground arith;
              its_patterns = ground arith;
              others = λ i e. ground arith;
            })),
      )
    ]

-- A loop does to the subscriptions what its rounds do.
for_each-Leaves :
    (c : ℕ) (f : Bytes → Hub → Outcome Hub) (g : Bytes → Own → Own)
    → ((a : Bytes) (h : Hub)
        → Agrees h
        → EndsIn (Leaves c ((g a (own h c)).0) ((g a (own h c)).1) h) (f a h))
    → (args : List Bytes) (h : Hub) → Agrees h
    → EndsIn
        (Leaves c ((each g args (own h c)).0) ((each g args (own h c)).1) h)
        (for_each f args h)
for_each-Leaves c f g step [] h a = (h, refl, Leaves-refl c h a)
for_each-Leaves c f g step (x ∷ args) h a =
    let (h', ends, l) = step x h a in
    let (h'', ends', l') = for_each-Leaves c f g step args h' l.agrees in
    let same : own h' c ≡ g x (own h c) = λ i. (l.its_channels i, l.its_patterns i) in
    (h'', rw ends ends', Leaves-trans c _ _ _ _ h h' h'' l (rw same at l'))

remove_key-first : (k : Bytes) (ks : List Bytes) → without k (k ∷ ks) ≡ ks
unfolding remove_key
remove_key-first k ks = rw (bytes_eq_refl k) refl

each-take_from_channels : (ks ps : List Bytes) → each take_from_channels ks (ks, ps) ≡ ([], ps)
each-take_from_channels [] ps = refl
each-take_from_channels (k ∷ ks) ps =
    ap (λ w. each take_from_channels ks (w, ps)) (remove_key-first k ks)
    ∙ each-take_from_channels ks ps

each-take_from_patterns : (chs ks : List Bytes) → each take_from_patterns ks (chs, ks) ≡ (chs, [])
each-take_from_patterns chs [] = refl
each-take_from_patterns chs (k ∷ ks) =
    ap (λ w. each take_from_patterns ks (chs, w)) (remove_key-first k ks)
    ∙ each-take_from_patterns chs ks

unsubscribe_all_channels-Leaves :
    (c : ℕ) (notify : Bool) (h : Hub)
    → Agrees h
    → EndsIn (Leaves c [] ((h.clients c).patterns) h) (unsubscribe_all_channels c notify h)
unfolding unsubscribe_all_channels
unsubscribe_all_channels-Leaves c notify h a =
    rw (each-take_from_channels ((h.clients c).channels) ((h.clients c).patterns)) at (
      for_each-Leaves c (unsubscribe_channel c notify) take_from_channels
        (unsubscribe_channel-Leaves c notify) ((h.clients c).channels) h a)

unsubscribe_all_patterns-Leaves :
    (c : ℕ) (notify : Bool) (h : Hub)
    → Agrees h
    → EndsIn (Leaves c ((h.clients c).channels) [] h) (unsubscribe_all_patterns c notify h)
unfolding unsubscribe_all_patterns
unsubscribe_all_patterns-Leaves c notify h a =
    rw (each-take_from_patterns ((h.clients c).channels) ((h.clients c).patterns)) at (
      for_each-Leaves c (unsubscribe_pattern c notify) take_from_patterns
        (unsubscribe_pattern-Leaves c notify) ((h.clients c).patterns) h a)

leave-Leaves : (c : ℕ) (h : Hub) → Agrees h → EndsIn (Leaves c [] [] h) (handle c leave h)
unfolding handle
leave-Leaves c h a =
    let (h', ends, l) = unsubscribe_all_channels-Leaves c false h a in
    let (h'', ends', l') = unsubscribe_all_patterns-Leaves c false h' l.agrees in
    (h'', rw ends ends', Leaves-trans c _ _ _ _ h h' h'' l (rw l.its_channels at l'))

-- Where the tables agree, each of SUBSCRIBE, UNSUBSCRIBE, PSUBSCRIBE and PUNSUBSCRIBE with any
-- arguments, and the end of a connection, runs to its end: no assertion fails. The tables of the
-- server agree with those of the clients again, the client's channels and patterns are those that
-- the request describes, in order, and no other client's change.
pub handle-Leaves :
    (c : ℕ) (r : Request) (h : Hub)
    → Agrees h
    → EndsIn (Leaves c ((resulting r (own h c)).0) ((resulting r (own h c)).1) h) (handle c r h)
unfolding handle subscribe_command unsubscribe_command psubscribe_command punsubscribe_command
handle-Leaves c (subscribe_to channels) h a =
    for_each-Leaves c (λ channel h. done (subscribe_channel c channel h)) add_to_channels
      (subscribe_channel-Leaves c) channels h a
handle-Leaves c (unsubscribe_from []) h a = unsubscribe_all_channels-Leaves c true h a
handle-Leaves c (unsubscribe_from (x ∷ channels)) h a =
    for_each-Leaves c (unsubscribe_channel c true) take_from_channels
      (unsubscribe_channel-Leaves c true) (x ∷ channels) h a
handle-Leaves c (psubscribe_to patterns) h a =
    for_each-Leaves c (λ pattern h. done (subscribe_pattern c pattern h)) add_to_patterns
      (subscribe_pattern-Leaves c) patterns h a
handle-Leaves c (punsubscribe_from []) h a = unsubscribe_all_patterns-Leaves c true h a
handle-Leaves c (punsubscribe_from (x ∷ patterns)) h a =
    for_each-Leaves c (unsubscribe_pattern c true) take_from_patterns
      (unsubscribe_pattern-Leaves c true) (x ∷ patterns) h a
handle-Leaves c leave h a = leave-Leaves c h a
