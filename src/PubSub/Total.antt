-- ===== src/PubSub/Total.antt =====
-- pubsub.c: every request ends, keeps the tables in agreement, and does to the subscriptions of its
-- client what it says.
use gridapps.Multi.Watch.{remove_client_total}
use gridapps.Multi.{map_outcome, clients_of}
use gridapps.PubSub.Agree.{
  EndsIn, Agrees, remove_key-count, remove_pattern_total, drop_channel-Agrees, drop_pattern-Agrees,
}
use gridapps.PubSub.{
  send, take_off, take_off_pattern, Hub, unsubscribe_channel, unsubscribe_pattern, drop_channel,
  drop_pattern, Note, remove_key, notified, unsubscribe, punsubscribe,
}
use gridapps.Prelude.{
  true, false, none, some, refl, arith, ℕ, Bytes, List, Bool, ◌∙◌, Option, ◌≡◌, ◌≢◌, bytes_eq_refl,
  ap,
}
use mathlib.Core.Option

-- The tables agree, the client has these channels and patterns, and the other clients their own.
pub record Leaves (c : ℕ) (channels patterns : List Bytes) (h h' : Hub) : Type 0 where
  pub agrees : Agrees h'
  pub its_channels : (h'.clients c).channels ≡ channels
  pub its_patterns : (h'.clients c).patterns ≡ patterns
  pub others : (i : ℕ) → i ≢ c → h'.clients i ≡ h.clients i

pub Leaves-trans :
    (c : ℕ) (chs ps chs' ps' : List Bytes) (h h' h'' : Hub)
    → Leaves c chs ps h h'
    → Leaves c chs' ps' h' h''
    → Leaves c chs' ps' h h''
Leaves-trans c chs ps chs' ps' h h' h'' a b = record {
  agrees = b.agrees;
  its_channels = b.its_channels;
  its_patterns = b.its_patterns;
  others = λ i e. b.others i e ∙ a.others i e;
}

pub Leaves-refl :
    (c : ℕ) (h : Hub) → Agrees h → Leaves c ((h.clients c).channels) ((h.clients c).patterns) h h
Leaves-refl c h a = record {
  agrees = a;
  its_channels = refl;
  its_patterns = refl;
  others = λ i e. refl;
}

pub notified-Leaves :
    (notify : Bool) (c : ℕ) (note : ℕ → Note) (chs ps : List Bytes) (h h' : Hub)
    → Leaves c chs ps h h'
    → Leaves c chs ps h (notified notify c note h')
unfolding send
notified-Leaves true c note chs ps h h' l = record {
  agrees = record { of_channels = l.agrees.of_channels; of_patterns = l.agrees.of_patterns };
  its_channels = l.its_channels;
  its_patterns = l.its_patterns;
  others = l.others;
}
notified-Leaves false c note chs ps h h' l = l

-- What is left of a list without a string.
abbrev pub without : Bytes → List Bytes → List Bytes
without key keys = Option.get_or (remove_key key keys) keys

take_off-Leaves :
    (c : ℕ) (channel : Bytes) (o : Option (List Bytes)) (h : Hub)
    → Agrees h
    → remove_key channel ((h.clients c).channels) ≡ o
    → EndsIn
        (Leaves c (Option.get_or o ((h.clients c).channels)) ((h.clients c).patterns) h)
        (take_off c channel o h)
unfolding take_off drop_channel
take_off-Leaves c channel none h a e = (h, refl, Leaves-refl c h a)
take_off-Leaves c channel (some left) h a e =
    let keys = remove_key-count channel ((h.clients c).channels) left in
    let (is, found, less) =
      remove_client_total c (clients_of h.channels channel)
        (grind (arith, a.of_channels c channel, keys channel e, bytes_eq_refl channel)) in
    (
      drop_channel c channel left is h,
      ground (arith, found),
      record {
        agrees = drop_channel-Agrees c channel left is h a (λ j. keys j e) less;
        its_channels = ground arith;
        its_patterns = ground arith;
        others = λ i e. ground arith;
      },
    )

take_off_pattern-Leaves :
    (c : ℕ) (pattern : Bytes) (o : Option (List Bytes)) (h : Hub)
    → Agrees h
    → remove_key pattern ((h.clients c).patterns) ≡ o
    → EndsIn
        (Leaves c ((h.clients c).channels) (Option.get_or o ((h.clients c).patterns)) h)
        (take_off_pattern c pattern o h)
unfolding take_off_pattern drop_pattern
take_off_pattern-Leaves c pattern none h a e = (h, refl, Leaves-refl c h a)
take_off_pattern-Leaves c pattern (some left) h a e =
    let keys = remove_key-count pattern ((h.clients c).patterns) left in
    let (ps, found, less) =
      remove_pattern_total c pattern h.patterns
        (grind (arith, a.of_patterns c pattern, keys pattern e, bytes_eq_refl pattern)) in
    (
      drop_pattern c left ps h,
      ground (arith, found),
      record {
        agrees = drop_pattern-Agrees c pattern left ps h a (λ j. keys j e) less;
        its_channels = ground arith;
        its_patterns = ground arith;
        others = λ i e. ground arith;
      },
    )

-- UNSUBSCRIBE of one channel.
pub unsubscribe_channel-Leaves :
    (c : ℕ) (notify : Bool) (channel : Bytes) (h : Hub)
    → Agrees h
    → EndsIn
        (Leaves c (without channel ((h.clients c).channels)) ((h.clients c).patterns) h)
        (unsubscribe_channel c notify channel h)
unfolding unsubscribe_channel
unsubscribe_channel-Leaves c notify channel h a =
    let (h', ends, l) =
      take_off-Leaves c channel (remove_key channel ((h.clients c).channels)) h a refl in
    (
      notified notify c (unsubscribe channel) h',
      ap (map_outcome (notified notify c (unsubscribe channel))) ends,
      notified-Leaves notify c (unsubscribe channel) (without channel ((h.clients c).channels))
          ((h.clients c).patterns) h h' l,
    )

-- PUNSUBSCRIBE of one pattern.
pub unsubscribe_pattern-Leaves :
    (c : ℕ) (notify : Bool) (pattern : Bytes) (h : Hub)
    → Agrees h
    → EndsIn
        (Leaves c ((h.clients c).channels) (without pattern ((h.clients c).patterns)) h)
        (unsubscribe_pattern c notify pattern h)
unfolding unsubscribe_pattern
unsubscribe_pattern-Leaves c notify pattern h a =
    let (h', ends, l) =
      take_off_pattern-Leaves c pattern (remove_key pattern ((h.clients c).patterns)) h a refl in
    (
      notified notify c (punsubscribe pattern) h',
      ap (map_outcome (notified notify c (punsubscribe pattern))) ends,
      notified-Leaves notify c (punsubscribe pattern) ((h.clients c).channels)
          (without pattern ((h.clients c).patterns)) h h' l,
    )
