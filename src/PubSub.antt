-- ===== src/PubSub.antt =====
-- pubsub.c: channels and patterns, for any number of clients. A client's channels and patterns are
-- lists, as are the objects that it sends: raw strings. What a client is sent is a log of the server.
pub mod Agree
pub mod Total
pub mod Handle
pub mod Publish
use gridapps.Db.{Outcome, done, aborted}
use gridapps.Prelude.{
  true, false, none, some, [], ◌∷◌, Bytes, List, Map, ℕ, Bool, length, if◌then◌else◌, ◌++◌, put,
  Option, ◌==◌, ◌+◌, bytes_eq, ◌&&◌, pos,
}
use mathlib.Core.Option
use gridapps.Util.Glob.{Match, hit, miss, wild, stringmatchlen}
use gridapps.Reply.{Reply, integer}
use gridapps.Prelude.{pos}
use gridapps.Multi.{has_key, clients_of, set_clients, remove_client, map_outcome, and_then}

-- The replies of three and four parts, with the count of subscriptions.
pub data Note : Type 0 where
  subscribe : Bytes → ℕ → Note
  unsubscribe : Bytes → ℕ → Note
  psubscribe : Bytes → ℕ → Note
  punsubscribe : Bytes → ℕ → Note
  message : Bytes → Bytes → Note
  pmessage : Bytes → Bytes → Bytes → Note

-- c->pubsub_channels and c->pubsub_patterns
pub record Subscriber : Type 0 where
  pub channels : List Bytes
  pub patterns : List Bytes

-- server.pubsub_channels, server.pubsub_patterns, the clients by number, and what was sent.
pub record Hub : Type 0 where
  pub channels : Map (List ℕ)
  pub patterns : List (ℕ × Bytes)
  pub clients : ℕ → Subscriber
  pub sent : List (ℕ × Note)

abbrev pub subscriptions : Hub → ℕ → ℕ
subscriptions h c = length ((h.clients c).channels) + length ((h.clients c).patterns)

abbrev pub update_subscriber : (ℕ → Subscriber) → ℕ → Subscriber → ℕ → Subscriber
update_subscriber clients c new i = if i == c then new else clients i

-- addReply
unfoldable pub send : ℕ → Note → Hub → Hub
send c note h = record h { sent = h.sent ++ (c, note) ∷ [] }

unfoldable pub add_channel : ℕ → Bytes → Hub → Hub
add_channel c channel h = record h {
  channels = put h.channels channel (clients_of h.channels channel ++ c ∷ []);
  clients =
      update_subscriber h.clients c
        (record (h.clients c) { channels = (h.clients c).channels ++ channel ∷ [] });
}

unfoldable pub subscribe_channel : ℕ → Bytes → Hub → Hub
subscribe_channel c channel h =
    let h' = if has_key ((h.clients c).channels) channel then h else add_channel c channel h in
    send c (subscribe channel (subscriptions h' c)) h'

-- The first place of a string; `none` if it is not in the list.
unfoldable pub remove_key : Bytes → List Bytes → Option (List Bytes)
remove_key key [] = none
remove_key key (k ∷ ks) =
    let rest = remove_key key ks in
    if bytes_eq k key then some ks else Option.map (λ js. k ∷ js) rest

-- The client without the channel, and the channel without the client.
unfoldable pub drop_channel : ℕ → Bytes → List Bytes → List ℕ → Hub → Hub
drop_channel c channel left is h = record h {
  channels = set_clients h.channels channel is;
  clients = update_subscriber h.clients c (record (h.clients c) { channels = left });
}

-- `aborted` is a failed assertion: the list of the channel lacks the client.
unfoldable pub take_off : ℕ → Bytes → Option (List Bytes) → Hub → Outcome Hub
take_off c channel none h = done h
take_off c channel (some left) h = elim (remove_client c (clients_of h.channels channel)) [
  | none ↦ aborted
  | some is ↦ done (drop_channel c channel left is h)
]

abbrev pub notified : Bool → ℕ → (ℕ → Note) → Hub → Hub
notified notify c note h = if notify then send c (note (subscriptions h c)) h else h

unfoldable pub unsubscribe_channel : ℕ → Bool → Bytes → Hub → Outcome Hub
unsubscribe_channel c notify channel h =
    map_outcome (notified notify c (unsubscribe channel))
      (take_off c channel (remove_key channel ((h.clients c).channels)) h)

unfoldable pub add_pattern : ℕ → Bytes → Hub → Hub
add_pattern c pattern h = record h {
  patterns = h.patterns ++ (c, pattern) ∷ [];
  clients =
      update_subscriber h.clients c
        (record (h.clients c) { patterns = (h.clients c).patterns ++ pattern ∷ [] });
}

unfoldable pub subscribe_pattern : ℕ → Bytes → Hub → Hub
subscribe_pattern c pattern h =
    let h' = if has_key ((h.clients c).patterns) pattern then h else add_pattern c pattern h in
    send c (psubscribe pattern (subscriptions h' c)) h'

-- listMatchPubsubPattern, and listSearchKey by it with listDelNode.
abbrev pub same_pattern : ℕ × Bytes → ℕ → Bytes → Bool
same_pattern (i, p) c pattern = i == c && bytes_eq p pattern

unfoldable pub remove_pattern : ℕ → Bytes → List (ℕ × Bytes) → Option (List (ℕ × Bytes))
remove_pattern c pattern [] = none
remove_pattern c pattern (x ∷ xs) =
    let rest = remove_pattern c pattern xs in
    if same_pattern x c pattern then some xs else Option.map (λ ys. x ∷ ys) rest

unfoldable pub drop_pattern : ℕ → List Bytes → List (ℕ × Bytes) → Hub → Hub
drop_pattern c left ps h = record h {
  patterns = ps;
  clients = update_subscriber h.clients c (record (h.clients c) { patterns = left });
}

-- `aborted` is the deletion of a node that was not found.
unfoldable pub take_off_pattern : ℕ → Bytes → Option (List Bytes) → Hub → Outcome Hub
take_off_pattern c pattern none h = done h
take_off_pattern c pattern (some left) h = elim (remove_pattern c pattern h.patterns) [
  | none ↦ aborted
  | some ps ↦ done (drop_pattern c left ps h)
]

unfoldable pub unsubscribe_pattern : ℕ → Bool → Bytes → Hub → Outcome Hub
unsubscribe_pattern c notify pattern h =
    map_outcome (notified notify c (punsubscribe pattern))
      (take_off_pattern c pattern (remove_key pattern ((h.clients c).patterns)) h)

-- One call for each argument.
abbrev pub for_each : (Bytes → Hub → Outcome Hub) → List Bytes → Hub → Outcome Hub
for_each f [] h = done h
for_each f (a ∷ args) h = and_then (f a h) (for_each f args)

unfoldable pub unsubscribe_all_channels : ℕ → Bool → Hub → Outcome Hub
unsubscribe_all_channels c notify h =
    for_each (unsubscribe_channel c notify) ((h.clients c).channels) h

unfoldable pub unsubscribe_all_patterns : ℕ → Bool → Hub → Outcome Hub
unsubscribe_all_patterns c notify h =
    for_each (unsubscribe_pattern c notify) ((h.clients c).patterns) h

unfoldable pub send_messages : Bytes → Bytes → List ℕ → ℕ × Hub → ℕ × Hub
send_messages channel text [] r = r
send_messages channel text (c ∷ cs) (n, h) =
    send_messages channel text cs (n + 1, send c (message channel text) h)

-- `aborted` is a read outside of the pattern.
abbrev pub send_if : Match → ℕ × Note → ℕ × Hub → Outcome (ℕ × Hub)
send_if hit (c, note) (n, h) = done (n + 1, send c note h)
send_if miss note r = done r
send_if wild note r = aborted

unfoldable pub send_matching : Bytes → Bytes → List (ℕ × Bytes) → ℕ × Hub → Outcome (ℕ × Hub)
send_matching channel text [] r = done r
send_matching channel text ((c, p) ∷ ps) r =
    and_then (send_if (stringmatchlen p channel false) (c, pmessage p channel text) r)
      (send_matching channel text ps)

unfoldable pub publish_message : Bytes → Bytes → Hub → Outcome (ℕ × Hub)
publish_message channel text h =
    send_matching channel text h.patterns
      (send_messages channel text (clients_of h.channels channel) (0, h))

abbrev pub reply_receivers : ℕ × Hub → Reply × Hub
reply_receivers (n, h) = (integer (pos n), h)

unfoldable pub publish_command : Bytes → Bytes → Hub → Outcome (Reply × Hub)
publish_command channel text h = map_outcome reply_receivers (publish_message channel text h)

pub data Request : Type 0 where
  subscribe_to : List Bytes → Request
  unsubscribe_from : List Bytes → Request
  psubscribe_to : List Bytes → Request
  punsubscribe_from : List Bytes → Request
  -- freeClient
  leave : Request

unfoldable pub subscribe_command : ℕ → List Bytes → Hub → Outcome Hub
subscribe_command c = for_each λ channel h. done (subscribe_channel c channel h)

-- With no argument, all of them.
unfoldable pub unsubscribe_command : ℕ → List Bytes → Hub → Outcome Hub
unsubscribe_command c [] = unsubscribe_all_channels c true
unsubscribe_command c (channel ∷ channels) =
    for_each (unsubscribe_channel c true) (channel ∷ channels)

unfoldable pub psubscribe_command : ℕ → List Bytes → Hub → Outcome Hub
psubscribe_command c = for_each λ pattern h. done (subscribe_pattern c pattern h)

unfoldable pub punsubscribe_command : ℕ → List Bytes → Hub → Outcome Hub
punsubscribe_command c [] = unsubscribe_all_patterns c true
punsubscribe_command c (pattern ∷ patterns) =
    for_each (unsubscribe_pattern c true) (pattern ∷ patterns)

unfoldable pub handle : ℕ → Request → Hub → Outcome Hub
handle c (subscribe_to channels) = subscribe_command c channels
handle c (unsubscribe_from channels) = unsubscribe_command c channels
handle c (psubscribe_to patterns) = psubscribe_command c patterns
handle c (punsubscribe_from patterns) = punsubscribe_command c patterns
handle c leave =
    λ h. and_then (unsubscribe_all_channels c false h) (unsubscribe_all_patterns c false)
