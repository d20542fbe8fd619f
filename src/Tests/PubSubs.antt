-- ===== src/Tests/PubSubs.antt =====
-- Channels, patterns and their comparison at concrete tables.
use gridapps.Util.Glob.Stars.{Decides}
use gridapps.Reply.{integer}
use gridapps.Db.{done}
use gridapps.Prelude.{
  false, refl, [], arith, ◌∷◌, codes, find, List, if◌then◌else◌, ◌≡◌, ◌≢◌, ◌==◌, true, some, pos,
  sym, ℕ, ◌∙◌, length, ◌++◌, Bytes,
}
use gridapps.Util.Glob.{stringmatchlen, hit, miss, Match, skip_stars}
use gridapps.Util.Glob.Pattern.{
  tokens, Token, one, star, Matches, tokens_loop, tokens_round, byte_set,
}
use gridapps.Util.Glob.Decides.{stringmatchlen-Decides}
use mathlib.Core.Path.{subst}
use gridapps.Multi.Watch.{count_key}
use gridapps.PubSub.{Note, Hub, handle, punsubscribe_from, publish_command}
use gridapps.PubSub.Agree.{Agrees, EndsIn}
use gridapps.PubSub.Handle.{handle-Leaves}
use gridapps.PubSub.Publish.{publish_command-counts, if_hit, count_notes, is_message, is_pmessage}
use gridapps.PubSub.Total.{Leaves}
use gridapps.Util.Glob.{wild}

-- Clients 0 and 1 have the channel "a", and client 0 the pattern "a*" too.
abbrev two_clients : Hub
two_clients = record {
  channels = (codes "a", 0 ∷ 1 ∷ []) ∷ [];
  patterns = (0, codes "a*") ∷ [];
  clients = λ i.
      if i == 0
      then record { channels = codes "a" ∷ []; patterns = codes "a*" ∷ [] }
      else if i == 1
      then record { channels = codes "a" ∷ []; patterns = [] }
      else record { channels = []; patterns = [] };
  sent = [];
}

two_clients-Agrees : Agrees two_clients
unfolding find
two_clients-Agrees = record { of_channels = λ i j. ground arith; of_patterns = λ i p. ground arith }

handle_example :
    EndsIn (Leaves 0 (codes "a" ∷ []) [] two_clients) (handle 0 (punsubscribe_from []) two_clients)
handle_example = handle-Leaves 0 (punsubscribe_from []) two_clients two_clients-Agrees

fits_a : stringmatchlen (codes "a*") (codes "a") false ≡ hit
unfolding stringmatchlen
fits_a = refl

IsHit : Match → Type 0
IsHit hit = Unit
IsHit miss = ⊥
IsHit wild = ⊥

hit-wild : hit ≢ wild
unfolding IsHit
hit-wild e = subst IsHit e tt

fits_a_lem : stringmatchlen (codes "a*") (codes "a") false ≢ wild
fits_a_lem = λ e. hit-wild (sym fits_a ∙ e)

publish_example :
    (notes : List (ℕ × Note)) × (publish_command (codes "a") (codes "x") two_clients
      ≡ done (integer (pos (length notes)), record two_clients { sent = [] ++ notes }))
    × ((i : ℕ)
        → count_notes (is_message i (codes "a") (codes "x")) notes
          ≡ count_key ((two_clients.clients i).channels) (codes "a"))
    × ((i : ℕ) (q : Bytes)
        → count_notes (is_pmessage i q (codes "a") (codes "x")) notes
          ≡ if_hit
              (stringmatchlen q (codes "a") false)
              (count_key ((two_clients.clients i).patterns) q))
publish_example =
    publish_command-counts (codes "a") (codes "x") two_clients two_clients-Agrees (fits_a_lem, tt)

-- "?*"
abbrev some_bytes : List Token
some_bytes = one (λ x. true) ∷ star ∷ []

tokens-some_bytes : tokens false (codes "?*") ≡ some some_bytes
unfolding tokens tokens_loop tokens_round byte_set skip_stars
tokens-some_bytes = refl

stringmatchlen_example :
    Decides (Matches some_bytes (codes "ab")) (stringmatchlen (codes "?*") (codes "ab") false)
stringmatchlen_example =
    stringmatchlen-Decides (codes "?*") (codes "ab") false some_bytes tokens-some_bytes
      (omega arith)
