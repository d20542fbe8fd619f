-- ===== src/Strings/Basic/Read.antt =====
-- What GET replies, after SET and after the key's time has passed.
use gridapps.Db.Effects.{bind_reply, reply_of}
use gridapps.Util.Number.{ll2string}
use gridapps.Strings.Basic.Store.{string_at, set_command-total}
use gridapps.Db.Evict.{
  counted, IsSound, evict, lookup_key_read-eq, dropped, evict-persistent, evict-due,
}
use gridapps.Reply.{Reply, nullbulk, bulk, wrongtypeerr}
use gridapps.Object.{Robj, is_string, get_decoded_object, raw, int, list, set, zset, hash}
use gridapps.Strings.Basic.{get_generic_command, get_command, bulk_reply, set_command}
use gridapps.Db.{◌>>=◌, Env, pure, Keyspace, present, done, Outcome}
use gridapps.Prelude.{
  false, none, some, refl, pos, [], arith, ◌∷◌, Option, Bytes, Bool, ℕ, not, find, ◌≡◌, ◌<◌, ◌+◌,
  ◌++◌, find-del_self, ◌∙◌,
}

-- The reply of GET for what a lookup finds.
unfoldable pub value_reply : Option Robj → Reply
value_reply none = nullbulk
value_reply (some (raw s)) = bulk s
value_reply (some (int v)) = bulk (ll2string 32 v)
value_reply (some (list l)) = wrongtypeerr
value_reply (some (set l)) = wrongtypeerr
value_reply (some (zset m)) = wrongtypeerr
value_reply (some (hash m)) = wrongtypeerr

abbrev pub is_wrongtype : Option Robj → Bool
is_wrongtype none = false
is_wrongtype (some o) = not (is_string o)

-- The keyspace that a read leaves.
abbrev pub after_read : Env → Bytes → Keyspace → Keyspace
after_read env key s = counted (present (evict env key s).dict key) (evict env key s)

get_generic_command-value :
    (env : Env) (key : Bytes) (s : Keyspace) (o : Option Robj)
    → IsSound s
    → find (evict env key s).dict key ≡ o
    → get_generic_command env key s
      ≡ done ((value_reply o, not (is_wrongtype o)), after_read env key s)
unfolding get_generic_command value_reply is_string get_decoded_object bulk_reply ◌>>=◌ pure
get_generic_command-value env key s none h e = ground (arith, lookup_key_read-eq env key s h)
get_generic_command-value env key s (some (raw t)) h e =
    ground (arith, lookup_key_read-eq env key s h)
get_generic_command-value env key s (some (int v)) h e =
    ground (arith, lookup_key_read-eq env key s h)
get_generic_command-value env key s (some o) h e = ground (arith, lookup_key_read-eq env key s h)

-- GET runs to its end from any sound keyspace. Its reply is the value that the lookup finds, nil or
-- the type error, and it leaves the keyspace of the lookup with a hit or a miss counted.
pub get_command-total :
    (env : Env) (key : Bytes) (s : Keyspace)
    → IsSound s
    → get_command env key s
      ≡ done (value_reply (find (evict env key s).dict key), after_read env key s)
unfolding get_command ◌>>=◌ pure
get_command-total env key s h = rw (get_generic_command-value env key s _ h refl)

dropped-dict : (key : Bytes) (s : Keyspace) → find (counted false (dropped key s)).dict key ≡ none
unfolding counted dropped
dropped-dict key s = find-del_self s.dict key

dropped-expires :
    (key : Bytes) (s : Keyspace) → find (counted false (dropped key s)).expires key ≡ none
unfolding counted dropped
dropped-expires key s = find-del_self s.expires key

dropped_counts :
    (key : Bytes) (s : Keyspace)
    → ((counted false (dropped key s)).expired ≡ s.expired + 1)
      × ((counted false (dropped key s)).propagated ≡ s.propagated ++ key ∷ [])
unfolding counted dropped
dropped_counts key s = (refl, refl)

dropped_reply :
    (key : Bytes) (s : Keyspace)
    → ◌≡◌ {A = Outcome (Reply × Keyspace)}
        (done (
          value_reply (find (dropped key s).dict key),
          counted (present (dropped key s).dict key) (dropped key s),
        ))
        (done (nullbulk, counted false (dropped key s)))
unfolding dropped value_reply counted
dropped_reply key s = ground (arith, find-del_self s.dict key)

value_reply-string_at :
    (o : Option Robj) (val : Bytes)
    → ◌≡◌ {A = Option Bytes} (elim o [ none ↦ none | some x ↦ get_decoded_object x ]) (some val)
    → value_reply o ≡ bulk val
unfolding value_reply get_decoded_object
value_reply-string_at none val e = ground arith
value_reply-string_at (some (raw t)) val e = ground arith
value_reply-string_at (some (int v)) val e = ground arith
value_reply-string_at (some o) val e = ground arith

-- A key whose time has passed reads as nil. The read deletes it with its time to live, counts it as
-- expired, and sends its deletion to the slaves and the append only file.
pub get_command-due :
    (env : Env) (key : Bytes) (when : ℕ) (s : Keyspace)
    → IsSound s
    → find s.expires key ≡ some (pos when)
    → when < env.now
    → env.loading ≡ false
    → env.slave ≡ false
    → (s' : Keyspace) × (get_command env key s ≡ done (nullbulk, s'))
      × (find s'.dict key ≡ none)
      × (find s'.expires key ≡ none)
      × ((s'.expired ≡ s.expired + 1) × (s'.propagated ≡ s.propagated ++ key ∷ []))
get_command-due env key when s h e late loads slaved = (
  counted false (dropped key s),
  get_command-total env key s h
      ∙ rw (evict-due env key when s e late loads slaved) (dropped_reply key s),
  dropped-dict key s,
  dropped-expires key s,
  dropped_counts key s,
)

get_reply :
    (env : Env) (key val : Bytes) (s : Keyspace)
    → IsSound s
    → string_at s key ≡ some val
    → find s.expires key ≡ none
    → reply_of (get_command env key s) ≡ some (bulk val)
get_reply env key val s h value lasting = rw (
  get_command-total env key s h,
  evict-persistent env key s lasting,
  value_reply-string_at (find s.dict key) val value,
)

-- From SET to a GET of the same key at any later time, on any server, the value read is the
-- argument of SET, byte for byte, however it was encoded.
pub get-set :
    (env env' : Env) (key val : Bytes) (s : Keyspace)
    → IsSound s
    → reply_of ((set_command env key val >>= λ _. get_command env' key) s) ≡ some (bulk val)
get-set env env' key val s h =
    let (s', run, sound, value, lasting, _, _, _) = set_command-total env key val s h in
    bind_reply (set_command env key val) (λ _. get_command env' key) run
      (get_reply env' key val s' sound value lasting)
