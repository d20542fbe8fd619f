-- ===== src/Keys/Expiry.antt =====
-- EXPIRE, PERSIST and TTL.
use gridapps.Reply.{bulk}
use gridapps.Strings.Basic.Read.{value_reply, get_command-total}
use gridapps.Strings.Basic.{get_command}
use gridapps.Object.{raw}
use gridapps.Db.Evict.{IsSound, get_expire-eq, evict-future}
use gridapps.Db.Effects.{
  dirtied, signalled, deleted, expiring, dirtied-IsSound, signalled-IsSound, expiring-IsSound,
  reply_of,
}
use gridapps.Keys.{expire_rest, ttl_command, cone, integer, czero, ttl_of}
use gridapps.Db.{
  ◌>>=◌, db_exists, db_delete, set_expire, signal_modified_key, add_dirty, pure, Env, Keyspace,
  present, done,
}
use gridapps.Prelude.{
  pos, arith, Bytes, ℤ, true, some, refl, negsuc, ℕ, ◌+ℤ◌, ◌≡◌, find, ◌-ℤ◌, ◌+◌, find-put_self, ◌<◌,
  if◌then◌else◌, leb_ℤ, two63, ◌&&◌, not, wrap64, ◌∙◌, leb, wrap64_id, ◌-◌, ap,
}

-- EXPIRE on an existing key, by what it is given: a time in the past deletes the key on a master that
-- is not loading, and any other time is stored.
pub expire_rest-eq :
    (env : Env) (key : Bytes) (seconds : ℤ) (s : Keyspace)
    → expire_rest env key seconds s ≡ (
        if present s.dict key
        then if leb_ℤ seconds (pos 0) && not env.loading && not env.slave
          then done (cone, signalled key (dirtied 1 (deleted key s)))
          else done
              (cone, dirtied 1 (signalled key (expiring key (wrap64 (pos env.now +ℤ seconds)) s)))
        else done (czero, s))
unfolding expire_rest db_exists db_delete set_expire signal_modified_key add_dirty dirtied signalled
    deleted expiring ◌>>=◌ pure
expire_rest-eq env key seconds s = ground arith

expiring-expires :
    (key : Bytes) (when : ℤ) (s : Keyspace)
    → find (dirtied 1 (signalled key (expiring key when s))).expires key ≡ some when
unfolding dirtied signalled expiring
expiring-expires key when s = find-put_self s.expires key when

expiring-dict :
    (key : Bytes) (when : ℤ) (s : Keyspace)
    → find (dirtied 1 (signalled key (expiring key when s))).dict key ≡ find s.dict key
unfolding dirtied signalled expiring
expiring-dict key when s = refl

-- A key that exists, given a positive number of seconds.
abbrev pub expires_at : Env → Bytes → ℕ → Keyspace → Keyspace
expires_at env key n s = dirtied 1 (signalled key (expiring key (pos (env.now + n)) s))

expire_rest-future :
    (env : Env) (key : Bytes) (n : ℕ) (s : Keyspace)
    → present s.dict key ≡ true
    → 0 < n
    → env.now + n < two63
    → expire_rest env key (pos n) s ≡ done (cone, expires_at env key n s)
unfolding ◌+ℤ◌
expire_rest-future env key n s p q small =
    expire_rest-eq env key (pos n) s
    ∙ rw (p, wrap64_id (pos env.now +ℤ pos n) (ground arith)) (ground arith)

expires_at-IsSound :
    (env : Env) (key : Bytes) (n : ℕ) (s : Keyspace)
    → IsSound s
    → present s.dict key ≡ true
    → IsSound (expires_at env key n s)
expires_at-IsSound env key n s h p =
    dirtied-IsSound 1 _ (signalled-IsSound key _ (expiring-IsSound key _ s h p))

ttl_of-pos :
    (now when : ℕ)
    → now < two63
    → when < two63
    → ttl_of now (pos when) ≡ (if leb now when then pos (when - now) else negsuc 0)
unfolding ttl_of ◌-ℤ◌ wrap64
ttl_of-pos now when h k = ground arith

-- After EXPIRE with a positive number of seconds on a key that exists, a TTL at a later time counts
-- down to 0 at the time that was set, and replies -1 from then on.
pub ttl-expire :
    (env env' : Env) (key : Bytes) (n : ℕ) (s : Keyspace)
    → IsSound s
    → present s.dict key ≡ true
    → 0 < n
    → env.now + n < two63
    → env'.now < two63
    → reply_of ((expire_rest env key (pos n) >>= λ _. ttl_command env' key) s)
      ≡ some
          (integer (if leb env'.now (env.now + n) then pos (env.now + n - env'.now) else negsuc 0))
unfolding ttl_command ◌>>=◌ pure
ttl-expire env env' key n s h p q small small' =
    let run = expire_rest-future env key n s p q small in
    let s' = expires_at env key n s in
    let when = get_expire-eq key s' (expires_at-IsSound env key n s h p) in
    rw (run, when, expiring-expires key (pos (env.now + n)) s)
      (ap (λ r. some (integer r)) (ttl_of-pos env'.now (env.now + n) small' small))

-- A key whose time has passed, and which nothing has looked up since, still exists for EXPIRE: a
-- positive number of seconds brings it back, and a GET at the same time replies with its old value.
pub expire-revives :
    (env : Env) (key val : Bytes) (when n : ℕ) (s : Keyspace)
    → IsSound s
    → find s.dict key ≡ some (raw val)
    → find s.expires key ≡ some (pos when)
    → when < env.now
    → 0 < n
    → env.now + n < two63
    → reply_of ((expire_rest env key (pos n) >>= λ _. get_command env key) s) ≡ some (bulk val)
unfolding ◌>>=◌ value_reply
expire-revives env key val when n s h e t late q small =
    let p : present s.dict key ≡ true = rw e in
    let run = expire_rest-future env key n s p q small in
    let s' = expires_at env key n s in
    let read = get_command-total env key s' (expires_at-IsSound env key n s h p) in
    let kept =
      evict-future env key (env.now + n) s' (expiring-expires key (pos (env.now + n)) s)
        (omega arith) in
    let value = expiring-dict key (pos (env.now + n)) s ∙ e in rw (run, read, kept, value)
