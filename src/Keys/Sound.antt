-- ===== src/Keys/Sound.antt =====
-- db.c: how the commands on keys end, and what they keep of the keyspace.
use gridapps.Strings.Sound.{Keeps-with_long}
use gridapps.Keys.Rename.{renamed, cleared, timed, rename_run}
use gridapps.Keys.Expiry.{expire_rest-eq}
use gridapps.Object.{Robj, is_string, raw}
use gridapps.Db.Effects.{
  signalled-IsSound, dirtied-IsSound, deleted-IsSound, dirtied, persistent-IsSound,
  expiring-IsSound, persistent, written-IsSound, written-present,
}
use gridapps.Reply.{cone, czero, ok}
use gridapps.Db.Evict.{get_expire-eq, IsSound, evict, lookup_key_write-eq, evict-IsSound}
use gridapps.Db.Keeps.{
  Keeps, keeps_rules, Succeeds, Keeps-bind, Succeeds-if, Keeps-db_delete, Keeps-pure,
  Keeps-signal_modified_key, Keeps-add_dirty,
}
use gridapps.Keys.{
  del_loop, del_command, exists_command, type_command, dbsize_command, flushdb_command, ttl_command,
  expire_rest, expire_generic_command, persist_command, rename_generic_command,
}
use gridapps.Db.{
  ◌>>=◌, ◌>>◌, Env, db_exists, get_expire, Keyspace, present, done, db_delete, remove_expire,
  add_dirty, pure, signal_modified_key,
}
use gridapps.Prelude.{
  pos, [], ◌∷◌, Bytes, List, find, ℤ, if◌then◌else◌, leb_ℤ, ◌&&◌, not, none, some, refl, arith,
  Bool, ◌≢◌, ◌≡◌, true, false, negsuc, zero, suc, inl, inr, bytes_eq, Bool-cases, Option-cases,
  bytes_eq_iff,
}

Keeps-counted_delete :
    (key : Bytes) (gone : Bool)
    → Keeps (if gone then signal_modified_key key >> add_dirty 1 else pure tt)
Keeps-counted_delete key true =
    Keeps-bind _ _ (Keeps-signal_modified_key key) (λ _. Keeps-add_dirty 1)
Keeps-counted_delete key false = Keeps-pure tt

Keeps-del_loop : (keys : List Bytes) → Keeps (del_loop keys)
unfolding del_loop
Keeps-del_loop [] = search keeps_rules
Keeps-del_loop (key ∷ keys) = Keeps-bind (db_delete key) _ (Keeps-db_delete key) λ gone.
    Keeps-bind _ _ (Keeps-counted_delete key gone)
      λ _. Keeps-bind (del_loop keys) _ (Keeps-del_loop keys) (λ rest. Keeps-pure _)

pub del-Keeps : (keys : List Bytes) → Keeps (del_command keys)
unfolding del_command
del-Keeps keys = search (keeps_rules, Keeps-del_loop)

pub exists-Keeps : (env : Env) (key : Bytes) → Keeps (exists_command env key)
unfolding exists_command db_exists
exists-Keeps env key = search keeps_rules

pub type-Keeps : (env : Env) (key : Bytes) → Keeps (type_command env key)
unfolding type_command
type-Keeps env key = search keeps_rules

pub dbsize-Keeps : Keeps dbsize_command
unfolding dbsize_command
dbsize-Keeps = record { at = λ s h. h }

pub flushdb-Keeps : Keeps flushdb_command
unfolding flushdb_command ◌>>=◌ find
flushdb-Keeps = record { at = λ s h. record { owned = λ k p. cc } }

pub get_expire-Keeps : (key : Bytes) → Keeps (get_expire key)
get_expire-Keeps key = record { at = λ s h. rw (get_expire-eq key s h) h }

pub ttl-Keeps : (env : Env) (key : Bytes) → Keeps (ttl_command env key)
unfolding ttl_command
ttl-Keeps env key = search (keeps_rules, get_expire-Keeps)

expire_rest-Keeps : (env : Env) (key : Bytes) (seconds : ℤ) → Keeps (expire_rest env key seconds)
expire_rest-Keeps env key seconds = record {
  at = λ s h. rw (expire_rest-eq env key seconds s) (
      Succeeds-if (present s.dict key) _ _
        (λ p.
          Succeeds-if (leb_ℤ seconds (pos 0) && not env.loading && not env.slave) _ _
            (λ _. signalled-IsSound key _ (dirtied-IsSound 1 _ (deleted-IsSound key s h)))
            (λ _. dirtied-IsSound 1 _ (signalled-IsSound key _ (expiring-IsSound key _ s h p))))
        (λ _. h));
}

pub expire-Keeps :
    (env : Env) (key param : Bytes) (offset : ℤ)
    → Keeps (expire_generic_command env key param offset)
unfolding expire_generic_command is_string
expire-Keeps env key param offset =
    Keeps-with_long env (some (raw param)) none _ refl (λ v. expire_rest-Keeps env key _)

-- PERSIST, by whether the key exists.
persist-eq :
    (key : Bytes) (s : Keyspace)
    → persist_command key s ≡ (
        if present s.dict key
        then if present s.expires key
          then done (cone, dirtied 1 (persistent key s))
          else done (czero, persistent key s)
        else done (czero, s))
unfolding persist_command db_exists remove_expire add_dirty dirtied persistent ◌>>=◌ pure
persist-eq key s = ground arith

pub persist-Keeps : (key : Bytes) → Keeps (persist_command key)
persist-Keeps key = record {
  at = λ s h. rw (persist-eq key s) (
      Succeeds-if (present s.dict key) _ _
        (λ p.
          Succeeds-if (present s.expires key) _ _
            (λ _. dirtied-IsSound 1 _ (persistent-IsSound key s h))
            (λ _. persistent-IsSound key s h))
        (λ _. h));
}

cleared-IsSound : (b : Bool) (dst : Bytes) (s : Keyspace) → IsSound s → IsSound (cleared b dst s)
cleared-IsSound true dst s h = deleted-IsSound dst s h
cleared-IsSound false dst s h = h

timed-IsSound :
    (dst : Bytes) (expire : ℤ) (s : Keyspace)
    → IsSound s
    → present s.dict dst ≡ true
    → IsSound (timed dst expire s)
timed-IsSound dst (pos n) s h p = expiring-IsSound dst _ s h p
timed-IsSound dst (negsuc zero) s h p = h
timed-IsSound dst (negsuc (suc n)) s h p = expiring-IsSound dst _ s h p

-- RENAME keeps the keyspace sound: what is written under the new name has a value.
renamed-IsSound :
    (src dst : Bytes) (o : Robj) (expire : ℤ) (b : Bool) (s : Keyspace)
    → src ≢ dst
    → IsSound s
    → IsSound (renamed src dst o expire b s)
renamed-IsSound src dst o expire b s ne h =
    let c = cleared-IsSound b dst s h in
    let w = written-IsSound dst o _ c in
    let t = timed-IsSound dst expire _ w (written-present dst o (cleared b dst s)) in
    dirtied-IsSound 1 _
      (signalled-IsSound dst _ (signalled-IsSound src _ (deleted-IsSound src _ t)))

renamed_outcome :
    (nx : Bool) (src dst : Bytes) (o : Robj) (expire : ℤ) (b : Bool) (t : Keyspace)
    → src ≢ dst
    → IsSound t
    → Succeeds (
        if b && nx
        then done (czero, t)
        else done (if nx then cone else ok, renamed src dst o expire b t))
renamed_outcome nx src dst o expire b t ne h =
    Succeeds-if (b && nx) _ _ (λ _. h) (λ _. renamed-IsSound src dst o expire b t ne h)

pub rename-Keeps :
    (env : Env) (nx : Bool) (src dst : Bytes) → Keeps (rename_generic_command env nx src dst)
unfolding rename_generic_command ◌>>=◌ pure
rename-Keeps env nx src dst = record {
  at = λ s h. elim (Bool-cases (bytes_eq src dst)) [
    | inl same ↦ rename_same s h same
    | inr other ↦ elim (Option-cases (find (evict env src s).dict src)) [
      | inl e ↦ rename_missing s h other e
      | inr (o, e) ↦
          let ne : src ≢ dst = λ q. ground (arith, bytes_eq_iff src dst) in
          rw (rename_run env nx src dst o s h ne e) (
            renamed_outcome nx src dst o _ _ _ ne
              (evict-IsSound env dst _ (evict-IsSound env src s h)))
    ]
  ];
}
  where
    rename_same :
        (s : Keyspace)
        → IsSound s
        → bytes_eq src dst ≡ true
        → Succeeds (rename_generic_command env nx src dst s)
    rename_same s h e = rw (e, rename_generic_command, pure) h

    rename_missing :
        (s : Keyspace)
        → IsSound s
        → bytes_eq src dst ≡ false
        → find (evict env src s).dict src ≡ none
        → Succeeds (rename_generic_command env nx src dst s)
    rename_missing s h e q =
        rw (e, rename_generic_command, ◌>>=◌, lookup_key_write-eq env src s h, q, pure)
          (evict-IsSound env src s h)
