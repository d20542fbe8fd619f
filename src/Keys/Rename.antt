-- ===== src/Keys/Rename.antt =====
-- RENAME and RENAMENX move a value with its time to live.
use gridapps.Db.Evict.{
  SameAt, IsSound, evict, evict-IsSound, lookup_key_write-eq, evict-SameAt, get_expire-eq,
}
use gridapps.Db.Effects.{dirtied, deleted, signalled, expiring, written}
use gridapps.Object.{Robj}
use gridapps.Keys.{
  rename_write, has_time, cone, ok, rename_generic_command, rename_command, renamenx_command,
  rename_found, czero,
}
use gridapps.Db.{
  ◌>>=◌, Keyspace, db_delete, db_add, set_expire, signal_modified_key, add_dirty, pure, present,
  done, Env, time_or_minus_one,
}
use gridapps.Prelude.{
  arith, Bool, Bytes, ℤ, ◌≢◌, if◌then◌else◌, bytes_eq_iff, find-del, ◌≡◌, find-put, del, put,
  find-del_self, find-put_self, true, false, none, some, refl, find, ◌&&◌, ◌∙◌,
}

abbrev pub cleared : Bool → Bytes → Keyspace → Keyspace
cleared exists dst s = if exists then deleted dst s else s

abbrev pub timed : Bytes → ℤ → Keyspace → Keyspace
timed dst expire s = if has_time expire then expiring dst expire s else s

-- The keyspace behind rename_write.
abbrev pub renamed : Bytes → Bytes → Robj → ℤ → Bool → Keyspace → Keyspace
renamed src dst o expire exists s = dirtied 1 (
    signalled dst
      (signalled src (deleted src (timed dst expire (written dst o (cleared exists dst s))))))

rename_write-eq :
    (nx : Bool) (src dst : Bytes) (o : Robj) (expire : ℤ) (s : Keyspace)
    → rename_write nx src dst o expire (present s.dict dst) s
      ≡ done (if nx then cone else ok, renamed src dst o expire (present s.dict dst) s)
unfolding rename_write db_delete db_add set_expire signal_modified_key add_dirty dirtied signalled
    deleted expiring written ◌>>=◌ pure
rename_write-eq nx src dst o expire s = ground (
  arith,
  find-del_self s.dict dst,
  find-put_self s.dict dst o,
  find-put_self (del s.dict dst) dst o,
)

module _ (src dst : Bytes) (o : Robj) (expire : ℤ) (s : Keyspace) (ne : src ≢ dst) where
  -- Nothing but the two names changes.
  renamed-SameAt :
      (b : Bool) (j : Bytes) → j ≢ src → j ≢ dst → SameAt j (renamed src dst o expire b s) s
  unfolding dirtied signalled deleted expiring written
  renamed-SameAt b j nj nk = ground (
    arith,
    bytes_eq_iff src j,
    bytes_eq_iff dst j,
    find-del s.dict dst j,
    find-del s.expires dst j,
    find-put s.dict dst j o,
    find-put (del s.dict dst) dst j o,
    find-put s.expires dst j expire,
    find-put (del s.expires dst) dst j expire,
    find-del (put s.dict dst o) src j,
    find-del (put (del s.dict dst) dst o) src j,
    find-del s.expires src j,
    find-del (del s.expires dst) src j,
    find-del (put s.expires dst expire) src j,
    find-del (put (del s.expires dst) dst expire) src j,
  )

  -- The new name has the value, and the old one has nothing.
  renamed-dict :
      (b : Bool)
      → (find (renamed src dst o expire b s).dict dst ≡ some o)
        × (find (renamed src dst o expire b s).dict src ≡ none)
        × (find (renamed src dst o expire b s).expires src ≡ none)
  unfolding dirtied signalled deleted expiring written
  renamed-dict b = ground (
    arith,
    bytes_eq_iff src dst,
    find-put_self s.dict dst o,
    find-put_self (del s.dict dst) dst o,
    find-del (put s.dict dst o) src dst,
    find-del (put (del s.dict dst) dst o) src dst,
    find-del_self (put s.dict dst o) src,
    find-del_self (put (del s.dict dst) dst o) src,
    find-del_self s.expires src,
    find-del_self (del s.expires dst) src,
    find-del_self (put s.expires dst expire) src,
    find-del_self (put (del s.expires dst) dst expire) src,
  )

  -- The new name has the time to live; none, if there was none and none was left at the new name.
  renamed-expires :
      (b : Bool)
      → (b ≡ false → find s.expires dst ≡ none)
      → find (renamed src dst o expire b s).expires dst
        ≡ (if has_time expire then some expire else none)
  unfolding dirtied signalled deleted expiring written
  renamed-expires true h = ground (
    arith,
    bytes_eq_iff src dst,
    find-del (del s.expires dst) src dst,
    find-del_self s.expires dst,
    find-del (put (del s.expires dst) dst expire) src dst,
    find-put_self (del s.expires dst) dst expire,
  )
  renamed-expires false h = ground (
    arith,
    h refl,
    bytes_eq_iff src dst,
    find-del s.expires src dst,
    find-del (put s.expires dst expire) src dst,
    find-put_self s.expires dst expire,
  )

-- A sound keyspace has no time to live for a key that does not exist.
no_time :
    (key : Bytes) (s : Keyspace)
    → IsSound s
    → present s.dict key ≡ false
    → find s.expires key ≡ none
no_time key s h e = ground (arith, h.owned key)

-- The keyspace after the lookups of both names.
abbrev pub looked_up : Env → Bytes → Bytes → Keyspace → Keyspace
looked_up env src dst s = evict env dst (evict env src s)

pub rename_run :
    (env : Env) (nx : Bool) (src dst : Bytes) (o : Robj) (s : Keyspace)
    → IsSound s
    → src ≢ dst
    → find (evict env src s).dict src ≡ some o
    → let t = looked_up env src dst s in
      let expire = time_or_minus_one (find (evict env src s).expires src) in
      rename_generic_command env nx src dst s ≡ (
        if present t.dict dst && nx
        then done (czero, t)
        else done (if nx then cone else ok, renamed src dst o expire (present t.dict dst) t))
unfolding rename_generic_command rename_found ◌>>=◌ pure
rename_run env nx src dst o s h ne e =
    let s1 = evict env src s in
    let h1 = evict-IsSound env src s h in
    let t = looked_up env src dst s in
    let expire = time_or_minus_one (find s1.expires src) in
    ground (
      arith,
      bytes_eq_iff src dst,
      lookup_key_write-eq env src s h,
      get_expire-eq src s1 h1,
      lookup_key_write-eq env dst s1 h1,
      rename_write-eq nx src dst o expire t,
    )

-- RENAME of a key that a lookup finds, to another name: the new name has its value and its time to
-- live, whatever it held before, the old name has nothing, and every other key is as it was.
pub rename_command-total :
    (env : Env) (src dst : Bytes) (o : Robj) (s : Keyspace)
    → IsSound s
    → src ≢ dst
    → find (evict env src s).dict src ≡ some o
    → (s' : Keyspace) × (rename_command env src dst s ≡ done (ok, s'))
      × (find s'.dict dst ≡ some o)
      × (let expire = time_or_minus_one (find (evict env src s).expires src) in
          find s'.expires dst ≡ (if has_time expire then some expire else none))
      × (find s'.dict src ≡ none)
      × (find s'.expires src ≡ none)
      × ((j : Bytes) → j ≢ src → j ≢ dst → SameAt j s' s)
unfolding rename_command
rename_command-total env src dst o s h ne e =
    let t = looked_up env src dst s in
    let ht = evict-IsSound env dst _ (evict-IsSound env src s h) in
    let expire = time_or_minus_one (find (evict env src s).expires src) in
    let b = present t.dict dst in
    let (new, old, untimed) = renamed-dict src dst o expire t ne b in
    (
      renamed src dst o expire b t,
      ground (arith, rename_run env false src dst o s h ne e),
      new,
      renamed-expires src dst o expire t ne b (no_time dst t ht),
      old,
      untimed,
      (λ j nj nk.
          let (d, x) = renamed-SameAt src dst o expire t ne b j nj nk in
          let (d', x') = evict-SameAt env dst j (evict env src s) nk in
          let (d'', x'') = evict-SameAt env src j s nj in (d ∙ d' ∙ d'', x ∙ x' ∙ x'')),
    )

-- RENAMENX to a name that a lookup finds in use replies 0, and writes nothing beyond what the two
-- lookups did.
pub renamenx_command-busy :
    (env : Env) (src dst : Bytes) (o : Robj) (s : Keyspace)
    → IsSound s
    → src ≢ dst
    → find (evict env src s).dict src ≡ some o
    → present (looked_up env src dst s).dict dst ≡ true
    → renamenx_command env src dst s ≡ done (czero, looked_up env src dst s)
unfolding renamenx_command
renamenx_command-busy env src dst o s h ne e busy =
    ground (arith, rename_run env true src dst o s h ne e)
