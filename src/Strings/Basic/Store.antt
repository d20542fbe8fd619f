-- ===== src/Strings/Basic/Store.antt =====
-- What the single-key commands on strings do: their replies and the keyspace that they leave.
use gridapps.Db.Keeps.{Succeeds}
use gridapps.Object.Encoding.{get_decoded_object-try_object_encoding}
use gridapps.Object.{
  Robj, try_object_encoding, raw, in_long_range, get_decoded_object, get_long_long_from_object,
}
use gridapps.Db.Effects.{
  expiring, dirtied, dirtied-IsSound, expiring-SameAt, set_expire-eq, expiring-IsSound,
}
use gridapps.Db.Evict.{
  evict, IsSound, stored, stored-IsSound, SameAt, evict-IsSound, lookup_key_write-eq, stored-SameAt,
  dirty-evict, touched-evict, set_key-eq, evict-SameAt,
}
use gridapps.Strings.Basic.{
  set_rest, set_command, setnx_command, setex_command, set_generic_command, with_long, czero, ok,
  cone,
}
use gridapps.Db.{◌>>=◌, Env, Keyspace, add_dirty, pure, present, done}
use gridapps.Prelude.{
  true, false, none, some, pos, suc, inl, inr, [], arith, ◌∷◌, Bytes, ◌≡◌, Option, ℤ, find-del_self,
  Bool, find, ◌≢◌, if◌then◌else◌, find-put_self, ◌++◌, ℕ, ◌&&◌, ◌+◌, Bool-cases, wrap64, ◌∙◌, ◌<◌,
  two63, ◌+ℤ◌,
}

-- What SET leaves: the value under the key, in the keyspace without the expired one.
abbrev pub after_set : Env → Bytes → Robj → Keyspace → Keyspace
after_set env key val s = dirtied 1 (stored key val (evict env key s))

after_set-IsSound :
    (env : Env) (key : Bytes) (val : Robj) (s : Keyspace)
    → IsSound s
    → IsSound (after_set env key val s)
after_set-IsSound env key val s h =
    dirtied-IsSound 1 _ (stored-IsSound key val _ (evict-IsSound env key s h))

pub set_rest-busy :
    (env : Env) (nx : Bool) (key : Bytes) (val : Robj) (seconds : Option ℤ) (s : Keyspace)
    → IsSound s
    → (present (evict env key s).dict key && nx) ≡ true
    → set_rest env nx key val seconds s ≡ done (czero, evict env key s)
unfolding set_rest ◌>>=◌ pure
set_rest-busy env nx key val seconds s h p = ground (arith, lookup_key_write-eq env key s h)

evict_twice :
    (env : Env) (key : Bytes) (s : Keyspace) → evict env key (evict env key s) ≡ evict env key s
unfolding evict
evict_twice env key s = ground (arith, find-del_self s.expires key)

set_rest-free :
    (env : Env) (nx : Bool) (key : Bytes) (val : Robj) (s : Keyspace)
    → IsSound s
    → (present (evict env key s).dict key && nx) ≡ false
    → set_rest env nx key val none s ≡ done (if nx then cone else ok, after_set env key val s)
unfolding set_rest add_dirty dirtied ◌>>=◌ pure
set_rest-free env nx key val s h p =
    let again = set_key-eq env key val (evict env key s) (evict-IsSound env key s h) in
    ground (arith, lookup_key_write-eq env key s h, again, evict_twice env key s)

-- The bytes that a key's string stands for.
abbrev pub string_at : Keyspace → Bytes → Option Bytes
string_at s key = elim (find s.dict key) [ none ↦ none | some o ↦ get_decoded_object o ]

module _ (env : Env) (key : Bytes) where
  after_set-find : (o : Robj) (s : Keyspace) → find (after_set env key o s).dict key ≡ some o
  unfolding dirtied stored
  after_set-find o s = find-put_self (evict env key s).dict key o

  after_set-string :
      (val : Bytes) (s : Keyspace)
      → string_at (after_set env key (try_object_encoding 1 (raw val)) s) key ≡ some val
  after_set-string val s =
      rw (after_set-find (try_object_encoding 1 (raw val)) s, string_at)
        (get_decoded_object-try_object_encoding 1 val)

  after_set-expires : (o : Robj) (s : Keyspace) → find (after_set env key o s).expires key ≡ none
  unfolding dirtied stored
  after_set-expires o s = find-del_self (evict env key s).expires key

  after_set-SameAt :
      (j : Bytes) (o : Robj) (s : Keyspace) → j ≢ key → SameAt j (after_set env key o s) s
  unfolding dirtied
  after_set-SameAt j o s ne =
      let (d, e) = stored-SameAt key j o (evict env key s) ne in
      let (d', e') = evict-SameAt env key j s ne in (d ∙ d', e ∙ e')

  after_set-dirty : (o : Robj) (s : Keyspace) → (after_set env key o s).dirty ≡ s.dirty + 1
  unfolding dirtied stored
  after_set-dirty o s = omega (arith, dirty-evict env key s)

  after_set-touched :
      (o : Robj) (s : Keyspace) → (after_set env key o s).touched ≡ s.touched ++ key ∷ []
  unfolding dirtied stored
  after_set-touched o s = rw (touched-evict env key s)

-- SET runs to its end from any sound keyspace. Afterwards the key holds the argument's bytes and no
-- time to live, every other key its old value and time, and the change is counted and signalled.
pub set_command-total :
    (env : Env) (key val : Bytes) (s : Keyspace)
    → IsSound s
    → (s' : Keyspace) × (set_command env key val s ≡ done (ok, s'))
      × IsSound s'
      × (string_at s' key ≡ some val)
      × (find s'.expires key ≡ none)
      × ((j : Bytes) → j ≢ key → SameAt j s' s)
      × (s'.dirty ≡ s.dirty + 1)
      × (s'.touched ≡ s.touched ++ key ∷ [])
unfolding set_command set_generic_command
set_command-total env key val s h =
    let o = try_object_encoding 1 (raw val) in
    (
      after_set env key o s,
      set_rest-free env false key o s h (ground arith),
      after_set-IsSound env key o s h,
      after_set-string env key val s,
      after_set-expires env key o s,
      (λ j ne. after_set-SameAt env key j o s ne),
      after_set-dirty env key o s,
      after_set-touched env key o s,
    )

-- SETNX writes exactly when the lookup finds no value: it then does what SET does, with reply 1;
-- else its reply is 0 and the keyspace is the one that the lookup left.
pub setnx_command-total :
    (env : Env) (key val : Bytes) (s : Keyspace)
    → IsSound s
    → setnx_command env key val s ≡ (
        if present (evict env key s).dict key
        then done (czero, evict env key s)
        else done (cone, after_set env key (try_object_encoding 1 (raw val)) s))
unfolding setnx_command set_generic_command
setnx_command-total env key val s h =
    let o = try_object_encoding 1 (raw val) in
    elim (Bool-cases (present (evict env key s).dict key)) [
      | inl old ↦ rw old (set_rest-busy env true key o none s h (ground arith))
      | inr new ↦ rw new (set_rest-free env true key o s h (ground arith))
    ]

set_rest-timed :
    (env : Env) (nx : Bool) (key : Bytes) (val : Robj) (n : ℤ) (s : Keyspace)
    → IsSound s
    → (present (evict env key s).dict key && nx) ≡ false
    → set_rest env nx key val (some n) s
      ≡ done (
        if nx then cone else ok,
        expiring key (wrap64 (pos env.now +ℤ n)) (after_set env key val s),
      )
unfolding set_rest add_dirty ◌>>=◌ pure dirtied
set_rest-timed env nx key val n s h p =
    let again = set_key-eq env key val (evict env key s) (evict-IsSound env key s h) in
    let kept : present (after_set env key val s).dict key ≡ true =
      rw (after_set-find env key val s) in
    let timed = set_expire-eq key (wrap64 (pos env.now +ℤ n)) (after_set env key val s) kept in
    ground (arith, lookup_key_write-eq env key s h, again, evict_twice env key s, timed)

expiring_parts :
    (env : Env) (key val : Bytes) (when : ℤ) (s : Keyspace)
    → let s' = expiring key when (after_set env key (try_object_encoding 1 (raw val)) s) in
      (string_at s' key ≡ some val)
      × (find s'.expires key ≡ some when)
      × ((j : Bytes) → j ≢ key → SameAt j s' s)
unfolding expiring
expiring_parts env key val when s =
    let o = try_object_encoding 1 (raw val) in
    (
      after_set-string env key val s,
      find-put_self (after_set env key o s).expires key when,
      (λ j ne.
          let (d, e) = expiring-SameAt key j when (after_set env key o s) ne in
          let (d', e') = after_set-SameAt env key j o s ne in (d ∙ d', e ∙ e')),
    )

-- From every sound keyspace, with any arguments, the writing branch succeeds.
pub set_rest-free-Succeeds :
    (env : Env) (nx : Bool) (key : Bytes) (o : Robj) (seconds : Option ℤ) (s : Keyspace)
    → IsSound s
    → (present (evict env key s).dict key && nx) ≡ false
    → Succeeds (set_rest env nx key o seconds s)
set_rest-free-Succeeds env nx key o none s h p =
    rw (set_rest-free env nx key o s h p) (after_set-IsSound env key o s h)
set_rest-free-Succeeds env nx key o (some n) s h p =
    let kept : present (after_set env key o s).dict key ≡ true = rw (after_set-find env key o s) in
    rw (set_rest-timed env nx key o n s h p)
      (expiring-IsSound key _ _ (after_set-IsSound env key o s h) kept)

-- With a time to live that is read as a positive number, SETEX does what SET does and gives the key
-- that time, from now on; the sum is made in 64 bits.
pub setex_command-total :
    (env : Env) (key expire val : Bytes) (n : ℕ) (s : Keyspace)
    → IsSound s
    → get_long_long_from_object env.erange (some (raw expire)) ≡ some (some (pos (suc n)))
    → suc n < two63
    → (s' : Keyspace) × (setex_command env key expire val s ≡ done (ok, s'))
      × IsSound s'
      × ((string_at s' key ≡ some val)
          × (find s'.expires key ≡ some (wrap64 (pos env.now +ℤ pos (suc n))))
          × ((j : Bytes) → j ≢ key → SameAt j s' s))
unfolding setex_command set_generic_command with_long in_long_range
setex_command-total env key expire val n s h read small =
    let o = try_object_encoding 1 (raw val) in
    let when = wrap64 (pos env.now +ℤ pos (suc n)) in
    let kept : present (after_set env key o s).dict key ≡ true = rw (after_set-find env key o s) in
    (
      expiring key when (after_set env key o s),
      ground (arith, read, set_rest-timed env false key o (pos (suc n)) s h (ground arith)),
      expiring-IsSound key when _ (after_set-IsSound env key o s h) kept,
      expiring_parts env key val when s,
    )
