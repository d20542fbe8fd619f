-- ===== src/Lists/Replies.antt =====
-- t_list.c: the whole effect of commands on lists, from any sound keyspace.
use gridapps.Prelude.{
  none, some, refl, pos, negsuc, arith, Option, ℤ, Bytes, del, length, List, ◌≡◌, find, put, ◌<◌,
  ap, ◌∙◌, Map, if◌then◌else◌, ◌^◌, ◌==◌, [], ◌∷◌, bytes_eq_refl,
}
use gridapps.Lists.Ranges.{
  lrange_command, ltrim_command, bulks, multi_bulk, trim_rest, elements, range_of, llen_of, trimmed,
  trims,
}
use gridapps.Lists.Chosen.{chosen, InInt32}
use gridapps.Lists.Taken.{elements-chosen, trimmed-chosen}
use gridapps.Lists.{with_list, changed, store_list, atoi, wrap32, write_list}
use gridapps.Db.{
  signal_modified_key, add_dirty, Env, Keyspace, done, pure, ◌>>=◌, modify, db_delete, M,
  lookup_key_read, lookup_key_write,
}
use gridapps.Db.Evict.{IsSound, evict, lookup_key_read-eq, lookup_key_write-eq}
use gridapps.Db.Effects.{written, deleted, signalled, dirtied}
use gridapps.Strings.Basic.Read.{after_read}
use gridapps.Object.{Robj, list, raw, int, set, zset, hash}
use gridapps.Reply.{Reply, multi, nil, wrongtypeerr, ok}

-- An int holds the length of a list.
abbrev pub ShortList : Option Robj → Type 0
ShortList none = Unit
ShortList (some (list l)) = length l < 2 ^ 31
ShortList (some o) = Unit

wrap32-InInt32 : (v : ℤ) → InInt32 (wrap32 v)
unfolding wrap32
wrap32-InInt32 (pos n) = ground arith
wrap32-InInt32 (negsuc n) = ground arith

pub atoi-InInt32 : (s : Bytes) → InInt32 (atoi s)
unfolding atoi
atoi-InInt32 s = wrap32-InInt32 _

-- What a command does that reads a list, and one that writes to it.
pub read-with_list :
    (env : Env) (key : Bytes) (absent : Reply) (k : List Bytes → M Reply) (s : Keyspace)
    → IsSound s
    → (lookup_key_read env key >>= with_list absent k) s
      ≡ with_list absent k (find (evict env key s).dict key) (after_read env key s)
unfolding ◌>>=◌
read-with_list env key absent k s h = rw (lookup_key_read-eq env key s h) refl

pub write-with_list :
    (env : Env) (key : Bytes) (absent : Reply) (k : List Bytes → M Reply) (s : Keyspace)
    → IsSound s
    → (lookup_key_write env key >>= with_list absent k) s
      ≡ with_list absent k (find (evict env key s).dict key) (evict env key s)
unfolding ◌>>=◌
write-with_list env key absent k s h = rw (lookup_key_write-eq env key s h) refl

-- The reply of LRANGE for what its lookup finds.
abbrev pub range_reply : ℤ → ℤ → Option Robj → Reply
range_reply a b none = multi nil
range_reply a b (some (list l)) = multi (bulks (chosen l a b))
range_reply a b (some o) = wrongtypeerr

lrange-found :
    (a b : ℤ) (s : Keyspace) (o : Option Robj)
    → InInt32 a
    → InInt32 b
    → ShortList o
    → with_list (multi nil) (λ l. multi_bulk (elements l (range_of (llen_of l) a b))) o s
      ≡ done (range_reply a b o, s)
unfolding with_list pure
lrange-found a b s none ha hb h = refl
lrange-found a b s (some (list l)) ha hb h =
    ap (λ r. multi_bulk r s) (elements-chosen l a b h ha hb) ∙ unfold multi_bulk in refl
lrange-found a b s (some (raw t)) ha hb h = refl
lrange-found a b s (some (int v)) ha hb h = refl
lrange-found a b s (some (set l)) ha hb h = refl
lrange-found a b s (some (zset m)) ha hb h = refl
lrange-found a b s (some (hash m)) ha hb h = refl

-- LRANGE runs to its end from any sound keyspace in which the list has less than 2 ^ 31 elements. It
-- reads no element that is not there, and replies with the elements whose places are between the two
-- indices, both included, where an index that is negative counts from the end; with nothing for a
-- missing key, and with the type error for another value. It leaves the keyspace of a read.
pub lrange_command-total :
    (env : Env) (key start end' : Bytes) (s : Keyspace)
    → IsSound s
    → ShortList (find (evict env key s).dict key)
    → lrange_command env key start end' s
      ≡ done (
        range_reply (atoi start) (atoi end') (find (evict env key s).dict key),
        after_read env key s,
      )
unfolding lrange_command
lrange_command-total env key start end' s h short =
    read-with_list env key (multi nil) _ s h
    ∙ lrange-found (atoi start) (atoi end') (after_read env key s) _ (atoi-InInt32 start)
        (atoi-InInt32 end') short

-- The key holds the list, or nothing if the list is empty.
abbrev pub listed : Bytes → List Bytes → Keyspace → Keyspace
listed key l s = if length l == 0 then deleted key s else written key (list l) s

-- The keyspace behind a command that changed a list.
abbrev pub relisted : Bytes → List Bytes → Keyspace → Keyspace
relisted key l s = dirtied 1 (signalled key (listed key l s))

del-put : (m : Map Robj) (key : Bytes) (o : Robj) → del (put m key o) key ≡ del m key
unfolding del put
del-put [] key o = ground (arith, bytes_eq_refl key)
del-put ((j, w) ∷ m) key o = ground (arith, bytes_eq_refl key, del-put m key o)

deleted-written :
    (key : Bytes) (o : Robj) (s : Keyspace) → deleted key (written key o s) ≡ deleted key s
unfolding deleted written
deleted-written key o s =
    λ i. record s { dict = del-put s.dict key o i; expires = del s.expires key }

pub store_list-changed :
    (key : Bytes) (l : List Bytes) (r : Reply) (s : Keyspace)
    → (store_list key l >>= λ _. changed key r) s ≡ done (r, relisted key l s)
unfolding store_list write_list modify db_delete pure ◌>>=◌ signal_modified_key add_dirty written
    deleted signalled dirtied
store_list-changed key [] r s =
    ap (λ t. done (r, dirtied 1 (signalled key t))) (deleted-written key (list []) s)
store_list-changed key (x ∷ l) r s = ground arith

-- The reply of LTRIM, and the keyspace behind it, for what its lookup finds.
abbrev pub trim_reply : Option Robj → Reply
trim_reply none = ok
trim_reply (some (list l)) = ok
trim_reply (some o) = wrongtypeerr

abbrev pub trim_effect : Bytes → ℤ → ℤ → Option Robj → Keyspace → Keyspace
trim_effect key a b none s = s
trim_effect key a b (some (list l)) s = relisted key (chosen l a b) s
trim_effect key a b (some o) s = s

ltrim-found :
    (key : Bytes) (a b : ℤ) (s : Keyspace) (o : Option Robj)
    → InInt32 a
    → InInt32 b
    → ShortList o
    → with_list ok
        (λ l. trim_rest key (trimmed l (trims (llen_of l) (range_of (llen_of l) a b))))
        o
        s
      ≡ done (trim_reply o, trim_effect key a b o s)
unfolding with_list pure
ltrim-found key a b s none ha hb h = refl
ltrim-found key a b s (some (list l)) ha hb h =
    ap (λ r. trim_rest key r s) (trimmed-chosen l a b h ha hb)
    ∙ unfold trim_rest in store_list-changed key (chosen l a b) ok s
ltrim-found key a b s (some (raw t)) ha hb h = refl
ltrim-found key a b s (some (int v)) ha hb h = refl
ltrim-found key a b s (some (set l)) ha hb h = refl
ltrim-found key a b s (some (zset m)) ha hb h = refl
ltrim-found key a b s (some (hash m)) ha hb h = refl

-- LTRIM runs to its end from any sound keyspace in which the list has less than 2 ^ 31 elements, and
-- deletes no node that is not there. The list that it leaves has the elements whose places are
-- between the two indices, both included, which are those that LRANGE replies with; without any the
-- key is deleted with its time to live. The key is signalled and one change is counted. A missing key
-- and another type change nothing.
pub ltrim_command-total :
    (env : Env) (key start end' : Bytes) (s : Keyspace)
    → IsSound s
    → ShortList (find (evict env key s).dict key)
    → ltrim_command env key start end' s
      ≡ done (
        trim_reply (find (evict env key s).dict key),
        trim_effect key
            (atoi start)
            (atoi end')
            (find (evict env key s).dict key)
            (evict env key s),
      )
unfolding ltrim_command
ltrim_command-total env key start end' s h short =
    write-with_list env key ok _ s h
    ∙ ltrim-found key (atoi start) (atoi end') (evict env key s) _ (atoi-InInt32 start)
        (atoi-InInt32 end') short
