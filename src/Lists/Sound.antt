-- ===== src/Lists/Sound.antt =====
-- t_list.c: how the commands on lists end, and what they keep of the keyspace.
use gridapps.Prelude.{true, false, none, some, List, Bytes, Option, ℕ, Bool, codes}
use gridapps.Lists.Total.{elements_total, trimmed_total}
use gridapps.Lists.Edits.{
  lrem_command, lrem_rest, linsert_rest, insert_command, linsert_command, same_word,
}
use gridapps.Lists.Ranges.{lrange_command, ltrim_command, multi_bulk, trim_rest}
use gridapps.Lists.{
  with_list, write_list, changed, store_list, pop_rest, lset_at, lset_command, llen_command,
  lindex_command, pop_generic_command, pushx_command, atoi,
}
use gridapps.Db.Keeps.{
  Keeps, Keeps-pure, Keeps-if, Keeps-bind, keeps_rules, put-IsSound, Keeps-lookup_key_read,
  Keeps-lookup_key_write,
}
use gridapps.Db.{Env, M, ◌>>=◌, lookup_key_read, lookup_key_write}
use gridapps.Object.{Robj, raw, int, list, set, zset, hash}
use gridapps.Reply.{Reply}

pub Keeps-with_list :
    (absent : Reply) (k : List Bytes → M Reply) (o : Option Robj)
    → ((l : List Bytes) → Keeps (k l))
    → Keeps (with_list absent k o)
unfolding with_list
Keeps-with_list absent k none h = Keeps-pure _
Keeps-with_list absent k (some (list l)) h = h l
Keeps-with_list absent k (some (raw s)) h = Keeps-pure _
Keeps-with_list absent k (some (int v)) h = Keeps-pure _
Keeps-with_list absent k (some (set l)) h = Keeps-pure _
Keeps-with_list absent k (some (zset m)) h = Keeps-pure _
Keeps-with_list absent k (some (hash m)) h = Keeps-pure _

Keeps-write_list : (key : Bytes) (l : List Bytes) → Keeps (write_list key l)
unfolding write_list
Keeps-write_list key l = record { at = λ s h. put-IsSound key (list l) s h }

Keeps-store_list : (key : Bytes) (l : List Bytes) → Keeps (store_list key l)
unfolding store_list
Keeps-store_list key l = search (keeps_rules, Keeps-write_list) depth 8

Keeps-changed : (key : Bytes) (r : Reply) → Keeps (changed key r)
Keeps-changed key r = search keeps_rules depth 8

ruleset list_rules =
    (Keeps-pure, Keeps-if, Keeps-bind, Keeps-write_list, Keeps-store_list, Keeps-changed)

module _ (env : Env) (key : Bytes) (absent : Reply) (k : List Bytes → M Reply) where
  Keeps-read :
      ((l : List Bytes) → Keeps (k l)) → Keeps (lookup_key_read env key >>= with_list absent k)
  Keeps-read h = Keeps-bind _ _ (Keeps-lookup_key_read env key) (λ o. Keeps-with_list absent k o h)

  Keeps-write :
      ((l : List Bytes) → Keeps (k l)) → Keeps (lookup_key_write env key >>= with_list absent k)
  Keeps-write h =
      Keeps-bind _ _ (Keeps-lookup_key_write env key) (λ o. Keeps-with_list absent k o h)

Keeps-pop_rest : (key : Bytes) (r : Option (Bytes × List Bytes)) → Keeps (pop_rest key r)
unfolding pop_rest
Keeps-pop_rest key none = Keeps-pure _
Keeps-pop_rest key (some (v, l)) = search list_rules depth 8

Keeps-lset_at :
    (key : Bytes) (l : List Bytes) (v : Bytes) (r : Option ℕ) → Keeps (lset_at key l v r)
unfolding lset_at
Keeps-lset_at key l v none = Keeps-pure _
Keeps-lset_at key l v (some i) = search list_rules depth 8

Keeps-lrem_rest : (key : Bytes) (r : ℕ × List Bytes) → Keeps (lrem_rest key r)
unfolding lrem_rest
Keeps-lrem_rest key (n, l) = search (keeps_rules, Keeps-write_list) depth 10

Keeps-linsert_rest : (key : Bytes) (r : Option (List Bytes)) → Keeps (linsert_rest key r)
unfolding linsert_rest
Keeps-linsert_rest key none = Keeps-pure _
Keeps-linsert_rest key (some l) = search list_rules depth 8

module _ (env : Env) (key : Bytes) where
  pub llen-Keeps : Keeps (llen_command env key)
  unfolding llen_command
  llen-Keeps = Keeps-read env key _ _ (λ l. Keeps-pure _)

  pub lindex-Keeps : (index : Bytes) → Keeps (lindex_command env key index)
  unfolding lindex_command
  lindex-Keeps index = Keeps-read env key _ _ (λ l. Keeps-pure _)

  pub lset-Keeps : (index value : Bytes) → Keeps (lset_command env key index value)
  unfolding lset_command
  lset-Keeps index value = Keeps-write env key _ _ (λ l. Keeps-lset_at key l value _)

  pub pop-Keeps : (at_head : Bool) → Keeps (pop_generic_command env at_head key)
  unfolding pop_generic_command
  pop-Keeps at_head = Keeps-write env key _ _ (λ l. Keeps-pop_rest key _)

  pub pushx-Keeps : (at_head : Bool) (value : Bytes) → Keeps (pushx_command env at_head key value)
  unfolding pushx_command
  pushx-Keeps at_head value = Keeps-read env key _ _ (λ l. search list_rules depth 8)

  pub lrange-Keeps : (a b : Bytes) → Keeps (lrange_command env key a b)
  unfolding lrange_command multi_bulk
  lrange-Keeps a b =
      Keeps-read env key _ _
        (λ l. let (m, e) = elements_total l (atoi a) (atoi b) in rw e (Keeps-pure _))

  pub ltrim-Keeps : (a b : Bytes) → Keeps (ltrim_command env key a b)
  unfolding ltrim_command trim_rest
  ltrim-Keeps a b =
      Keeps-write env key _ _
        (λ l. let (m, e) = trimmed_total l (atoi a) (atoi b) in rw e (search list_rules depth 8))

  pub lrem-Keeps : (count value : Bytes) → Keeps (lrem_command env key count value)
  unfolding lrem_command
  lrem-Keeps count value = Keeps-write env key _ _ (λ l. Keeps-lrem_rest key _)

  insert-Keeps :
      (after : Bool) (pivot value : Bytes) → Keeps (insert_command env key after pivot value)
  unfolding insert_command
  insert-Keeps after pivot value = Keeps-read env key _ _ (λ l. Keeps-linsert_rest key _)

  pub linsert-Keeps :
      (place pivot value : Bytes) → Keeps (linsert_command env key place pivot value)
  unfolding linsert_command
  linsert-Keeps place pivot value =
      Keeps-if (same_word place (codes "after")) _ _ (λ _. insert-Keeps true pivot value)
        (λ _.
          Keeps-if (same_word place (codes "before")) _ _ (λ _. insert-Keeps false pivot value)
            (λ _. Keeps-pure _))
