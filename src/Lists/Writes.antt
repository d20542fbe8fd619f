-- ===== src/Lists/Writes.antt =====
-- t_list.c: the whole effect of LSET, LPOP, RPOP, LREM and LINSERT on a list.
use gridapps.Lists.Equal.{Comparable, lrem_of-Agree, encoded-Agree, insert_by-Agree, raw-Agree}
use mathlib.Core.List.{reverse, reverse_aux}
use gridapps.Multi.Watch.{count_key}
use gridapps.Prelude.{
  set as put_at, none, some, refl, pos, negsuc, arith, ◌∷◌, Bytes, Bool, ℕ, Option, List, ℤ, ◌≡◌,
  find, length, ◌∙◌, ap, [], if◌then◌else◌, ◌+◌, ◌==◌, ◌++◌, length-append, set-append,
  get_elem?-append,
}
use gridapps.Lists.Edits.{
  linsert_rest, insert_command, insert_by, lrem_of, lrem_rest, lrem_command, list_type_equal,
}
use gridapps.Lists.Edited.{
  Beside, insert_by-Beside, list_type_pop-push, quota, without_first, lrem_loop-quota, equals,
}
use gridapps.Lists.Replies.{read-with_list, write-with_list, relisted, store_list-changed}
use gridapps.Lists.{
  with_list, list_type_push, pop_generic_command, pop_rest, lset_command, lset_at, list_index,
  element_at, node_value, atoi, changed, write_list, lindex_command, bulk_or_null,
}
use gridapps.Db.{
  Env, Keyspace, done, pure, ◌>>=◌, M, modify, signal_modified_key, add_dirty, lookup_key_write,
  db_delete,
}
use gridapps.Db.Evict.{IsSound, evict}
use gridapps.Db.Effects.{written, signalled, dirtied, deleted}
use gridapps.Strings.Basic.Read.{after_read}
use gridapps.Object.{list, raw}
use gridapps.Reply.{Reply, integer, bulk, ok, nullbulk, czero, nokeyerr}

-- The keyspace behind a write of a list that is not empty.
abbrev pub rewritten : Bytes → List Bytes → Keyspace → Keyspace
rewritten key l s = dirtied 1 (signalled key (written key (list l) s))

write_list-changed :
    (key : Bytes) (l : List Bytes) (r : Reply) (s : Keyspace)
    → (write_list key l >>= λ _. changed key r) s ≡ done (r, rewritten key l s)
unfolding write_list modify pure ◌>>=◌ signal_modified_key add_dirty written signalled dirtied
write_list-changed key l r s = refl

module _ (env : Env) (key : Bytes) (l : List Bytes) (s : Keyspace) (h : IsSound s)
    (found : find (evict env key s).dict key ≡ some (list l)) where
  at_list :
      (absent : Reply) (k : List Bytes → M Reply)
      → (lookup_key_write env key >>= with_list absent k) s ≡ k l (evict env key s)
  unfolding with_list
  at_list absent k =
      write-with_list env key absent k s h ∙ ap (λ o. with_list absent k o (evict env key s)) found

-- In a sound keyspace, LPOP and RPOP of a list that is not empty run to their end. They reply with an
-- element and leave the others in order: the list was what a push of that element at that end makes
-- of them. The key is deleted with its time to live if it was the only one; the key is signalled and
-- one change is counted.
pub pop_generic_command-push :
    (env : Env) (at_head : Bool) (key x : Bytes) (l : List Bytes) (s : Keyspace)
    → IsSound s
    → find (evict env key s).dict key ≡ some (list (x ∷ l))
    → (v : Bytes) × (rest : List Bytes) × (x ∷ l ≡ list_type_push at_head v rest)
      × (pop_generic_command env at_head key s ≡ done (bulk v, relisted key rest (evict env key s)))
unfolding pop_generic_command pop_rest
pop_generic_command-push env at_head key x l s h found =
    let (v, rest, pops, split) = list_type_pop-push at_head x l in
    (
      v,
      rest,
      split,
      at_list env key (x ∷ l) s h found nullbulk _
          ∙ ap (λ r. pop_rest key r (evict env key s)) pops
          ∙ store_list-changed key rest (bulk v) (evict env key s),
    )

-- The index names the element between `a` and `b`: a positive one counts those before it, and a
-- negative one, from -1, those behind it.
abbrev pub Names : ℤ → List Bytes → List Bytes → Type 0
Names (pos i) a b = i ≡ length a
Names (negsuc i) a b = i ≡ length b

list_index-Names :
    (i : ℤ) (a b : List Bytes) (x : Bytes)
    → Names i a b
    → list_index (length (a ++ x ∷ b)) i ≡ some (length a)
unfolding list_index
list_index-Names (pos i) a b x h = ground (arith, length-append a (x ∷ b))
list_index-Names (negsuc i) a b x h = ground (arith, length-append a (x ∷ b))

put_at-append : (a b : List Bytes) (x v : Bytes) → put_at (a ++ x ∷ b) (length a) v ≡ a ++ v ∷ b
put_at-append a b x v = set-append a b x v

element_at-Names :
    (i : ℤ) (a b : List Bytes) (x : Bytes) → Names i a b → element_at (a ++ x ∷ b) i ≡ some x
unfolding element_at
element_at-Names i a b x h =
    ap (node_value (a ++ x ∷ b)) (list_index-Names i a b x h) ∙ get_elem?-append a b x

-- In a sound keyspace, where a positive index is the number of the elements before one of the list, or
-- a negative one, counted from -1, that of the elements behind it: LSET puts the value in place of
-- that element and replies OK, every other element stays where it is, the key is signalled and one
-- change is counted. LINDEX with that index replies with the element before LSET, and would with the
-- value after it.
pub lset_command-replaces :
    (env : Env) (key index value x : Bytes) (a b : List Bytes) (s : Keyspace)
    → IsSound s
    → find (evict env key s).dict key ≡ some (list (a ++ x ∷ b))
    → Names (atoi index) a b
    → (lset_command env key index value s
        ≡ done (ok, rewritten key (a ++ value ∷ b) (evict env key s)))
      × (lindex_command env key index s ≡ done (bulk x, after_read env key s))
      × (element_at (a ++ value ∷ b) (atoi index) ≡ some value)
unfolding lset_command lset_at lindex_command pure
lset_command-replaces env key index value x a b s h found named =
    let l = a ++ x ∷ b in
    let reads : List Bytes → M Reply = λ l. pure (bulk_or_null (element_at l (atoi index))) in
    (
      at_list env key l s h found nokeyerr _
          ∙ ap (λ r. lset_at key l value r (evict env key s))
              (list_index-Names (atoi index) a b x named)
          ∙ ap (λ m. (write_list key m >>= λ _. changed key ok) (evict env key s))
              (put_at-append a b x value)
          ∙ write_list-changed key (a ++ value ∷ b) ok (evict env key s),
      read-with_list env key nullbulk reads s h
          ∙ ap (λ o. with_list nullbulk reads o (after_read env key s)) found
          ∙ unfold with_list in
            ap (λ o. done (bulk_or_null o, after_read env key s))
              (element_at-Names (atoi index) a b x named),
      element_at-Names (atoi index) a b value named,
    )

-- What LINSERT replies, and what it leaves.
abbrev pub insert_reply : Option (List Bytes) → Reply
insert_reply none = integer (negsuc 0)
insert_reply (some m) = integer (pos (length m))

abbrev pub insert_effect : Bytes → Option (List Bytes) → Keyspace → Keyspace
insert_effect key none s = s
insert_effect key (some m) s = rewritten key m s

linsert_rest-eq :
    (key : Bytes) (r : Option (List Bytes)) (s : Keyspace)
    → linsert_rest key r s ≡ done (insert_reply r, insert_effect key r s)
unfolding linsert_rest
linsert_rest-eq key none s = unfold pure in refl
linsert_rest-eq key (some m) s = write_list-changed key m (integer (pos (length m))) s

-- In a sound keyspace, LINSERT into a list runs to its end. It puts the value before or behind the
-- first element that equals the pivot, replies with the new length, signals the key and counts a
-- change; where no element equals the pivot the reply is -1 and nothing changes but what a read does.
-- The list is a ziplist, or neither the pivot nor an element has a nul.
pub insert_command-Beside :
    (env : Env) (key : Bytes) (after : Bool) (pivot value : Bytes) (l : List Bytes) (s : Keyspace)
    → IsSound s
    → find (evict env key s).dict key ≡ some (list l)
    → Comparable env key pivot l
    → (r : Option (List Bytes)) × Beside after pivot value l r
      × (insert_command env key after pivot value s
          ≡ done (insert_reply r, insert_effect key r (after_read env key s)))
unfolding insert_command with_list
insert_command-Beside env key after pivot value l s h found clear =
    let test = list_type_equal (env.linked key) (raw pivot) in
    let rest : List Bytes → M Reply = λ l. linsert_rest key (insert_by after test value l) in
    let r = insert_by after (equals pivot) value l in
    (
      r,
      insert_by-Beside after pivot value l,
      read-with_list env key czero rest s h
          ∙ ap (λ o. with_list czero rest o (after_read env key s)) found
          ∙ ap (λ r. linsert_rest key r (after_read env key s))
              (insert_by-Agree after test (equals pivot) value l (raw-Agree env key pivot l clear))
          ∙ linsert_rest-eq key r (after_read env key s),
    )

-- What LREM removes, and what it leaves: the first elements, or for a negative count the last.
abbrev pub removed_by : ℤ → Bytes → List Bytes → ℕ
removed_by (pos n) v l = quota n (count_key l v)
removed_by (negsuc n) v l = quota (n + 1) (count_key l v)

abbrev pub left_by : ℤ → Bytes → List Bytes → List Bytes
left_by (pos n) v l = without_first (removed_by (pos n) v l) v l
left_by (negsuc n) v l = reverse (without_first (removed_by (negsuc n) v l) v (reverse l))

count_key-reverse_aux :
    (v : Bytes) (xs r : List Bytes)
    → count_key (reverse_aux xs r) v ≡ count_key xs v + count_key r v
count_key-reverse_aux v [] r = omega arith
count_key-reverse_aux v (x ∷ xs) r = omega (arith, count_key-reverse_aux v xs (x ∷ r))

lrem_of-eq :
    (c : ℤ) (v : Bytes) (l : List Bytes)
    → lrem_of c (equals v) l ≡ (removed_by c v l, left_by c v l)
unfolding lrem_of
lrem_of-eq (pos n) v l = lrem_loop-quota n v l
lrem_of-eq (negsuc n) v l =
    let count : count_key (reverse l) v ≡ count_key l v =
      omega (arith, count_key-reverse_aux v l []) in
    ap (λ r. (r.0, reverse (r.1))) (lrem_loop-quota (n + 1) v (reverse l))
    ∙ ap (λ k. (quota (n + 1) k, reverse (without_first (quota (n + 1) k) v (reverse l)))) count

-- The keyspace behind LREM.
abbrev pub cut : Bytes → ℕ → List Bytes → Keyspace → Keyspace
cut key n l s =
    let t = dirtied n (written key (list l) s) in
    let u = if length l == 0 then deleted key t else t in if n == 0 then u else signalled key u

lrem_rest-eq :
    (key : Bytes) (n : ℕ) (l : List Bytes) (s : Keyspace)
    → lrem_rest key (n, l) s ≡ done (integer (pos n), cut key n l s)
unfolding lrem_rest write_list modify db_delete pure ◌>>=◌ signal_modified_key add_dirty written
    deleted signalled dirtied
lrem_rest-eq key n l s = ground arith

-- In a sound keyspace, LREM on a list runs to its end. It removes as many elements that equal the value
-- as its count says, from the head, or from the tail if the count is negative, all if there are fewer
-- or the count is 0, and replies with their number. The list is a ziplist, or neither the value nor an
-- element has a nul. The others stay in their order, a list that
-- becomes empty is deleted, the number is added to the changes, and the key is signalled if an element
-- was removed.
pub lrem_command-cut :
    (env : Env) (key count value : Bytes) (l : List Bytes) (s : Keyspace)
    → IsSound s
    → find (evict env key s).dict key ≡ some (list l)
    → Comparable env key value l
    → lrem_command env key count value s
      ≡ done (
        integer (pos (removed_by (atoi count) value l)),
        cut key (removed_by (atoi count) value l) (left_by (atoi count) value l) (evict env key s),
      )
unfolding lrem_command
lrem_command-cut env key count value l s h found clear =
    at_list env key l s h found czero _
    ∙ ap (λ r. lrem_rest key r (evict env key s))
        (lrem_of-Agree (atoi count) _ (equals value) l (encoded-Agree env key value l clear)
          ∙ lrem_of-eq (atoi count) value l)
    ∙ lrem_rest-eq key _ _ (evict env key s)
