-- ===== src/Blocking/Push.antt =====
-- t_list.c: LPUSH and RPUSH to a key for which no client waits, and to one for which a client does.
use gridapps.Blocking.Cells.{
  keyed, handle_none, written-written, written-find, on_keys-eq, store_value-new, store_value-made,
  written-same,
}
use gridapps.Prelude.{
  true, false, none, some, refl, [], ◌∷◌, Bool, Bytes, List, ◌≡◌, find, arith, ap, ℕ, ◌+◌, length,
  pos, suc, sym, ◌∙◌, ◌++◌, length-append, inl, inr, Option, ◌⊎◌,
}
use gridapps.Blocking.{
  Hall, tell, push_generic_command, push_found, push_loop, push_end, store_value, after_wait,
  after_store, count_push,
}
use gridapps.Lists.{list_type_push}
use gridapps.Multi.{map_outcome, and_then, clients_of}
use gridapps.Db.{
  Env, Keyspace, done, pure, ◌>>=◌, modify, signal_modified_key, add_dirty, lookup_key_write,
}
use gridapps.Db.Evict.{IsSound, evict, lookup_key_write-eq}
use gridapps.Db.Effects.{written, signalled, dirtied}
use gridapps.Object.{Robj, list}
use gridapps.Reply.{integer}

-- The list after the values have been pushed, one after the other.
abbrev pub push_all : Bool → List Bytes → List Bytes → List Bytes
push_all at_head [] l = l
push_all at_head (v ∷ vs) l = push_all at_head vs (list_type_push at_head v l)

-- The loop, once the list is there.
push_loop-made :
    (env : Env) (at_head : Bool) (key : Bytes) (vs l : List Bytes) (a p : ℕ) (h : Hall)
    → find h.keyspace.dict key ≡ some (list l)
    → push_loop env at_head key vs true false a p h
      ≡ done (
        (true, a, p + length vs),
        keyed h (written key (list (push_all at_head vs l)) h.keyspace),
      )
unfolding push_loop
push_loop-made env at_head key [] l a p h e =
    let sum : p ≡ p + 0 = omega arith in
    λ i. done ((true, a, sum i), keyed h (sym (written-same key (list l) h.keyspace e) i))
push_loop-made env at_head key (v ∷ vs) l a p h e =
    let m = list_type_push at_head v l in
    let k = written key (list m) h.keyspace in
    let sum : p + 1 + length vs ≡ p + length (v ∷ vs) = omega arith in
    ap (λ o. and_then o (after_store (push_loop env at_head key vs) a p))
      (on_keys-eq (store_value at_head true key v) h tt k
        (store_value-made at_head key v l h.keyspace e))
    ∙ push_loop-made env at_head key vs m a (p + 1) (keyed h k)
        (written-find key (list m) h.keyspace)
    ∙ λ i. done (
      (true, a, sum i),
      keyed h (written-written key (list m) (list (push_all at_head vs m)) h.keyspace i),
    )

-- The loop from a missing key for which no client waits.
push_loop-new :
    (env : Env) (at_head : Bool) (key v : Bytes) (vs : List Bytes) (h : Hall)
    → find h.keyspace.dict key ≡ none
    → clients_of h.blocking_keys key ≡ []
    → push_loop env at_head key (v ∷ vs) false true 0 0 h
      ≡ done (
        (true, 0, length (v ∷ vs)),
        keyed h (written key (list (push_all at_head (v ∷ vs) [])) h.keyspace),
      )
unfolding push_loop
push_loop-new env at_head key v vs h e w =
    let m = list_type_push at_head v [] in
    let k = written key (list m) h.keyspace in
    let sum : 0 + 1 + length vs ≡ length (v ∷ vs) = omega arith in
    ap (λ o. and_then o (after_wait (push_loop env at_head key vs) at_head key v false 0 0))
      (handle_none env key v h w)
    ∙ ap (λ o. and_then o (after_store (push_loop env at_head key vs) 0 0))
        (on_keys-eq (store_value at_head false key v) h tt k
          (store_value-new at_head key v h.keyspace e))
    ∙ push_loop-made env at_head key vs m 0 (0 + 1) (keyed h k)
        (written-find key (list m) h.keyspace)
    ∙ λ i. done (
      (true, 0, sum i),
      keyed h (written-written key (list m) (list (push_all at_head vs m)) h.keyspace i),
    )

length-push_all :
    (at_head : Bool) (vs l : List Bytes) → length (push_all at_head vs l) ≡ length l + length vs
unfolding list_type_push
length-push_all at_head [] l = omega arith
length-push_all true (v ∷ vs) l = omega (arith, length-push_all true vs (v ∷ l))
length-push_all false (v ∷ vs) l =
    omega (arith, length-push_all false vs (l ++ v ∷ []), length-append l (v ∷ []))

-- The keyspace behind a push of `n` values that makes this list.
abbrev pub pushed_list : Bytes → ℕ → List Bytes → Keyspace → Keyspace
pushed_list key n l k = dirtied n (signalled key (written key (list l) k))

count_push-eq :
    (key : Bytes) (n : ℕ) (k : Keyspace)
    → count_push key (suc n) k ≡ done (tt, dirtied (suc n) (signalled key k))
unfolding pure ◌>>=◌ signal_modified_key add_dirty modify signalled dirtied
count_push-eq key n k = ground arith

push_end-eq :
    (c : ℕ) (key : Bytes) (n : ℕ) (l : List Bytes) (h : Hall)
    → push_end c key ((true, 0, suc n), keyed h (written key (list l) h.keyspace))
      ≡ done (tell c (integer (pos (length l))) (keyed h (pushed_list key (suc n) l h.keyspace)))
unfolding push_end
push_end-eq c key n l h =
    let k = written key (list l) h.keyspace in
    let count : 0 + length l ≡ length l = omega arith in
    rw (written-find key (list l) h.keyspace) (
      ap (map_outcome (λ r. tell c (integer (pos (0 + length l))) (r.1))) (
        on_keys-eq (count_push key (suc n)) (keyed h k) tt (dirtied (suc n) (signalled key k))
          (count_push-eq key n k))
      ∙ λ i.
          done (tell c (integer (pos (count i))) (keyed h (pushed_list key (suc n) l h.keyspace))))

-- The end of a push to a list.
push_end-length :
    (c p : ℕ) (key : Bytes) (at_head : Bool) (v : Bytes) (vs l : List Bytes) (h : Hall)
    → p ≡ length (v ∷ vs)
    → push_end c key
        ((true, 0, p), keyed h (written key (list (push_all at_head (v ∷ vs) l)) h.keyspace))
      ≡ done (
          tell c
            (integer (pos (length l + length (v ∷ vs))))
            (keyed h (pushed_list key (length (v ∷ vs)) (push_all at_head (v ∷ vs) l) h.keyspace)))
push_end-length c p key at_head v vs l h e =
    let m = push_all at_head (v ∷ vs) l in
    ap (λ q. push_end c key ((true, 0, q), keyed h (written key (list m) h.keyspace))) e
    ∙ push_end-eq c key (length vs) m h
    ∙ ap
        (λ n.
          done
            (tell c (integer (pos n)) (keyed h (pushed_list key (length (v ∷ vs)) m h.keyspace))))
        (length-push_all at_head (v ∷ vs) l)

-- The list that a key holds, or the empty one, where there is no other value.
abbrev pub HoldsList : Option Robj → List Bytes → Type 0
HoldsList o l = (o ≡ some (list l)) ⊎ ((o ≡ none) × (l ≡ []))

-- In a sound keyspace, LPUSH or RPUSH of one or more values to a key that holds a list or nothing,
-- and for which no client waits, runs to its end: the values are pushed at that end one after the
-- other, the reply is the new length, the key is signalled once, and as many changes are counted as
-- values were pushed. Nothing else of the server changes.
pub push_generic_command-stored :
    (env : Env) (c : ℕ) (at_head : Bool) (key v : Bytes) (vs l : List Bytes) (h : Hall)
    → IsSound h.keyspace
    → HoldsList (find (evict env key h.keyspace).dict key) l
    → clients_of h.blocking_keys key ≡ []
    → push_generic_command env c at_head key (v ∷ vs) h
      ≡ done (
          tell c (integer (pos (length l + length (v ∷ vs)))) (
            keyed h (
              pushed_list key
                (length (v ∷ vs))
                (push_all at_head (v ∷ vs) l)
                (evict env key h.keyspace))))
unfolding push_generic_command
push_generic_command-stored env c at_head key v vs l h sound holds w =
    let k = evict env key h.keyspace in
    let found =
      on_keys-eq (lookup_key_write env key) h (find k.dict key) k
        (lookup_key_write-eq env key h.keyspace sound) in
    let m = push_all at_head (v ∷ vs) l in
    ap (λ o. and_then o (push_found env c at_head key (v ∷ vs))) found ∙ (elim holds [
      | inl there ↦
          ap (λ o. push_found env c at_head key (v ∷ vs) (o, keyed h k)) there
          ∙ ap (λ r. and_then r (push_end c key))
              (push_loop-made env at_head key (v ∷ vs) l 0 0 (keyed h k) there)
          ∙ push_end-length c (0 + length (v ∷ vs)) key at_head v vs l (keyed h k) (omega arith)
      | inr (absent, empty) ↦
          ap (λ o. push_found env c at_head key (v ∷ vs) (o, keyed h k)) absent
          ∙ ap (λ r. and_then r (push_end c key))
              (push_loop-new env at_head key v vs (keyed h k) absent w)
          ∙ push_end-length c (length (v ∷ vs)) key at_head v vs [] (keyed h k) refl
          ∙ ap
              (λ l. done (
                tell c (integer (pos (length l + length (v ∷ vs))))
                  (keyed h (pushed_list key (length (v ∷ vs)) (push_all at_head (v ∷ vs) l) k))))
              (sym empty)
    ])
