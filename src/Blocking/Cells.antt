-- ===== src/Blocking/Cells.antt =====
-- t_list.c: the writes of a push as functions of the keyspace.
use gridapps.Prelude.{
  true, false, none, some, refl, [], ◌∷◌, Bool, Bytes, List, ◌≡◌, find, arith, put, find-put_self,
  ap, Map, bytes_eq_refl, bytes_eq_iff,
}
use gridapps.Blocking.{
  Hall, unhandled, on_keys, back, push_onto, store_value, handle_clients_waiting_list_push,
  serve_waiting,
}
use gridapps.Lists.{list_type_push, write_list}
use gridapps.Multi.{map_outcome, clients_of}
use gridapps.Db.{Env, Keyspace, done, pure, ◌>>=◌, db_add, modify, assert, M}
use gridapps.Db.Effects.{written}
use gridapps.Object.{Robj, list}

-- The hall with another keyspace.
abbrev pub keyed : Hall → Keyspace → Hall
keyed h k = record h { keyspace = k }

pub handle_none :
    (env : Env) (key v : Bytes) (h : Hall)
    → clients_of h.blocking_keys key ≡ []
    → handle_clients_waiting_list_push env key v h ≡ done (unhandled, h)
unfolding handle_clients_waiting_list_push serve_waiting
handle_none env key v h e = rw e refl

pub store_value-made :
    (at_head : Bool) (key v : Bytes) (l : List Bytes) (s : Keyspace)
    → find s.dict key ≡ some (list l)
    → store_value at_head true key v s
      ≡ done (tt, written key (list (list_type_push at_head v l)) s)
unfolding store_value push_onto write_list modify pure ◌>>=◌ written
store_value-made at_head key v l s e = rw e refl

put-put : (m : Map Robj) (key : Bytes) (a b : Robj) → put (put m key a) key b ≡ put m key b
unfolding put
put-put [] key a b = ground (arith, bytes_eq_refl key)
put-put ((j, w) ∷ m) key a b = ground (arith, bytes_eq_refl key, put-put m key a b)

put-find : (m : Map Robj) (key : Bytes) (o : Robj) → find m key ≡ some o → put m key o ≡ m
unfolding put find
put-find [] key o h = ground arith
put-find ((j, w) ∷ m) key o h = ground (arith, bytes_eq_iff j key, put-find m key o)

pub written-written :
    (key : Bytes) (a b : Robj) (s : Keyspace) → written key b (written key a s) ≡ written key b s
unfolding written
written-written key a b s = λ i. record s { dict = put-put s.dict key a b i }

pub written-same :
    (key : Bytes) (o : Robj) (s : Keyspace) → find s.dict key ≡ some o → written key o s ≡ s
unfolding written
written-same key o s h = λ i. record s { dict = put-find s.dict key o h i }

pub written-find :
    (key : Bytes) (o : Robj) (s : Keyspace) → find (written key o s).dict key ≡ some o
unfolding written
written-find key o s = find-put_self s.dict key o

pub db_add-written :
    (key : Bytes) (o : Robj) (s : Keyspace)
    → find s.dict key ≡ none
    → db_add key o s ≡ done (tt, written key o s)
unfolding db_add modify assert ◌>>=◌ written
db_add-written key o s e = rw e refl

pub store_value-new :
    (at_head : Bool) (key v : Bytes) (s : Keyspace)
    → find s.dict key ≡ none
    → store_value at_head false key v s
      ≡ done (tt, written key (list (list_type_push at_head v [])) s)
unfolding store_value push_onto write_list modify pure ◌>>=◌ written
store_value-new at_head key v s e =
    let empty = written key (list []) s in
    rw (db_add-written key (list []) s e, written-find key (list []) s)
      (ap (λ t. done (tt, t))
        (written-written key (list []) (list (list_type_push at_head v [])) s))

pub on_keys-eq :
    {A : Type 0} (m : M A) (h : Hall) (a : A) (k : Keyspace)
    → m h.keyspace ≡ done (a, k)
    → on_keys m h ≡ done (a, keyed h k)
unfolding on_keys
on_keys-eq m h a k e = ap (map_outcome (back h)) e
