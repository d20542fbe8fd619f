-- ===== src/Strings/Totals.antt =====
-- t_string.c: how the commands on strings end, from the reading of their arguments on.
use mathlib.Core.Path.{subst, sym}
use gridapps.Strings.Basic.Store.{set_rest-busy, set_rest-free-Succeeds}
use gridapps.Db.Evict.{evict, evict-IsSound}
use gridapps.Reply.{Reply, error, czero, offset_out_of_range, invalid_bit_offset, invalid_bit}
use gridapps.Strings.Sound.{
  Keeps-with_long_long, Keeps-with_long, getbit_rest-Keeps, KeepsAt-with_long_long,
  getrange_rest-Keeps, Keeps-bulk, setrange_rest-Keeps, setbit_rest-Keeps,
}
use gridapps.Db.Keeps.{
  Keeps, Keeps-pure, Keeps-bind, KeepsAt, Keeps-lookup_bind, Keeps-if, Keeps-lookup_key_read,
  Keeps-lookup_key_write, Keeps-set_key, Keeps-add_dirty, keeps_rules, KeepsAt-if, KeepsAt-Keeps,
}
use gridapps.Strings.Range.{setrange_command, getrange_command, setrange_rest}
use gridapps.Strings.Counter.{incr_rest, incr_decr_command, incrby_command, decrby_command}
use gridapps.Strings.Basic.{
  mget_reply, mget_loop, busy_keys, set_pairs, mset_rest, mset_generic_command, set_generic_command,
  set_rest, pairs, with_long,
}
use gridapps.Object.{
  is_string, Robj, raw, parsed, Strtoll, get_long_long_from_object, strtoll, in_long_range,
}
use gridapps.Strings.Bit.{with_bit_offset, setbit_command, getbit_command, setbit_rest}
use gridapps.Db.{◌>>=◌, Env, M, is_some, pure, present}
use gridapps.Prelude.{
  none, some, refl, pos, negsuc, inl, inr, [], ◌∷◌, Bytes, Bool, ℕ, Option, List, ℤ, if◌then◌else◌,
  ◌==◌, Bool-cases, leb_ℤ, length, Option-cases, ◌&&◌, leb, ◌*◌, ◌/◌, ◌^◌, arith, pos_part, ◌+◌,
  ◌≡◌, ◌<◌, two63, ap,
}

-- The value that was read is what strtoll says.
pub parsed-value : (erange : Bool) (r : Strtoll) (v : ℤ) → parsed erange r ≡ some v → v ≡ r.value
unfolding parsed
parsed-value erange r v h = ground arith

pub read_text :
    (erange : Bool) (arg : Bytes) (r : Option ℤ)
    → parsed erange (strtoll arg) ≡ r
    → get_long_long_from_object erange (some (raw arg)) ≡ some r
unfolding get_long_long_from_object
read_text erange arg r e = ap some e

Keeps-with_text :
    (env : Env) (arg : Bytes) (k : ℤ → M Reply)
    → ((v : ℤ) → v ≡ (strtoll arg).value → Keeps (k v))
    → Keeps (with_long env (some (raw arg)) none k)
unfolding with_long
Keeps-with_text env arg k h = elim (Option-cases (parsed env.erange (strtoll arg))) [
  | inl e ↦ rw (read_text env.erange arg none e, with_long) (Keeps-pure _)
  | inr (v, e) ↦
      rw (read_text env.erange arg (some v) e, with_long)
        (Keeps-if (in_long_range v) _ _ (λ _. h v (parsed-value env.erange (strtoll arg) v e))
          (λ _. Keeps-pure _))
]

module _ (env : Env) (key : Bytes) where
  pub set_rest-Keeps :
      (nx : Bool) (o : Robj) (seconds : Option ℤ) → Keeps (set_rest env nx key o seconds)
  set_rest-Keeps nx o seconds = record {
    at = λ s h. elim (Bool-cases (present (evict env key s).dict key && nx)) [
      | inl busy ↦ rw (set_rest-busy env nx key o seconds s h busy) (evict-IsSound env key s h)
      | inr free ↦ set_rest-free-Succeeds env nx key o seconds s h free
    ];
  }

  pub set_generic-Keeps :
      (nx : Bool) (o : Robj) (expire : Option Bytes)
      → Keeps (set_generic_command env nx key o expire)
  unfolding set_generic_command is_string
  set_generic-Keeps nx o none = set_rest-Keeps nx o none
  set_generic-Keeps nx o (some e) =
      Keeps-with_long env (some (raw e)) none _ refl (λ v.
        Keeps-if (leb_ℤ v (pos 0)) _ _ (λ _. Keeps-pure _) (λ _. set_rest-Keeps nx o (some v)))

  pub incr_rest-KeepsAt :
      (o : Option Robj) (value incr : ℤ) → KeepsAt key o (incr_rest key (is_some o) value incr)
  unfolding incr_rest
  incr_rest-KeepsAt none value incr = search keeps_rules depth 8
  incr_rest-KeepsAt (some o) value incr = search keeps_rules depth 8

  pub incr_decr-Keeps : (incr : ℤ) → Keeps (incr_decr_command env key incr)
  unfolding incr_decr_command
  incr_decr-Keeps incr =
      Keeps-lookup_bind env key _
        (KeepsAt-with_long_long env key none none none _ tt (λ v. incr_rest-KeepsAt none v incr))
        (λ o.
          KeepsAt-if (is_string o) _ _
            (λ t.
              KeepsAt-with_long_long env key (some o) (some o) none _ t
                (λ v. incr_rest-KeepsAt (some o) v incr))
            (λ _. KeepsAt-Keeps key (some o) _ (Keeps-pure _)))

  pub incrby-Keeps : (arg : Bytes) → Keeps (incrby_command env key arg)
  unfolding incrby_command is_string
  incrby-Keeps arg = Keeps-with_long_long env (some (raw arg)) none _ refl incr_decr-Keeps

  pub decrby-Keeps : (arg : Bytes) → Keeps (decrby_command env key arg)
  unfolding decrby_command is_string
  decrby-Keeps arg = Keeps-with_long_long env (some (raw arg)) none _ refl (λ n. incr_decr-Keeps _)

  pub setrange-Keeps :
      (offset value : Bytes)
      → pos_part ((strtoll offset).value) + length value < two63
      → Keeps (setrange_command env key offset value)
  unfolding setrange_command
  setrange-Keeps offset value fits =
      Keeps-with_text env offset _
        λ n e. offset_cases n (subst (λ v. pos_part v + length value < two63) (sym e) fits)
    where
      offset_cases :
          (n : ℤ)
          → pos_part n + length value < two63
          → Keeps {A = Reply} (elim n [
            | negsuc m ↦ pure (error offset_out_of_range)
            | pos m ↦ setrange_rest env key m value
          ])
      offset_cases (negsuc m) h = Keeps-pure _
      offset_cases (pos m) h = setrange_rest-Keeps env key m value h

  pub getrange-Keeps : (start end' : Bytes) → Keeps (getrange_command env key start end')
  unfolding getrange_command is_string
  getrange-Keeps start end' =
      Keeps-with_long env (some (raw start)) none _ refl
        λ m. Keeps-with_long env (some (raw end')) none _ refl λ n. getrange_rest-Keeps env key m n

pub with_bit_offset-Keeps :
    (env : Env) (arg : Bytes) (k : ℕ → M Reply)
    → ((n : ℕ) → Keeps (k n))
    → Keeps (with_bit_offset env arg k)
unfolding with_bit_offset is_string
with_bit_offset-Keeps env arg k h = Keeps-with_long_long env (some (raw arg)) _ _ refl offset_cases
  where
    offset_cases :
        (n : ℤ)
        → Keeps {A = Reply} (elim n [
          | negsuc m ↦ pure (error invalid_bit_offset)
          | pos m ↦
              if leb (512 * 1024 * 1024) (m / 2 ^ 3) then pure (error invalid_bit_offset) else k m
        ])
    offset_cases (negsuc m) = Keeps-pure _
    offset_cases (pos m) =
        Keeps-if (leb (512 * 1024 * 1024) (m / 2 ^ 3)) (pure (error invalid_bit_offset)) (k m)
          (λ _. Keeps-pure _) (λ _. h m)

module _ (env : Env) where
  pub setbit-Keeps : (key offset on : Bytes) → Keeps (setbit_command env key offset on)
  unfolding setbit_command is_string
  setbit-Keeps key offset on =
      with_bit_offset-Keeps env offset _
        λ n. Keeps-with_long env (some (raw on)) _ _ refl (bit_cases n)
    where
      bit_cases :
          (n : ℕ) (v : ℤ)
          → Keeps {A = Reply} (elim v [
            | negsuc m ↦ pure (error invalid_bit)
            | pos m ↦ if leb m 1 then setbit_rest env key n m else pure (error invalid_bit)
          ])
      bit_cases n (negsuc m) = Keeps-pure _
      bit_cases n (pos m) =
          Keeps-if (leb m 1) (setbit_rest env key n m) (pure (error invalid_bit))
            (λ _. setbit_rest-Keeps env key n m) (λ _. Keeps-pure _)

  pub getbit-Keeps : (key offset : Bytes) → Keeps (getbit_command env key offset)
  unfolding getbit_command
  getbit-Keeps key offset = with_bit_offset-Keeps env offset _ (λ n. getbit_rest-Keeps env key n)

  pub mget_reply-Keeps : (o : Option Robj) → Keeps (mget_reply o)
  unfolding mget_reply
  mget_reply-Keeps none = Keeps-pure _
  mget_reply-Keeps (some o) = Keeps-if (is_string o) _ _ (Keeps-bulk o) (λ _. Keeps-pure _)

  pub mget_loop-Keeps : (keys : List Bytes) → Keeps (mget_loop env keys)
  unfolding mget_loop
  mget_loop-Keeps [] = Keeps-pure _
  mget_loop-Keeps (key ∷ keys) = Keeps-bind _ _ (Keeps-lookup_key_read env key) λ o.
      Keeps-bind _ _ (mget_reply-Keeps o)
        λ r. Keeps-bind _ _ (mget_loop-Keeps keys) (λ rs. Keeps-pure _)

  pub busy_keys-Keeps : (ps : List (Bytes × Bytes)) → Keeps (busy_keys env ps)
  unfolding busy_keys
  busy_keys-Keeps [] = Keeps-pure _
  busy_keys-Keeps ((k, v) ∷ ps) =
      Keeps-bind _ _ (Keeps-lookup_key_write env k)
        λ o. Keeps-bind _ _ (busy_keys-Keeps ps) (λ n. Keeps-pure _)

  pub set_pairs-Keeps : (ps : List (Bytes × Bytes)) → Keeps (set_pairs env ps)
  unfolding set_pairs
  set_pairs-Keeps [] = Keeps-pure _
  set_pairs-Keeps ((k, v) ∷ ps) = Keeps-bind _ _ (Keeps-set_key env k _) (λ _. set_pairs-Keeps ps)

  pub mset_rest-Keeps : (nx : Bool) (ps : List (Bytes × Bytes)) → Keeps (mset_rest env nx ps)
  unfolding mset_rest
  mset_rest-Keeps nx ps =
      Keeps-bind _ _ (set_pairs-Keeps ps)
        λ _. Keeps-bind _ _ (Keeps-add_dirty (length ps)) (λ _. Keeps-pure _)

  pub mset_generic-Keeps :
      (nx : Bool) (args : List Bytes) → Keeps (mset_generic_command env nx args)
  unfolding mset_generic_command
  mset_generic-Keeps nx args = elim (Option-cases (pairs args)) [
    | inl e ↦ rw (mset_generic_command, e) (Keeps-pure _)
    | inr (ps, e) ↦ rw (mset_generic_command, e) (pair_cases nx ps)
  ]
    where
      pair_cases :
          (b : Bool) (ps : List (Bytes × Bytes))
          → Keeps (
              if b
              then (do
                busy ← busy_keys env ps
                if busy == 0 then mset_rest env nx ps else pure czero)
              else mset_rest env nx ps)
      pair_cases b ps =
          Keeps-if b _ _
            (λ _.
              Keeps-bind _ _ (busy_keys-Keeps ps)
                λ n. Keeps-if (n == 0) _ _ (λ _. mset_rest-Keeps nx ps) (λ _. Keeps-pure _))
            (λ _. mset_rest-Keeps nx ps)
