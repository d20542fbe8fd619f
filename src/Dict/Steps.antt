-- ===== src/Dict/Steps.antt =====
-- dict.c: dictRehash and the step at the start of each operation.
use gridapps.Dict.Rehash.{IsGood, Same, rehash_round_total}
use gridapps.Dict.{Dict, rehash_round, dict_rehash, is_rehashing, rehash_step}
use gridapps.Prelude.{
  none, some, zero, suc, Bytes, ℕ, Option, ◌≡◌, Bool, refl, inl, inr, ◌∙◌, ◌⊎◌, true, false, ◌==◌,
  if◌then◌else◌, ◌&&◌, Bool-cases, arith,
}

pub Option-cases : (o : Option ℕ) → (o ≡ none) ⊎ ((i : ℕ) × (o ≡ some i))
Option-cases none = inl refl
Option-cases (some i) = inr (i, refl)

module _ {V : Type 0} (hash : Bytes → ℕ) where
  pub Same-refl : (d : Dict V) → IsGood hash d → Same hash d d
  Same-refl d g = record {
    good = g;
    same_value = λ key. refl;
    same_used = refl;
    same_iterators = refl;
    still_table = λ h. h;
  }

  pub Same-trans : (a b c : Dict V) → Same hash a b → Same hash b c → Same hash a c
  Same-trans a b c p q = record {
    good = q.good;
    same_value = λ key. q.same_value key ∙ p.same_value key;
    same_used = q.same_used ∙ p.same_used;
    same_iterators = q.same_iterators ∙ p.same_iterators;
    still_table = λ h. q.still_table (p.still_table h);
  }

  rehash_next :
      (n : ℕ) (d : Dict V) (i : ℕ) (d' : Dict V) (more : Bool)
      → d.rehashidx ≡ some i
      → rehash_round hash d i ≡ some (d', more)
      → dict_rehash hash (suc n) d ≡ (if more then dict_rehash hash n d' else some (d', false))
  unfolding dict_rehash
  rehash_next n d i d' true e r = rw (e, r, dict_rehash)
  rehash_next n d i d' false e r = rw (e, r, dict_rehash)

  after_round :
      (n : ℕ) (d : Dict V) (i : ℕ) (d' : Dict V) (more : Bool)
      → d.rehashidx ≡ some i
      → rehash_round hash d i ≡ some (d', more)
      → Same hash d d'
      → (e : Dict V) × (last : Bool) × (dict_rehash hash n d' ≡ some (e, last)) × Same hash d' e
      → (e : Dict V) × (last : Bool) × (dict_rehash hash (suc n) d ≡ some (e, last)) × Same hash d e
  after_round n d i d' true e r same (f, last, rest, same') =
      (f, last, rehash_next n d i d' true e r ∙ rest, Same-trans d d' f same same')
  after_round n d i d' false e r same rest = (d', false, rehash_next n d i d' false e r, same)

  -- However many steps of rehashing are asked for, in a dictionary in order they stay inside the
  -- tables, end in a dictionary in order, and change the value of no key and no count.
  pub dict_rehash_total :
      (n : ℕ) (d : Dict V)
      → IsGood hash d
      → (d' : Dict V) × (more : Bool) × (dict_rehash hash n d ≡ some (d', more)) × Same hash d d'
  unfolding dict_rehash
  dict_rehash_total zero d g = (d, is_rehashing d, refl, Same-refl d g)
  dict_rehash_total (suc n) d g = elim (Option-cases d.rehashidx) [
    | inl e ↦ (d, false, ground arith, Same-refl d g)
    | inr (i, e) ↦
        let r = rehash_round_total hash d i g e in
        after_round n d i (r.0) (r.1) e r.2 r.3 (dict_rehash_total n (r.0) (r.3).good)
  ]

  rehash_step_guarded :
      (d e : Dict V) (more : Bool)
      → dict_rehash hash 1 d ≡ some (e, more)
      → rehash_step hash d ≡ some (if is_rehashing d && d.iterators == 0 then e else d)
  unfolding rehash_step
  rehash_step_guarded d e more h = elim (Bool-cases (is_rehashing d && d.iterators == 0)) [
    | inl t ↦ rw (t, h)
    | inr f ↦ rw f
  ]

  Same-if :
      (b : Bool) (d e : Dict V) → IsGood hash d → Same hash d e → Same hash d (if b then e else d)
  Same-if true d e g h = h
  Same-if false d e g h = Same-refl d g

  pub rehash_step_total :
      (d : Dict V) → IsGood hash d → (d' : Dict V) × (rehash_step hash d ≡ some d') × Same hash d d'
  rehash_step_total d g =
      let r = dict_rehash_total 1 d g in
      (
        (if is_rehashing d && d.iterators == 0 then r.0 else d),
        rehash_step_guarded d (r.0) (r.1) r.2,
        Same-if (is_rehashing d && d.iterators == 0) d (r.0) g r.3,
      )
