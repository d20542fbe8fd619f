-- ===== src/Lists/Equal.antt =====
-- t_list.c, object.c: where listTypeEqual compares all bytes.
use mathlib.Core.List.{reverse, reverse_aux}
use gridapps.Object.Encoding.{get_decoded_object-try_object_encoding}
use gridapps.Lists.Edited.{equals}
use gridapps.Lists.Edits.{list_type_equal, lrem_loop, lrem_of, insert_by, said, same_bytes}
use gridapps.Util.Number.RoundTrip.{string2ll_iff, string2l-eq-string2ll, length-print-le}
use gridapps.Util.Number.{string2l, ll2string}
use gridapps.Db.{Env}
use gridapps.Object.{before_nul, try_object_encoding, raw, int, get_decoded_object}
use gridapps.Prelude.{
  false, none, some, refl, [], ◌∷◌, Bytes, List, ℤ, ◌≡◌, arith, bytes_eq, bytes_eq_iff, pos, negsuc,
  inl, inr, ltb_ℤ, ◌⊎◌, ap, not, ◌&&◌, Option-cases, Bool-cases, sym, ◌∙◌, true, InInt64, Bool, ℕ,
  if◌then◌else◌, ◌+◌,
}

-- The strings have no nul.
abbrev pub NulFree : List Bytes → Type 0
NulFree [] = Unit
NulFree (x ∷ l) = (before_nul x ≡ x) × NulFree l

-- The list at the key is a ziplist, or neither the value nor an element has a nul.
abbrev pub Comparable : Env → Bytes → Bytes → List Bytes → Type 0
Comparable env key v l = (env.linked key ≡ false) ⊎ NulFree (v ∷ l)

-- A buffer of 128 bytes holds the text too.
ll2string-roomy : (v : ℤ) → InInt64 v → ll2string 128 v ≡ ll2string 32 v
unfolding ll2string
ll2string-roomy v h = ground (arith, length-print-le v h)

encode-none : (s : Bytes) → string2l s ≡ none → try_object_encoding 1 (raw s) ≡ raw s
unfolding try_object_encoding
encode-none s e = rw e refl

encode-some : (s : Bytes) (a : ℤ) → string2l s ≡ some a → try_object_encoding 1 (raw s) ≡ int a
unfolding try_object_encoding
encode-some s a e = rw e refl

-- What the encoding of a string is.
encoded-cases :
    (s : Bytes)
    → ((try_object_encoding 1 (raw s) ≡ raw s) × (string2l s ≡ none))
      ⊎ ((a : ℤ) × (try_object_encoding 1 (raw s) ≡ int a)
          × (ll2string 128 a ≡ s)
          × (string2l s ≡ some a))
encoded-cases s = elim (Option-cases (string2l s)) [
  | inl e ↦ inl (encode-none s e, e)
  | inr (a, e) ↦
      let (fits, text) = (string2ll_iff s a).0 (sym (string2l-eq-string2ll s) ∙ e) in
      inr (a, encode-some s a e, ll2string-roomy a fits ∙ text, e)
]

not_below : (a b : ℤ) → ltb_ℤ a b ≡ false → ltb_ℤ b a ≡ false → a ≡ b
not_below (pos a) (pos b) h k = ap pos (ground arith)
not_below (pos a) (negsuc b) h k = ground arith
not_below (negsuc a) (pos b) h k = ground arith
not_below (negsuc a) (negsuc b) h k = ap negsuc (ground arith)

not_self : (a : ℤ) → ltb_ℤ a a ≡ false
not_self (pos a) = ground arith
not_self (negsuc a) = ground arith

bytes_eq_sym : (s t : Bytes) → bytes_eq s t ≡ bytes_eq t s
bytes_eq_sym s t = ground (arith, bytes_eq_iff s t, bytes_eq_iff t s)

-- A string that is not an integer as text is no string that is.
differs : (s t : Bytes) (a : ℤ) → string2l s ≡ none → string2l t ≡ some a → bytes_eq s t ≡ false
differs s t a h k = ground (arith, bytes_eq_iff s t)

same_number :
    (x v : Bytes) (a b : ℤ)
    → ll2string 128 a ≡ x
    → ll2string 128 b ≡ v
    → string2l x ≡ some a
    → string2l v ≡ some b
    → (not (ltb_ℤ b a) && not (ltb_ℤ a b)) ≡ bytes_eq x v
same_number x v a b tx tv sx sv = elim (Bool-cases (bytes_eq x v)) [
  | inl same ↦
      let e : x ≡ v = (bytes_eq_iff x v).0 same in
      let number : a ≡ b = ground (arith) in rw (same, number, not_self b) refl
  | inr other ↦ ground (arith, not_below a b, bytes_eq_iff x v)
]

-- Two encoded strings, and an encoded string and one that is not.
equal-encoded :
    (x v : Bytes)
    → before_nul x ≡ x
    → before_nul v ≡ v
    → list_type_equal true (try_object_encoding 1 (raw v)) x ≡ bytes_eq x v
unfolding list_type_equal
equal-encoded x v nx nv = elim (encoded-cases x) [
  | inl (ex, sx) ↦ elim (encoded-cases v) [
    | inl (ev, sv) ↦ rw (ex, ev) (bytes_eq_sym v x)
    | inr (b, ev, tv, sv) ↦ rw (ex, ev, tv, nx, nv) (bytes_eq_sym v x)
  ]
  | inr (a, ex, tx, sx) ↦ elim (encoded-cases v) [
    | inl (ev, sv) ↦ rw (ex, ev, tx, nx, nv) (bytes_eq_sym v x)
    | inr (b, ev, tv, sv) ↦ rw (ex, ev) (same_number x v a b tx tv sx sv)
  ]
]

equal-raw :
    (x v : Bytes)
    → before_nul x ≡ x
    → before_nul v ≡ v
    → list_type_equal true (raw v) x ≡ bytes_eq x v
unfolding list_type_equal
equal-raw x v nx nv = elim (encoded-cases x) [
  | inl (ex, sx) ↦ rw ex (bytes_eq_sym v x)
  | inr (a, ex, tx, sx) ↦ rw (ex, tx, nx, nv) (bytes_eq_sym v x)
]

compact-encoded :
    (x v : Bytes) → list_type_equal false (try_object_encoding 1 (raw v)) x ≡ bytes_eq x v
unfolding list_type_equal
compact-encoded x v = ap (λ o. said (same_bytes x o)) (get_decoded_object-try_object_encoding 1 v)

compact-raw : (x v : Bytes) → list_type_equal false (raw v) x ≡ bytes_eq x v
unfolding list_type_equal get_decoded_object
compact-raw x v = refl

-- The two tests agree on every element.
abbrev pub Agree : (Bytes → Bool) → (Bytes → Bool) → List Bytes → Type 0
Agree f g [] = Unit
Agree f g (x ∷ l) = (f x ≡ g x) × Agree f g l

all-Agree : (f g : Bytes → Bool) → ((x : Bytes) → f x ≡ g x) → (l : List Bytes) → Agree f g l
all-Agree f g h [] = tt
all-Agree f g h (x ∷ l) = (h x, all-Agree f g h l)

free-Agree :
    (f g : Bytes → Bool)
    → ((x : Bytes) → before_nul x ≡ x → f x ≡ g x)
    → (l : List Bytes) → NulFree l
    → Agree f g l
free-Agree f g h [] n = tt
free-Agree f g h (x ∷ l) (nx, n) = (h x nx, free-Agree f g h l n)

pub encoded-Agree :
    (env : Env) (key v : Bytes) (l : List Bytes)
    → Comparable env key v l
    → Agree (list_type_equal (env.linked key) (try_object_encoding 1 (raw v))) (equals v) l
encoded-Agree env key v l (inl e) = rw e (all-Agree _ (equals v) (λ x. compact-encoded x v) l)
encoded-Agree env key v l (inr (nv, n)) = elim (Bool-cases (env.linked key)) [
  | inl e ↦ rw e (free-Agree _ (equals v) (λ x nx. equal-encoded x v nx nv) l n)
  | inr e ↦ rw e (all-Agree _ (equals v) (λ x. compact-encoded x v) l)
]

pub raw-Agree :
    (env : Env) (key v : Bytes) (l : List Bytes)
    → Comparable env key v l
    → Agree (list_type_equal (env.linked key) (raw v)) (equals v) l
raw-Agree env key v l (inl e) = rw e (all-Agree _ (equals v) (λ x. compact-raw x v) l)
raw-Agree env key v l (inr (nv, n)) = elim (Bool-cases (env.linked key)) [
  | inl e ↦ rw e (free-Agree _ (equals v) (λ x nx. equal-raw x v nx nv) l n)
  | inr e ↦ rw e (all-Agree _ (equals v) (λ x. compact-raw x v) l)
]

Agree-reverse_aux :
    (f g : Bytes → Bool) (l r : List Bytes)
    → Agree f g l
    → Agree f g r
    → Agree f g (reverse_aux l r)
Agree-reverse_aux f g [] r h k = k
Agree-reverse_aux f g (x ∷ l) r (hx, h) k = Agree-reverse_aux f g l (x ∷ r) h (hx, k)

lrem_loop-Agree :
    (n r : ℕ) (f g : Bytes → Bool) (l : List Bytes)
    → Agree f g l
    → lrem_loop n r f l ≡ lrem_loop n r g l
unfolding lrem_loop
lrem_loop-Agree n r f g [] h = refl
lrem_loop-Agree n r f g (x ∷ l) (hx, h) =
    rw (hx, lrem_loop-Agree n (if g x then r + 1 else r) f g l h) refl

-- LREM and LINSERT see no more of the test than its answers on the elements.
pub lrem_of-Agree :
    (c : ℤ) (f g : Bytes → Bool) (l : List Bytes) → Agree f g l → lrem_of c f l ≡ lrem_of c g l
unfolding lrem_of
lrem_of-Agree (pos n) f g l h = lrem_loop-Agree n 0 f g l h
lrem_of-Agree (negsuc n) f g l h =
    ap (λ r. (r.0, reverse (r.1)))
      (lrem_loop-Agree (n + 1) 0 f g (reverse l) (Agree-reverse_aux f g l [] h tt))

pub insert_by-Agree :
    (after : Bool) (f g : Bytes → Bool) (value : Bytes) (l : List Bytes)
    → Agree f g l
    → insert_by after f value l ≡ insert_by after g value l
unfolding insert_by
insert_by-Agree after f g value [] h = refl
insert_by-Agree after f g value (x ∷ l) (hx, h) = rw (hx, insert_by-Agree after f g value l h) refl
