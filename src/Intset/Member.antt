-- ===== src/Intset/Member.antt =====
-- intset.c: finding a value, and finding it again behind an addition.
use gridapps.Intset.Valid.{intset_add-IsValid}
use gridapps.Intset.Search.{Explains, intset_search-Explains}
use gridapps.Intset.{
  Intset, intset_find, add_at, intset_upgrade_and_add, intset_add, intset_search, value_at,
  intset_value_encoding,
}
use gridapps.Prelude.{
  true, false, refl, arith, ℤ, ℕ, Bool, ◌≡◌, ◌<◌, ◌↔◌, length, ap, pos, inl, inr, Bool-cases, ltb_ℤ,
  ltb,
}
use gridapps.Intset.Insert.{IsValid, length-insert_at, insert_at_self, append_last}

-- Some position holds the value.
abbrev pub Has : Intset → ℤ → Type 0
Has s v = (i : ℕ) × (i < length s.contents) × (value_at s.contents i ≡ v)

found :
    (s : Intset) (v : ℤ) (at : Bool × ℕ) → Explains s.contents v (at.1) at → at.0 ≡ true → Has s v
found s v (true, p) told e = (p, told.0, told.1)
found s v (false, p) told e = absurd (ground arith)

not_missed :
    (s : Intset) (v : ℤ) (at : Bool × ℕ) (i : ℕ)
    → Explains s.contents v i at
    → i < length s.contents
    → value_at s.contents i ≡ v
    → at.0 ≡ true
not_missed s v (true, p) i told h e = refl
not_missed s v (false, p) i told h e = absurd (grind (arith, told))

-- In a set whose elements ascend and fit its width, intsetFind answers 1 exactly for the elements.
pub intset_find_iff : (s : Intset) (v : ℤ) → IsValid s → (intset_find s v ≡ true) ↔ Has s v
unfolding intset_find
intset_find_iff s v sound = (
  λ h.
      found s v (intset_search s.contents v)
        (intset_search-Explains s.contents v (sound.0) ((intset_search s.contents v).1))
        (ground arith),
  λ m. grind (
    arith,
    ap (λ v. intset_value_encoding v) (m.2),
    sound.1 (m.0) (m.1),
    not_missed s v (intset_search s.contents v) (m.0)
        (intset_search-Explains s.contents v (sound.0) (m.0)) (m.1) (m.2),
  ),
)

added :
    (s : Intset) (v : ℤ) (at : Bool × ℕ)
    → ((i : ℕ) → Explains s.contents v i at)
    → Has ((add_at s v at).0) v
unfolding add_at
added s v (true, p) told = (p, (told 0).0, (told 0).1)
added s v (false, p) told = (
  p,
  omega (arith, length-insert_at p v s.contents, told 0),
  insert_at_self p v s.contents ((told 0).0),
)

upgraded-Has : (s : Intset) (v : ℤ) → Has (intset_upgrade_and_add s v) v
unfolding intset_upgrade_and_add
upgraded-Has s v = elim (Bool-cases (ltb_ℤ v (pos 0))) [
  | inl e ↦ rw e (0, omega arith, refl)
  | inr e ↦
      rw (e, append_last v s.contents)
        (
          length s.contents,
          omega (arith, length-insert_at (length s.contents) v s.contents),
          insert_at_self (length s.contents) v s.contents (omega arith),
        )
]

intset_add-Has : (s : Intset) (v : ℤ) → IsValid s → Has ((intset_add s v).0) v
unfolding intset_add
intset_add-Has s v sound = elim (Bool-cases (ltb s.encoding (intset_value_encoding v))) [
  | inl wide ↦ rw wide (upgraded-Has s v)
  | inr narrow ↦
      rw narrow
        (added s v (intset_search s.contents v) (intset_search-Explains s.contents v (sound.0)))
]

-- A value that was added to a set whose elements ascend and fit its width is found in the result.
pub intset_find-intset_add :
    (s : Intset) (v : ℤ) → IsValid s → intset_find ((intset_add s v).0) v ≡ true
intset_find-intset_add s v sound =
    (intset_find_iff ((intset_add s v).0) v (intset_add-IsValid s v sound)).1
      (intset_add-Has s v sound)
