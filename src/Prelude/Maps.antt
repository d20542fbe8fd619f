-- ===== src/Prelude/Maps.antt =====
-- Byte strings, their comparison, and dictionaries from byte strings as association lists.
use Prim.Native.Nat.{ℕ}
use Prim.Native.Char.{code}
use Prim.Native.String.{String}
use mathlib.Core.Path.{◌≡◌, refl}
use mathlib.Core.Logic.{◌↔◌}
use mathlib.Core.Bool.{Bool, true, false, ◌&&◌}
use mathlib.Core.Option.{Option, none, some}
use mathlib.Core.List.{List, [], ◌∷◌, ◌++◌}
use native.Mathlib.Omega.{arith}
use gridapps.Prelude.Tests.{◌==◌, if◌then◌else◌}

abbrev pub Bytes : Type 0
Bytes = List ℕ

-- The code points of a literal: its bytes, as it is ASCII.
abbrev pub codes : String → Bytes
codes String.[] = []
codes (String.◌∷◌ c s) = code c ∷ codes s

unfoldable pub bytes_eq : Bytes → Bytes → Bool
bytes_eq [] [] = true
bytes_eq [] (y ∷ ys) = false
bytes_eq (x ∷ xs) [] = false
bytes_eq (x ∷ xs) (y ∷ ys) = (x == y) && bytes_eq xs ys

pub bytes_eq_iff : (a b : Bytes) → (bytes_eq a b ≡ true) ↔ (a ≡ b)
unfolding bytes_eq
bytes_eq_iff [] [] = ground arith
bytes_eq_iff [] (y ∷ ys) = ground arith
bytes_eq_iff (x ∷ xs) [] = ground arith
bytes_eq_iff (x ∷ xs) (y ∷ ys) = ground (arith, bytes_eq_iff xs ys)

pub bytes_eq_refl : (a : Bytes) → bytes_eq a a ≡ true
bytes_eq_refl a = (bytes_eq_iff a a).1 refl

abbrev pub Map {ℓ} : Type ℓ → Type ℓ
Map V = List (Bytes × V)

module _ {ℓ} {V : Type ℓ} where
  -- dictFind, dictFetchValue
  unfoldable pub find : Map V → Bytes → Option V
  find [] k = none
  find ((j, v) ∷ m) k = if bytes_eq j k then some v else find m k

  -- dictReplace, and dictAdd of a new key: an old entry keeps its place
  unfoldable pub put : Map V → Bytes → V → Map V
  put [] k v = (k, v) ∷ []
  put ((j, w) ∷ m) k v = if bytes_eq j k then (k, v) ∷ m else (j, w) ∷ put m k v

  -- dictDelete
  unfoldable pub del : Map V → Bytes → Map V
  del [] k = []
  del ((j, w) ∷ m) k = let rest = del m k in if bytes_eq j k then rest else (j, w) ∷ rest

  pub find-put :
      (m : Map V) (k j : Bytes) (v : V)
      → find (put m k v) j ≡ (if bytes_eq k j then some v else find m j)
  unfolding find put
  find-put [] k j v = refl
  find-put ((i, w) ∷ m) k j v =
      ground (arith, bytes_eq_iff k j, bytes_eq_iff i k, bytes_eq_iff i j, find-put m k j v)

  pub find-del :
      (m : Map V) (k j : Bytes) → find (del m k) j ≡ (if bytes_eq k j then none else find m j)
  unfolding find del
  find-del [] k j = ground arith
  find-del ((i, w) ∷ m) k j =
      ground (arith, bytes_eq_iff k j, bytes_eq_iff i k, bytes_eq_iff i j, find-del m k j)

  pub find-put_self : (m : Map V) (k : Bytes) (v : V) → find (put m k v) k ≡ some v
  find-put_self m k v = simp (find-put, bytes_eq_refl)

  pub find-del_self : (m : Map V) (k : Bytes) → find (del m k) k ≡ none
  find-del_self m k = simp (find-del, bytes_eq_refl)

pub put-append {ℓ} :
    {V : Type ℓ} (m : Map V) (k : Bytes) (v : V) → find m k ≡ none → put m k v ≡ m ++ (k, v) ∷ []
unfolding find put
put-append [] k v h = refl
put-append ((j, w) ∷ m) k v h = ground (arith, put-append m k v)

pub find-append {ℓ} :
    {V : Type ℓ} (a b : Map V) (k : Bytes) → find a k ≡ none → find (a ++ b) k ≡ find b k
unfolding find
find-append [] b k h = refl
find-append ((j, w) ∷ a) b k h = ground (arith, find-append a b k)

pub ruleset map_laws = (find-put, find-del, bytes_eq_refl)
