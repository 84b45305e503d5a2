-- ===== src/Base/Dict.antt =====
-- A keyed map as an association list with at most one entry to a key, and the laws that its users
-- have: the program uses hash maps by `get`, `insert`, `remove`, `len` and iteration.

use mathlib.Core.Path.{◌≡◌, refl}
use mathlib.Core.Option.{Option, none, some}
use mathlib.Core.List.{List, [], ◌∷◌}
use native.Mathlib.Omega.{arith}
use mathlib.Core.Logic.{inl, inr}
use godwit.Base.Tests.{if◌then◌else◌, Bool-cases}
use godwit.Base.Keys.{KeyEq, ◌==◌}

abbrev pub Dict : Type 0 → Type 0 → Type 0
Dict K V = List (K × V)

abbrev pub empty : {K V : Type 0} → Dict K V
empty = []

module _ {K V : Type 0} ⦃e : KeyEq K⦄ where
  unfoldable pub get : K → Dict K V → Option V
  get k [] = none
  get k ((j, v) ∷ m) = if j == k then some v else get k m

  unfoldable pub insert : K → V → Dict K V → Dict K V
  insert k v [] = (k, v) ∷ []
  insert k v (entry ∷ m) =
      let rest = insert k v m in if entry.0 == k then (k, v) ∷ m else entry ∷ rest

  unfoldable pub remove : K → Dict K V → Dict K V
  remove k [] = []
  remove k ((j, v) ∷ m) = let rest = remove k m in if j == k then rest else (j, v) ∷ rest

  pub get-insert :
      (k j : K) (v : V) (m : Dict K V) → get j (insert k v m) ≡ (if k == j then some v else get j m)
  unfolding get insert
  get-insert k j v [] = refl
  get-insert k j v ((i, w) ∷ m) =
      ground (arith, e.same_iff k j, e.same_iff i k, e.same_iff i j, get-insert k j v m)

  -- The second of two writes to an entry is the one that is read.
  pub get-insert_twice :
      (k j : K) (v w : V) (m : Dict K V)
      → get j (insert k w (insert k v m)) ≡ (if k == j then some w else get j m)
  get-insert_twice k j v w m = rw (get-insert k j w (insert k v m)) (elim (Bool-cases (k == j)) [
    | inl hit ↦ rw hit
    | inr miss ↦ rw (miss, get-insert k j v m) (rw miss)
  ])

  pub get-remove :
      (k j : K) (m : Dict K V) → get j (remove k m) ≡ (if k == j then none else get j m)
  unfolding get remove
  get-remove k j [] = ground arith
  get-remove k j ((i, w) ∷ m) =
      ground (arith, e.same_iff k j, e.same_iff i k, e.same_iff i j, get-remove k j m)
