-- ===== src/Base/HashMap.antt =====
-- `std::collections::HashMap` with numbers for keys, as an association list without duplicates.
-- The order of the entries is not observable: the program only looks up, inserts, removes, counts.
use Prim.Native.Nat.{ℕ, suc, ◌+◌}
use mathlib.Core.Path.{◌≡◌, refl}
use mathlib.Core.List.{List, [], ◌∷◌}
use mathlib.Core.Option.{Option, none, some}
use native.Mathlib.Omega.{arith}
use rust_gpu_driver_lab.Base.Tests.{◌==◌, if◌then◌else◌}

module _ {ℓ} {V : Type ℓ} where
  abbrev pub get : ℕ → List (ℕ × V) → Option V
  get k [] = none
  get k ((j, v) ∷ m) = if j == k then some v else get k m

  -- Replaces the value of a key that is there.
  abbrev pub insert : ℕ → V → List (ℕ × V) → List (ℕ × V)
  insert k v [] = (k, v) ∷ []
  insert k v ((j, w) ∷ m) = if j == k then (k, v) ∷ m else (j, w) ∷ insert k v m

  abbrev pub remove : ℕ → List (ℕ × V) → List (ℕ × V)
  remove k [] = []
  remove k ((j, v) ∷ m) = if j == k then remove k m else (j, v) ∷ remove k m

  abbrev pub length : List (ℕ × V) → ℕ
  length [] = 0
  length (e ∷ m) = suc (length m)

  -- No key stands twice.
  abbrev pub IsMap : List (ℕ × V) → Type ℓ
  IsMap [] = Unit
  IsMap ((k, v) ∷ m) = (get k m ≡ none) × IsMap m

  pub get-insert :
      (k j : ℕ) (v : V) (m : List (ℕ × V))
      → get j (insert k v m) ≡ (if k == j then some v else get j m)
  get-insert k j v [] = refl
  get-insert k j v ((i, w) ∷ m) = ground (arith, get-insert k j v m)

  pub get-remove :
      (k j : ℕ) (m : List (ℕ × V)) → get j (remove k m) ≡ (if k == j then none else get j m)
  get-remove k j [] = ground arith
  get-remove k j ((i, w) ∷ m) = ground (arith, get-remove k j m)

  pub insert-IsMap : (k : ℕ) (v : V) (m : List (ℕ × V)) → IsMap m → IsMap (insert k v m)
  insert-IsMap k v [] u = (refl, tt)
  insert-IsMap k v ((i, w) ∷ m) u = ground (arith, get-insert k i v m, insert-IsMap k v m u.1)

  pub remove-IsMap : (k : ℕ) (m : List (ℕ × V)) → IsMap m → IsMap (remove k m)
  remove-IsMap k [] u = tt
  remove-IsMap k ((i, w) ∷ m) u = ground (arith, get-remove k i m, remove-IsMap k m u.1)

  -- A new key is counted once.
  pub length-insert_new :
      (k : ℕ) (v : V) (m : List (ℕ × V)) → get k m ≡ none → length (insert k v m) ≡ length m + 1
  length-insert_new k v [] h = refl
  length-insert_new k v ((i, w) ∷ m) h = ground (arith, length-insert_new k v m)

  remove_absent : (k : ℕ) (m : List (ℕ × V)) → get k m ≡ none → remove k m ≡ m
  remove_absent k [] h = refl
  remove_absent k ((i, w) ∷ m) h = ground (arith, remove_absent k m)

  -- A key that is there is counted once.
  pub length-remove :
      (k : ℕ) (v : V) (m : List (ℕ × V))
      → IsMap m
      → get k m ≡ some v
      → length (remove k m) + 1 ≡ length m
  length-remove k v [] u h = cc
  length-remove k v ((i, w) ∷ m) u h = ground (arith, length-remove k v m u.1, remove_absent k m)

  -- Replacing a value counts nothing new.
  pub length-insert_there :
      (k : ℕ) (v w : V) (m : List (ℕ × V)) → get k m ≡ some w → length (insert k v m) ≡ length m
  length-insert_there k v w [] h = cc
  length-insert_there k v w ((i, u) ∷ m) h = ground (arith, length-insert_there k v w m)
