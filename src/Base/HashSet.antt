-- ===== src/Base/HashSet.antt =====
-- `std::collections::HashSet` of numbers, as a list. Only membership is observed.
use Prim.Native.Nat.{ℕ}
use mathlib.Core.Path.{◌≡◌}
use mathlib.Core.Bool.{Bool, false, ◌||◌, ◌&&◌, not}
use mathlib.Core.List.{List, [], ◌∷◌}
use native.Mathlib.Omega.{arith}
use rust_gpu_driver_lab.Base.Tests.{◌==◌, if◌then◌else◌}

abbrev pub contains : ℕ → List ℕ → Bool
contains k [] = false
contains k (j ∷ s) = j == k || contains k s

abbrev pub insert : ℕ → List ℕ → List ℕ
insert k s = if contains k s then s else k ∷ s

abbrev pub remove : ℕ → List ℕ → List ℕ
remove k [] = []
remove k (j ∷ s) = if j == k then remove k s else j ∷ remove k s

pub contains-insert : (k j : ℕ) (s : List ℕ) → contains j (insert k s) ≡ (k == j || contains j s)
contains-insert k j s = ground arith

pub contains-remove :
    (k j : ℕ) (s : List ℕ) → contains j (remove k s) ≡ (not (k == j) && contains j s)
contains-remove k j [] = ground arith
contains-remove k j (i ∷ s) = ground (arith, contains-remove k j s)
