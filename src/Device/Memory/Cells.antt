-- ===== src/Device/Memory/Cells.antt =====
-- Slices of lists, cell by cell.
use rust_gpu_driver_lab.Base.{
  ℕ, zero, suc, ◌+◌, ◌≤◌, ◌≡◌, List, [], ◌∷◌, ◌++◌, length, take, drop, replicate, get_or, arith,
  refl, ap, ◌∙◌, sym,
}
use rust_gpu_driver_lab.Device.Memory.{copy, window}

abbrev pub cells : List ℕ → ℕ → ℕ
cells xs = λ i. get_or xs i 0

copy-suc :
    (f : ℕ → ℕ) (at : ℕ) (xs : List ℕ) (i : ℕ)
    → copy f (suc at) xs (suc i) ≡ copy (λ j. f (suc j)) at xs i
copy-suc f at [] i = refl
copy-suc f at (x ∷ xs) i = ground (arith, copy-suc f (suc at) xs i)

copy-before : (f : ℕ → ℕ) (at : ℕ) (xs : List ℕ) → copy f (suc at) xs 0 ≡ f 0
copy-before f at [] = refl
copy-before f at (x ∷ xs) = ground (arith, copy-before f (suc at) xs)

window-suc : (f : ℕ → ℕ) (at n : ℕ) → window f (suc at) n ≡ window (λ j. f (suc j)) at n
window-suc f at zero = refl
window-suc f at (suc n) = ap (λ t. f (suc at) ∷ t) (window-suc f (suc at) n)

-- A range of a list is a window on its cells.
pub take-window :
    (xs : List ℕ) (at n : ℕ) → at + n ≤ length xs → take n (drop at xs) ≡ window (cells xs) at n
take-window xs zero zero h = refl
take-window [] zero (suc n) h = absurd (omega arith)
take-window (x ∷ xs) zero (suc n) h =
    ap (λ t. x ∷ t) (take-window xs zero n (omega arith) ∙ sym (window-suc (cells (x ∷ xs)) 0 n))
take-window [] (suc at) zero h = refl
take-window [] (suc at) (suc n) h = absurd (omega arith)
take-window (x ∷ xs) (suc at) n h =
    take-window xs at n (omega arith) ∙ sym (window-suc (cells (x ∷ xs)) at n)

-- A list with a range replaced has the cells that copying leaves.
pub cells-spliced :
    (xs : List ℕ) (at : ℕ) (ys : List ℕ) (end i : ℕ)
    → end ≡ at + length ys
    → end ≤ length xs
    → cells (take at xs ++ (ys ++ drop end xs)) i ≡ copy (cells xs) at ys i
cells-spliced xs zero [] zero i e h = refl
cells-spliced xs zero [] (suc end) i e h = absurd (omega arith)
cells-spliced xs zero (y ∷ ys) zero i e h = absurd (omega arith)
cells-spliced [] zero (y ∷ ys) (suc end) i e h = absurd (omega arith)
cells-spliced (x ∷ xs) zero (y ∷ ys) (suc end) zero e h = refl
cells-spliced (x ∷ xs) zero (y ∷ ys) (suc end) (suc i) e h =
    ground (arith, cells-spliced xs zero ys end i, copy-suc (cells (x ∷ xs)) 0 ys i)
cells-spliced xs (suc at) ys zero i e h = absurd (omega arith)
cells-spliced [] (suc at) ys (suc end) i e h = absurd (omega arith)
cells-spliced (x ∷ xs) (suc at) ys (suc end) zero e h = sym (copy-before (cells (x ∷ xs)) at ys)
cells-spliced (x ∷ xs) (suc at) ys (suc end) (suc i) e h =
    cells-spliced xs at ys end i (omega arith) (omega arith)
    ∙ sym (copy-suc (cells (x ∷ xs)) at ys i)

pub cells-replicate : (n i : ℕ) → cells (replicate n 0) i ≡ 0
cells-replicate zero i = refl
cells-replicate (suc n) zero = refl
cells-replicate (suc n) (suc i) = cells-replicate n i
