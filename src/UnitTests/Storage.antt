-- ===== src/UnitTests/Storage.antt =====
-- The arrays of registers of the unit tests, which stand at address 64.
use rust_gpu_driver_lab.Base.{ℕ, zero, suc, ◌+◌, ◌-◌, ◌*◌, ◌/◌, List, [], ◌∷◌, length, get_or}
use rust_gpu_driver_lab.Mmio.{Memory, Slice}

abbrev pub base : ℕ
base = 64

-- `let mut storage = [...]`, with zeros around it.
abbrev pub array : List ℕ → Memory
array words address = get_or words ((address - base) / 4) 0

-- `&mut storage`.
abbrev pub slice_of : List ℕ → Slice
slice_of words = record { address = base; count = length words }

-- `storage[i]`.
abbrev pub word : Memory → ℕ → ℕ
word m i = m (base + 4 * i)

-- The words of an array of this length, from this index.
abbrev pub words_from : Memory → ℕ → ℕ → List ℕ
words_from m i zero = []
words_from m i (suc n) = word m i ∷ words_from m (suc i) n
