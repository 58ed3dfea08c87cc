-- ===== src/Fifo/Unique.antt =====
-- src/queue.rs, src/static_queue.rs: no two queued commands share an identifier.
use rust_gpu_driver_lab.Base.{
  ℕ, ◌≡◌, ◌≤◌, false, ◌||◌, List, [], ◌∷◌, ◌++◌, ◌==◌, length, length-append, arith, refl, All,
  All-append, Bool-cases, inl, inr,
}
use rust_gpu_driver_lab.Command.{CommandId}
use rust_gpu_driver_lab.Submission.{ValidatedSubmission}
use rust_gpu_driver_lab.Fifo.{command_id, has_id, enqueue, dequeue}

abbrev pub IsUnique : List ValidatedSubmission → Type 0
IsUnique [] = Unit
IsUnique (s ∷ xs) = (has_id (command_id s) xs ≡ false) × IsUnique xs

pub has_id-append :
    (k : CommandId) (xs : List ValidatedSubmission) (s : ValidatedSubmission)
    → has_id k (xs ++ (s ∷ [])) ≡ (has_id k xs || command_id s == k)
has_id-append k [] s = ground arith
has_id-append k (x ∷ xs) s = ground (arith, has_id-append k xs s)

pub append-IsUnique :
    (xs : List ValidatedSubmission) (s : ValidatedSubmission)
    → IsUnique xs
    → has_id (command_id s) xs ≡ false
    → IsUnique (xs ++ (s ∷ []))
append-IsUnique [] s u h = (refl, tt)
append-IsUnique (x ∷ xs) s u h =
    (ground (arith, has_id-append (command_id x) xs s), append-IsUnique xs s u.1 (ground arith))

pub enqueue-IsUnique :
    (capacity : ℕ) (xs : List ValidatedSubmission) (s : ValidatedSubmission)
    → IsUnique xs
    → IsUnique (enqueue capacity xs s).0
unfolding enqueue
enqueue-IsUnique capacity xs s u = ground (arith, append-IsUnique xs s u)

pub dequeue-IsUnique : (xs : List ValidatedSubmission) → IsUnique xs → IsUnique (dequeue xs).0
unfolding dequeue
dequeue-IsUnique [] u = tt
dequeue-IsUnique (x ∷ xs) u = u.1

pub length-enqueue :
    (capacity : ℕ) (xs : List ValidatedSubmission) (s : ValidatedSubmission)
    → length xs ≤ capacity
    → length (enqueue capacity xs s).0 ≤ capacity
unfolding enqueue
length-enqueue capacity xs s h = ground (arith, length-append xs (s ∷ []))

-- A property of all that is queued is kept when what is added has it.
pub All-enqueue :
    (P : ValidatedSubmission → Type 0) (capacity : ℕ) (xs : List ValidatedSubmission)
    (s : ValidatedSubmission)
    → All P xs
    → P s
    → All P (enqueue capacity xs s).0
unfolding enqueue
All-enqueue P capacity xs s h p = elim (Bool-cases (has_id (command_id s) xs)) [
  | inl held ↦ rw held h
  | inr new ↦ rw new (elim (Bool-cases (length xs == capacity)) [
    | inl filled ↦ rw filled h
    | inr room ↦ rw room (All-append P xs (s ∷ []) h (p, tt))
  ])
]

pub All-dequeue :
    (P : ValidatedSubmission → Type 0) (xs : List ValidatedSubmission)
    → All P xs
    → All P (dequeue xs).0
unfolding dequeue
All-dequeue P [] h = tt
All-dequeue P (x ∷ xs) h = h.1
