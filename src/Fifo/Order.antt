-- ===== src/Fifo/Order.antt =====
-- src/queue_backend.rs: what a client can ask of a queue, what it sees of each call, and the order
-- in which submissions leave.
use rust_gpu_driver_lab.Base.{
  ℕ, ◌≡◌, ◌≤◌, ◌==◌, Bool, List, [], ◌∷◌, ◌++◌, Option, none, some, length, Outcome, ok, err, panic,
  map_err, map, refl, ap, ap₂, arith, ◌∙◌, sym, Bool-cases, inl, inr, ◌⊎◌,
}
use mathlib.Core.List.{append-nil, append_assoc}
use rust_gpu_driver_lab.Submission.{ValidatedSubmission}
use rust_gpu_driver_lab.Fifo
use rust_gpu_driver_lab.Fifo.{Refusal}
use rust_gpu_driver_lab.Fifo.Unique.{length-enqueue}

pub data Call : Type 0 where
  enqueue : ValidatedSubmission → Call
  dequeue peek len is_empty is_full : Call

pub data Reply (E : Type 0) : Type 0 where
  enqueued : Outcome E (Unit {0}) → Reply E
  dequeued : Option ValidatedSubmission → Reply E
  peeked : Option ValidatedSubmission → Reply E
  counted : ℕ → Reply E
  answered : Bool → Reply E

abbrev pub map_reply : {E F : Type 0} → (E → F) → Reply E → Reply F
map_reply f (enqueued r) = enqueued (map_err f r)
map_reply f (dequeued o) = dequeued o
map_reply f (peeked o) = peeked o
map_reply f (counted n) = counted n
map_reply f (answered b) = answered b

-- The replies of the abstract queue to a sequence of calls.
unfoldable pub run : ℕ → List ValidatedSubmission → List Call → List (Reply Refusal)
run c xs [] = []
run c xs (enqueue s ∷ calls) =
    enqueued (Fifo.enqueue c xs s).1 ∷ run c (Fifo.enqueue c xs s).0 calls
run c xs (dequeue ∷ calls) = dequeued (Fifo.dequeue xs).1 ∷ run c (Fifo.dequeue xs).0 calls
run c xs (peek ∷ calls) = peeked (Fifo.peek xs) ∷ run c xs calls
run c xs (len ∷ calls) = counted (length xs) ∷ run c xs calls
run c xs (is_empty ∷ calls) = answered (length xs == 0) ∷ run c xs calls
run c xs (is_full ∷ calls) = answered (length xs == c) ∷ run c xs calls

-- The submissions that were accepted, in order.
abbrev accepted_by : {E : Type 0} → Call → Reply E → List ValidatedSubmission
accepted_by (enqueue s) (enqueued (ok _)) = s ∷ []
accepted_by _ _ = []

abbrev pub accepted : {E : Type 0} → List Call → List (Reply E) → List ValidatedSubmission
accepted [] replies = []
accepted (c ∷ calls) [] = []
accepted (c ∷ calls) (r ∷ replies) = accepted_by c r ++ accepted calls replies

-- The submissions that were handed out, in order.
abbrev served_by : {E : Type 0} → Reply E → List ValidatedSubmission
served_by (dequeued (some s)) = s ∷ []
served_by _ = []

abbrev pub served : {E : Type 0} → List (Reply E) → List ValidatedSubmission
served [] = []
served (r ∷ replies) = served_by r ++ served replies

-- What the abstract queue holds after a sequence of calls.
pub final : ℕ → List ValidatedSubmission → List Call → List ValidatedSubmission
final c xs [] = xs
final c xs (enqueue s ∷ calls) = final c (Fifo.enqueue c xs s).0 calls
final c xs (dequeue ∷ calls) = final c (Fifo.dequeue xs).0 calls
final c xs (_ ∷ calls) = final c xs calls

enqueue-cases :
    (c : ℕ) (xs : List ValidatedSubmission) (s : ValidatedSubmission)
    → (Fifo.enqueue c xs s ≡ (xs ++ (s ∷ []), ok tt))
      ⊎ ((e : Refusal) × (Fifo.enqueue c xs s ≡ (xs, err e)))
unfolding Fifo.enqueue
enqueue-cases c xs s = elim (Bool-cases (Fifo.has_id (Fifo.command_id s) xs)) [
  | inl held ↦ inr (Fifo.duplicate (Fifo.command_id s), rw held)
  | inr new ↦ elim (Bool-cases (length xs == c)) [
    | inl filled ↦ inr (Fifo.full c, rw (new, filled))
    | inr room ↦ inl (rw (new, room))
  ]
]

pub fifo_accepted-served :
    (c : ℕ) (xs : List ValidatedSubmission) (calls : List Call)
    → xs ++ accepted calls (run c xs calls) ≡ served (run c xs calls) ++ final c xs calls
unfolding run final Fifo.dequeue
fifo_accepted-served c xs [] = append-nil xs
fifo_accepted-served c xs (enqueue s ∷ calls) = elim (enqueue-cases c xs s) [
  | inl done ↦
      rw done (sym (append_assoc xs (s ∷ []) _) ∙ fifo_accepted-served c (xs ++ (s ∷ [])) calls)
  | inr (e, refused) ↦ rw refused (fifo_accepted-served c xs calls)
]
fifo_accepted-served c [] (dequeue ∷ calls) = fifo_accepted-served c [] calls
fifo_accepted-served c (x ∷ xs) (dequeue ∷ calls) =
    ap (λ t. x ∷ t) (fifo_accepted-served c xs calls)
fifo_accepted-served c xs (peek ∷ calls) = fifo_accepted-served c xs calls
fifo_accepted-served c xs (_ ∷ calls) = fifo_accepted-served c xs calls

length-dequeue :
    (c : ℕ) (xs : List ValidatedSubmission) → length xs ≤ c → length (Fifo.dequeue xs).0 ≤ c
unfolding Fifo.dequeue
length-dequeue c [] h = h
length-dequeue c (x ∷ xs) h = omega arith

pub length-final :
    (c : ℕ) (xs : List ValidatedSubmission) (calls : List Call)
    → length xs ≤ c
    → length (final c xs calls) ≤ c
unfolding final
length-final c xs [] h = h
length-final c xs (enqueue s ∷ calls) h =
    length-final c (Fifo.enqueue c xs s).0 calls (length-enqueue c xs s h)
length-final c xs (dequeue ∷ calls) h =
    length-final c (Fifo.dequeue xs).0 calls (length-dequeue c xs h)
length-final c xs (_ ∷ calls) h = length-final c xs calls h

accepted_by-map_reply :
    {E F : Type 0} (f : E → F) (c : Call) (r : Reply E)
    → accepted_by c (map_reply f r) ≡ accepted_by c r
accepted_by-map_reply f (enqueue s) (enqueued (ok _)) = refl
accepted_by-map_reply f (enqueue s) (enqueued (err _)) = refl
accepted_by-map_reply f (enqueue s) (enqueued panic) = refl
accepted_by-map_reply f (enqueue s) _ = refl
accepted_by-map_reply f _ _ = refl

-- Renaming the errors changes neither.
pub accepted-map_reply :
    {E F : Type 0} (f : E → F) (calls : List Call) (replies : List (Reply E))
    → accepted calls (map (map_reply f) replies) ≡ accepted calls replies
accepted-map_reply f [] replies = refl
accepted-map_reply f (c ∷ calls) [] = refl
accepted-map_reply f (c ∷ calls) (r ∷ replies) =
    ap₂ ◌++◌ (accepted_by-map_reply f c r) (accepted-map_reply f calls replies)

pub served-map_reply :
    {E F : Type 0} (f : E → F) (replies : List (Reply E))
    → served (map (map_reply f) replies) ≡ served replies
served-map_reply f [] = refl
served-map_reply f (dequeued (some s) ∷ rs) = ap (λ t. s ∷ t) (served-map_reply f rs)
served-map_reply f (dequeued none ∷ rs) = served-map_reply f rs
served-map_reply f (_ ∷ rs) = served-map_reply f rs
