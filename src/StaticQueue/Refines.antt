-- ===== src/StaticQueue/Refines.antt =====
-- src/static_queue.rs: a `StaticCommandQueue` behaves as the first-in first-out queue of what its
-- ring holds, and no index of it is ever out of range.
use native.Mathlib.Nat.{add-zero, mod-eq_of_lt}
use rust_gpu_driver_lab.Base.{
  ℕ, zero, suc, ◌+◌, ◌-◌, ◌%◌, ◌≡◌, ◌≢◌, ◌≤◌, ◌<◌, inl, inr, List, [], ◌∷◌, ◌++◌, ◌==◌, length,
  length-append, length-set, length-replicate, get_elem?, set, get_elem?-set_self, get_elem?-set_ne,
  arith, refl, ap, ◌∙◌, none, some, usize_max, Bool-cases, returns, ℕ_discrete, ok, err, map_err,
  ==_false, ==_true, if◌then◌else◌, replicate, index-get_elem?, subst,
}
use rust_gpu_driver_lab.Submission.{ValidatedSubmission}
use rust_gpu_driver_lab.Fifo
use rust_gpu_driver_lab.Fifo.{Refusal, duplicate, full, command_id, has_id}
use rust_gpu_driver_lab.StaticQueue
use rust_gpu_driver_lab.StaticQueue.{
  StaticCommandQueue, StaticQueueError, any_id, tail_index, queue_full, duplicate_command_id,
}
use rust_gpu_driver_lab.StaticQueue.Ring.{
  Represents, ring_ne, ring_lt, ring_next, ring_around, tail_index_lem, any_id-has_id,
  get_elem?-append_last, get_elem?-ge,
}

abbrev pub refusal : Refusal → StaticQueueError
refusal (duplicate id) = duplicate_command_id id
refusal (full capacity) = queue_full capacity

module _ {n : ℕ} (q : StaticCommandQueue n) (xs : List ValidatedSubmission)
    (s : ValidatedSubmission) (r : Represents q xs) where
  -- The queue after a submission was written to the slot past the last.
  abbrev pub extended : StaticCommandQueue n
  extended = record q { slots = set q.slots ((q.head + q.len) % n) (some s); len = q.len + 1 }

  -- On every branch `enqueue` ends as the first-in first-out queue does.
  enqueue_lem : StaticQueue.enqueue q s ≡ (
      if has_id (command_id s) xs
      then (q, err (duplicate_command_id (command_id s)))
      else if length xs == n
      then (q, err (queue_full n))
      else (extended, ok tt))
  unfolding StaticQueue.enqueue
  enqueue_lem = elim (ℕ_discrete q.len n) [
    | yes filled ↦ ground (arith, any_id-has_id (command_id s) q r, r.length_len)
    | no room ↦ ground (
      arith,
      any_id-has_id (command_id s) q r,
      r.length_len,
      r.slot_count,
      r.bounded,
      r.addressable,
      tail_index_lem q r (omega (arith, r.bounded)),
      ring_lt {n = n} {h = q.head} {i = q.len} r.head_in (omega (arith, r.bounded)),
    )
  ]

  extended-Represents : q.len < n → Represents extended (xs ++ (s ∷ []))
  extended-Represents room = record {
    slot = λ i lt. elim (ℕ_discrete i q.len) [
      | yes last ↦ ground (
        arith,
        get_elem?-append_last xs s i,
        r.length_len,
        get_elem?-set_self q.slots ((q.head + q.len) % n) (some s),
        r.slot_count,
        ring_lt {n = n} {h = q.head} {i = q.len} r.head_in room,
      )
      | no other ↦ ground (
        arith,
        get_elem?-append_last xs s i,
        r.length_len,
        get_elem?-set_ne q.slots ((q.head + q.len) % n) ((q.head + i) % n) (some s),
        ring_ne {n = n} {h = q.head} {i = q.len} {j = i} r.head_in room lt,
        r.slot i lt,
      )
    ];
    slot_count = length-set q.slots ((q.head + q.len) % n) (some s) ∙ r.slot_count;
    head_in = r.head_in;
    length_len = omega (arith, length-append xs (s ∷ []), r.length_len);
    bounded = omega arith;
    addressable = r.addressable;
  }

  pub enqueue_result : (StaticQueue.enqueue q s).1 ≡ map_err refusal (Fifo.enqueue n xs s).1
  unfolding Fifo.enqueue
  enqueue_result = ground (arith, enqueue_lem)

  pub enqueue_state : Represents (StaticQueue.enqueue q s).0 (Fifo.enqueue n xs s).0
  unfolding Fifo.enqueue
  enqueue_state = elim (Bool-cases (has_id (command_id s) xs)) [
    | inl held ↦ rw (enqueue_lem, held) r
    | inr new ↦ elim (ℕ_discrete (length xs) n) [
      | yes filled ↦ rw (enqueue_lem, new, ==_true filled) r
      | no room ↦
          rw (enqueue_lem, new, ==_false room)
            (extended-Represents (omega (arith, r.length_len, r.bounded)))
    ]
  ]

module _ {n : ℕ} (q : StaticCommandQueue n) (x : ValidatedSubmission)
    (xs : List ValidatedSubmission) (r : Represents q (x ∷ xs)) where
  -- The queue after its head slot was taken.
  abbrev pub shortened : StaticCommandQueue n
  shortened = record { slots = set q.slots q.head none; head = (q.head + 1) % n; len = q.len - 1 }

  head_slot : get_elem? q.slots q.head ≡ some (some x)
  head_slot =
      let at = r.slot 0 (omega (arith, r.head_in)) in
      ground (arith, at, add-zero q.head, mod-eq_of_lt r.head_in)

  shortened-slot :
      (i : ℕ) → i < n → get_elem? shortened.slots ((shortened.head + i) % n) ≡ some (get_elem? xs i)
  shortened-slot i lt = elim (ℕ_discrete (i + 1) n) [
    | yes last ↦ ground (
      arith,
      ring_next {n = n} {h = q.head} {i = i} r.head_in lt,
      ring_around r.head_in,
      ap (λ k. (q.head + k) % n) {x = suc i} {y = n} (omega arith),
      get_elem?-set_self q.slots q.head none,
      r.slot_count,
      r.head_in,
      get_elem?-ge xs i (omega (arith, r.length_len, r.bounded)),
    )
    | no other ↦ ground (
      arith,
      ring_next {n = n} {h = q.head} {i = i} r.head_in lt,
      get_elem?-set_ne q.slots q.head ((q.head + suc i) % n) none,
      ring_ne {n = n} {h = q.head} {i = 0} {j = suc i} r.head_in (omega arith) (omega arith),
      add-zero q.head,
      mod-eq_of_lt r.head_in,
      r.slot (suc i) (omega arith),
    )
  ]

  shortened-Represents : Represents shortened xs
  shortened-Represents = record {
    slot = shortened-slot;
    slot_count = length-set q.slots q.head none ∙ r.slot_count;
    head_in = omega (arith, r.head_in);
    length_len = omega (arith, r.length_len);
    bounded = omega (arith, r.bounded);
    addressable = r.addressable;
  }

  dequeue_some : StaticQueue.dequeue q ≡ returns (shortened, some x)
  unfolding StaticQueue.dequeue
  dequeue_some =
      ground
        (arith, index-get_elem? q.slots q.head head_slot, r.length_len, r.head_in, r.addressable)

  peek_some : StaticQueue.peek q ≡ returns (some x)
  unfolding StaticQueue.peek
  peek_some = ground (arith, index-get_elem? q.slots q.head head_slot, r.length_len)

module _ {n : ℕ} (q : StaticCommandQueue n) where
  pub dequeue_lem :
      (xs : List ValidatedSubmission)
      → Represents q xs
      → (q' : StaticCommandQueue n) × (StaticQueue.dequeue q ≡ returns (q', (Fifo.dequeue xs).1))
        × Represents q' (Fifo.dequeue xs).0
  unfolding StaticQueue.dequeue Fifo.dequeue
  dequeue_lem [] r = (q, ground (arith, r.length_len), r)
  dequeue_lem (x ∷ xs) r =
      (shortened q x xs r, dequeue_some q x xs r, shortened-Represents q x xs r)

  pub peek_lem :
      (xs : List ValidatedSubmission)
      → Represents q xs
      → StaticQueue.peek q ≡ returns (Fifo.peek xs)
  unfolding StaticQueue.peek
  peek_lem [] r = ground (arith, r.length_len)
  peek_lem (x ∷ xs) r = peek_some q x xs r

get_elem?-replicate : {A : Type 0} (n i : ℕ) (a : A) → i < n → get_elem? (replicate n a) i ≡ some a
get_elem?-replicate zero i a h = absurd (omega arith)
get_elem?-replicate (suc n) zero a h = refl
get_elem?-replicate (suc n) (suc i) a h = get_elem?-replicate n i a (omega arith)

-- A new queue is empty, and its capacity is not zero.
pub new-Represents :
    (n : ℕ) {q : StaticCommandQueue n}
    → n ≤ usize_max
    → StaticQueue.new n ≡ ok q
    → (n ≢ 0) × Represents q []
unfolding StaticQueue.new
new-Represents n {q} fits h =
    let pos : n ≢ 0 = ground arith in
    let made : record { slots = replicate n none; head = 0; len = 0 } ≡ q = ground arith in
    (
      pos,
      subst (λ p. Represents p []) made
          (record {
            slot = λ i lt. get_elem?-replicate n ((0 + i) % n) none (omega arith);
            slot_count = length-replicate n none;
            head_in = omega arith;
            length_len = refl;
            bounded = omega arith;
            addressable = fits;
          }),
    )
