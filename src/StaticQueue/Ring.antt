-- ===== src/StaticQueue/Ring.antt =====
-- src/static_queue.rs: the ring of slots and the commands that it holds, in order.
use native.Mathlib.Nat.{mod-eq_of_lt, mod-eq-sub-mod, mod-add-mod}
use rust_gpu_driver_lab.Base.{
  ℕ, zero, suc, ◌+◌, ◌-◌, ◌%◌, ◌≡◌, ◌≢◌, ◌≤◌, ◌<◌, ◌⊎◌, inl, inr, true, List, [], ◌∷◌, ◌++◌, ◌==◌,
  ==_iff, length, get_elem?, arith, refl, ap, sym, ◌∙◌, Option, none, some, usize_max, Bool-cases,
  returns, dec_lt, ltb, lt→ltb, le→not_ltb, if◌then◌else◌,
}
use rust_gpu_driver_lab.Command.{CommandId}
use rust_gpu_driver_lab.Submission.{ValidatedSubmission}
use rust_gpu_driver_lab.Fifo.{command_id, has_id}
use rust_gpu_driver_lab.StaticQueue.{StaticCommandQueue, any_id, tail_index}

-- The ring holds `xs` from `head` on; the slots past them are empty.
pub record Represents {n : ℕ} (q : StaticCommandQueue n) (xs : List ValidatedSubmission)
    : Type 0 where
  pub slot : (i : ℕ) → i < n → get_elem? q.slots ((q.head + i) % n) ≡ some (get_elem? xs i)
  pub slot_count : length q.slots ≡ n
  pub head_in : q.head < n
  pub length_len : length xs ≡ q.len
  pub bounded : q.len ≤ n
  pub addressable : n ≤ usize_max

-- Positions round the ring.
ring_wrap :
    {n h i : ℕ}
    → h < n
    → i < n
    → ((h + i) % n ≡ h + i) × (h + i < n) ⊎ ((h + i) % n + n ≡ h + i) × (n ≤ h + i)
ring_wrap {n} {h} {i} hh hi = elim (dec_lt (h + i) n) [
  | yes p ↦ inl (mod-eq_of_lt p, p)
  | no p ↦ inr (
    omega (
      arith,
      mod-eq-sub-mod {n = h + i} {m = n} (omega arith),
      mod-eq_of_lt {n = h + i - n} {m = n} (omega arith),
    ),
    omega arith,
  )
]

pub ring_ne : {n h i j : ℕ} → h < n → i < n → j < n → i ≢ j → (h + i) % n ≢ (h + j) % n
ring_ne {n} {h} hh hi hj ne = omega (arith, ring_wrap hh hi, ring_wrap hh hj)

pub ring_lt : {n h i : ℕ} → h < n → i < n → (h + i) % n < n
ring_lt hh hi = omega (arith, ring_wrap hh hi)

-- The position of a slot, counted from the head.
abbrev pub offset_of : ℕ → ℕ → ℕ → ℕ
offset_of n h j = if ltb j h then j + n - h else j - h

pub offset_of_lem :
    {n h j : ℕ} → h < n → j < n → (offset_of n h j < n) × ((h + offset_of n h j) % n ≡ j)
offset_of_lem {n} {h} {j} hh hj = elim (dec_lt j h) [
  | yes p ↦
      rw (lt→ltb j h p)
        (omega arith, omega (arith, ring_wrap {n = n} {h = h} {i = j + n - h} hh (omega arith)))
  | no p ↦
      rw (le→not_ltb j h (omega arith))
        (omega arith, omega (arith, ring_wrap {n = n} {h = h} {i = j - h} hh (omega arith)))
]

-- `tail_index` is the first slot past the commands, with no overflow on the way.
pub tail_index_lem :
    {n : ℕ} (q : StaticCommandQueue n) {xs : List ValidatedSubmission}
    → Represents q xs
    → q.len < n
    → tail_index q ≡ returns ((q.head + q.len) % n)
unfolding tail_index
tail_index_lem {n} q r room = ground (arith, ring_wrap {n = n} r.head_in room)

pub get_elem?-append_last :
    {A : Type 0} (xs : List A) (a : A) (i : ℕ)
    → get_elem? (xs ++ (a ∷ [])) i ≡ (if i == length xs then some a else get_elem? xs i)
get_elem?-append_last [] a zero = refl
get_elem?-append_last [] a (suc i) = ground arith
get_elem?-append_last (x ∷ xs) a zero = ground arith
get_elem?-append_last (x ∷ xs) a (suc i) = ground (arith, get_elem?-append_last xs a i)

pub get_elem?-ge : {A : Type 0} (xs : List A) (i : ℕ) → length xs ≤ i → get_elem? xs i ≡ none
get_elem?-ge [] i h = refl
get_elem?-ge (x ∷ xs) zero h = absurd (omega arith)
get_elem?-ge (x ∷ xs) (suc i) h = get_elem?-ge xs i (omega arith)

-- A command that is in a list stands at some index, and the other way round.
has_id-index :
    (k : CommandId) (xs : List ValidatedSubmission)
    → has_id k xs ≡ true
    → (i : ℕ) × (v : ValidatedSubmission) × (get_elem? xs i ≡ some v)
      × (command_id v ≡ k)
      × (i < length xs)
has_id-index k [] h = cc
has_id-index k (x ∷ xs) h = elim (Bool-cases (command_id x == k)) [
  | inl same ↦ (0, x, refl, (==_iff _ k).0 same, omega arith)
  | inr other ↦
      let (i, v, at, same, lt) = has_id-index k xs (ground arith) in
      (suc i, v, at, same, omega arith)
]

index-has_id :
    (k : CommandId) (xs : List ValidatedSubmission) (i : ℕ) (v : ValidatedSubmission)
    → get_elem? xs i ≡ some v
    → command_id v ≡ k
    → has_id k xs ≡ true
index-has_id k [] i v at same = cc
index-has_id k (x ∷ xs) zero v at same = ground arith
index-has_id k (x ∷ xs) (suc i) v at same = ground (arith, index-has_id k xs i v at same)

any_id-index :
    (k : CommandId) (slots : List (Option ValidatedSubmission))
    → any_id k slots ≡ true
    → (j : ℕ) × (v : ValidatedSubmission) × (get_elem? slots j ≡ some (some v))
      × (command_id v ≡ k)
      × (j < length slots)
any_id-index k [] h = cc
any_id-index k (none ∷ slots) h =
    let (j, v, at, same, lt) = any_id-index k slots h in (suc j, v, at, same, omega arith)
any_id-index k (some x ∷ slots) h = elim (Bool-cases (command_id x == k)) [
  | inl same ↦ (0, x, refl, (==_iff _ k).0 same, omega arith)
  | inr other ↦
      let (j, v, at, same, lt) = any_id-index k slots (ground arith) in
      (suc j, v, at, same, omega arith)
]

index-any_id :
    (k : CommandId) (slots : List (Option ValidatedSubmission)) (j : ℕ) (v : ValidatedSubmission)
    → get_elem? slots j ≡ some (some v)
    → command_id v ≡ k
    → any_id k slots ≡ true
index-any_id k [] j v at same = cc
index-any_id k (none ∷ slots) zero v at same = cc
index-any_id k (none ∷ slots) (suc j) v at same = index-any_id k slots j v at same
index-any_id k (some x ∷ slots) zero v at same = ground arith
index-any_id k (some x ∷ slots) (suc j) v at same = ground (arith, index-any_id k slots j v at same)

-- The scan of the slots finds exactly the identifiers that are held.
pub any_id-has_id :
    {n : ℕ} (k : CommandId) (q : StaticCommandQueue n) {xs : List ValidatedSubmission}
    → Represents q xs
    → any_id k q.slots ≡ has_id k xs
any_id-has_id {n} k q {xs} r = elim (Bool-cases (any_id k q.slots)) [
  | inl found ↦
      let (j, v, at, same, lt) = any_id-index k q.slots found in
      let (near, back) =
        offset_of_lem {n = n} {h = q.head} {j = j} r.head_in (rw r.slot_count at lt) in
      let held = r.slot (offset_of n q.head j) near in
      let here : get_elem? xs (offset_of n q.head j) ≡ some v = ground (arith, rw back at held) in
      found ∙ sym (index-has_id k xs (offset_of n q.head j) v here same)
  | inr absent ↦ elim (Bool-cases (has_id k xs)) [
    | inl held ↦
        let (i, v, at, same, lt) = has_id-index k xs held in
        let there = r.slot i (omega (arith, r.length_len, r.bounded)) in
        cc (index-any_id k q.slots ((q.head + i) % n) v (there ∙ ap some at) same)
    | inr gone ↦ absent ∙ sym gone
  ]
]

-- One step further round the ring.
pub ring_next : {n h i : ℕ} → h < n → i < n → ((h + 1) % n + i) % n ≡ (h + suc i) % n
ring_next {n} {h} {i} hh hi = rw mod-add-mod (ap (λ k. k % n) {x = h + 1 + i} (omega arith))

pub ring_around : {n h : ℕ} → h < n → (h + n) % n ≡ h
ring_around {n} {h} hh = omega (
  arith,
  mod-eq-sub-mod {n = h + n} {m = n} (omega arith),
  mod-eq_of_lt {n = h + n - n} {m = n} (omega arith),
)
