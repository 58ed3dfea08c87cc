-- ===== src/RegisterFields/Laws.antt =====
-- src/register_fields.rs: reading a field returns what was set, and setting one keeps the others.
use rust_gpu_driver_lab.Base.{
  ℕ, ◌+◌, ◌*◌, ◌/◌, ◌%◌, ◌^◌, ◌<◌, ◌≡◌, ap, arith, refl, Bool, true, false, ◌==◌, if◌then◌else◌,
  returns,
}
use Prim.Native.Nat.{bit_and}
use rust_gpu_driver_lab.Base.Bits.{
  shift_left, shift_right, bit_and-1, bit_and-3, bit_and-6, bit_and-8, bit_and-15, bit_and-not1,
  bit_and-not6, bit_and-not8, bit_and-65280, bit_or-1, bit_or-8, bit_or-byte, bit_or-field6,
}
use rust_gpu_driver_lab.RegisterFields.{
  ControlValue, PowerMode, idle, low_power, normal, performance, mode_bits, power_mode, enabled,
  irq_enabled, with_enabled, with_irq_enabled, with_power_mode, CommandOpCode, kick, flush, reset,
  opcode, new_word, queue_id, opcode_bits, of_two_bits,
}

-- A `u32`.
abbrev pub IsWord : ControlValue → Type 0
IsWord c = c.raw < 2 ^ 32

-- The bits of CONTROL that no accessor names.
abbrev pub reserved : ControlValue → ℕ
reserved c = c.raw / 16

-- The mode in a word, whose lookup never reaches `unreachable!()`.
abbrev pub mode_field : ControlValue → ℕ
mode_field c = c.raw / 2 % 4

mode_bits-below : (p : PowerMode) → mode_bits p < 4
mode_bits-below idle = ground arith
mode_bits-below low_power = ground arith
mode_bits-below normal = ground arith
mode_bits-below performance = ground arith

of_two_bits-mode_bits : (p : PowerMode) → of_two_bits (mode_bits p) ≡ returns p
of_two_bits-mode_bits idle = refl
of_two_bits-mode_bits low_power = refl
of_two_bits-mode_bits normal = refl
of_two_bits-mode_bits performance = refl

power_mode_lem : (c : ControlValue) → power_mode c ≡ of_two_bits (mode_field c)
unfolding power_mode
power_mode_lem c =
    let same : bit_and (shift_right (bit_and c.raw 6) 1) 3 ≡ mode_field c =
      omega (arith, bit_and-6 c.raw, bit_and-3 (bit_and c.raw 6 / 2)) in
    ap of_two_bits same

enabled_lem : (c : ControlValue) → enabled c ≡ (if c.raw % 2 == 0 then false else true)
unfolding enabled
enabled_lem c = ground (arith, bit_and-1 c.raw)

irq_enabled_lem : (c : ControlValue) → irq_enabled c ≡ (if c.raw / 8 % 2 == 0 then false else true)
unfolding irq_enabled
irq_enabled_lem c = ground (arith, bit_and-8 c.raw)

with_power_mode_lem :
    (c : ControlValue) (p : PowerMode)
    → IsWord c
    → (with_power_mode c p).raw ≡ c.raw / 8 * 8 + c.raw % 2 + mode_bits p * 2
unfolding with_power_mode
with_power_mode_lem c p h =
    let low = mode_bits-below p in
    let field : bit_and (shift_left (mode_bits p) 1) 6 ≡ mode_bits p * 2 =
      omega (arith, bit_and-6 (shift_left (mode_bits p) 1)) in
    rw (field, bit_and-not6 c.raw h)
      (bit_or-field6 (c.raw / 8) (c.raw % 2) (mode_bits p) (omega arith) low)

with_enabled_lem :
    (c : ControlValue) (on : Bool)
    → IsWord c
    → (with_enabled c on).raw ≡ c.raw / 2 * 2 + (if on then 1 else 0)
unfolding with_enabled
with_enabled_lem c true h = bit_or-1 c.raw
with_enabled_lem c false h = omega (arith, bit_and-not1 c.raw h)

with_irq_enabled_lem :
    (c : ControlValue) (on : Bool)
    → IsWord c
    → (with_irq_enabled c on).raw ≡ c.raw / 16 * 16 + c.raw % 8 + (if on then 8 else 0)
unfolding with_irq_enabled
with_irq_enabled_lem c true h = omega (arith, bit_or-8 c.raw)
with_irq_enabled_lem c false h = omega (arith, bit_and-not8 c.raw h)

-- Two words have the same mode if their fields are the same number.
same_mode : (c d : ControlValue) → mode_field c ≡ mode_field d → power_mode c ≡ power_mode d
same_mode c d e = rw (power_mode_lem c, power_mode_lem d, e) refl

-- Setting the enable bit of a control word: it reads as set, the interrupt bit, the power mode and the
-- reserved bits are kept, and the result is a word.
pub enabled-with_enabled :
    (c : ControlValue) (on : Bool)
    → IsWord c
    → (enabled (with_enabled c on) ≡ on)
      × (irq_enabled (with_enabled c on) ≡ irq_enabled c)
      × (power_mode (with_enabled c on) ≡ power_mode c)
      × (reserved (with_enabled c on) ≡ reserved c)
      × IsWord (with_enabled c on)
enabled-with_enabled c on h =
    let set = with_enabled_lem c on h in
    let new = with_enabled c on in
    (
      ground (arith, set, enabled_lem new),
      ground (arith, set, irq_enabled_lem new, irq_enabled_lem c),
      same_mode new c (grind (arith, set)),
      grind (arith, set),
      grind (arith, set),
    )

-- Setting the interrupt bit of a control word: it reads as set, the enable bit, the power mode and the
-- reserved bits are kept, and the result is a word.
pub irq_enabled-with_irq_enabled :
    (c : ControlValue) (on : Bool)
    → IsWord c
    → (irq_enabled (with_irq_enabled c on) ≡ on)
      × (enabled (with_irq_enabled c on) ≡ enabled c)
      × (power_mode (with_irq_enabled c on) ≡ power_mode c)
      × (reserved (with_irq_enabled c on) ≡ reserved c)
      × IsWord (with_irq_enabled c on)
irq_enabled-with_irq_enabled c on h =
    let set = with_irq_enabled_lem c on h in
    let new = with_irq_enabled c on in
    (
      ground (arith, set, irq_enabled_lem new),
      ground (arith, set, enabled_lem new, enabled_lem c),
      same_mode new c (grind (arith, set)),
      grind (arith, set),
      grind (arith, set),
    )

-- Setting the power mode of a control word: it reads back, without a panic, and the enable bit, the
-- interrupt bit and the reserved bits are kept, and the result is a word.
pub power_mode-with_power_mode :
    (c : ControlValue) (p : PowerMode)
    → IsWord c
    → (power_mode (with_power_mode c p) ≡ returns p)
      × (enabled (with_power_mode c p) ≡ enabled c)
      × (irq_enabled (with_power_mode c p) ≡ irq_enabled c)
      × (reserved (with_power_mode c p) ≡ reserved c)
      × IsWord (with_power_mode c p)
power_mode-with_power_mode c p h =
    let set = with_power_mode_lem c p h in
    let low = mode_bits-below p in
    let new = with_power_mode c p in
    let field : mode_field new ≡ mode_bits p = omega (arith, set, low) in
    (
      rw (power_mode_lem new, field) (of_two_bits-mode_bits p),
      ground (arith, set, enabled_lem new, enabled_lem c),
      ground (arith, set, low, irq_enabled_lem new, irq_enabled_lem c),
      omega (arith, set, low),
      omega (arith, set, low),
    )

opcode-below : (op : CommandOpCode) → opcode op < 4
opcode-below kick = ground arith
opcode-below flush = ground arith
opcode-below reset = ground arith

-- A command word for a queue that is a byte gives back its operation and its queue, and is a word.
pub opcode_bits-new_word :
    (op : CommandOpCode) (queue : ℕ)
    → queue < 2 ^ 8
    → (opcode_bits (new_word op queue) ≡ opcode op)
      × (queue_id (new_word op queue) ≡ queue)
      × ((new_word op queue).raw < 2 ^ 32)
unfolding new_word queue_id opcode_bits
opcode_bits-new_word op queue h =
    let low = opcode-below op in
    let moved : shift_left queue 8 ≡ queue * 256 = omega arith in
    let operation : bit_and (opcode op) 15 ≡ opcode op =
      omega (arith, bit_and-15 (opcode op), low) in
    let word : (new_word op queue).raw ≡ queue * 256 + opcode op =
      rw (moved, operation) (bit_or-byte (opcode op) queue low) in
    (
      omega (arith, word, low, bit_and-15 (new_word op queue).raw),
      omega (arith, word, low, bit_and-65280 (new_word op queue).raw),
      omega (arith, word, low),
    )
