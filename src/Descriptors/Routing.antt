-- ===== src/Descriptors/Routing.antt =====
-- The gates of the interrupt table, as the processor reads them.
use quark_kernel.Base.{
  ℕ, ◌+◌, ◌*◌, ◌/◌, ◌%◌, ◌^◌, ◌<◌, ◌≡◌, ◌≢◌, refl, false, ne→not-==, ◌==◌, not-==→ne, if◌then◌else◌,
  arith,
}
use quark_kernel.Descriptors.{InterruptDescriptor}
use quark_kernel.Descriptors.Encode.{create_interrupt_descriptor}
use quark_kernel.Descriptors.Setup.{Routines}

-- The bits of the packed structure, the first field lowest.
unfoldable pub gate_bits : InterruptDescriptor → ℕ
gate_bits d =
    d.offset_1
    + 2 ^ 16 * d.selector
    + 2 ^ 32 * d.zeros
    + 2 ^ 40 * d.type
    + 2 ^ 44 * d.storage
    + 2 ^ 45 * d.dpl
    + 2 ^ 47 * d.present
    + 2 ^ 48 * d.offset_2

abbrev pub offset_of : ℕ → ℕ
offset_of d = d % 2 ^ 16 + 2 ^ 16 * (d / 2 ^ 48)

abbrev pub selector_of : ℕ → ℕ
selector_of d = d / 2 ^ 16 % 2 ^ 16

-- The type with the storage bit.
abbrev pub type_of : ℕ → ℕ
type_of d = d / 2 ^ 40 % 2 ^ 5

abbrev pub level_of : ℕ → ℕ
level_of d = d / 2 ^ 45 % 2 ^ 2

abbrev pub present_of : ℕ → ℕ
present_of d = d / 2 ^ 47 % 2

-- What the table is to hold for each vector: the routine, the least privileged level that may call
-- it by an instruction, the type of the gate and the selector.
unfoldable pub routine : Routines → ℕ → ℕ
routine isr v =
    if v == 0
    then isr.isr_division_by_zero
    else if v == 11
    then isr.isr_segment_not_present
    else if v == 13
    then isr.isr_gp_fault
    else if v == 14
    then isr.isr_page_fault
    else if v == 64
    then isr.isr_timer
    else if v == 65
    then isr.isr_preempt
    else if v == 128
    then isr.isr_syscall
    else isr.isr_generic

unfoldable pub level : ℕ → ℕ
level v = if v == 65 then 3 else if v == 128 then 3 else 0

unfoldable pub gate_type : ℕ → ℕ
gate_type v =
    if v == 8 then 5 else if v == 11 then 15 else if v == 13 then 15 else if v == 14 then 15 else 14

unfoldable pub gate_selector : ℕ → ℕ
gate_selector v = if v == 8 then 48 else 8

-- The routine of a task gate is that of its task.
pub record Routed (isr : Routines) (v d : ℕ) : Type 0 where
  pub its_offset : v ≢ 8 → offset_of d ≡ routine isr v
  pub its_selector : selector_of d ≡ gate_selector v
  pub its_type : type_of d ≡ gate_type v
  pub its_level : level_of d ≡ level v
  pub its_present : present_of d ≡ 1

-- The addresses have 32 bits.
pub record IsLinked (isr : Routines) : Type 0 where
  pub generic : isr.isr_generic < 2 ^ 32
  pub division_by_zero : isr.isr_division_by_zero < 2 ^ 32
  pub segment_not_present : isr.isr_segment_not_present < 2 ^ 32
  pub gp_fault : isr.isr_gp_fault < 2 ^ 32
  pub page_fault : isr.isr_page_fault < 2 ^ 32
  pub preempt : isr.isr_preempt < 2 ^ 32
  pub timer : isr.isr_timer < 2 ^ 32
  pub syscall : isr.isr_syscall < 2 ^ 32

-- The fields of a gate that holds a routine.
pub record Fields (isr type level selector d : ℕ) : Type 0 where
  pub its_offset : offset_of d ≡ isr
  pub its_selector : selector_of d ≡ selector
  pub its_type : type_of d ≡ type
  pub its_level : level_of d ≡ level
  pub its_present : present_of d ≡ 1

pub create_interrupt_descriptor-Fields :
    (d : InterruptDescriptor) (isr type level selector : ℕ)
    → isr < 2 ^ 32
    → 5 < type
    → type < 16
    → level < 4
    → selector < 2 ^ 16
    → Fields isr type level selector
        (gate_bits (create_interrupt_descriptor d isr type level selector))
unfolding create_interrupt_descriptor gate_bits
create_interrupt_descriptor-Fields d isr type level selector i t t' l s =
    rw (ne→not-== type 5 (λ e. omega (arith, e, t))) (record {
      its_offset = omega arith;
      its_selector = omega arith;
      its_type = omega arith;
      its_level = omega arith;
      its_present = omega arith;
    })

-- The gate of a vector whose routine, level and type are such.
pub Fields-Routed :
    {isr : Routines} {v d i type l : ℕ}
    → Fields i type l 8 d
    → v ≢ 8
    → routine isr v ≡ i
    → gate_type v ≡ type
    → level v ≡ l
    → Routed isr v d
unfolding gate_selector
Fields-Routed {v} g ne r t l = record {
  its_offset = λ _. rw r g.its_offset;
  its_selector = rw (ne→not-== v 8 ne) g.its_selector;
  its_type = rw t g.its_type;
  its_level = rw l g.its_level;
  its_present = g.its_present;
}

-- The double fault's gate keeps the offset that it had.
pub task-Routed :
    (isr : Routines) (d : InterruptDescriptor)
    → d.offset_1 < 2 ^ 16
    → Routed isr 8 (gate_bits (create_interrupt_descriptor d 0 5 0 48))
unfolding create_interrupt_descriptor gate_bits gate_selector gate_type level
task-Routed isr d lt = record {
  its_offset = λ ne. absurd (ne refl);
  its_selector = omega arith;
  its_type = omega arith;
  its_level = omega arith;
  its_present = omega arith;
}

-- The other vectors have the generic routine.
pub other-Routed :
    (isr : Routines) (d : InterruptDescriptor) (v : ℕ)
    → isr.isr_generic < 2 ^ 32
    → (v == 128) ≡ false
    → (v == 64) ≡ false
    → (v == 65) ≡ false
    → (v == 8) ≡ false
    → (v == 14) ≡ false
    → (v == 13) ≡ false
    → (v == 11) ≡ false
    → (v == 0) ≡ false
    → Routed isr v (gate_bits (create_interrupt_descriptor d isr.isr_generic 14 0 8))
unfolding routine gate_type level
other-Routed isr d v i e128 e64 e65 e8 e14 e13 e11 e0 =
    Fields-Routed
      (create_interrupt_descriptor-Fields d isr.isr_generic 14 0 8 i (omega arith) (omega arith)
        (omega arith) (omega arith))
      (not-==→ne v 8 e8) (rw (e0, e11, e13, e14, e64, e65, e128) refl) (rw (e8, e11, e13, e14) refl)
      (rw (e65, e128) refl)
