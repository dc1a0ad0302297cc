-- ===== src/Descriptors/Gates.antt =====
-- The gates that `initialize_idt` leaves.
use quark_kernel.Base.{
  ℕ, zero, suc, ◌+◌, ◌*◌, ◌^◌, ◌≤◌, ◌<◌, ◌≡◌, ◌⊎◌, ◌≢◌, refl, Bool, true, false, ==_iff, ◌==◌,
  Bool-cases, inl, inr, subst, sym, not-==→ne, if◌then◌else◌, arith,
}
use quark_kernel.Descriptors.{InterruptDescriptor, interrupt_int32, empty_gate}
use quark_kernel.Descriptors.Encode.{create_interrupt_descriptor}
use quark_kernel.Descriptors.Setup.{
  create_gate, generic_gates, special_gates, initialize_idt, load_idt, Symbols, Routines, Tables,
}
use quark_kernel.Descriptors.Routing.{
  gate_bits, Routed, IsLinked, create_interrupt_descriptor-Fields, Fields-Routed, task-Routed,
  other-Routed, routine, level, gate_type,
}

if_cases :
    (P : InterruptDescriptor → Type 0) (b : Bool) {x y : InterruptDescriptor}
    → (b ≡ true → P x)
    → (b ≡ false → P y)
    → P (if b then x else y)
if_cases P true h k = h refl
if_cases P false h k = k refl

-- A vector that is tested first.
at_vector :
    (P : ℕ → InterruptDescriptor → Type 0) (v n : ℕ) {x y : InterruptDescriptor}
    → P n x
    → ((v == n) ≡ false → P v y)
    → P v (if v == n then x else y)
at_vector P v n {x} h k =
    if_cases (P v) (v == n) (λ e. subst (λ m. P m x) (sym ((==_iff v n).0 e)) h) k

-- The entry is a gate with the generic routine, over what it held before.
abbrev IsGeneric : ℕ → InterruptDescriptor → Type 0
IsGeneric isr d = (old : InterruptDescriptor) × (d ≡ create_interrupt_descriptor old isr 14 0 8)

generic-offset : (isr : ℕ) {d : InterruptDescriptor} → IsGeneric isr d → d.offset_1 < 2 ^ 16
unfolding create_interrupt_descriptor
generic-offset isr (old, e) = rw e (omega arith)

-- The loop leaves gates that it made, and makes all others of its range.
generic_gates-IsGeneric :
    (rounds i isr v : ℕ) (table : ℕ → InterruptDescriptor)
    → ((i ≤ v) × (v < i + rounds)) ⊎ IsGeneric isr (table v)
    → IsGeneric isr (generic_gates rounds i isr table v)
unfolding generic_gates
generic_gates-IsGeneric zero i isr v table (inl b) = absurd (omega (arith, b))
generic_gates-IsGeneric zero i isr v table (inr g) = g
generic_gates-IsGeneric (suc rounds) i isr v table h =
    generic_gates-IsGeneric rounds (i + 1) isr v (create_gate i isr interrupt_int32 0 8 table)
      (elim (Bool-cases (v == i)) [
        | inl e ↦ inr (table i, rw e refl)
        | inr e ↦ elim h [
          | inl b ↦ inl (omega (arith, b, not-==→ne v i e))
          | inr g ↦ inr (g.0, rw e g.1)
        ]
      ])

abbrev IsRouted : Routines → ℕ → InterruptDescriptor → Type 0
IsRouted isr v d = Routed isr v (gate_bits d)

module _ (isr : Routines) (linked : IsLinked isr) where
  -- A gate with its own routine.
  own :
      (v i type l : ℕ) (d : InterruptDescriptor)
      → i < 2 ^ 32
      → (5 < type) × (type < 16) × (l < 4)
      → v ≢ 8
      → (routine isr v ≡ i) × (gate_type v ≡ type) × (level v ≡ l)
      → IsRouted isr v (create_interrupt_descriptor d i type l 8)
  own v i type l d lt bounds ne (r, t, l') =
      Fields-Routed
        (create_interrupt_descriptor-Fields d i type l 8 lt bounds.0 bounds.1 bounds.2
          (omega arith))
        ne r t l'

  special_gates-Routed :
      (table : ℕ → InterruptDescriptor) (v : ℕ)
      → ((u : ℕ) → u < 256 → IsGeneric isr.isr_generic (table u))
      → v < 256
      → IsRouted isr v (special_gates isr table v)
  unfolding special_gates routine gate_type level
  special_gates-Routed table v generic lt =
      at_vector (IsRouted isr) v 128
        (own 128 isr.isr_syscall 14 3 (table 128) linked.syscall (omega arith)
          (λ e. omega (arith, e)) (refl, refl, refl))
        λ e128.
          at_vector (IsRouted isr) v 64
            (own 64 isr.isr_timer 14 0 (table 64) linked.timer (omega arith) (λ e. omega (arith, e))
              (refl, refl, refl))
            λ e64.
              at_vector (IsRouted isr) v 65
                (own 65 isr.isr_preempt 14 3 (table 65) linked.preempt (omega arith)
                  (λ e. omega (arith, e)) (refl, refl, refl))
                λ e65.
                  at_vector (IsRouted isr) v 8
                    (task-Routed isr (table 8)
                      (generic-offset isr.isr_generic (generic 8 (omega arith))))
                    λ e8.
                      at_vector (IsRouted isr) v 14
                        (own 14 isr.isr_page_fault 15 0 (table 14) linked.page_fault (omega arith)
                          (λ e. omega (arith, e)) (refl, refl, refl))
                        λ e14.
                          at_vector (IsRouted isr) v 13
                            (own 13 isr.isr_gp_fault 15 0 (table 13) linked.gp_fault (omega arith)
                              (λ e. omega (arith, e)) (refl, refl, refl))
                            λ e13.
                              at_vector (IsRouted isr) v 11
                                (own 11 isr.isr_segment_not_present 15 0 (table 11)
                                  linked.segment_not_present (omega arith) (λ e. omega (arith, e))
                                  (refl, refl, refl))
                                λ e11.
                                  at_vector (IsRouted isr) v 0
                                    (own 0 isr.isr_division_by_zero 14 0 (table 0)
                                      linked.division_by_zero (omega arith) (λ e. omega (arith, e))
                                      (refl, refl, refl))
                                    λ e0.
                                      (rw (generic v lt).1 (
                                        other-Routed isr (generic v lt).0 v linked.generic e128 e64
                                          e65 e8 e14 e13 e11 e0))

-- The register names the table, with all the bytes of each vector's gate and none behind them, and
-- the segments and the task are as before.
pub record Installed (a : Symbols) (isr : Routines) (t u : Tables) : Type 0 where
  pub location : u.registers.idt_location ≡ a.idt
  pub inside : (v : ℕ) → v < 256 → v * 8 + 7 ≤ u.registers.idt_limit
  pub end : u.registers.idt_limit < 256 * 8
  pub gates : (v : ℕ) → v < 256 → Routed isr v (gate_bits (u.idt v))
  pub segments : u.gdt ≡ t.gdt
  pub registers :
      (u.registers.gdt_location ≡ t.registers.gdt_location)
      × (u.registers.gdt_limit ≡ t.registers.gdt_limit)
      × (u.registers.task ≡ t.registers.task)

-- After `initialize_idt`, whatever the table held, the register of the interrupt table has its address
-- and a limit that takes in all 256 gates and nothing behind them; the segments and the task register
-- are as before. In the table the processor finds for each of the 256 vectors a present gate with the routine of that exception, timer, yield or system call, or else the
-- generic one; the double fault's vector names the selector 48 of a task, and all others the kernel's
-- code segment. Only the vectors of the yield and the system call can be called by user code, and
-- the gates of the three faults with an error code are traps. The routines' addresses have 32
-- bits.
pub initialize_idt-Routed :
    (a : Symbols) (isr : Routines) (t : Tables)
    → IsLinked isr
    → Installed a isr t (initialize_idt a isr t)
unfolding initialize_idt load_idt
initialize_idt-Routed a isr t linked = record {
  location = refl;
  inside = λ v lt. omega (arith, lt);
  end = omega arith;
  gates = λ v lt.
      special_gates-Routed isr linked (generic_gates 256 0 isr.isr_generic start) v
        (λ u lt'. generic_gates-IsGeneric 256 0 isr.isr_generic u start (inl (omega (arith, lt'))))
        lt;
  segments = refl;
  registers = (refl, refl, refl);
}
  where
    start : ℕ → InterruptDescriptor
    start i = empty_gate
