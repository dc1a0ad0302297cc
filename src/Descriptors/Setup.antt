-- ===== src/Descriptors/Setup.antt =====
-- The set-up of the two tables and of the registers that hold them: `initialize_gdt` and
-- `initialize_idt`.
use quark_kernel.Base.{ℕ, zero, suc, ◌+◌, ◌-◌, ◌*◌, ◌/◌, ◌%◌, ◌^◌, ◌==◌, if◌then◌else◌}
use quark_kernel.Descriptors.{
  GdtEntry, InterruptDescriptor, SegmentType, TssEntry, empty_gate, empty_segment, empty_tss,
  exception_div_by_0, exception_double_fault, exception_gpf, exception_page_fault,
  exception_segment_not_present, gdt_entry_bytes, idt_size, interrupt_descriptor_bytes,
  interrupt_int32, interrupt_task32, interrupt_trap32, isr_apic_timer, isr_preempt_vector,
  isr_syscall_vector, kernel_code, kernel_data, tss, tss_entry_bytes, user_code, user_data,
}
use quark_kernel.Descriptors.Encode.{create_interrupt_descriptor, create_segment_descriptor}

-- What the instructions of `load_gdt`, `load_idt` and `load_tr` set.
pub record Registers : Type 0 where
  pub gdt_limit : ℕ
  pub gdt_location : ℕ
  pub idt_limit : ℕ
  pub idt_location : ℕ
  pub task : ℕ
  pub cs : ℕ
  pub ds : ℕ
  pub es : ℕ
  pub gs : ℕ
  pub fs : ℕ
  pub ss : ℕ

unfoldable pub load_gdt : (gdt : ℕ) → Registers → Registers
load_gdt gdt r = record r {
  gdt_limit = gdt_entry_bytes * 7 - 1;
  gdt_location = gdt;
  cs = 8;
  ds = 16;
  es = 16;
  gs = 16;
  fs = 16;
  ss = 16;
}

unfoldable pub load_idt : (idt : ℕ) → Registers → Registers
load_idt idt r = record r { idt_limit = interrupt_descriptor_bytes * 256 - 1; idt_location = idt }

-- `|= 3`, on a 16-bit number.
unfoldable pub load_tr : (gdt_offset : ℕ) → Registers → Registers
load_tr gdt_offset r = record r { task = gdt_offset % 2 ^ 16 / 4 * 4 + 3 }

abbrev pub with_entry : {A : Type 0} → ℕ → A → (ℕ → A) → ℕ → A
with_entry i a table j = if j == i then a else table j

-- The addresses that the linker gives.
pub record Symbols : Type 0 where
  pub gdt : ℕ
  pub idt : ℕ
  pub tss : ℕ
  pub double_fault_tss : ℕ
  pub stack_top : ℕ
  pub default_page_dir : ℕ
  pub kernel_start : ℕ
  pub kernel_pstart : ℕ

-- The interrupt service routines.
pub record Routines : Type 0 where
  pub isr_generic : ℕ
  pub isr_division_by_zero : ℕ
  pub isr_segment_not_present : ℕ
  pub isr_gp_fault : ℕ
  pub isr_page_fault : ℕ
  pub isr_double_fault : ℕ
  pub isr_preempt : ℕ
  pub isr_timer : ℕ
  pub isr_syscall : ℕ

pub record Tables : Type 0 where
  pub gdt : ℕ → GdtEntry
  pub idt : ℕ → InterruptDescriptor
  pub tss : TssEntry
  pub double_fault_tss : TssEntry
  pub registers : Registers

abbrev pub create_segment : (i base limit : ℕ) → SegmentType → (ℕ → GdtEntry) → ℕ → GdtEntry
create_segment i base limit type table =
    with_entry i (create_segment_descriptor (table i) base limit type) table

unfoldable pub initialize_gdt : Symbols → Routines → Tables → Tables
unfolding load_gdt load_tr
initialize_gdt a isr t = record t {
  gdt = create_segment 6 a.double_fault_tss (tss_entry_bytes - 1) tss (
      create_segment 5 a.tss (tss_entry_bytes - 1) tss (
        create_segment 4 0 0xFFFFF user_data (
          create_segment 3 0 0xFFFFF user_code (
            create_segment 2 0 0xFFFFF kernel_data
              (create_segment 1 0 0xFFFFF kernel_code (λ i. empty_segment))))));
  tss = record empty_tss { esp0 = a.stack_top; ss0 = 0x10 };
  double_fault_tss = record empty_tss {
    esp0 = a.stack_top;
    ss0 = 0x10;
    esp = a.stack_top;
    cs = 0x08;
    ds = 0x10;
    ss = 0x10;
    fs = 0x10;
    gs = 0x10;
    cr3 = (a.default_page_dir + 2 ^ 32 - a.kernel_start + a.kernel_pstart) % 2 ^ 32;
    eip = isr.isr_double_fault;
  };
  registers = load_tr (5 * gdt_entry_bytes) (load_gdt a.gdt t.registers);
}

abbrev pub create_gate :
    (i isr type privilage selector : ℕ) → (ℕ → InterruptDescriptor) → ℕ → InterruptDescriptor
create_gate i isr type privilage selector table =
    with_entry i (create_interrupt_descriptor (table i) isr type privilage selector) table

-- The loop from the entry `i`, with `rounds` entries left.
unfoldable pub generic_gates :
    (rounds i isr_generic : ℕ) → (ℕ → InterruptDescriptor) → ℕ → InterruptDescriptor
generic_gates zero i isr_generic table = table
generic_gates (suc rounds) i isr_generic table =
    generic_gates rounds (i + 1) isr_generic (create_gate i isr_generic interrupt_int32 0 8 table)

unfoldable pub special_gates : Routines → (ℕ → InterruptDescriptor) → ℕ → InterruptDescriptor
special_gates isr table = create_gate isr_syscall_vector isr.isr_syscall interrupt_int32 3 8 (
    create_gate isr_apic_timer isr.isr_timer interrupt_int32 0 8 (
      create_gate isr_preempt_vector isr.isr_preempt interrupt_int32 3 8 (
        create_gate exception_double_fault 0 interrupt_task32 0 (8 * 6) (
          create_gate exception_page_fault isr.isr_page_fault interrupt_trap32 0 8 (
            create_gate exception_gpf isr.isr_gp_fault interrupt_trap32 0 8 (
              create_gate exception_segment_not_present isr.isr_segment_not_present interrupt_trap32
                0 8
                (create_gate exception_div_by_0 isr.isr_division_by_zero interrupt_int32 0 8
                  table)))))))

unfoldable pub initialize_idt : Symbols → Routines → Tables → Tables
unfolding load_idt
initialize_idt a isr t = record t {
  idt = special_gates isr (generic_gates idt_size 0 isr.isr_generic (λ i. empty_gate));
  registers = load_idt a.idt t.registers;
}
