-- ===== src/Descriptors.antt =====
-- src/x86/idt.c, include/x86/idt.h: the descriptor tables of the processor and what loads them.
-- A bit field is a number below the power of two of its width. The addresses of the interrupt
-- service routines, of the static tables and of the kernel's symbols are arguments.
pub mod Encode
pub mod Setup
pub mod Fields
pub mod Segments
pub mod Routing
pub mod Gates
mod Tests
use quark_kernel.Base.{
  ℕ, zero, suc, ◌+◌, ◌-◌, ◌*◌, ◌/◌, ◌%◌, ◌^◌, List, [], ◌∷◌, ◌==◌, if◌then◌else◌,
}

abbrev pub idt_size : ℕ
idt_size = 256

abbrev pub gdt_size : ℕ
gdt_size = 7

pub data SegmentType : Type 0 where
  kernel_code : SegmentType
  kernel_data : SegmentType
  user_code : SegmentType
  user_data : SegmentType
  tss : SegmentType

pub record GdtEntry : Type 0 where
  pub limit_low : ℕ
  pub base_low : ℕ
  pub accessed : ℕ
  pub read_write : ℕ
  pub conforming_expand_down : ℕ
  pub code : ℕ
  pub code_data_segment : ℕ
  pub dpl : ℕ
  pub present : ℕ
  pub limit_high : ℕ
  pub available : ℕ
  pub long_mode : ℕ
  pub big : ℕ
  pub granularity : ℕ
  pub base_high : ℕ

pub record TssEntry : Type 0 where
  pub prev_tss : ℕ
  pub esp0 : ℕ
  pub ss0 : ℕ
  pub esp1 : ℕ
  pub ss1 : ℕ
  pub esp2 : ℕ
  pub ss2 : ℕ
  pub cr3 : ℕ
  pub eip : ℕ
  pub eflags : ℕ
  pub eax : ℕ
  pub ecx : ℕ
  pub edx : ℕ
  pub ebx : ℕ
  pub esp : ℕ
  pub ebp : ℕ
  pub esi : ℕ
  pub edi : ℕ
  pub es : ℕ
  pub cs : ℕ
  pub ss : ℕ
  pub ds : ℕ
  pub fs : ℕ
  pub gs : ℕ
  pub ldt : ℕ
  pub trap : ℕ
  pub iomap_base : ℕ

-- The sizes of the packed structures, in bytes.
abbrev pub gdt_entry_bytes : ℕ
gdt_entry_bytes = 8

abbrev pub tss_entry_bytes : ℕ
tss_entry_bytes = 104

pub record InterruptDescriptor : Type 0 where
  pub offset_1 : ℕ
  pub selector : ℕ
  pub zeros : ℕ
  pub type : ℕ
  pub storage : ℕ
  pub dpl : ℕ
  pub present : ℕ
  pub offset_2 : ℕ

abbrev pub interrupt_descriptor_bytes : ℕ
interrupt_descriptor_bytes = 8

abbrev pub interrupt_task32 : ℕ
interrupt_task32 = 5

abbrev pub interrupt_int32 : ℕ
interrupt_int32 = 14

abbrev pub interrupt_trap32 : ℕ
interrupt_trap32 = 15

-- What `memset` with 0 leaves.
abbrev pub empty_segment : GdtEntry
empty_segment = record {
  limit_low = 0;
  base_low = 0;
  accessed = 0;
  read_write = 0;
  conforming_expand_down = 0;
  code = 0;
  code_data_segment = 0;
  dpl = 0;
  present = 0;
  limit_high = 0;
  available = 0;
  long_mode = 0;
  big = 0;
  granularity = 0;
  base_high = 0;
}

abbrev pub empty_gate : InterruptDescriptor
empty_gate = record {
  offset_1 = 0;
  selector = 0;
  zeros = 0;
  type = 0;
  storage = 0;
  dpl = 0;
  present = 0;
  offset_2 = 0;
}

abbrev pub empty_tss : TssEntry
empty_tss = record {
  prev_tss = 0;
  esp0 = 0;
  ss0 = 0;
  esp1 = 0;
  ss1 = 0;
  esp2 = 0;
  ss2 = 0;
  cr3 = 0;
  eip = 0;
  eflags = 0;
  eax = 0;
  ecx = 0;
  edx = 0;
  ebx = 0;
  esp = 0;
  ebp = 0;
  esi = 0;
  edi = 0;
  es = 0;
  cs = 0;
  ss = 0;
  ds = 0;
  fs = 0;
  gs = 0;
  ldt = 0;
  trap = 0;
  iomap_base = 0;
}

abbrev pub exception_div_by_0 : ℕ
exception_div_by_0 = 0

abbrev pub exception_double_fault : ℕ
exception_double_fault = 8

abbrev pub exception_segment_not_present : ℕ
exception_segment_not_present = 11

abbrev pub exception_gpf : ℕ
exception_gpf = 13

abbrev pub exception_page_fault : ℕ
exception_page_fault = 14

abbrev pub isr_apic_timer : ℕ
isr_apic_timer = 64

abbrev pub isr_preempt_vector : ℕ
isr_preempt_vector = 65

abbrev pub isr_syscall_vector : ℕ
isr_syscall_vector = 128
