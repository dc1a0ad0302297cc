-- ===== src/Descriptors/Tests.antt =====
-- The descriptor tables at concrete addresses.
use quark_kernel.Base.{◌≡◌, refl, arith}
use quark_kernel.Descriptors.{kernel_code, tss, empty_segment, empty_gate, empty_tss}
use quark_kernel.Descriptors.Encode.{create_segment_descriptor, create_interrupt_descriptor}
use quark_kernel.Descriptors.Setup.{Symbols, Routines, Tables, initialize_gdt, initialize_idt}
use quark_kernel.Descriptors.Fields.{segment_bits, Described, create_segment_descriptor-Described}
use quark_kernel.Descriptors.Segments.{Segmented, initialize_gdt-Segmented}
use quark_kernel.Descriptors.Routing.{gate_bits}
use quark_kernel.Descriptors.Gates.{Installed, initialize_idt-Routed}

abbrev symbols : Symbols
symbols = record {
  gdt = 0xC0110000;
  idt = 0xC0111000;
  tss = 0xC0112000;
  double_fault_tss = 0xC0112100;
  stack_top = 0xC0120000;
  default_page_dir = 0xC0130000;
  kernel_start = 0xC0000000;
  kernel_pstart = 0x100000;
}

abbrev routines : Routines
routines = record {
  isr_generic = 0xC0100000;
  isr_division_by_zero = 0xC0100100;
  isr_segment_not_present = 0xC0100200;
  isr_gp_fault = 0xC0100300;
  isr_page_fault = 0xC0100400;
  isr_double_fault = 0xC0100500;
  isr_preempt = 0xC0100600;
  isr_timer = 0xC0100700;
  isr_syscall = 0xC0100800;
}

abbrev tables : Tables
tables = record {
  gdt = λ i. empty_segment;
  idt = λ i. empty_gate;
  tss = empty_tss;
  double_fault_tss = empty_tss;
  registers = record {
    gdt_limit = 0;
    gdt_location = 0;
    idt_limit = 0;
    idt_location = 0;
    task = 0;
    cs = 0;
    ds = 0;
    es = 0;
    gs = 0;
    fs = 0;
    ss = 0;
  };
}

-- The kernel's code segment as the manual writes it.
kernel_code_bits :
    segment_bits (create_segment_descriptor empty_segment 0 0xFFFFF kernel_code)
    ≡ 0x00CF9A000000FFFF
unfolding segment_bits create_segment_descriptor
kernel_code_bits = refl

-- A gate that user code may call.
syscall_gate_bits :
    gate_bits (create_interrupt_descriptor empty_gate 0xC0100800 14 3 8) ≡ 0xC010EE0000080800
unfolding gate_bits create_interrupt_descriptor
syscall_gate_bits = refl

-- The page tables of the double fault's task, by their physical address.
double_fault_cr3 : (initialize_gdt symbols routines tables).double_fault_tss.cr3 ≡ 0x230000
unfolding initialize_gdt
double_fault_cr3 = refl

initialize_gdt-Segmented_example :
    Segmented symbols routines (initialize_gdt symbols routines tables)
initialize_gdt-Segmented_example =
    initialize_gdt-Segmented symbols routines tables (omega arith) (omega arith)

initialize_idt-Routed_example :
    Installed symbols routines tables (initialize_idt symbols routines tables)
initialize_idt-Routed_example = initialize_idt-Routed symbols routines tables (record {
  generic = omega arith;
  division_by_zero = omega arith;
  segment_not_present = omega arith;
  gp_fault = omega arith;
  page_fault = omega arith;
  preempt = omega arith;
  timer = omega arith;
  syscall = omega arith;
})

create_segment_descriptor-Described_example :
    Described 0xC0112000 103 tss
      (segment_bits (create_segment_descriptor empty_segment 0xC0112000 103 tss))
create_segment_descriptor-Described_example =
    create_segment_descriptor-Described empty_segment 0xC0112000 103 tss (omega arith) (omega arith)
