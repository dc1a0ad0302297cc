-- ===== src/Descriptors/Segments.antt =====
-- The segments that the kernel loads: `initialize_gdt`.
use quark_kernel.Base.{ℕ, ◌+◌, ◌*◌, ◌/◌, ◌^◌, ◌≤◌, ◌<◌, ◌≡◌, refl, arith}
use quark_kernel.Descriptors.{
  SegmentType, kernel_code, kernel_data, user_code, user_data, tss, empty_segment,
}
use quark_kernel.Descriptors.Setup.{Symbols, Routines, Tables, initialize_gdt}
use quark_kernel.Descriptors.Fields.{segment_bits, Described, create_segment_descriptor-Described}

-- The selector lies inside the table that is loaded, and its entry is such a segment.
pub record Selects (t : Tables) (selector base limit : ℕ) (type : SegmentType) : Type 0 where
  pub inside : selector / 8 * 8 + 7 ≤ t.registers.gdt_limit
  pub segment : Described base limit type (segment_bits (t.gdt (selector / 8)))

-- A segment of all 4 GB: its limit counts pages.
abbrev pub SelectsAll : Tables → ℕ → SegmentType → Type 0
SelectsAll t selector type = Selects t selector 0 0xFFFFF type

pub record Segmented (a : Symbols) (isr : Routines) (t : Tables) : Type 0 where
  pub location : t.registers.gdt_location ≡ a.gdt
  pub code : SelectsAll t t.registers.cs kernel_code
  pub data_segment : SelectsAll t t.registers.ds kernel_data
  pub extra_segment : SelectsAll t t.registers.es kernel_data
  pub stack_segment : SelectsAll t t.registers.ss kernel_data
  pub fs_segment : SelectsAll t t.registers.fs kernel_data
  pub gs_segment : SelectsAll t t.registers.gs kernel_data
  pub user_code_segment : SelectsAll t (3 * 8 + 3) user_code
  pub user_data_segment : SelectsAll t (4 * 8 + 3) user_data
  pub task : Selects t t.registers.task a.tss 103 tss
  pub double_fault_task : Selects t (8 * 6) a.double_fault_tss 103 tss
  -- The stack that the processor takes when user code is interrupted.
  pub kernel_stack : t.tss.esp0 ≡ a.stack_top
  pub kernel_stack_segment : SelectsAll t t.tss.ss0 kernel_data
  -- What the processor loads when the task of the double fault starts.
  pub fault_code : t.double_fault_tss.eip ≡ isr.isr_double_fault
  pub fault_code_segment : SelectsAll t t.double_fault_tss.cs kernel_code
  pub fault_stack_segment : SelectsAll t t.double_fault_tss.ss kernel_data
  pub fault_data_segment : SelectsAll t t.double_fault_tss.ds kernel_data

-- After `initialize_gdt`, whatever the tables held, the code, data and stack segments that are
-- loaded are the kernel's, of all 4 GB, and the user's selectors are those of its own two; the
-- task register and the selector 48 name the two task states, with their addresses. An interrupt
-- of user code takes the kernel's stack and data segment, and the task of the double fault starts
-- at its routine with the kernel's code, stack and data segments. The addresses of the two task
-- states have 32 bits.
pub initialize_gdt-Segmented :
    (a : Symbols) (isr : Routines) (t : Tables)
    → a.tss < 2 ^ 32
    → a.double_fault_tss < 2 ^ 32
    → Segmented a isr (initialize_gdt a isr t)
unfolding initialize_gdt
initialize_gdt-Segmented a isr t s f = record {
  location = refl;
  code = code;
  data_segment = flat_data;
  extra_segment = flat_data;
  stack_segment = flat_data;
  fs_segment = flat_data;
  gs_segment = flat_data;
  user_code_segment = record {
    inside = omega arith;
    segment =
        create_segment_descriptor-Described empty_segment 0 0xFFFFF user_code (omega arith)
          (omega arith);
  };
  user_data_segment = record {
    inside = omega arith;
    segment =
        create_segment_descriptor-Described empty_segment 0 0xFFFFF user_data (omega arith)
          (omega arith);
  };
  task = record {
    inside = omega arith;
    segment = create_segment_descriptor-Described empty_segment a.tss 103 tss s (omega arith);
  };
  double_fault_task = record {
    inside = omega arith;
    segment =
        create_segment_descriptor-Described empty_segment a.double_fault_tss 103 tss f
          (omega arith);
  };
  kernel_stack = refl;
  kernel_stack_segment = flat_data;
  fault_code = refl;
  fault_code_segment = code;
  fault_stack_segment = flat_data;
  fault_data_segment = flat_data;
}
  where
    code : SelectsAll (initialize_gdt a isr t) 8 kernel_code
    code = record {
      inside = omega arith;
      segment =
          create_segment_descriptor-Described empty_segment 0 0xFFFFF kernel_code (omega arith)
            (omega arith);
    }

    flat_data : SelectsAll (initialize_gdt a isr t) 16 kernel_data
    flat_data = record {
      inside = omega arith;
      segment =
          create_segment_descriptor-Described empty_segment 0 0xFFFFF kernel_data (omega arith)
            (omega arith);
    }
