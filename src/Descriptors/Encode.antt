-- ===== src/Descriptors/Encode.antt =====
-- The descriptors of segments and of gates: `create_segment_descriptor` and `create_interrupt_descriptor`.
use quark_kernel.Base.{ℕ, ◌/◌, ◌%◌, ◌^◌, ◌==◌, if◌then◌else◌}
use quark_kernel.Descriptors.{
  GdtEntry, InterruptDescriptor, SegmentType, interrupt_task32, kernel_code, kernel_data, tss,
  user_code, user_data,
}

-- The cases of the switch.
abbrev pub code_or_data : (code dpl : ℕ) → GdtEntry → GdtEntry
code_or_data code dpl d = record d {
  accessed = 0;
  read_write = 1;
  conforming_expand_down = 0;
  code = code;
  code_data_segment = 1;
  dpl = dpl;
  available = 0;
  long_mode = 0;
  big = 1;
  granularity = 1;
}

unfoldable pub set_type : SegmentType → GdtEntry → GdtEntry
set_type kernel_code d = code_or_data 1 0 d
set_type kernel_data d = code_or_data 0 0 d
set_type user_code d = code_or_data 1 3 d
set_type user_data d = code_or_data 0 3 d
set_type tss d = record d {
  accessed = 1;
  read_write = 0;
  conforming_expand_down = 0;
  code = 1;
  code_data_segment = 0;
  dpl = 3;
  available = 0;
  long_mode = 0;
  big = 0;
  granularity = 0;
}

unfoldable pub create_segment_descriptor : GdtEntry → (base limit : ℕ) → SegmentType → GdtEntry
unfolding set_type
create_segment_descriptor descriptor base limit type = set_type type (record descriptor {
  limit_low = limit % 2 ^ 16;
  limit_high = limit / 2 ^ 16 % 2 ^ 4;
  base_low = base % 2 ^ 24;
  base_high = base / 2 ^ 24 % 2 ^ 8;
  present = 1;
})

abbrev pub set_offset : ℕ → InterruptDescriptor → InterruptDescriptor
set_offset isr d = record d { offset_1 = isr % 2 ^ 16; offset_2 = isr / 2 ^ 16 }

unfoldable pub create_interrupt_descriptor :
    InterruptDescriptor → (isr type privilage selector : ℕ) → InterruptDescriptor
create_interrupt_descriptor descriptor isr type privilage selector =
    let d = if type == interrupt_task32 then descriptor else set_offset isr descriptor in
    record d {
      selector = selector % 2 ^ 16;
      zeros = 0;
      type = type;
      storage = 0;
      dpl = privilage % 2 ^ 2;
      present = 1;
    }
