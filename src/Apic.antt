-- ===== src/Apic.antt =====
-- src/x86/apic.c, include/x86/apic.h, include/x86/msr.h, src/x86/interrupts.c and the routine of the
-- timer in src/x86/isr.c: the local interrupt controller. Its registers are words at physical
-- addresses, which the loaded page tables translate to; an address that is not mapped is a fault. The
-- words that are stored and the bytes that are sent to ports are kept in order, the last one first.
-- The lines that are printed are left out.
pub mod Control
pub mod Pic
pub mod Enabled
pub mod Ipi
mod Tests
use quark_kernel.Base.{ℕ, ◌+◌, ◌*◌, ◌^◌, Option, none, some, List, ◌∷◌, ◌==◌, if◌then◌else◌}
use quark_kernel.Base.State.{St, pure, ◌>>=◌, ◌>>◌, read, modify, lift}
use quark_kernel.Kernel.State.{put}
use quark_kernel.Paging.{Machine}
use quark_kernel.PageMap.Translate.{translate}

-- The fields of `struct apic_registers_t`, without the reserved ones.
pub data Field : Type 0 where
  lapic_id lapic_version task_priority arbitration_priority processor_priority eoi remote_read
        logical_destination destination_format spurious_iv in_service trigger_mode interrupt_request
        error_status lvt_cmci interrput_command lvt_timer lvt_thermal_sensor
        lvt_performance_counters lvt_lint0 lvt_lint1 lvt_error initial_count current_count
        divide_config :
      Field

-- The slots before each, with the reserved ones: two before the first, four before `task_priority`, six
-- before `lvt_cmci` and four before `divide_config`.
abbrev pub slot_of : Field → ℕ
slot_of lapic_id = 2
slot_of lapic_version = 3
slot_of task_priority = 8
slot_of arbitration_priority = 9
slot_of processor_priority = 10
slot_of eoi = 11
slot_of remote_read = 12
slot_of logical_destination = 13
slot_of destination_format = 14
slot_of spurious_iv = 15
slot_of in_service = 16
slot_of trigger_mode = 24
slot_of interrupt_request = 32
slot_of error_status = 40
slot_of lvt_cmci = 47
slot_of interrput_command = 48
slot_of lvt_timer = 50
slot_of lvt_thermal_sensor = 51
slot_of lvt_performance_counters = 52
slot_of lvt_lint0 = 53
slot_of lvt_lint1 = 54
slot_of lvt_error = 55
slot_of initial_count = 56
slot_of current_count = 57
slot_of divide_config = 62

-- The register in the structure `apic_registers`, whose slots have 16 bytes.
abbrev pub register : (registers : ℕ) → Field → ℕ
register registers f = registers + 16 * slot_of f

abbrev pub spurious_mask : ℕ
spurious_mask = 0x1FF

pub data DeliveryMode : Type 0 where
  apic_delivery_mode_fixed apic_delivery_mode_lowest_priority apic_delivery_mode_smi
        apic_delivery_mode_nmi apic_delivery_mode_init apic_delivery_mode_sipi
        apiv_delivery_mode_extinit :
      DeliveryMode

abbrev pub delivery_number : DeliveryMode → ℕ
delivery_number apic_delivery_mode_fixed = 0
delivery_number apic_delivery_mode_lowest_priority = 1
delivery_number apic_delivery_mode_smi = 2
delivery_number apic_delivery_mode_nmi = 4
delivery_number apic_delivery_mode_init = 5
delivery_number apic_delivery_mode_sipi = 6
delivery_number apiv_delivery_mode_extinit = 7

pub data DestinationMode : Type 0 where
  apic_destination_mode_physical apic_destination_mode_logical : DestinationMode

abbrev pub destination_number : DestinationMode → ℕ
destination_number apic_destination_mode_physical = 0
destination_number apic_destination_mode_logical = 1

pub data Level : Type 0 where
  apic_level_deassert apic_level_assert : Level

abbrev pub level_number : Level → ℕ
level_number apic_level_deassert = 0
level_number apic_level_assert = 1

pub data TriggerMode : Type 0 where
  apic_trigger_mode_edge apic_trigger_mode_level : TriggerMode

abbrev pub trigger_number : TriggerMode → ℕ
trigger_number apic_trigger_mode_edge = 0
trigger_number apic_trigger_mode_level = 1

pub data DestinationShorthand : Type 0 where
  apic_dest_shorthand_none apic_dest_shorthand_self apic_dest_shorthand_all
        apic_dest_shorthand_others :
      DestinationShorthand

abbrev pub shorthand_number : DestinationShorthand → ℕ
shorthand_number apic_dest_shorthand_none = 0
shorthand_number apic_dest_shorthand_self = 1
shorthand_number apic_dest_shorthand_all = 2
shorthand_number apic_dest_shorthand_others = 3

-- `struct apic_icr_t`, without the fields that stay 0.
pub record Icr : Type 0 where
  pub vector : ℕ
  pub delivery_mode : ℕ
  pub destination_mode : ℕ
  pub level : ℕ
  pub trigger_mode : ℕ
  pub destination_shorthand : ℕ
  pub destination : ℕ

-- Its words, by the places of the bit fields.
unfoldable pub value_word : Icr → ℕ → ℕ
value_word value i =
    if i == 0
    then value.vector
      + 2 ^ 8 * value.delivery_mode
      + 2 ^ 11 * value.destination_mode
      + 2 ^ 14 * value.level
      + 2 ^ 15 * value.trigger_mode
      + 2 ^ 18 * value.destination_shorthand
    else if i == 4
    then 2 ^ 24 * value.destination
    else 0

pub record Controller : Type 0 where
  pub machine : Machine
  pub words : ℕ → ℕ
  pub writes : List (ℕ × ℕ)
  pub ports : List (ℕ × ℕ)

abbrev pub with_machine : {A : Type 0} → Controller → Option (A × Machine) → Option (A × Controller)
with_machine c none = none
with_machine c (some (a, m)) = some (a, record c { machine = m })

abbrev pub in_machine : {A : Type 0} → St Machine A → St Controller A
in_machine m c = with_machine c (m c.machine)

unfoldable pub read_register : ℕ → St Controller ℕ
read_register p = do c ← read; a ← lift (translate c.machine p); pure (c.words a)

unfoldable pub write_register : ℕ → ℕ → St Controller (Unit {0})
write_register p v = do
  c ← read
  a ← lift (translate c.machine p)
  modify λ c. record c { words = put c.words a v; writes = (a, v) ∷ c.writes }
