-- ===== src/Apic/Tests.antt =====
-- The controller with its registers at 0xFEE00000, at concrete page tables.
use quark_kernel.Base.{ℕ, ◌≡◌, ◌/◌, ◌*◌, refl, some, [], arith}
use quark_kernel.Base.Fault.{Ensures}
use quark_kernel.PageMap.Samples.{one_page, frame_3, one_page-IsTree, frame_3-IsFree}
use quark_kernel.PageMap.Tables.{IsReady}
use quark_kernel.PageMap.Translate.{translate, translate-within}
use quark_kernel.Apic.{
  Controller, apic_delivery_mode_sipi, apic_destination_mode_logical, apic_level_assert,
  apic_trigger_mode_edge, apic_dest_shorthand_none,
}
use quark_kernel.Apic.Control.{initialize_interrupts, apic_send_ipi}
use quark_kernel.Apic.Enabled.{Enabled, MapsRegisters, initialize_interrupts-Enabled}
use quark_kernel.Apic.Ipi.{Sent, apic_send_ipi-Sent}

abbrev controller : Controller
controller = record { machine = one_page frame_3; words = λ a. a; writes = []; ports = [] }

-- The value after a reset: the base address, with the bits of the boot processor and of the enabled
-- controller.
abbrev base_msr : ℕ
base_msr = 0xFEE00900

initialize_interrupts-Enabled_example :
    Ensures
      (λ r. (r.0 ≡ 0) × Enabled controller 4198400 (base_msr / 4096 * 4096) r.1)
      (initialize_interrupts 4198400 base_msr controller)
initialize_interrupts-Enabled_example =
    initialize_interrupts-Enabled controller 4198400 base_msr (one_page-IsTree frame_3)
      (omega arith) refl (omega arith) (IsReady.fresh 3 refl refl (omega arith) frame_3-IsFree)

first_page : translate (one_page frame_3) 4096 ≡ some 20480
unfolding translate
first_page = refl

maps_4096 : MapsRegisters (one_page frame_3) 4096 20480
maps_4096 k lt = translate-within (one_page frame_3) 4096 20480 k refl lt first_page

apic_send_ipi-Sent_example :
    Ensures
      (λ r.
        Sent controller 20480 8 apic_delivery_mode_sipi apic_destination_mode_logical
          apic_level_assert apic_trigger_mode_edge apic_dest_shorthand_none 3 r.1)
      (apic_send_ipi 4096 8 apic_delivery_mode_sipi apic_destination_mode_logical apic_level_assert
        apic_trigger_mode_edge apic_dest_shorthand_none 3 controller)
apic_send_ipi-Sent_example =
    apic_send_ipi-Sent controller 4096 20480 8 apic_delivery_mode_sipi apic_destination_mode_logical
      apic_level_assert apic_trigger_mode_edge apic_dest_shorthand_none 3 maps_4096 (omega arith)
      (omega arith)
