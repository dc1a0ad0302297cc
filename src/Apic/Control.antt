-- ===== src/Apic/Control.antt =====
-- The operations on the local interrupt controller.
use quark_kernel.Base.{ℕ, ◌+◌, ◌*◌, ◌/◌, ◌%◌, ◌^◌, ◌∷◌}
use quark_kernel.Base.State.{St, pure, ◌>>=◌, ◌>>◌, modify}
use quark_kernel.Paging.{page_rw}
use quark_kernel.PageMap.{map_page}
use quark_kernel.Apic.{
  Controller, in_machine, register, read_register, write_register, spurious_iv, destination_format,
  eoi, interrput_command, spurious_mask, Icr, value_word, DeliveryMode, delivery_number,
  DestinationMode, destination_number, Level, level_number, TriggerMode, trigger_number,
  DestinationShorthand, shorthand_number,
}

-- `outb`.
unfoldable pub send_byte : ℕ → ℕ → St Controller (Unit {0})
send_byte port v = modify λ c. record c { ports = (port, v) ∷ c.ports }

unfoldable pub disable_pic : St Controller (Unit {0})
unfolding send_byte
disable_pic = do
  send_byte 0x20 0x11
  send_byte 0xA0 0x11
  send_byte 0x21 0x20
  send_byte 0xA1 0x28
  send_byte 0x21 4
  send_byte 0xA1 2
  send_byte 0x21 0x01
  send_byte 0xA1 0x01
  send_byte 0xA1 0xFF
  send_byte 0x21 0xFF

-- `apic_base` of `struct msr_apic_base_t`.
abbrev pub apic_base : (msr : ℕ) → ℕ
apic_base msr = msr / 2 ^ 12 % 2 ^ 52

-- `a | 0x1FF`.
abbrev pub or_spurious : ℕ → ℕ
or_spurious a = a / (spurious_mask + 1) * (spurious_mask + 1) + spurious_mask

-- `registers` is the address of `apic_registers`, and `msr` what `rdmsr` reads for MSR_APIC_BASE.
unfoldable pub apic_enable : (registers msr : ℕ) → St Controller (Unit {0})
apic_enable registers msr = do
  disable_pic
  status ← in_machine (map_page registers (apic_base msr * 2 ^ 12 % 2 ^ 32) page_rw)
  a ← read_register (register registers spurious_iv)
  write_register (register registers spurious_iv) (or_spurious a)
  write_register (register registers destination_format) 0xFFFFFFFF

unfoldable pub apic_eoi : (registers : ℕ) → St Controller (Unit {0})
unfolding write_register
apic_eoi registers = write_register (register registers eoi) 0

unfoldable pub isr_timer : (registers : ℕ) → St Controller (Unit {0})
unfolding apic_eoi
isr_timer registers = apic_eoi registers

unfoldable pub initialize_interrupts : (registers msr : ℕ) → St Controller ℕ
initialize_interrupts registers msr = do apic_enable registers msr; pure 0

unfoldable pub apic_send_ipi :
    (registers vector : ℕ)
    → DeliveryMode
    → DestinationMode
    → Level
    → TriggerMode
    → DestinationShorthand
    → (destination : ℕ) → St Controller (Unit {0})
apic_send_ipi registers vector delivery_mode destination_mode level trigger shorthand destination =
    let value : Icr = record {
      vector = vector % 2 ^ 8;
      delivery_mode = delivery_number delivery_mode % 2 ^ 3;
      destination_mode = destination_number destination_mode % 2;
      level = level_number level % 2;
      trigger_mode = trigger_number trigger % 2;
      destination_shorthand = shorthand_number shorthand % 2 ^ 2;
      destination = destination % 2 ^ 8;
    } in
    let icr_addr = register registers interrput_command in
    do
      write_register (icr_addr + 4 * 4) (value_word value 4)
      write_register icr_addr (value_word value 0)
