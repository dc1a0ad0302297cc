-- ===== src/Apic/Ipi.antt =====
-- The interrupt command register: what the other processors, and the local controller, read in the
-- words that `apic_send_ipi` writes.
use quark_kernel.Base.{
  ℕ, ◌+◌, ◌*◌, ◌/◌, ◌%◌, ◌^◌, ◌<◌, ◌≡◌, ◌≢◌, ◌∙◌, refl, ap, arith, ne→not-==, ◌∷◌,
}
use quark_kernel.Base.Fault.{Ensures, ensures}
use quark_kernel.Kernel.State.{put}
use quark_kernel.PageMap.Translate.{translate}
use quark_kernel.Apic.{
  Controller, value_word, DeliveryMode, delivery_number, apic_delivery_mode_fixed,
  apic_delivery_mode_lowest_priority, apic_delivery_mode_smi, apic_delivery_mode_nmi,
  apic_delivery_mode_init, apic_delivery_mode_sipi, apiv_delivery_mode_extinit, DestinationMode,
  destination_number, apic_destination_mode_physical, apic_destination_mode_logical, Level,
  level_number, apic_level_deassert, apic_level_assert, TriggerMode, trigger_number,
  apic_trigger_mode_edge, apic_trigger_mode_level, DestinationShorthand, shorthand_number,
  apic_dest_shorthand_none, apic_dest_shorthand_self, apic_dest_shorthand_all,
  apic_dest_shorthand_others,
}
use quark_kernel.Apic.Control.{apic_send_ipi}
use quark_kernel.Apic.Enabled.{MapsRegisters, put-at, write_register-at}

-- A command, by the fields that the manual takes from its low word; the bits from 20 on and those
-- for the state of the delivery are 0.
pub record IsCommand (vector : ℕ) (d : DeliveryMode) (m : DestinationMode) (l : Level)
    (t : TriggerMode) (s : DestinationShorthand) (low : ℕ) : Type 0 where
  pub its_vector : low % 2 ^ 8 ≡ vector
  pub delivery : low / 2 ^ 8 % 2 ^ 3 ≡ delivery_number d
  pub destination_mode : low / 2 ^ 11 % 2 ≡ destination_number m
  pub idle : low / 2 ^ 12 % 2 ^ 2 ≡ 0
  pub level : low / 2 ^ 14 % 2 ≡ level_number l
  pub trigger : low / 2 ^ 15 % 2 ≡ trigger_number t
  pub unused : low / 2 ^ 16 % 2 ^ 2 ≡ 0
  pub shorthand : low / 2 ^ 18 % 2 ^ 2 ≡ shorthand_number s
  pub reserved : low / 2 ^ 20 ≡ 0

pub record Sent (c : Controller) (base vector : ℕ) (d : DeliveryMode) (m : DestinationMode)
    (l : Level) (t : TriggerMode) (s : DestinationShorthand) (destination : ℕ) (u : Controller)
    : Type 0 where
  pub command : IsCommand vector d m l t s (u.words (base + 0x300))
  pub its_destination : u.words (base + 0x310) / 2 ^ 24 ≡ destination
  pub order :
      u.writes
      ≡ (base + 0x300, u.words (base + 0x300)) ∷ (base + 0x310, u.words (base + 0x310)) ∷ c.writes
  pub others : (a : ℕ) → a ≢ base + 0x300 → a ≢ base + 0x310 → u.words a ≡ c.words a

delivery-lt : (d : DeliveryMode) → delivery_number d < 8
delivery-lt apic_delivery_mode_fixed = omega arith
delivery-lt apic_delivery_mode_lowest_priority = omega arith
delivery-lt apic_delivery_mode_smi = omega arith
delivery-lt apic_delivery_mode_nmi = omega arith
delivery-lt apic_delivery_mode_init = omega arith
delivery-lt apic_delivery_mode_sipi = omega arith
delivery-lt apiv_delivery_mode_extinit = omega arith

destination-lt : (m : DestinationMode) → destination_number m < 2
destination-lt apic_destination_mode_physical = omega arith
destination-lt apic_destination_mode_logical = omega arith

level-lt : (l : Level) → level_number l < 2
level-lt apic_level_deassert = omega arith
level-lt apic_level_assert = omega arith

trigger-lt : (t : TriggerMode) → trigger_number t < 2
trigger-lt apic_trigger_mode_edge = omega arith
trigger-lt apic_trigger_mode_level = omega arith

shorthand-lt : (s : DestinationShorthand) → shorthand_number s < 4
shorthand-lt apic_dest_shorthand_none = omega arith
shorthand-lt apic_dest_shorthand_self = omega arith
shorthand-lt apic_dest_shorthand_all = omega arith
shorthand-lt apic_dest_shorthand_others = omega arith

command_word : (v d m l t s : ℕ) → ℕ
command_word v d m l t s =
    v
    + 2 ^ 8 * (d % 2 ^ 3)
    + 2 ^ 11 * (m % 2)
    + 2 ^ 14 * (l % 2)
    + 2 ^ 15 * (t % 2)
    + 2 ^ 18 * (s % 2 ^ 2)

module _ (v d m l t s : ℕ) (v' : v < 256) (d' : d < 8) (m' : m < 2) (l' : l < 2) (t' : t < 2)
    (s' : s < 4) where
  low_fields :
      (command_word v d m l t s % 2 ^ 8 ≡ v)
      × (command_word v d m l t s / 2 ^ 8 % 2 ^ 3 ≡ d)
      × (command_word v d m l t s / 2 ^ 11 % 2 ≡ m)
      × (command_word v d m l t s / 2 ^ 12 % 2 ^ 2 ≡ 0)
      × (command_word v d m l t s / 2 ^ 14 % 2 ≡ l)
  unfolding command_word
  low_fields = omega arith

  high_fields :
      (command_word v d m l t s / 2 ^ 15 % 2 ≡ t)
      × (command_word v d m l t s / 2 ^ 16 % 2 ^ 2 ≡ 0)
      × (command_word v d m l t s / 2 ^ 18 % 2 ^ 2 ≡ s)
      × (command_word v d m l t s / 2 ^ 20 ≡ 0)
  unfolding command_word
  high_fields = omega arith

command_word-IsCommand :
    (v : ℕ) (d : DeliveryMode) (m : DestinationMode) (l : Level) (t : TriggerMode)
    (s : DestinationShorthand)
    → v < 256
    → IsCommand v d m l t s (
        command_word v
          (delivery_number d)
          (destination_number m)
          (level_number l)
          (trigger_number t)
          (shorthand_number s))
command_word-IsCommand v d m l t s lt =
    let low =
      low_fields v (delivery_number d) (destination_number m) (level_number l) (trigger_number t)
        (shorthand_number s) lt (delivery-lt d) (destination-lt m) (level-lt l) (trigger-lt t)
        (shorthand-lt s) in
    let high =
      high_fields v (delivery_number d) (destination_number m) (level_number l) (trigger_number t)
        (shorthand_number s) lt (delivery-lt d) (destination-lt m) (level-lt l) (trigger-lt t)
        (shorthand-lt s) in
    record {
      its_vector = low.0;
      delivery = low.1;
      destination_mode = low.2;
      idle = low.3;
      level = low.4;
      trigger = high.0;
      unused = high.1;
      shorthand = high.2;
      reserved = high.3;
    }

-- Where the page of the registers is mapped, `apic_send_ipi` writes the destination first, and then the
-- word that starts the delivery, with each field in its bits and 0 in the others; no other register is
-- written. The vector and the destination have 8 bits.
pub apic_send_ipi-Sent :
    (c : Controller) (registers base vector : ℕ) (d : DeliveryMode) (m : DestinationMode)
    (l : Level) (t : TriggerMode) (s : DestinationShorthand) (destination : ℕ)
    → MapsRegisters c.machine registers base
    → vector < 256
    → destination < 256
    → Ensures
        (λ r. Sent c base vector d m l t s destination r.1)
        (apic_send_ipi registers vector d m l t s destination c)
unfolding apic_send_ipi value_word command_word
apic_send_ipi-Sent c registers base vector d m l t s destination maps v' d' =
    let low =
      command_word vector (delivery_number d) (destination_number m) (level_number l)
        (trigger_number t) (shorthand_number s) in
    let high = 2 ^ 24 * destination in
    let c1 : Controller = record c {
      words = put c.words (base + 0x310) high;
      writes = (base + 0x310, high) ∷ c.writes;
    } in
    let far : put (put c.words (base + 0x310) high) (base + 0x300) low (base + 0x310) ≡ high =
      rw (ne→not-== (base + 0x310) (base + 0x300) (λ e. omega (arith, e)))
        (put-at c.words (base + 0x310) high) in
    let near : put (put c.words (base + 0x310) high) (base + 0x300) low (base + 0x300) ≡ low =
      put-at (put c.words (base + 0x310) high) (base + 0x300) low in
    let address : registers + 0x300 + 16 ≡ registers + 0x310 = omega arith in
    let same_vector : vector % 2 ^ 8 ≡ vector = omega (arith, v') in
    let same_destination : destination % 2 ^ 8 ≡ destination = omega (arith, d') in
    rw
      (
        same_vector,
        same_destination,
        write_register-at c (registers + 0x300 + 16) (base + 0x310) high
            (ap (translate c.machine) address ∙ maps 0x310 (omega arith)),
        write_register-at c1 (registers + 0x300) (base + 0x300) low (maps 0x300 (omega arith)),
      )
      (ensures (record {
        command = rw near (command_word-IsCommand vector d m l t s v');
        its_destination = ap (λ x. x / 2 ^ 24) far ∙ omega arith;
        order = rw (near, far) refl;
        others = λ a n n'. rw (ne→not-== a (base + 0x300) n, ne→not-== a (base + 0x310) n') refl;
      }))
