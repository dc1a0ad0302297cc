-- ===== src/Multiboot/Tests.antt =====
-- A table with a size of the memory, a module, a memory map and a tag that is passed over.
use quark_kernel.Base.{
  ℕ, ◌+◌, ◌/◌, ◌%◌, ◌^◌, ◌≡◌, refl, inr, Option, none, some, List, [], ◌∷◌, get_elem?,
  if◌then◌else◌, ◌==◌, arith,
}
use quark_kernel.Base.Fault.{Ensures}
use quark_kernel.Strings.{Memory}
use quark_kernel.Context.{get_word}
use quark_kernel.Multiboot.{RegionTypes, BootInfo, read_multiboot_table}
use quark_kernel.Multiboot.Tags.{Tag, memory_info, memory_map, boot_module, other, TagAt, TagsAt}
use quark_kernel.Multiboot.Summary.{Summary, apply_all, Holds, IsPlaced}
use quark_kernel.Multiboot.Entries.{Agrees}
use quark_kernel.Multiboot.Table.{read_multiboot_table-Holds}

abbrev types : RegionTypes
types = record { m_available = 1; m_unavailable = 2; m_defective = 3 }

-- The words of the table, which starts at the address 16.
abbrev words : List ℕ
words =
    0 ∷ 0 ∷ 0 ∷ 0 ∷ 104 ∷ 0 ∷ 4 ∷ 16 ∷ 640 ∷ 31744 ∷ 3 ∷ 20 ∷ 0x200000 ∷ 0x201800 ∷ 0x636261 ∷ 0 ∷ 6
    ∷ 40 ∷ 24 ∷ 0 ∷ 0x100000 ∷ 0 ∷ 0x1F00000 ∷ 0 ∷ 1 ∷ 0 ∷ 10 ∷ 8 ∷ 0 ∷ 8 ∷ []

abbrev byte : ℕ → Option ℕ → ℕ
byte i none = 0
byte i (some w) = w / 256 ^ i % 256

abbrev table : Memory
table p = byte (p % 4) (get_elem? words (p / 4))

abbrev tags : List Tag
tags =
    memory_info 640 31744
    ∷ boot_module 0x200000 0x201800 (0x61 ∷ 0x62 ∷ 0x63 ∷ [])
    ∷ memory_map (record { base = 0x100000; size = 0x1F00000; type = 1 } ∷ [])
    ∷ other 10
    ∷ []

abbrev boot_info : BootInfo
boot_info = record {
  memory = table;
  bootloader = 1000;
  parameters = 1064;
  memory_size = 0;
  map = [];
  module_count = 0;
  modules = 1200;
}

abbrev nothing : Summary
nothing = record { memory_size = 0; regions = []; modules = []; command = none; loader = none }

boot_info-IsPlaced : IsPlaced 120 1200 1064 1000
boot_info-IsPlaced = record {
  modules_behind = omega arith;
  parameters_behind = omega arith;
  bootloader_behind = omega arith;
  modules_parameters = inr (omega arith);
  modules_bootloader = inr (omega arith);
  parameters_bootloader = inr (omega arith);
}

nothing-Holds : Holds boot_info nothing
nothing-Holds = record {
  size = refl;
  regions = refl;
  count = refl;
  few = omega arith;
  modules = λ i x e. absurd (cc);
  command = tt;
  loader = tt;
}

info : TagAt table 120 24 (memory_info 640 31744)
info = record {
  its_type = refl;
  its_contents = (refl, refl, omega arith);
  large = omega arith;
  below = omega arith;
}

module_tag : TagAt table 120 40 (boot_module 0x200000 0x201800 (0x61 ∷ 0x62 ∷ 0x63 ∷ []))
module_tag = record {
  its_type = refl;
  its_contents = (
    refl,
    refl,
    omega arith,
    omega arith,
    (
      refl,
      λ e. omega (arith, e),
      (refl, λ e. omega (arith, e), (refl, λ e. omega (arith, e), refl)),
    ),
    omega arith,
    omega arith,
  );
  large = omega arith;
  below = omega arith;
}

map_tag :
    TagAt table 120 64 (memory_map (record { base = 0x100000; size = 0x1F00000; type = 1 } ∷ []))
map_tag = record {
  its_type = refl;
  its_contents = (
    omega arith,
    refl,
    (record { its_base = refl; its_size = refl; its_type = refl }, omega arith, tt),
  );
  large = omega arith;
  below = omega arith;
}

other_tag : TagAt table 120 104 (other 10)
other_tag = record {
  its_type = refl;
  its_contents = (
    λ e. omega (arith, e),
    λ e. omega (arith, e),
    λ e. omega (arith, e),
    λ e. omega (arith, e),
    λ e. omega (arith, e),
    λ e. omega (arith, e),
  );
  large = omega arith;
  below = omega arith;
}

tags-TagsAt : TagsAt table 120 24 tags
tags-TagsAt = (info, (module_tag, (map_tag, (other_tag, (refl, omega arith)))))

read_multiboot_table-Holds_example :
    Ensures
      (λ (end, b').
        (end ≡ (16 + get_word table 16) % 2 ^ 32)
        × Holds b' (apply_all types tags nothing)
        × Agrees table 120 b'.memory)
      (read_multiboot_table types 6 4 boot_info 16)
read_multiboot_table-Holds_example =
    read_multiboot_table-Holds types 6 4 16 120 boot_info nothing tags (omega arith)
      boot_info-IsPlaced nothing-Holds tags-TagsAt (omega arith) (omega arith)

-- What the tags say.
read : apply_all types tags nothing ≡ record {
  memory_size = 33161216;
  regions =
      record { base = 0x100000; size = 0x1F00000; type = 1 }
      ∷ record { base = 0x200000; size = 0x2000; type = 2 }
      ∷ [];
  modules = record { start = 0x200000; end = 0x201800; name = 0x61 ∷ 0x62 ∷ 0x63 ∷ [] } ∷ [];
  command = none;
  loader = none;
}
read = refl

-- A memory with a tag of the type 10 and the size 0 at the address 8.
abbrev stuck : BootInfo
stuck = record boot_info { memory = λ p. if p == 8 then 10 else 0 }
