-- ===== src/Multiboot.antt =====
-- src/x86/multiboot2.c: the table that the boot loader hands to the kernel.
-- The structure `boot_info_t` is a record, but for its array `modules`, which lies with the table
-- and the buffers of the strings in a memory of bytes. Addresses and unsigned numbers have 32 bits.
-- `memmap_insert_region` is libmalloc's: the record keeps the regions it is called with, the last
-- first, with the 64 bits of their fields. `none` is the model's fuel running out.
pub mod Tags
pub mod Entries
pub mod Names
pub mod Summary
pub mod Reading
pub mod Modules
pub mod Table
pub mod Endless
mod Tests
use quark_kernel.Base.{
  ℕ, zero, suc, ◌+◌, ◌-◌, ◌*◌, ◌/◌, ◌%◌, ◌^◌, Option, none, some, List, ◌∷◌, ltb, ◌==◌,
  if◌then◌else◌,
}
use quark_kernel.Base.Fault.{◌>>=◌}
use quark_kernel.Strings.{Memory, strcpy}
use quark_kernel.Context.{put_word, get_word}

abbrev pub module_limit : ℕ
module_limit = 8

-- `sizeof(struct module_t)`: two addresses, and a name of 56 bytes.
abbrev pub module_bytes : ℕ
module_bytes = 64

-- The types of regions, which libmalloc defines.
pub record RegionTypes : Type 0 where
  pub m_available : ℕ
  pub m_unavailable : ℕ
  pub m_defective : ℕ

pub record Region : Type 0 where
  pub base : ℕ
  pub size : ℕ
  pub type : ℕ

-- `modules` is the address of the array.
pub record BootInfo : Type 0 where
  pub memory : Memory
  pub bootloader : ℕ
  pub parameters : ℕ
  pub memory_size : ℕ
  pub map : List Region
  pub module_count : ℕ
  pub modules : ℕ

abbrev pub mb_end_tag : ℕ
mb_end_tag = 0

abbrev pub mb_boot_command : ℕ
mb_boot_command = 1

abbrev pub mb_bootloader : ℕ
mb_bootloader = 2

abbrev pub mb_module : ℕ
mb_module = 3

abbrev pub mb_memory_info : ℕ
mb_memory_info = 4

abbrev pub mb_memory_map : ℕ
mb_memory_map = 6

abbrev pub mb_available : ℕ
mb_available = 1

abbrev pub mb_defective : ℕ
mb_defective = 5

abbrev pub memmap_insert_region : (base size type : ℕ) → BootInfo → BootInfo
memmap_insert_region base size type b = record b {
  map = record { base = base; size = size; type = type } ∷ b.map;
}

-- A number of 64 bits, the low word first.
abbrev pub get_long : Memory → ℕ → ℕ
get_long m p = get_word m p + 2 ^ 32 * get_word m (p + 4)

abbrev pub entry_type : RegionTypes → ℕ → ℕ
entry_type types type =
    if type == mb_available
    then types.m_available
    else if type == mb_defective
    then types.m_defective
    else types.m_unavailable

abbrev pub module_at : BootInfo → ℕ
module_at b = b.modules + module_bytes * b.module_count

-- The first two writes to the module.
abbrev pub set_bounds : (table : ℕ) → BootInfo → BootInfo
set_bounds table b = record b {
  memory =
      put_word (put_word b.memory (module_at b) (get_word b.memory (table + 8))) (module_at b + 4)
        (get_word (put_word b.memory (module_at b) (get_word b.memory (table + 8))) (table + 12));
}

-- A string that is copied to a buffer.
unfoldable pub read_string : (fuel destination : ℕ) → BootInfo → (table : ℕ) → Option BootInfo
read_string fuel destination b table = do
  m ← strcpy fuel b.memory destination (table + 8)
  some (record b { memory = m })

unfoldable pub read_memory_info : BootInfo → (table : ℕ) → BootInfo
read_memory_info b table = record b {
  memory_size =
      (get_word b.memory (table + 12) * 1024 + get_word b.memory (table + 8) * 1024) % 2 ^ 32;
}

-- The address behind the tag, which starts at a multiple of 8 bytes from it.
abbrev pub behind : Memory → ℕ → ℕ
behind m table =
    let padded = (get_word m (table + 4) + 7) % 2 ^ 32 in (table + (padded - padded % 8)) % 2 ^ 32

abbrev pub next_tag : (table : ℕ) → BootInfo → Option (ℕ × BootInfo)
next_tag table b = some (behind b.memory table, b)

module _ (types : RegionTypes) where
  -- The loop over the entries of the memory map.
  unfoldable pub read_map : (fuel tag_size entry_size entry : ℕ) → BootInfo → Option BootInfo
  read_map zero tag_size entry_size entry b = none
  read_map (suc fuel) tag_size entry_size entry b =
      let rest =
        read_map fuel ((tag_size + 2 ^ 32 - entry_size) % 2 ^ 32) entry_size
          ((entry + entry_size) % 2 ^ 32)
          (memmap_insert_region (get_long b.memory entry) (get_long b.memory (entry + 8))
            (entry_type types (get_word b.memory (entry + 16))) b) in
      if tag_size == 0 then some b else rest

  unfoldable pub read_memory_map : (fuel : ℕ) → BootInfo → (table : ℕ) → Option BootInfo
  read_memory_map fuel b table =
      read_map fuel ((get_word b.memory (table + 4) + 2 ^ 32 - 16) % 2 ^ 32)
        (get_word b.memory (table + 8)) (table + 16) b

  -- The call of `memmap_insert_region` for the module, and the count.
  abbrev pub insert_module : (table : ℕ) → BootInfo → BootInfo
  insert_module table b =
      let start = get_word b.memory (table + 8) in
      let size = (get_word b.memory (table + 12) + 2 ^ 32 - start + 4095) % 2 ^ 32 in
      record (memmap_insert_region start (size / 4096 * 4096) types.m_unavailable b) {
        module_count = b.module_count + 1;
      }

  unfoldable pub read_module : (fuel : ℕ) → BootInfo → (table : ℕ) → Option BootInfo
  read_module fuel b table =
      let add : Option BootInfo = do
        m ← strcpy fuel (set_bounds table b).memory (module_at b + 8) (table + 16)
        some (insert_module table (record b { memory = m }))
      in if ltb b.module_count module_limit then add else some b

  -- The switch, for a tag that is not the last.
  unfoldable pub read_tag : (fuel type : ℕ) → BootInfo → (table : ℕ) → Option BootInfo
  read_tag fuel type b table =
      if type == mb_memory_info
      then some (read_memory_info b table)
      else if type == mb_memory_map
      then read_memory_map fuel b table
      else if type == mb_module
      then read_module fuel b table
      else if type == mb_boot_command
      then read_string fuel b.parameters b table
      else if type == mb_bootloader
      then read_string fuel b.bootloader b table
      else some b

  -- The next address, which is 0 behind the last tag, and the structure.
  unfoldable pub read_multiboot_table_entry :
      (fuel : ℕ) → BootInfo → (table : ℕ) → Option (ℕ × BootInfo)
  read_multiboot_table_entry fuel b table =
      let type = get_word b.memory table in
      let tag : Option (ℕ × BootInfo) = do b' ← read_tag fuel type b table; next_tag table b'
      in if type == mb_end_tag then some (0, b) else tag

  -- The loop, until the address is 0.
  unfoldable pub read_tags : (rounds fuel : ℕ) → BootInfo → (table : ℕ) → Option BootInfo
  read_tags zero fuel b table = none
  read_tags (suc rounds) fuel b table =
      let rest : Option BootInfo = do
        (next, b) ← read_multiboot_table_entry fuel b table
        read_tags rounds fuel b next
      in if table == 0 then some b else rest

  -- The address behind the table, and the structure.
  unfoldable pub read_multiboot_table :
      (rounds fuel : ℕ) → BootInfo → (table : ℕ) → Option (ℕ × BootInfo)
  read_multiboot_table rounds fuel b table = do
    let multiboot_end = (table + get_word b.memory table) % 2 ^ 32
    b ← read_tags rounds fuel b ((table + 8) % 2 ^ 32)
    some (multiboot_end, b)
