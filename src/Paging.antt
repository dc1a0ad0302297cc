-- ===== src/Paging.antt =====
-- src/x86/paging.c, include/platform/paging.h: page tables of two levels, which the code edits
-- through the window that the last entry of the top table opens at 0xFFC00000.
-- A pointer into the window is the index `p` of the entry `page_tables[p]`; `page_directory` is
-- the part of the window from `directory_base`. The processor finds the entry by a walk through
-- the loaded top table, so a missing table is a fault, `none`. What `invlpg` drops, the translation
-- cache, is not part of the state: each access walks. The rights of the entries are not tested.
pub mod Tree
pub mod Entry
pub mod Directory
pub mod Wipe
use quark_kernel.Base.{
  ℕ, zero, suc, ◌+◌, ◌-◌, ◌*◌, ◌/◌, ◌%◌, ◌^◌, Bool, true, false, not, ◌&&◌, Option, none, some,
  List, ◌==◌, if◌then◌else◌,
}
use quark_kernel.Base.Fault
use quark_kernel.Base.State.{St, pure, ◌>>=◌, ◌>>◌, read, modify, lift}

-- `other` are the bits from `write_through` to `type`.
pub record PageTableEntry : Type 0 where
  pub present : Bool
  pub rw : Bool
  pub usermode : Bool
  pub other : ℕ
  pub physical_address : ℕ

-- `frames f i` is the entry `i` of the page frame `f`, and `cr3` the frame of the loaded top table.
-- `replies n` is what the allocator of page frames, libmalloc's `reserve_region`, returns at its
-- call number `n`, where `none` is NOMEM, and `freed` are the regions that `free_region` got.
pub record Machine : Type 0 where
  pub frames : ℕ → ℕ → PageTableEntry
  pub cr3 : ℕ
  pub replies : ℕ → Option ℕ
  pub calls : ℕ
  pub freed : List (ℕ × ℕ)

abbrev pub page_bits : ℕ
page_bits = 12

abbrev pub page_size : ℕ
page_size = 4096

abbrev pub page_table_levels : ℕ
page_table_levels = 2

-- `page_flag_t`: a flag is tested and set by division, since it is a power of two.
abbrev pub page_rw : ℕ
page_rw = 1

abbrev pub page_executable : ℕ
page_executable = 2

abbrev pub page_usermode : ℕ
page_usermode = 4

abbrev pub page_present : ℕ
page_present = 65536

abbrev pub page_anon : ℕ
page_anon = 131072

abbrev pub has_flag : ℕ → ℕ → Bool
has_flag flag flags = flags / flag % 2 == 1

abbrev pub set_flag : ℕ → ℕ → ℕ
set_flag flag flags = if has_flag flag flags then flags else flags + flag

-- `-1` as an `int` or as a `physaddr_t`.
abbrev pub minus_one : ℕ
minus_one = 2 ^ 32 - 1

abbrev pub directory_base : ℕ
directory_base = 1047552

-- The table that the entry `i` of a table points to.
unfoldable pub table_at : Machine → ℕ → ℕ → Option ℕ
table_at s table i =
    if (s.frames table i).present then some (s.frames table i).physical_address else none

-- The walk to the frame and index of `page_tables[p]`: the top table, its last entry, the table.
unfoldable pub locate : Machine → ℕ → Option (ℕ × ℕ)
locate s p =
    Fault.◌>>=◌ (table_at s s.cr3 1023)
      λ top. Fault.◌>>=◌ (table_at s top (p / 1024)) λ table. some (table, p % 1024)

abbrev pub put_entry : ℕ → ℕ → PageTableEntry → Machine → Machine
put_entry f i e s = record s { frames = λ g j. if g == f && j == i then e else s.frames g j }

unfoldable pub read_entry : ℕ → St Machine PageTableEntry
read_entry p = do s ← read; (f, i) ← lift (locate s p); pure (s.frames f i)

unfoldable pub write_entry : ℕ → PageTableEntry → St Machine (Unit {0})
write_entry p e = do s ← read; (f, i) ← lift (locate s p); modify (put_entry f i e)

unfoldable pub get_pte_pointer : (page level : ℕ) → St Machine (Option ℕ)
get_pte_pointer page level =
    let directory_entry = directory_base + page / 2 ^ 22 in
    let in_table : St Machine (Option ℕ) = do
      e ← read_entry directory_entry
      pure (if e.present then some (page / 2 ^ page_bits) else none)
    in if level == 0
      then pure (some directory_entry)
      else if level == 1
      then in_table
      else pure none

-- A test of the pointer for NULL.
abbrev pub on_entry : {A : Type 0} → Option ℕ → (ℕ → St Machine A) → A → St Machine A
on_entry none f a = pure a
on_entry (some p) f a = f p

abbrev pub flags_of : PageTableEntry → ℕ
flags_of e =
    (if e.present then page_present + page_executable else 0)
    + (if e.rw then page_rw else 0)
    + (if e.usermode then page_usermode else 0)

unfoldable pub get_pte_type : (page level : ℕ) → St Machine ℕ
get_pte_type page level = do
  entry ← get_pte_pointer page level
  on_entry entry (λ p. do e ← read_entry p; pure (flags_of e)) 0

abbrev pub with_flags : ℕ → PageTableEntry → PageTableEntry
with_flags flags e = record e {
  present = has_flag page_present flags;
  rw = has_flag page_rw flags;
  usermode = has_flag page_usermode flags;
}

unfoldable pub set_pte_type : (page level flags : ℕ) → St Machine ℕ
set_pte_type page level flags = do
  entry ← get_pte_pointer page level
  on_entry entry (λ p. do e ← read_entry p; write_entry p (with_flags flags e); pure 0) minus_one

unfoldable pub get_pte_address : (page level : ℕ) → St Machine ℕ
get_pte_address page level = do
  entry ← get_pte_pointer page level
  on_entry entry (λ p. do e ← read_entry p; pure (e.physical_address * 2 ^ page_bits + page % 4096))
      minus_one

-- The field has 20 bits.
abbrev pub with_address : ℕ → PageTableEntry → PageTableEntry
with_address addr e = record e { physical_address = addr / 2 ^ page_bits % 2 ^ 20 }

unfoldable pub set_pte_address : (page level addr : ℕ) → St Machine ℕ
set_pte_address page level addr = do
  entry ← get_pte_pointer page level
  on_entry entry (λ p. do e ← read_entry p; write_entry p (with_address addr e); pure 0) minus_one

unfoldable pub set_pte : (page level flags addr : ℕ) → St Machine ℕ
set_pte page level flags addr = do
  status ← set_pte_address page level addr
  if status == 0 then set_pte_type page level flags else pure minus_one

-- The loop from the entry `i` of a table, with `rounds` entries left.
unfoldable pub wipe_from : (rounds table_index i : ℕ) → St Machine (Unit {0})
wipe_from zero table_index i = pure tt
wipe_from (suc rounds) table_index i = do
  e ← read_entry (table_index + i)
  write_entry (table_index + i) (record e { present = false; physical_address = 0 })
  wipe_from rounds table_index (i + 1)

unfoldable pub wipe_page_table : (page level : ℕ) → St Machine (Unit {0})
wipe_page_table page level =
    let wipe : St Machine (Unit {0}) = do
      type ← get_pte_type page 0
      if has_flag page_present type
          then wipe_from 1024 (page / 2 ^ page_bits / 1024 * 1024) 0
          else pure tt
    in if level == 1 then wipe else pure tt

-- `memset` of the table in the window at the first entry, from the entry `i` on.
unfoldable pub clear_from : (rounds i : ℕ) → St Machine (Unit {0})
clear_from zero i = pure tt
clear_from (suc rounds) i = do
  write_entry i
      (record { present = false; rw = false; usermode = false; other = 0; physical_address = 0 })
  clear_from rounds (i + 1)

-- The loop that copies the kernel's entries, from the entry `i` on.
unfoldable pub copy_entries : (rounds i : ℕ) → St Machine (Unit {0})
copy_entries zero i = pure tt
copy_entries (suc rounds) i = do
  e ← read_entry (directory_base + i)
  write_entry i e
  copy_entries rounds (i + 1)

-- The first entry of the loaded top table points to the new table for a while, so that the window
-- shows it at its start. `kernel_start` is the address of the kernel, from the linker.
unfoldable pub paging_init_top_table : (kernel_start table : ℕ) → St Machine ℕ
paging_init_top_table kernel_start table =
    let kernel_index = kernel_start / 2 ^ 22 in
    do
      buffer ← read_entry directory_base
      write_entry directory_base (with_address table buffer)
      clear_from 1024 0
      copy_entries (1023 - kernel_index) kernel_index
      last ← read_entry 1023
      write_entry 1023 (record (with_address table last) { present = true; rw = true })
      write_entry directory_base buffer
      pure 0

unfoldable pub paging_current_address_space : St Machine ℕ
paging_current_address_space = do
  e ← read_entry (directory_base + 1023)
  pure (e.physical_address * 2 ^ page_bits)

abbrev pub paging_load_address_space : ℕ → Machine → Machine
paging_load_address_space table s = record s { cr3 = table / 2 ^ page_bits }
