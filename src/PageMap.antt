-- ===== src/PageMap.antt =====
-- src/mmgr.c, include/mmgr.h: the mapping of pages, over the page tables and the allocator of page
-- frames.
pub mod Translate
pub mod Tables
pub mod Mapping
pub mod Unmapping
pub mod PageType
pub mod Samples
pub mod Creation
mod Tests
use quark_kernel.Base.{
  ℕ, zero, suc, ◌+◌, ◌-◌, ◌*◌, ◌/◌, ◌%◌, ◌^◌, Bool, true, false, not, Option, none, some, List, ◌∷◌,
  ◌==◌, if◌then◌else◌,
}
use quark_kernel.Base.State.{St, pure, ◌>>=◌, ◌>>◌, read, modify}
use quark_kernel.Status.{enone, einvalidarg, eoutofbounds, enomem}
use quark_kernel.Paging.{
  PageTableEntry, Machine, page_bits, page_size, page_table_levels, page_rw, page_usermode,
  page_present, has_flag, set_flag, directory_base, read_entry, write_entry, get_pte_type,
  get_pte_address, set_pte, wipe_page_table, paging_init_top_table, paging_current_address_space,
}

abbrev pub reply_at : Option ℕ → ℕ
reply_at none = enomem
reply_at (some location) = location

-- The next reply of the allocator; ENOMEM stands for no memory, among the addresses.
unfoldable pub reserve_pages : (size : ℕ) → St Machine ℕ
reserve_pages size = do
  s ← read
  modify λ s. record s { calls = s.calls + 1 }
  pure (reply_at (s.replies s.calls))

unfoldable pub free_pages : (location size : ℕ) → St Machine ℕ
free_pages location size = do
  modify λ s. record s { freed = (location, size) ∷ s.freed }
  pure enone

unfoldable pub reserve_page : St Machine ℕ
unfolding reserve_pages
reserve_page = reserve_pages page_size

unfoldable pub free_page : (location : ℕ) → St Machine ℕ
unfolding free_pages
free_page location = free_pages location page_size

-- The loop of `map_page` from a level, with `rounds` levels left: it adds a missing table.
unfoldable pub add_tables : (rounds level page : ℕ) → St Machine ℕ
add_tables zero level page = pure enone
add_tables (suc rounds) level page = do
  type ← get_pte_type page level
  let rest = add_tables rounds (level + 1) page
  let add : St Machine ℕ = do
    new_table ← reserve_page
    if new_table == enomem then pure enomem else (do
      set_pte page level (page_present + page_usermode + page_rw) new_table
      wipe_page_table page (level + 1)
      rest)
  if has_flag page_present type then rest else add

unfoldable pub map_page : (page frame flags : ℕ) → St Machine ℕ
map_page page frame flags =
    let map : St Machine ℕ = do
      status ← add_tables (page_table_levels - 1) 0 page
      if status == enone
          then set_pte page (page_table_levels - 1) (set_flag page_present flags) frame
            >> pure enone
          else pure status
    in if not (frame % page_size == 0) then pure einvalidarg else map

-- The loop of `unmap_page` from a level: whether all entries are present.
unfoldable pub all_present : (rounds level page : ℕ) → St Machine Bool
all_present zero level page = pure true
all_present (suc rounds) level page = do
  type ← get_pte_type page level
  let rest = all_present rounds (level + 1) page
  if not (has_flag page_present type) then pure false else rest

unfoldable pub unmap_page : (page : ℕ) → St Machine ℕ
unmap_page page =
    let unmap : St Machine ℕ = do
      frame ← get_pte_address page (page_table_levels - 1)
      set_pte page (page_table_levels - 1) 0 0
      pure frame
    in do
      present ← all_present page_table_levels 0 page
      if present then unmap else pure eoutofbounds

-- The loop of `page_type` from a level.
unfoldable pub type_from : (rounds level page : ℕ) → St Machine ℕ
type_from zero level page = get_pte_type page (page_table_levels - 1)
type_from (suc rounds) level page = do
  flags ← get_pte_type page level
  let rest = type_from rounds (level + 1) page
  if not (has_flag page_present flags) then pure flags else rest

unfoldable pub page_type : (page : ℕ) → St Machine ℕ
page_type page = type_from (page_table_levels - 1) 0 page

unfoldable pub physical_address : (linear_address : ℕ) → St Machine ℕ
physical_address linear_address = get_pte_address linear_address (page_table_levels - 1)

unfoldable pub create_address_space : (kernel_start : ℕ) → St Machine ℕ
create_address_space kernel_start =
    let init : ℕ → St Machine ℕ = λ table. do
      result ← paging_init_top_table kernel_start table
      if result == 0 then pure table else pure result
    in do table ← reserve_page; if table == enomem then pure enomem else init table

unfoldable pub current_address_space : St Machine ℕ
current_address_space = paging_current_address_space
