-- ===== src/Heap.antt =====
-- src/heap.c: the kernel's heap, whose blocks are those of libmalloc's `reserve_region`. The reply of
-- that call is an argument, and `none` is NOMEM.
-- A loop over the pages of a block of `size` bytes has a round for each page, the last one of which
-- the block may not fill; a size is at most 2 ^ 31.
pub mod Blocks
mod Tests
use quark_kernel.Base.{
  ℕ, zero, suc, ◌+◌, ◌-◌, ◌*◌, ◌/◌, ◌%◌, ◌^◌, Bool, true, false, not, Option, none, some, ◌==◌,
  if◌then◌else◌,
}
use quark_kernel.Base.State.{St, pure, ◌>>=◌, ◌>>◌}
use quark_kernel.Status.{enone, enomem}
use quark_kernel.Paging.{Machine, page_size, page_rw, page_present, has_flag}
use quark_kernel.PageMap.{reserve_page, map_page, page_type}

abbrev pub pages_of : ℕ → ℕ
pages_of size = (size + page_size - 1) / page_size

abbrev pub block_page : ℕ → ℕ → ℕ
block_page location n = (location + n) % 2 ^ 32

-- The loop of `map_block` from the offset `n`, with `rounds` pages left.
unfoldable pub map_block_from : (rounds location n : ℕ) → St Machine ℕ
map_block_from zero location n = pure enone
map_block_from (suc rounds) location n =
    let rest = map_block_from rounds location (n + page_size) in
    let map : St Machine ℕ = do
      frame ← reserve_page
      status ← map_page (block_page location n) frame page_rw
      if not (status == 0) then pure status else rest
    in do
      type ← page_type (block_page location n)
      if not (has_flag page_present type) then map else rest

unfoldable pub map_block : (location size : ℕ) → St Machine ℕ
map_block location size = map_block_from (pages_of size) location 0

-- The loop of `mmap_callback` from the offset `i`, with `rounds` pages left.
unfoldable pub callback_from : (rounds location i : ℕ) → St Machine ℕ
callback_from zero location i = pure enone
callback_from (suc rounds) location i =
    let rest = callback_from rounds location (i + page_size) in
    let map : St Machine ℕ = do
      second ← reserve_page
      status ← map_page (block_page location i) second page_rw
      if not (status == 0) then pure status else rest
    in do frame ← reserve_page; if frame == enomem then pure enomem else map

unfoldable pub mmap_callback : (location size : ℕ) → St Machine ℕ
mmap_callback location size = callback_from (pages_of size) location 0

-- The address of the block, or NULL.
unfoldable pub kmalloc : (reply : Option ℕ) → (size : ℕ) → St Machine ℕ
kmalloc none size = pure 0
kmalloc (some loc) size = do
  status ← map_block loc size
  pure (if not (status == 0) then 0 else loc)
