-- ===== src/MemoryCalls.antt =====
-- src/syscalls.c: the system calls mmap and munmap, over the page map.
-- Addresses and lengths are 32-bit unsigned integers, and a page's address wraps around. The result
-- is the word that the process gets.
pub mod Stuck
pub mod Fill
pub mod Map
mod Tests
use quark_kernel.Base.{
  ℕ, zero, suc, ◌+◌, ◌*◌, ◌/◌, ◌%◌, ◌^◌, Bool, true, false, not, ◌&&◌, ◌||◌, Option, none, some,
  ◌==◌, if◌then◌else◌, ltb,
}
use quark_kernel.Base.State.{St, pure, fault, ◌>>=◌, ◌>>◌}
use quark_kernel.Status.{enone, einvalidarg, enullptr, eexists}
use quark_kernel.Paging.{
  Machine, page_size, page_rw, page_usermode, page_present, page_anon, has_flag,
}
use quark_kernel.PageMap.{reserve_page, free_page, map_page, unmap_page, page_type}

abbrev pub page_at : ℕ → ℕ → ℕ
page_at location n = (location + n) % 2 ^ 32

-- The body of the loop of `munmap`: `status` after it, from ENONE before it.
unfoldable pub unmap_at : (page : ℕ) → St Machine ℕ
unmap_at page =
    let release : ℕ → St Machine ℕ = λ type. do
      frame ← unmap_page page
      if has_flag page_anon type then free_page frame else pure enone
    in do type ← page_type page; if has_flag page_present type then release type else pure enone

-- The loop of `munmap`, for `fuel` rounds; `none` where it has not ended by then. Nothing in its
-- body changes `n`.
unfoldable pub unmap_loop : (fuel location length n status : ℕ) → St Machine (Option ℕ)
unmap_loop zero location length n status =
    if ltb n length && status == enone then pure none else pure (some status)
unmap_loop (suc fuel) location length n status =
    let round : St Machine (Option ℕ) = do
      status ← unmap_at (page_at location n)
      unmap_loop fuel location length n status
    in if ltb n length && status == enone then round else pure (some status)

unfoldable pub munmap : (fuel location length : ℕ) → St Machine (Option ℕ)
munmap fuel location length =
    if not (location % page_size == 0) || not (length % page_size == 0)
    then pure (some einvalidarg)
    else if location == 0
    then pure (some enullptr)
    else unmap_loop fuel location length 0 enone

-- The first loop of `mmap`, from the offset `i`, with `rounds` pages left: whether a page is there.
unfoldable pub any_present : (rounds location i : ℕ) → St Machine Bool
any_present zero location i = pure false
any_present (suc rounds) location i = do
  type ← page_type (page_at location i)
  let rest = any_present rounds location (i + page_size)
  if has_flag page_present type then pure true else rest

-- The second loop of `mmap`, from the offset `n`, with `rounds` pages left: `status` after it.
unfoldable pub map_loop : (rounds location n : ℕ) → St Machine ℕ
map_loop zero location n = pure enone
map_loop (suc rounds) location n =
    let rest = map_loop rounds location (n + page_size) in
    let go_on : ℕ → ℕ → St Machine ℕ =
      λ frame status. if status == enone then rest else free_page frame >> pure status in
    do
      frame ← reserve_page
      if frame % page_size == enone
          then (do
            status ← map_page (page_at location n) frame (page_usermode + page_rw)
            go_on frame status)
          else pure (frame % page_size)

-- `mmap` after a failure: a failure of `munmap` too stops the kernel, which is a fault.
abbrev pub undone : ℕ → Option ℕ → St Machine (Option ℕ)
undone status none = pure none
undone status (some result) = if result == enone then pure (some status) else fault

unfoldable pub undo : (fuel location length status : ℕ) → St Machine (Option ℕ)
undo fuel location length status = munmap fuel location length >>= undone status

-- The fuel is for the loop of `munmap`.
unfoldable pub mmap : (fuel location length flags : ℕ) → St Machine (Option ℕ)
mmap fuel location length flags =
    let finish : ℕ → St Machine (Option ℕ) =
      λ status. if status == enone then pure (some status) else undo fuel location length status in
    let fill : St Machine (Option ℕ) = map_loop (length / page_size) location 0 >>= finish in
    let search : St Machine (Option ℕ) = do
      exists ← any_present (length / page_size) location 0
      if exists then pure (some eexists) else fill
    in if not (location % page_size == 0) || not (length % page_size == 0)
      then pure (some einvalidarg)
      else if location == 0
      then pure (some enullptr)
      else search
