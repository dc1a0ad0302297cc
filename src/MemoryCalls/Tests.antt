-- ===== src/MemoryCalls/Tests.antt =====
-- The theorems on mmap and munmap at concrete page tables.
use quark_kernel.Base.{
  ℕ, zero, suc, ◌≡◌, ◌<◌, ◌/◌, ◌^◌, ◌+◌, ◌*◌, refl, none, some, Option, arith, ap,
}
use quark_kernel.Base.Fault.{Ensures}
use quark_kernel.Status.{enone}
use quark_kernel.Paging.{Machine}
use quark_kernel.Paging.Tree.{directory}
use quark_kernel.PageMap.Translate.{translate}
use quark_kernel.PageMap.Samples.{one_page, one_page-IsTree}
use quark_kernel.MemoryCalls.{munmap, mmap}
use quark_kernel.MemoryCalls.Stuck.{Removed, munmap-stuck}
use quark_kernel.MemoryCalls.Fill.{HasTables, Replies, Filled}
use quark_kernel.MemoryCalls.Map.{mmap-Filled}

abbrev frame_at : ℕ → ℕ
frame_at k = (3 + k) * 4096

-- The page 4096 is mapped, and the two pages behind it are not.
abbrev before : Machine
before = one_page λ k. some (frame_at k)

abbrev full : Machine
full = one_page λ k. none

gone :
    (replies : ℕ → Option ℕ) (k : ℕ) → k < 2 → translate (one_page replies) (8192 + k * 4096) ≡ none
unfolding translate
gone replies zero lt = refl
gone replies (suc zero) lt = refl
gone replies (suc (suc k)) lt = absurd (omega arith)

has_tables : HasTables before 8192 2
has_tables q le lt =
    let top : q / 2 ^ 22 ≡ 0 = omega (arith, lt) in ap (λ d. (directory before d).present) top

frames : Replies before 2 frame_at
frames k lt = (ap (λ n. some (frame_at n)) (omega arith), omega arith, omega (arith, lt))

munmap-stuck_example :
    Ensures (λ r. (r.0 ≡ none) × Removed before 4096 r.1) (munmap 10 4096 8192 before)
munmap-stuck_example =
    munmap-stuck before 9 4096 8192 (one_page-IsTree λ k. some (frame_at k)) (omega arith) refl refl
      (omega arith) (omega arith)

mmap-Filled_example :
    Ensures
      (λ r. (r.0 ≡ some enone) × Filled before 8192 2 frame_at (enone, r.1))
      (mmap 1 8192 (2 * 4096) 0 before)
mmap-Filled_example =
    mmap-Filled before 1 8192 2 0 frame_at (one_page-IsTree λ k. some (frame_at k)) refl
      (omega arith) (omega arith) (gone λ k. some (frame_at k)) has_tables frames
