-- ===== src/Heap/Tests.antt =====
-- The theorem on src/heap.c at concrete page tables.
use quark_kernel.Base.{◌≡◌, ◌/◌, ◌^◌, some, arith, ap, inr}
use quark_kernel.Base.Fault.{Ensures}
use quark_kernel.Paging.{Machine}
use quark_kernel.Paging.Tree.{directory}
use quark_kernel.PageMap.Samples.{one_page, frame_3, one_page-IsTree}
use quark_kernel.MemoryCalls.Fill.{HasTables}
use quark_kernel.Heap.{kmalloc}
use quark_kernel.Heap.Blocks.{RepliesAligned, Allocated, kmalloc-Allocated}

-- The next frame is always the third one.
abbrev before : Machine
before = one_page frame_3

has_tables : HasTables before 8256 1
has_tables q le lt =
    let top : q / 2 ^ 22 ≡ 0 = omega (arith, lt) in ap (λ d. (directory before d).present) top

aligned : RepliesAligned before
aligned k a e = ground (arith, e)

kmalloc-Allocated_example : Ensures (Allocated before 8256 128) (kmalloc (some 8256) 128 before)
kmalloc-Allocated_example =
    kmalloc-Allocated before 8256 128 (one_page-IsTree frame_3) (inr (omega arith)) (omega arith)
      has_tables aligned
