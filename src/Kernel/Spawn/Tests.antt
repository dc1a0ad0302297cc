-- ===== src/Kernel/Spawn/Tests.antt =====
-- The theorem on the creation of a process at a concrete state.
use quark_kernel.Base.{ℕ, ◌≡◌, ◌≢◌, ◌+◌, ◌*◌, ◌∙◌, sym, refl, arith, none, some, Option, true}
use quark_kernel.Base.Fault.{Ensures}
use quark_kernel.Avl.{avl_get}
use quark_kernel.Paging.{Machine}
use quark_kernel.Paging.Directory.{IsFree}
use quark_kernel.PageMap.Samples.{one_page, one_page-IsTree, top_address}
use quark_kernel.PageMap.Tables.{IsReady}
use quark_kernel.Kernel.State.{to_key}
use quark_kernel.Kernel.Tests.{sample, ready-IsValid}
use quark_kernel.Kernel.Spawn.{System, new_process, kernel_spawn_process}
use quark_kernel.Kernel.Spawn.Spawned.{Spawned, spawn-Spawned}

abbrev frame_at : ℕ → Option ℕ
frame_at k = some ((3 + k) * 4096)

-- The kernel of the other tests, on a machine with the frames 3, 4 and so on.
abbrev system : System
system = record { kernel = sample; machine = one_page frame_at }

abbrev reserved : Machine
reserved = record (one_page frame_at) { calls = 1 }

two_not_four : ◌≢◌ {A = ℕ} 2 4
two_not_four = omega arith

frame_4-IsFree : IsFree reserved 767 4
frame_4-IsFree = (
  omega arith,
  λ d low ne there e. absurd (two_not_four (sym (top_address frame_at d low there) ∙ e)),
)

process_4 : avl_get sample.process_table (to_key 4) ≡ none
unfolding avl_get to_key
process_4 = refl

spawn-Spawned_example :
    Ensures
      (Spawned system 900 12288 3221225472 (new_process 3221225472 134512640 1 20480 4))
      (kernel_spawn_process 900 1000 true 3221225472 134512640 1 20480 system)
spawn-Spawned_example =
    spawn-Spawned system 900 1000 3221225472 134512640 1 20480 12288 (omega arith) (omega arith)
      refl refl (omega arith) (one_page-IsTree frame_at) (omega arith)
      (IsReady.fresh 4 refl refl (omega arith) frame_4-IsFree)
      (
        refl,
        omega arith,
        omega arith,
        (refl, omega arith, omega arith, tt, tt),
        (refl, omega arith, omega arith, tt, tt),
      )
      ((omega arith, (omega arith, tt)), ((omega arith, tt), (tt, tt))) process_4 ready-IsValid
      (omega arith)
