-- ===== src/Elf/Segment/Page.antt =====
-- One page of a segment.
use quark_kernel.Base.{
  ℕ, suc, ◌+◌, ◌*◌, ◌%◌, ◌^◌, ◌≤◌, ◌<◌, ◌≡◌, ◌≢◌, inl, inr, ◌∙◌, refl, ap, ne→not-==, some, arith,
}
use quark_kernel.Base.Fault.{Ensures-inv}
use quark_kernel.Status.{enone, enomem}
use quark_kernel.Paging.{Machine}
use quark_kernel.Paging.Tree.{IsTree}
use quark_kernel.PageMap.{map_page}
use quark_kernel.PageMap.Translate.{translate, IsTree-same, translate-within}
use quark_kernel.PageMap.Mapping.{First, map_page-First}
use quark_kernel.MemoryCalls.Fill.{HasTables, Replies, below_window, reserve_page-reply}
use quark_kernel.Elf.{Loader, memsize, copy_bytes, after_map, load_page}
use quark_kernel.Elf.Access.{Shows, read_word-image}
use quark_kernel.Elf.Copy.{Copied, copy_bytes-Copied}
use quark_kernel.Elf.Segment.{
  flags, IsOutside, IsSegment, AreFree, Rest, chunk, chunk_bounds, file-Shows,
}

module _ (lo hi : ℕ) (phys image : ℕ → ℕ) (header d s size : ℕ)
    (g : IsSegment lo hi image header d s size) where
  -- A page of the segment that is mapped to a frame and filled.
  abbrev pub Placed : Loader → (n frame : ℕ) → Type 0
  Placed l n frame =
      (u : Machine) × (ram : ℕ → ℕ) × (load_page header d s n l
        ≡ some (enone, record { machine = u; ram = ram }))
      × First (record l.machine { calls = l.machine.calls + 1 }) (d + n) frame flags u
      × Copied l.ram frame 0 (chunk size n) (λ j. phys (s + n + j)) ram

  -- The mapping of the page.
  map-First :
      (m : Machine) (n k : ℕ) (frame : ℕ → ℕ)
      → Rest size n (suc k)
      → IsTree m
      → HasTables m (d + n) (suc k)
      → Replies m (suc k) frame
      → (u : Machine) × (map_page (d + n) (frame 0) flags (record m { calls = m.calls + 1 })
          ≡ some (enone, u))
        × First (record m { calls = m.calls + 1 }) (d + n) (frame 0) flags u
  map-First m n k frame rest h tables replies =
      let reserved = record m { calls = m.calls + 1 } in
      let small : d + n + 4096 ≤ 1023 * 2 ^ 22 = omega (arith, rest, g.fits) in
      let (reply, z, fits32) = replies 0 (omega arith) in
      let ((status, u), e, (ok, f)) = Ensures-inv (
        map_page-First reserved (d + n) (frame 0) flags (IsTree-same m reserved refl (λ x. refl) h)
          (below_window (d + n) 1 (d + n) (omega (arith, small)) (omega arith)) z fits32
          (tables (d + n) (omega arith) (omega arith))) in
      (u, e ∙ ap (λ i. some (i, u)) ok, f)

  -- The copy to the page.
  copy-Copied :
      (l : Loader) (n frame : ℕ)
      → n < size
      → d + n + 4096 ≤ 1023 * 2 ^ 22
      → (d + n) % 4096 ≡ 0
      → translate l.machine (d + n) ≡ some frame
      → Shows l lo hi phys image
      → ((q : ℕ) → lo ≤ q → q < hi → IsOutside frame (phys q))
      → (ram : ℕ → ℕ) × (copy_bytes (chunk size n) (d + n) (s + n) 0 l
          ≡ some (tt, record l { ram = ram }))
        × Copied l.ram frame 0 (chunk size n) (λ j. phys (s + n + j)) ram
  copy-Copied l n frame within small z here shows free =
      let (le, inside, covers) = chunk_bounds size n within (omega (arith, small)) in
      let in_range = λ (j : ℕ) (lt : j < chunk size n).
        shows (s + n + j) (omega (arith, g.in_file)) (omega (arith, g.in_file, lt, inside)) in
      let ((done, l2), e, (ram, e', c)) = Ensures-inv (
        copy_bytes-Copied (d + n) (s + n) frame (chunk size n) (λ j. phys (s + n + j))
          (λ j i lt lt' same.
            clash frame (phys (s + n + j)) i
              (free (s + n + j) (omega (arith, g.in_file)) (omega (arith, g.in_file, lt, inside)))
              (omega (arith, lt', le)) same)
          (chunk size n) 0 l (omega arith)
          (λ j lt. translate-within l.machine (d + n) frame j z (omega (arith, lt, le)) here)
          (λ j lt. (in_range j lt).0)) in
      (ram, e ∙ ap (λ x. some (tt, x)) e', c)
    where
      clash : (frame a i : ℕ) → IsOutside frame a → i < 4096 → a ≢ frame + i
      clash frame a i (inl lt) small same = omega (arith, lt, same)
      clash frame a i (inr le) small same = omega (arith, le, small, same)

  pub load_page-Placed :
      (l : Loader) (n k : ℕ) (frame : ℕ → ℕ)
      → Rest size n (suc k)
      → IsTree l.machine
      → HasTables l.machine (d + n) (suc k)
      → Replies l.machine (suc k) frame
      → AreFree lo hi phys (suc k) frame
      → Shows l lo hi phys image
      → Placed l n (frame 0)
  unfolding load_page after_map
  load_page-Placed l n k frame rest h tables replies free shows =
      let (u, mapped, f) = map-First l.machine n k frame rest h tables replies in
      let shows1 = file-Shows lo hi phys image header d s size g l u n k (frame 0) rest f shows in
      let small : d + n + 4096 ≤ 1023 * 2 ^ 22 = omega (arith, rest, g.fits) in
      let (ram, copied, c) =
        copy-Copied (record l { machine = u }) n (frame 0) (omega (arith, rest)) small
          (omega (arith, g.aligned, rest))
          (f.mapped.here ∙ ap some (omega (arith, g.aligned, rest))) shows1
          (λ q le lt. free.of_file 0 q (omega arith) le lt) in
      (u, ram, equation u ram mapped shows1 small copied, f, c)
    where
      equation :
          (u : Machine) (ram : ℕ → ℕ)
          → map_page (d + n) (frame 0) flags (record l.machine { calls = l.machine.calls + 1 })
            ≡ some (enone, u)
          → Shows (record l { machine = u }) lo hi phys image
          → d + n + 4096 ≤ 1023 * 2 ^ 22
          → copy_bytes (chunk size n) (d + n) (s + n) 0 (record l { machine = u })
            ≡ some (tt, record { machine = u; ram = ram })
          → load_page header d s n l ≡ some (enone, record { machine = u; ram = ram })
      equation u ram mapped shows1 small copied =
          let (reply, z, fits32) = replies 0 (omega arith) in
          let place : (d + n) % 2 ^ 32 ≡ d + n = omega (arith, small) in
          rw
            (
              reserve_page-reply l.machine (frame 0) (ap l.machine.replies (omega arith) ∙ reply),
              ne→not-== (frame 0) enomem (λ e. omega (arith, e, z)),
              place,
              mapped,
              read_word-image (record l { machine = u }) lo hi phys image shows1 (memsize header)
                  (omega (arith, g.in_file)) (omega (arith, g.in_file)),
              g.its_size,
              copied,
            )
            refl
