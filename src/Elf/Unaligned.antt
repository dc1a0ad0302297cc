-- ===== src/Elf/Unaligned.antt =====
-- A segment that does not start at a page's start, and reaches into the next page.
use quark_kernel.Base.{
  ℕ, zero, suc, ◌+◌, ◌-◌, ◌*◌, ◌/◌, ◌%◌, ◌^◌, ◌≤◌, ◌<◌, ◌≡◌, ◌≢◌, ◌⊎◌, inl, inr, Bool-cases,
  Option-cases, ◌∙◌, refl, ap, subst, ◌==◌, true, ==_iff, not-==→ne, ltb, lt→ltb, ne→not-==,
  if◌then◌else◌, none, some, arith,
}
use quark_kernel.Base.Fault.{Ensures-inv}
use quark_kernel.Status.{enone, enomem}
use quark_kernel.Kernel.State.{put}
use quark_kernel.Paging.{Machine}
use quark_kernel.Paging.Tree.{IsTree, directory, directory_index}
use quark_kernel.PageMap.{map_page}
use quark_kernel.PageMap.Translate.{translate, IsBelowWindow, IsTree-same, translate-same}
use quark_kernel.PageMap.Mapping.{First, map_page-First}
use quark_kernel.MemoryCalls.Fill.{reserve_page-reply}
use quark_kernel.Elf.{
  Loader, memsize, read_byte, write_byte, copy_bytes, after_map, load_page, load_pages,
}
use quark_kernel.Elf.Access.{Shows, word_of, read_word-image}
use quark_kernel.Elf.Segment.{flags}

module _ (dest src j : ℕ) where
  -- A copy to an address that is not mapped faults there, or before.
  copy_bytes-fault :
      (rounds i : ℕ) (l : Loader)
      → i ≤ j
      → j < i + rounds
      → translate l.machine (dest + j) ≡ none
      → copy_bytes rounds dest src i l ≡ none
  unfolding copy_bytes read_byte write_byte
  copy_bytes-fault zero i l le lt gone = absurd (omega arith)
  copy_bytes-fault (suc rounds) i l le lt gone =
      elim (Option-cases (translate l.machine (src + i))) [
        | inl e ↦ rw e refl
        | inr (a, e) ↦ rw e (elim (Bool-cases (i == j)) [
          | inl same ↦ rw ((==_iff i j).0 same, gone) refl
          | inr other ↦ elim (Option-cases (translate l.machine (dest + i))) [
            | inl e' ↦ rw e' refl
            | inr (b, e') ↦ rw e' (
                copy_bytes-fault rounds (i + 1) (record l { ram = put l.ram b (l.ram a) })
                  (omega (arith, le, not-==→ne i j other)) (omega (arith, lt)) gone)
          ]
        ])
      ]

-- The start of the page behind the one of an address.
abbrev pub next_page : ℕ → ℕ
next_page d = (d / 4096 + 1) * 4096

-- The copy to the first page reaches the next one.
reach :
    (d size : ℕ)
    → d % 4096 ≢ 0
    → 4096 < d % 4096 + size
    → next_page d - d < (if ltb ((0 + 4096) % 2 ^ 32) size then 4096 else size - 0)
reach d size ne lt = elim (Bool-cases (ltb 4096 size)) [
  | inl e ↦ rw e (omega (arith, ne, lt))
  | inr e ↦ rw e (omega (arith, ne, lt))
]

-- The loader faults on a segment that does not start at a page's start and reaches into the next
-- page, where that page is not mapped: the copy to the first page runs into the next one before it is
-- mapped. The program header is in the memory and not in the page of the segment's start; that page and
-- the next lie below the window of well-formed page tables, the first has its table, and the
-- allocator's next reply is an aligned frame of 32 bits.
pub load_pages-unaligned :
    (lo hi : ℕ) (phys image : ℕ → ℕ) (header d s size fuel frame : ℕ) (l : Loader)
    → Shows l lo hi phys image
    → (lo ≤ header) × (header + 24 ≤ hi) × (hi ≤ 1023 * 2 ^ 22)
    → word_of image (memsize header) ≡ size
    → (hi ≤ d / 4096 * 4096) ⊎ (next_page d ≤ lo)
    → d % 4096 ≢ 0
    → 4096 < d % 4096 + size
    → next_page d < 1023 * 2 ^ 22
    → IsTree l.machine
    → (directory l.machine (directory_index d)).present ≡ true
    → (l.machine.replies l.machine.calls ≡ some frame) × (frame % 4096 ≡ 0) × (frame < 2 ^ 32)
    → translate l.machine (next_page d) ≡ none
    → load_pages (suc fuel) header d s 0 l ≡ none
unfolding load_pages load_page after_map
load_pages-unaligned lo hi phys image header d s size fuel frame l shows file its_size apart ne
      reaches low tree there (reply, z, fits) gone =
    let m = l.machine in
    let reserved = record m { calls = m.calls + 1 } in
    let ((status, u), e, (ok, f)) = Ensures-inv (
      map_page-First reserved (d + 0) frame flags (IsTree-same m reserved refl (λ x. refl) tree)
        (omega (arith, low)) z fits
        (subst (λ q. (directory m (directory_index q)).present ≡ true) (omega arith) there)) in
    faults u (e ∙ ap (λ i. some (i, u)) ok) f
  where
    faults :
        (u : Machine)
        → map_page (d + 0) frame flags (record l.machine { calls = l.machine.calls + 1 })
          ≡ some (enone, u)
        → First (record l.machine { calls = l.machine.calls + 1 }) (d + 0) frame flags u
        → load_pages (suc fuel) header d s 0 l ≡ none
    faults u mapped f =
        let same = λ (q : ℕ) (below : IsBelowWindow q) (other : q / 4096 ≢ (d + 0) / 4096).
          f.mapped.others q below other
          ∙ translate-same l.machine (record l.machine { calls = l.machine.calls + 1 }) q refl
              (λ x. refl) in
        let still : translate u (d + 0 + (next_page d - d)) ≡ none =
          ap (translate u) (omega arith)
          ∙ same (next_page d) (omega (arith, low)) (λ x. omega (arith, x))
          ∙ gone in
        let shows' : Shows (record l { machine = u }) lo hi phys image = λ q le lt. (
          same q (omega (arith, lt, file)) (other q le lt apart) ∙ (shows q le lt).0,
          (shows q le lt).1,
        ) in
        let place : (d + 0) % 2 ^ 32 ≡ d + 0 = omega (arith, low) in
        rw
          (
            read_word-image l lo hi phys image shows (memsize header) (omega (arith, file))
                (omega (arith, file)),
            its_size,
            lt→ltb 0 size (omega (arith, reaches)),
            reserve_page-reply l.machine frame reply,
            ne→not-== frame enomem (λ x. omega (arith, x, z)),
            place,
            mapped,
            read_word-image (record l { machine = u }) lo hi phys image shows' (memsize header)
                (omega (arith, file)) (omega (arith, file)),
            its_size,
            copy_bytes-fault (d + 0) (s + 0) (next_page d - d)
                (if ltb ((0 + 4096) % 2 ^ 32) size then 4096 else size - 0) 0
                (record l { machine = u }) (omega arith) (omega (arith, reach d size ne reaches))
                still,
          )
          refl
      where
        other :
            (q : ℕ)
            → lo ≤ q
            → q < hi
            → (hi ≤ d / 4096 * 4096) ⊎ (next_page d ≤ lo)
            → q / 4096 ≢ (d + 0) / 4096
        other q le lt (inl h) = λ x. omega (arith, x, h, lt)
        other q le lt (inr h) = λ x. omega (arith, x, h, le)
