-- ===== src/MemoryCalls/Map.antt =====
-- `mmap` on the loaded page tables.
use quark_kernel.Base.{
  none_not_some, Option-cases, ℕ, zero, suc, ◌+◌, ◌*◌, ◌/◌, ◌%◌, ◌^◌, ◌<◌, ◌≤◌, ◌≡◌, ◌≢◌, refl,
  true, false, none, some, arith, inl, inr, ne→not-==, sym, ap, ◌∙◌, subst,
}
use quark_kernel.Base.Fault.{Ensures, ensures, Ensures-inv}
use quark_kernel.Base.State.{Ensures-then}
use quark_kernel.Status.{enone, eexists}
use quark_kernel.Paging.{Machine}
use quark_kernel.Paging.Tree.{IsTree}
use quark_kernel.PageMap.Translate.{translate, IsTree-same}
use quark_kernel.PageMap.PageType.{page_type-translate}
use quark_kernel.MemoryCalls.{page_at, any_present, map_loop, undo, mmap}
use quark_kernel.MemoryCalls.Stuck.{munmap-stuck}
use quark_kernel.MemoryCalls.Fill.{
  HasTables, Replies, Filled, below_window, map_loop-Filled, map_loop-no_memory,
}

-- The first loop of `mmap`, which looks for a page that is mapped.
module _ (location : ℕ) (s : Machine) (h : IsTree s) where
  at_page :
      (i n : ℕ)
      → location + i + n * 4096 ≤ 1023 * 2 ^ 22
      → 0 < n
      → page_at location i ≡ location + i
  at_page i n fits lt = omega arith

  next : (i k : ℕ) → location + (i + 4096) + k * 4096 ≡ location + i + suc k * 4096
  next i k = omega arith

  any_present-none :
      (rounds i : ℕ)
      → location + i + rounds * 4096 ≤ 1023 * 2 ^ 22
      → ((k : ℕ) → k < rounds → translate s (location + i + k * 4096) ≡ none)
      → any_present rounds location i s ≡ some (false, s)
  unfolding any_present
  any_present-none zero i fits gone = refl
  any_present-none (suc rounds) i fits gone =
      let b = location + i in
      let low = below_window b (suc rounds) b fits (omega arith) in
      let first = ap (translate s) (omega arith) ∙ gone 0 (omega arith) in
      let ((type, u), e, (absent, _, same)) =
        Ensures-inv ((page_type-translate s b h low).1 first) in
      rw (at_page i (suc rounds) fits (omega arith), e, absent, same)
        (any_present-none rounds (i + 4096) (omega (arith, fits))
          λ k lt. ap (translate s) (next i k) ∙ gone (suc k) (omega (arith, lt)))

  any_present-some :
      (rounds i k : ℕ)
      → location + i + rounds * 4096 ≤ 1023 * 2 ^ 22
      → k < rounds
      → (a : ℕ) → translate s (location + i + k * 4096) ≡ some a
      → any_present rounds location i s ≡ some (true, s)
  unfolding any_present
  any_present-some zero i k fits lt a there = absurd (omega arith)
  any_present-some (suc rounds) i k fits lt a there =
      let b = location + i in
      let low = below_window b (suc rounds) b fits (omega arith) in
      elim (Option-cases (translate s b)) [
        | inr (x, first) ↦
            let ((type, u), e, (present, _, same)) =
              Ensures-inv ((page_type-translate s b h low).0 x first).0 in
            rw (at_page i (suc rounds) fits (omega arith), e, present, same) refl
        | inl first ↦
            let ((type, u), e, (absent, _, same)) =
              Ensures-inv ((page_type-translate s b h low).1 first) in
            rw (at_page i (suc rounds) fits (omega arith), e, absent, same)
              (later (λ k fits lt e. any_present-some rounds (i + 4096) k fits lt a e) k lt first
                there)
      ]
    where
      later :
          ((k : ℕ)
            → location + (i + 4096) + rounds * 4096 ≤ 1023 * 2 ^ 22
            → k < rounds
            → translate s (location + (i + 4096) + k * 4096) ≡ some a
            → any_present rounds location (i + 4096) s ≡ some (true, s))
          → (k : ℕ) → k < suc rounds
          → translate s (location + i) ≡ none
          → translate s (location + i + k * 4096) ≡ some a
          → any_present rounds location (i + 4096) s ≡ some (true, s)
      later go zero lt first there =
          absurd (none_not_some (sym first ∙ ap (translate s) (omega arith) ∙ there))
      later go (suc k) lt first there =
          go k (omega (arith, fits)) (omega (arith, lt)) (ap (translate s) (next i k) ∙ there)

pages : (n : ℕ) → n * 4096 % 4096 ≡ 0
pages n = omega arith

count : (n : ℕ) → n * 4096 / 4096 ≡ n
count n = omega arith

-- On page tables that are well formed, `mmap` of a range of `n` pages below their window, at a
-- location that is a multiple of the page size and not 0: where no page of the range is mapped,
-- all have their tables, and the allocator's next `n` replies are aligned frames of 32 bits, it
-- returns ENONE and maps the pages of the range to the frames in order; every other page below the
-- window is translated as before, and the allocator was called once for each page.
pub mmap-Filled :
    (s : Machine) (fuel location n flags : ℕ) (frame : ℕ → ℕ)
    → IsTree s
    → location % 4096 ≡ 0
    → location ≢ 0
    → location + n * 4096 ≤ 1023 * 2 ^ 22
    → ((k : ℕ) → k < n → translate s (location + k * 4096) ≡ none)
    → HasTables s location n
    → Replies s n frame
    → Ensures
        (λ r. (r.0 ≡ some enone) × Filled s location n frame (enone, r.1))
        (mmap fuel location (n * 4096) flags s)
unfolding mmap
mmap-Filled s fuel location n flags frame h z ne fits gone tables replies =
    rw
      (
        z,
        pages n,
        ne→not-== location 0 ne,
        count n,
        any_present-none location s h n 0 (omega (arith, fits))
            λ k lt. ap (translate s) (from_0 k) ∙ gone k lt,
      )
      (Ensures-then fill λ status u w.
        rw w.status (ensures (refl, subst (λ k. Filled s location n frame (k, u)) w.status w)))
  where
    from_0 : (k : ℕ) → location + 0 + k * 4096 ≡ location + k * 4096
    from_0 k = omega arith

    fill : Ensures (Filled s location n frame) (map_loop n location 0 s)
    fill =
        let here : location ≡ location + 0 = omega arith in
        subst (λ b. Ensures (Filled s b n frame) (map_loop n location 0 s)) (sym here)
          (map_loop-Filled location n 0 frame s h (omega (arith, z)) (omega (arith, fits))
            (subst (λ b. HasTables s b n) here tables) replies)

-- On page tables that are well formed, `mmap` of a range of `n` pages below their window, at a
-- location that is a multiple of the page size and not 0, in which a page is mapped, answers
-- EEXISTS and changes nothing.
pub mmap-exists :
    (s : Machine) (fuel location n k a flags : ℕ)
    → IsTree s
    → location % 4096 ≡ 0
    → location ≢ 0
    → location + n * 4096 ≤ 1023 * 2 ^ 22
    → k < n
    → translate s (location + k * 4096) ≡ some a
    → mmap fuel location (n * 4096) flags s ≡ some (some eexists, s)
unfolding mmap
mmap-exists s fuel location n k a flags h z ne fits lt there =
    rw
      (
        z,
        pages n,
        ne→not-== location 0 ne,
        count n,
        any_present-some location s h n 0 k (omega (arith, fits)) lt a
            (ap (translate s) (omega arith) ∙ there),
      )
      refl

-- On page tables that are well formed, `mmap` of a range of at least one page below their window,
-- at a location that is a multiple of the page size and not 0, where no page of the range is mapped
-- and the allocator has no memory, has not returned after any number of rounds of the loop of
-- `munmap` from 1 on.
pub mmap-stuck :
    (s : Machine) (fuel location n flags : ℕ)
    → IsTree s
    → location % 4096 ≡ 0
    → location ≢ 0
    → 0 < n
    → location + n * 4096 ≤ 1023 * 2 ^ 22
    → ((k : ℕ) → k < n → translate s (location + k * 4096) ≡ none)
    → s.replies s.calls ≡ none
    → Ensures (λ r. r.0 ≡ none) (mmap (suc fuel) location (n * 4096) flags s)
unfolding mmap undo
mmap-stuck s fuel location n flags h z ne some_page fits gone no_memory =
    rw
      (
        z,
        pages n,
        ne→not-== location 0 ne,
        count n,
        any_present-none location s h n 0 (omega (arith, fits))
            λ k lt. ap (translate s) (from_0 k) ∙ gone k lt,
        map_loop-no_memory location s n 0 some_page no_memory,
      )
      (Ensures-then
        (munmap-stuck (record s { calls = s.calls + 1 }) fuel location (n * 4096)
          (IsTree-same s (record s { calls = s.calls + 1 }) refl (λ d. refl) h)
          (below_window location n location fits (omega (arith, some_page))) z (pages n) ne
          (omega (arith, some_page)))
        λ result u (e, w). rw e (ensures refl))
  where
    from_0 : (k : ℕ) → location + 0 + k * 4096 ≡ location + k * 4096
    from_0 k = omega arith
