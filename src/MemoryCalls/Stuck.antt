-- ===== src/MemoryCalls/Stuck.antt =====
-- `munmap` on the loaded page tables.
use quark_kernel.Base.{
  Option-cases, ℕ, zero, suc, ◌/◌, ◌%◌, ◌<◌, ◌≡◌, ◌≢◌, refl, true, none, some, ltb, arith, inl, inr,
  ne→not-==, ap,
}
use quark_kernel.Base.Fault.{Ensures, ensures, Ensures-inv}
use quark_kernel.Base.State.{Ensures-then}
use quark_kernel.Status.{enone}
use quark_kernel.Paging.{Machine}
use quark_kernel.Paging.Tree.{IsTree}
use quark_kernel.PageMap.Translate.{translate, IsBelowWindow}
use quark_kernel.PageMap.Unmapping.{unmap_page-Unmapped}
use quark_kernel.PageMap.PageType.{page_type-translate}
use quark_kernel.MemoryCalls.{page_at, unmap_at, unmap_loop, munmap}

-- The page is not mapped; no other page below the window has changed, and no frame was given back.
pub record Removed (s : Machine) (page : ℕ) (u : Machine) : Type 0 where
  pub tree : IsTree u
  pub here : translate u page ≡ none
  pub freed : u.freed ≡ s.freed
  pub others : (q : ℕ) → IsBelowWindow q → q / 4096 ≢ page / 4096 → translate u q ≡ translate s q

module _ (s : Machine) (page : ℕ) (h : IsTree s) (low : IsBelowWindow page) where
  pub unmap_at-none : translate s page ≡ none → unmap_at page s ≡ some (enone, s)
  unfolding unmap_at
  unmap_at-none gone =
      let ((type, u), e, (absent, _, same)) =
        Ensures-inv ((page_type-translate s page h low).1 gone) in
      rw (e, absent) (ap (λ (u : Machine). some (enone, u)) same)

  unmap_at-some :
      (a : ℕ)
      → translate s page ≡ some a
      → Ensures (λ r. (r.0 ≡ enone) × Removed s page r.1) (unmap_at page s)
  unfolding unmap_at
  unmap_at-some a there =
      let ((type, u), e, (present, anon, same)) =
        Ensures-inv ((page_type-translate s page h low).0 a there).0 in
      rw (e, present, same, anon)
        (Ensures-then ((unmap_page-Unmapped s page h low).0 a there) λ frame v w.
          ensures
            (refl, record { tree = w.tree; here = w.here; freed = w.freed; others = w.others }))

module _ (location length : ℕ) (some_page : 0 < length) (low : IsBelowWindow location) where
  first_page : page_at location 0 ≡ location
  first_page = omega (arith, low)

  not_empty : ltb 0 length ≡ true
  not_empty = grind (arith, some_page)

  idle :
      (fuel : ℕ) (s : Machine)
      → IsTree s
      → translate s location ≡ none
      → unmap_loop fuel location length 0 enone s ≡ some (none, s)
  unfolding unmap_loop
  idle zero s h gone = rw not_empty refl
  idle (suc fuel) s h gone =
      rw (not_empty, first_page, unmap_at-none s location h low gone) (idle fuel s h gone)

  -- The first round unmaps the first page, where it is mapped.
  loop-Removed :
      (fuel : ℕ) (s : Machine)
      → IsTree s
      → Ensures
          (λ r. (r.0 ≡ none) × Removed s location r.1)
          (unmap_loop (suc fuel) location length 0 enone s)
  unfolding unmap_loop
  loop-Removed fuel s h = elim (Option-cases (translate s location)) [
    | inl gone ↦
        rw (not_empty, first_page, unmap_at-none s location h low gone, idle fuel s h gone)
          (ensures
            (refl, record { tree = h; here = gone; freed = refl; others = λ q below ne. refl }))
    | inr (a, there) ↦
        rw (not_empty, first_page)
          (Ensures-then (unmap_at-some s location h low a there)
            λ status u (ok, w). rw (ok, idle fuel u w.tree w.here) (ensures (refl, w)))
  ]

-- On page tables that are well formed, `munmap` of a range that starts below their window, with a
-- location and a length that are multiples of the page size and not 0, has not returned after any
-- number of rounds of its loop from 1 on: it has unmapped the first page, given back no frame, and
-- left every other page below the window as it was.
pub munmap-stuck :
    (s : Machine) (fuel location length : ℕ)
    → IsTree s
    → IsBelowWindow location
    → location % 4096 ≡ 0
    → length % 4096 ≡ 0
    → location ≢ 0
    → 0 < length
    → Ensures (λ r. (r.0 ≡ none) × Removed s location r.1) (munmap (suc fuel) location length s)
unfolding munmap
munmap-stuck s fuel location length h low z z' ne some_page =
    rw (z, z', ne→not-== location 0 ne) (loop-Removed location length some_page low fuel s h)
