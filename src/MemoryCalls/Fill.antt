-- ===== src/MemoryCalls/Fill.antt =====
-- The loop of `mmap` that maps pages, on the loaded page tables.
use quark_kernel.Base.{
  ◌⊎◌, ℕ, zero, suc, ◌+◌, ◌*◌, ◌/◌, ◌%◌, ◌^◌, ◌<◌, ◌≤◌, ◌≡◌, ◌≢◌, refl, true, none, some, arith,
  inl, inr, sym, ap, ◌∙◌, subst,
}
use quark_kernel.Base.Fault.{Ensures, ensures, Ensures-map}
use quark_kernel.Base.State.{Ensures-then}
use quark_kernel.Status.{enone, enomem}
use quark_kernel.Paging.{Machine, page_rw, page_usermode}
use quark_kernel.Paging.Tree.{IsTree, directory, directory_index}
use quark_kernel.Paging.Directory.{shows}
use quark_kernel.PageMap.{reserve_page, reserve_pages}
use quark_kernel.PageMap.Translate.{translate, IsBelowWindow, IsTree-same, translate-same}
use quark_kernel.PageMap.Mapping.{First, map_page-First}
use quark_kernel.MemoryCalls.{page_at, map_loop}

-- Every page of the range of `n` pages from `b` on has its table.
abbrev pub HasTables : Machine → ℕ → ℕ → Type 0
HasTables s b n =
    (q : ℕ) → b ≤ q → q < b + n * 4096 → (directory s (directory_index q)).present ≡ true

-- The allocator's next `n` replies are the frames, which are aligned addresses.
abbrev pub Replies : Machine → ℕ → (ℕ → ℕ) → Type 0
Replies s n frame =
    (k : ℕ)
    → k < n
    → (s.replies (s.calls + k) ≡ some (frame k)) × (frame k % 4096 ≡ 0) × (frame k < 2 ^ 32)

-- The pages of the range are mapped to the frames, the other pages are translated as before, and
-- the allocator was called once for each page.
pub record Filled (s : Machine) (b n : ℕ) (frame : ℕ → ℕ) (r : ℕ × Machine) : Type 0 where
  pub status : r.0 ≡ enone
  pub tree : IsTree r.1
  pub inside : (k : ℕ) → k < n → translate r.1 (b + k * 4096) ≡ some (frame k)
  pub outside :
      (q : ℕ) → IsBelowWindow q → q < b ⊎ b + n * 4096 ≤ q → translate r.1 q ≡ translate s q
  pub calls : r.1.calls ≡ s.calls + n

pub below_window : (b n q : ℕ) → b + n * 4096 ≤ 1023 * 2 ^ 22 → q < b + n * 4096 → IsBelowWindow q
below_window b n q fits lt = omega arith

-- The rest of a range after its first page.
module _ (b k : ℕ) (frame : ℕ → ℕ) (s : Machine) where
  pub rest-tables :
      (u : Machine)
      → ((d : ℕ) → directory u d ≡ directory s d)
      → HasTables s b (suc k)
      → HasTables u (b + 4096) k
  rest-tables u tables t q le lt =
      shows (sym (tables (directory_index q))) (t q (omega (arith, le)) (omega (arith, lt)))

  pub rest-replies :
      (u : Machine)
      → u.replies ≡ s.replies
      → u.calls ≡ s.calls + 1
      → Replies s (suc k) frame
      → Replies u k (λ j. frame (j + 1))
  rest-replies u replies calls t j lt =
      let (reply, z, small) = t (j + 1) (omega (arith, lt)) in
      (rw (replies, calls) (ap s.replies (next j) ∙ reply), z, small)
    where
      next : (j : ℕ) → s.calls + 1 + j ≡ s.calls + (j + 1)
      next j = omega arith

  pub rest-Filled :
      (u : Machine) (flags : ℕ)
      → First (record s { calls = s.calls + 1 }) b (frame 0) flags u
      → IsBelowWindow b
      → b % 4096 ≡ 0
      → b + (suc k) * 4096 ≤ 1023 * 2 ^ 22
      → (r : ℕ × Machine) → Filled u (b + 4096) k (λ j. frame (j + 1)) r
      → Filled s b (suc k) frame r
  rest-Filled u flags f low z fits r w = record {
    status = w.status;
    tree = w.tree;
    inside = inside;
    outside = outside;
    calls = w.calls ∙ ap (λ c. c + k) f.calls ∙ omega arith;
  }
    where
      inside : (j : ℕ) → j < suc k → translate r.1 (b + j * 4096) ≡ some (frame j)
      inside zero lt =
          ap (translate r.1) (omega arith)
          ∙ w.outside b low (inl (omega arith))
          ∙ f.mapped.here
          ∙ rw z (ap some (omega arith))
      inside (suc j) lt =
          ap (translate r.1) (place j)
          ∙ w.inside j (omega (arith, lt))
          ∙ ap (λ i. some (frame i)) (omega arith)
        where
          place : (j : ℕ) → b + suc j * 4096 ≡ b + 4096 + j * 4096
          place j = omega arith

      around : (q : ℕ) → q < b ⊎ b + (suc k) * 4096 ≤ q → q < b + 4096 ⊎ b + 4096 + k * 4096 ≤ q
      around q (inl lt) = inl (omega (arith, lt))
      around q (inr le) = inr (omega (arith, le))

      other_page : (q : ℕ) → q < b ⊎ b + (suc k) * 4096 ≤ q → q / 4096 ≢ b / 4096
      other_page q (inl lt) = omega (arith, lt, z)
      other_page q (inr le) = omega (arith, le, z)

      outside :
          (q : ℕ)
          → IsBelowWindow q
          → q < b ⊎ b + (suc k) * 4096 ≤ q
          → translate r.1 q ≡ translate s q
      outside q below out =
          w.outside q below (around q out)
          ∙ f.mapped.others q below (other_page q out)
          ∙ translate-same s (record s { calls = s.calls + 1 }) q refl (λ there. refl)

pub reserve_page-reply :
    (s : Machine) (a : ℕ)
    → s.replies s.calls ≡ some a
    → reserve_page s ≡ some (a, record s { calls = s.calls + 1 })
unfolding reserve_page reserve_pages
reserve_page-reply s a e = rw e refl

module _ (location : ℕ) where
  pub map_loop-Filled :
      (rounds n : ℕ) (frame : ℕ → ℕ) (s : Machine)
      → IsTree s
      → (location + n) % 4096 ≡ 0
      → location + n + rounds * 4096 ≤ 1023 * 2 ^ 22
      → HasTables s (location + n) rounds
      → Replies s rounds frame
      → Ensures (Filled s (location + n) rounds frame) (map_loop rounds location n s)
  unfolding map_loop
  map_loop-Filled zero n frame s h z fits tables replies = ensures (record {
    status = refl;
    tree = h;
    inside = λ k lt. absurd (omega arith);
    outside = λ q below out. refl;
    calls = omega arith;
  })
  map_loop-Filled (suc rounds) n frame s h z fits tables replies =
      let b = location + n in
      let low = below_window b (suc rounds) b fits (omega arith) in
      let (reply, aligned, small) = replies 0 (omega arith) in
      let reserved = record s { calls = s.calls + 1 } in
      let there = tables b (omega arith) (omega arith) in
      let reserved-IsTree = IsTree-same s reserved refl (λ d. refl) h in
      rw
        (
          reserve_page-reply s (frame 0) (ap s.replies (omega arith) ∙ reply),
          aligned,
          at_page n fits,
        )
        (Ensures-then
          (map_page-First reserved b (frame 0) (page_usermode + page_rw) reserved-IsTree low aligned
            small there)
          λ status u (ok, f). rw ok (
            Ensures-map
              (map_loop-Filled rounds (n + 4096) (λ j. frame (j + 1)) u f.mapped.tree
                (omega (arith, z)) (omega (arith, fits))
                (subst (λ x. HasTables u x rounds) (next n)
                  (rest-tables b rounds frame s u f.tables tables))
                (rest-replies b rounds frame s u f.replies f.calls replies))
              λ r w.
                rest-Filled b rounds frame s u (page_usermode + page_rw) f low z fits r
                  (subst (λ x. Filled u x rounds (λ j. frame (j + 1)) r) (sym (next n)) w)))
    where
      next : (n : ℕ) → location + n + 4096 ≡ location + (n + 4096)
      next n = omega arith

      at_page :
          (n : ℕ)
          → location + n + suc rounds * 4096 ≤ 1023 * 2 ^ 22
          → page_at location n ≡ location + n
      at_page n fits = omega arith

  -- The frame of ENOMEM is not aligned, and ends the loop.
  pub map_loop-no_memory :
      (s : Machine) (rounds n : ℕ)
      → 0 < rounds
      → s.replies s.calls ≡ none
      → map_loop rounds location n s ≡ some (enomem, record s { calls = s.calls + 1 })
  unfolding map_loop reserve_page reserve_pages
  map_loop-no_memory s zero n lt no_memory = absurd (omega arith)
  map_loop-no_memory s (suc rounds) n lt no_memory = rw no_memory refl
