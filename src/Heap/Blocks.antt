-- ===== src/Heap/Blocks.antt =====
-- `kmalloc` and the pages of its block.
use quark_kernel.Base.{
  none_not_some, Option-cases, ℕ, zero, suc, ◌+◌, ◌-◌, ◌*◌, ◌/◌, ◌%◌, ◌^◌, ◌<◌, ◌≤◌, ◌≡◌, ◌≢◌, ◌⊎◌,
  refl, Option, none, some, ◌==◌, not, if◌then◌else◌, arith, Bool-cases, inl, inr, ==_iff, sym, ap,
  ◌∙◌, subst,
}
use quark_kernel.Base.Fault.{Ensures, ensures, Ensures-map, Ensures-inv}
use quark_kernel.Base.State.{Ensures-then}
use quark_kernel.Status.{enone, enomem}
use quark_kernel.Paging.{Machine, page_rw}
use quark_kernel.Paging.Tree.{IsTree, directory}
use quark_kernel.PageMap.{reserve_page, reserve_pages}
use quark_kernel.PageMap.Translate.{
  translate, translate-same, translate-same_page, IsBelowWindow, IsTree-same,
}
use quark_kernel.PageMap.Mapping.{First, map_page-First, map_page-error}
use quark_kernel.PageMap.PageType.{page_type-translate}
use quark_kernel.MemoryCalls.Fill.{HasTables, rest-tables, below_window, reserve_page-reply}
use quark_kernel.Heap.{block_page, pages_of, map_block_from, map_block, kmalloc}

-- Each reply of the allocator is no memory or an aligned address.
abbrev pub RepliesAligned : Machine → Type 0
RepliesAligned s = (k a : ℕ) → s.replies k ≡ some a → (a % 4096 ≡ 0) × (a < 2 ^ 32)

-- What is mapped stays mapped as it is.
abbrev pub Keeps : Machine → Machine → Type 0
Keeps s u = (q a : ℕ) → IsBelowWindow q → translate s q ≡ some a → translate u q ≡ some a

abbrev pub IsMappedAt : Machine → ℕ → Type 0
IsMappedAt s q = (a : ℕ) × (translate s q ≡ some a)

-- The status after a loop over `n` pages from `b` on: where it is ENONE all are mapped.
pub record Blocked (s : Machine) (b n : ℕ) (r : ℕ × Machine) : Type 0 where
  pub tree : IsTree r.1
  pub keeps : Keeps s r.1
  pub inside : r.0 ≡ enone → (k : ℕ) → k < n → IsMappedAt r.1 (b + k * 4096)

-- The first page of the loop, where it goes on.
record Started (s : Machine) (b : ℕ) (u : Machine) : Type 0 where
  tree : IsTree u
  keeps : Keeps s u
  here : IsMappedAt u b
  tables : (d : ℕ) → directory u d ≡ directory s d
  replies : u.replies ≡ s.replies

start-there : (s : Machine) (b : ℕ) → IsTree s → IsMappedAt s b → Started s b s
start-there s b h here = record {
  tree = h;
  keeps = λ q a below e. e;
  here = here;
  tables = λ d. refl;
  replies = refl;
}

start-mapped :
    (s : Machine) (b frame : ℕ) (u : Machine)
    → translate s b ≡ none
    → First (record s { calls = s.calls + 1 }) b frame page_rw u
    → Started s b u
start-mapped s b frame u gone f = record {
  tree = f.mapped.tree;
  keeps = λ q a below e.
      f.mapped.others q below
        (λ same. none_not_some (sym (translate-same_page s b q same gone) ∙ e))
      ∙ translate-same s (record s { calls = s.calls + 1 }) q refl (λ z. refl)
      ∙ e;
  here = (_, f.mapped.here);
  tables = f.tables;
  replies = f.replies;
}

more :
    (s u : Machine) (b n : ℕ) (r : ℕ × Machine)
    → b + suc n * 4096 ≤ 1023 * 2 ^ 22
    → Started s b u
    → Blocked u (b + 4096) n r
    → Blocked s b (suc n) r
more s u b n r fits f w = record {
  tree = w.tree;
  keeps = λ q a below e. w.keeps q a below (f.keeps q a below e);
  inside = inside;
}
  where
    inside : r.0 ≡ enone → (k : ℕ) → k < suc n → IsMappedAt r.1 (b + k * 4096)
    inside ok zero lt =
        let (a, e) = f.here in
        let first : b + 0 * 4096 ≡ b = omega arith in
        (a, ap (translate r.1) first ∙ w.keeps b a (below_window b (suc n) b fits (omega arith)) e)
    inside ok (suc k) lt =
        let (a, e) = w.inside ok k (omega (arith, lt)) in
        let next : b + suc k * 4096 ≡ b + 4096 + k * 4096 = omega arith in
        (a, ap (translate r.1) next ∙ e)

reserve_page-none :
    (s : Machine)
    → s.replies s.calls ≡ none
    → reserve_page s ≡ some (enomem, record s { calls = s.calls + 1 })
unfolding reserve_page reserve_pages
reserve_page-none s e = rw e refl

module _ (location : ℕ) where
  at_block :
      (n k : ℕ) → location + n + suc k * 4096 ≤ 1023 * 2 ^ 22 → block_page location n ≡ location + n
  at_block n k fits = omega arith

  map_block_from-Blocked :
      (rounds n : ℕ) (s : Machine)
      → IsTree s
      → location + n + rounds * 4096 ≤ 1023 * 2 ^ 22
      → HasTables s (location + n) rounds
      → RepliesAligned s
      → Ensures (Blocked s (location + n) rounds) (map_block_from rounds location n s)
  unfolding map_block_from
  map_block_from-Blocked zero n s h fits tables aligned =
      ensures
        (record { tree = h; keeps = λ q a below e. e; inside = λ ok k lt. absurd (omega arith) })
  map_block_from-Blocked (suc rounds) n s h fits tables aligned =
      let b = location + n in
      let low = below_window b (suc rounds) b fits (omega arith) in
      let reserved : Machine = record s { calls = s.calls + 1 } in
      let reserved-IsTree = IsTree-same s reserved refl (λ d. refl) h in
      let go = λ (u : Machine) (f : Started s b u).
        Ensures-map
          (map_block_from-Blocked rounds (n + 4096) u f.tree (omega (arith, fits))
            (subst (λ x. HasTables u x rounds) (next n)
              (rest-tables b rounds (λ k. 0) s u f.tables tables))
            (λ k a e. aligned k a (ap (λ (rs : ℕ → Option ℕ). rs k) (sym f.replies) ∙ e)))
          (λ r w.
            more s u b rounds r fits f (subst (λ x. Blocked u x rounds r) (sym (next n)) w)) in
      elim (Option-cases (translate s b)) [
        | inr (a, here) ↦
            let ((type, u), e, (present, _, same)) =
              Ensures-inv ((page_type-translate s b h low).0 a here).0 in
            rw (at_block n rounds fits, e, present, same) (go s (start-there s b h (a, here)))
        | inl gone ↦
            let ((type, u), e, (absent, _, same)) =
              Ensures-inv ((page_type-translate s b h low).1 gone) in
            rw (at_block n rounds fits, e, absent, same)
              (elim (Option-cases (s.replies s.calls)) [
                | inl no_memory ↦
                    rw
                      (
                        reserve_page-none s no_memory,
                        (map_page-error reserved b enomem page_rw reserved-IsTree low).0
                            (omega arith),
                      )
                      (ensures (record {
                        tree = reserved-IsTree;
                        keeps = λ q a below e. translate-same s reserved q refl (λ z. refl) ∙ e;
                        inside = λ ok k lt. absurd (not_ok ok);
                      }))
                | inr (a, reply) ↦
                    let (z, small) = aligned s.calls a reply in
                    rw (reserve_page-reply s a reply) (
                      Ensures-then
                        (map_page-First reserved b a page_rw reserved-IsTree low z small
                          (tables b (omega arith) (omega arith)))
                        λ status u (ok, f). rw ok (go u (start-mapped s b a u gone f)))
              ])
      ]
    where
      next : (n : ℕ) → location + n + 4096 ≡ location + (n + 4096)
      next n = omega arith

      not_ok : ◌≢◌ {A = ℕ} 3 0
      not_ok = omega arith

-- A byte of a mapped page is mapped.
mapped_byte : (s : Machine) (p q : ℕ) → q / 4096 ≡ p / 4096 → IsMappedAt s p → IsMappedAt s q
mapped_byte s p q same (a, e) = elim (Option-cases (translate s q)) [
  | inr found ↦ found
  | inl gone ↦ absurd (none_not_some (sym (translate-same_page s q p (sym same) gone) ∙ e))
]

-- A block starts on a page, or is inside one page.
abbrev pub IsPlaced : ℕ → ℕ → Type 0
IsPlaced loc size = loc % 4096 ≡ 0 ⊎ loc % 4096 + size ≤ 4096

-- What `kmalloc` returns: NULL, or a block whose bytes are all mapped.
pub record Allocated (s : Machine) (loc size : ℕ) (r : ℕ × Machine) : Type 0 where
  pub tree : IsTree r.1
  pub keeps : Keeps s r.1
  pub block : (r.0 ≡ 0) ⊎ ((r.0 ≡ loc) × ((q : ℕ) → loc ≤ q → q < loc + size → IsMappedAt r.1 q))

allocated :
    (s : Machine) (loc size : ℕ)
    → IsPlaced loc size
    → (status : ℕ) (u : Machine) → Blocked s loc (pages_of size) (status, u)
    → Allocated s loc size (if not (status == 0) then 0 else loc, u)
allocated s loc size z status u w = record {
  tree = w.tree;
  keeps = w.keeps;
  block = elim (Bool-cases (status == 0)) [
    | inl ok ↦ rw ok (inr (refl, λ q le lt. byte z q le lt ((==_iff status 0).0 ok)))
    | inr bad ↦ rw bad (inl refl)
  ];
}
  where
    in_range : (q : ℕ) → loc ≤ q → q < loc + size → (q - loc) / 4096 < pages_of size
    in_range q le lt = omega (arith, le, lt)

    byte : IsPlaced loc size → (q : ℕ) → loc ≤ q → q < loc + size → status ≡ enone → IsMappedAt u q
    byte (inl start) q le lt ok =
        mapped_byte u (loc + (q - loc) / 4096 * 4096) q (omega (arith, le, start))
          (w.inside ok ((q - loc) / 4096) (in_range q le lt))
    byte (inr inside) q le lt ok =
        mapped_byte u (loc + 0 * 4096) q (omega (arith, le, lt, inside))
          (w.inside ok 0 (omega (arith, le, lt)))

-- On page tables that are well formed, for a block below their window whose tables are there, and
-- where the allocator of page frames gives aligned addresses of 32 bits or no memory: `kmalloc` of
-- a block that starts on a page, or is inside one page, returns NULL, or the block with all its
-- bytes mapped; what was mapped stays mapped as it was.
pub kmalloc-Allocated :
    (s : Machine) (loc size : ℕ)
    → IsTree s
    → IsPlaced loc size
    → loc + pages_of size * 4096 ≤ 1023 * 2 ^ 22
    → HasTables s loc (pages_of size)
    → RepliesAligned s
    → Ensures (Allocated s loc size) (kmalloc (some loc) size s)
unfolding kmalloc map_block
kmalloc-Allocated s loc size h z fits tables aligned =
    Ensures-then mapped λ status u w. ensures (allocated s loc size z status u w)
  where
    mapped : Ensures (Blocked s loc (pages_of size)) (map_block_from (pages_of size) loc 0 s)
    mapped =
        let here : loc ≡ loc + 0 = omega arith in
        subst (λ b. Ensures (Blocked s b (pages_of size)) (map_block_from (pages_of size) loc 0 s))
          (sym here)
          (map_block_from-Blocked loc (pages_of size) 0 s h (omega (arith, fits))
            (subst (λ b. HasTables s b (pages_of size)) here tables) aligned)
