-- ===== src/PageMap/Mapping.antt =====
-- `map_page` and the translation of the pages below the window of the page tables.
use quark_kernel.Base.{
  ℕ, ◌+◌, ◌*◌, ◌/◌, ◌%◌, ◌^◌, ◌<◌, ◌≡◌, ◌≢◌, refl, true, false, none, some, ◌==◌, arith, Bool-cases,
  inl, inr, ne→not-==, not-==→ne, sym, ap, subst, ◌∙◌,
}
use quark_kernel.Base.Fault.{Ensures, ensures}
use quark_kernel.Base.State.{continue, pure, Ensures-then}
use quark_kernel.Status.{enone, enomem, einvalidarg}
use quark_kernel.Paging.{
  PageTableEntry, Machine, page_rw, page_usermode, page_present, has_flag, set_flag, with_flags,
  with_address, set_pte,
}
use quark_kernel.Paging.Tree.{directory_index, directory, IsTree, put-IsTree}
use quark_kernel.Paging.Entry.{table_of, entry_of, set_pte-table}
use quark_kernel.Paging.Directory.{shows}
use quark_kernel.PageMap.{map_page}
use quark_kernel.PageMap.Translate.{
  translate, IsBelowWindow, translate-entry, written, directory-written, entry-written,
  translate-others,
}
use quark_kernel.PageMap.Tables.{
  IsReady, HasTable, add_tables-there, add_tables-HasTable, add_tables-no_memory,
}

-- The page is mapped to the frame with the rights of the flags, and every other page is translated
-- as before.
pub record Mapped (s : Machine) (page frame flags : ℕ) (r : ℕ × Machine) : Type 0 where
  pub status : r.0 ≡ enone
  pub tree : IsTree r.1
  pub here : translate r.1 page ≡ some (frame + page % 4096)
  pub writable : (entry_of r.1 page).rw ≡ has_flag page_rw flags
  pub user : (entry_of r.1 page).usermode ≡ has_flag page_usermode flags
  pub others : (q : ℕ) → IsBelowWindow q → q / 4096 ≢ page / 4096 → translate r.1 q ≡ translate s q

flag_set : (flags : ℕ) → has_flag page_present (set_flag page_present flags) ≡ true
flag_set flags = elim (Bool-cases (has_flag page_present flags)) [
  | inl z ↦ rw z z
  | inr z ↦ rw z (ap (λ k. k == 1) (odd_after flags (not-==→ne (flags / page_present % 2) 1 z)))
]
  where
    odd_after : (k : ℕ) → k / 65536 % 2 ≢ 1 → (k + 65536) / 65536 % 2 ≡ 1
    odd_after k ne = omega arith

low_bits : (k : ℕ) → ((k + 65536) / 1 % 2 ≡ k / 1 % 2) × ((k + 65536) / 4 % 2 ≡ k / 4 % 2)
low_bits k = omega arith

rw_kept : (flags : ℕ) → has_flag page_rw (set_flag page_present flags) ≡ has_flag page_rw flags
rw_kept flags = elim (Bool-cases (has_flag page_present flags)) [
  | inl z ↦ rw z refl
  | inr z ↦ rw z (ap (λ k. k == 1) (low_bits flags).0)
]

usermode_kept :
    (flags : ℕ)
    → has_flag page_usermode (set_flag page_present flags) ≡ has_flag page_usermode flags
usermode_kept flags = elim (Bool-cases (has_flag page_present flags)) [
  | inl z ↦ rw z refl
  | inr z ↦ rw z (ap (λ k. k == 1) (low_bits flags).1)
]

aligned : (frame : ℕ) → frame % 4096 ≡ 0 → frame < 2 ^ 32 → frame / 2 ^ 12 % 2 ^ 20 * 4096 ≡ frame
aligned frame z lt = omega arith

-- The last step, on a state where the page has a table.
module _ (s : Machine) (page frame flags : ℕ) (low : IsBelowWindow page) (z : frame % 4096 ≡ 0)
    (lt : frame < 2 ^ 32) (u : Machine) (ready : HasTable s page (enone, u)) where
  abbrev e : PageTableEntry
  e = with_flags (set_flag page_present flags) (with_address frame (entry_of u page))

  abbrev mapped : Machine
  mapped = written u ready.tree page low ready.there e

  pub mapped-Mapped : Mapped s page frame flags (enone, mapped)
  mapped-Mapped =
      let top = directory-written u ready.tree page low ready.there e in
      let entry = entry-written u ready.tree page low ready.there e in
      record {
        status = refl;
        tree =
            put-IsTree u ready.tree (table_of u page) (page / 2 ^ 12 % 1024) e
              (ready.tree.apart (directory_index page) low ready.there);
        here =
            translate-entry mapped page e (shows (sym (top (directory_index page))) ready.there)
              entry
            ∙ rw (flag_set flags, aligned frame z lt) refl;
        writable = ap (λ (x : PageTableEntry). x.rw) entry ∙ rw_kept flags;
        user = ap (λ (x : PageTableEntry). x.usermode) entry ∙ usermode_kept flags;
        others = λ q below ne.
            translate-others u ready.tree page low ready.there e q below ne ∙ ready.same q below;
      }

-- On page tables that are well formed, `map_page` of a page below the window and an aligned frame
-- of 32 bits returns ENONE and maps the page to the frame with the rights of the flags, where the
-- page's table is there or the allocator has a free frame for it; every other page below the
-- window is translated as before, and the page tables stay well formed.
pub map_page-Mapped :
    (s : Machine) (page frame flags : ℕ)
    → IsTree s
    → IsBelowWindow page
    → frame % 4096 ≡ 0
    → frame < 2 ^ 32
    → IsReady s page
    → Ensures (Mapped s page frame flags) (map_page page frame flags s)
unfolding map_page
map_page-Mapped s page frame flags h low z lt ready = rw z (
    Ensures-then (add_tables-HasTable s page h low ready)
      λ status u t. rw t.status (finish u (subst (λ k. HasTable s page (k, u)) t.status t)))
  where
    finish :
        (u : Machine)
        → HasTable s page (enone, u)
        → Ensures
            (Mapped s page frame flags)
            (continue (set_pte page 1 (set_flag page_present flags) frame u) λ _. pure enone)
    finish u t =
        rw (set_pte-table u t.tree page low t.there (set_flag page_present flags) frame)
          (ensures (mapped-Mapped s page frame flags low z lt u t))

-- The state after `map_page` of a page that has its table.
pub map_page-there :
    (s : Machine) (page frame flags : ℕ) (h : IsTree s) (low : IsBelowWindow page)
    → frame % 4096 ≡ 0
    → (there : (directory s (directory_index page)).present ≡ true)
    → map_page page frame flags s
      ≡ some (
        enone,
        written s h page low there
            (with_flags (set_flag page_present flags) (with_address frame (entry_of s page))),
      )
unfolding map_page
map_page-there s page frame flags h low z there =
    rw
      (
        z,
        add_tables-there s h page low there,
        set_pte-table s h page low there (set_flag page_present flags) frame,
      )
      refl

-- The state after `map_page` of a page that has its table, for the next page.
pub record First (s : Machine) (b frame flags : ℕ) (u : Machine) : Type 0 where
  pub mapped : Mapped s b frame flags (enone, u)
  pub tables : (d : ℕ) → directory u d ≡ directory s d
  pub replies : u.replies ≡ s.replies
  pub calls : u.calls ≡ s.calls

pub map_page-First :
    (s : Machine) (b frame flags : ℕ)
    → IsTree s
    → IsBelowWindow b
    → frame % 4096 ≡ 0
    → frame < 2 ^ 32
    → (directory s (directory_index b)).present ≡ true
    → Ensures (λ r. (r.0 ≡ enone) × First s b frame flags r.1) (map_page b frame flags s)
map_page-First s b frame flags h low z lt there =
    rw (map_page-there s b frame flags h low z there) (
      ensures (
        refl,
        record {
          mapped =
              mapped-Mapped s b frame flags low z lt s
                (record { status = refl; tree = h; there = there; same = λ q below. refl });
          tables = directory-written s h b low there _;
          replies = refl;
          calls = refl;
        },
      ))

-- A frame that is not aligned is refused with EINVALIDARG, and where the page has no table and the
-- allocator no memory, the answer is ENOMEM; the page tables are as before in both cases.
pub map_page-error :
    (s : Machine) (page frame flags : ℕ)
    → IsTree s
    → IsBelowWindow page
    → (frame % 4096 ≢ 0 → map_page page frame flags s ≡ some (einvalidarg, s))
      × (frame % 4096 ≡ 0
          → (directory s (directory_index page)).present ≡ false
          → s.replies s.calls ≡ none
          → map_page page frame flags s ≡ some (enomem, record s { calls = s.calls + 1 }))
unfolding map_page
map_page-error s page frame flags h low = (unaligned, no_memory)
  where
    unaligned : frame % 4096 ≢ 0 → map_page page frame flags s ≡ some (einvalidarg, s)
    unaligned ne = rw (ne→not-== (frame % 4096) 0 ne) refl

    no_memory :
        frame % 4096 ≡ 0
        → (directory s (directory_index page)).present ≡ false
        → s.replies s.calls ≡ none
        → map_page page frame flags s ≡ some (enomem, record s { calls = s.calls + 1 })
    no_memory z gone reply = rw (z, add_tables-no_memory s h page low gone reply) refl
