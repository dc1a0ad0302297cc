-- ===== src/PageMap/Unmapping.antt =====
-- `unmap_page`, and the translation of the pages below the window
-- of the page tables.
use quark_kernel.Base.{
  ℕ, ◌+◌, ◌*◌, ◌/◌, ◌%◌, ◌^◌, ◌<◌, ◌≡◌, ◌≢◌, ◌⊎◌, refl, Bool, true, false, none, some,
  if◌then◌else◌, arith, inl, inr, ap, ◌∙◌,
}
use quark_kernel.Base.Fault.{Ensures, ensures, Ensures-map}
use quark_kernel.Base.State.{◌>>◌, Ensures-then}
use quark_kernel.Status.{eoutofbounds}
use quark_kernel.Paging.{PageTableEntry, Machine, with_flags, with_address}
use quark_kernel.Paging.Tree.{directory_index, directory, IsTree, put-IsTree}
use quark_kernel.Paging.Entry.{
  table_of, entry_of, get_pte_type-directory, get_pte_type-table, get_pte_address-table,
  set_pte-table,
}
use quark_kernel.PageMap.{map_page, all_present, unmap_page}
use quark_kernel.PageMap.Translate.{
  translate, IsBelowWindow, translate-clear, written, entry-written, translate-others,
}
use quark_kernel.PageMap.Tables.{IsReady, present_flag}
use quark_kernel.PageMap.Mapping.{map_page-Mapped}

-- A page that is mapped has both entries.
pub data IsMapped (s : Machine) (page a : ℕ) : Type 0 where
  both :
      (directory s (directory_index page)).present ≡ true
      → (entry_of s page).present ≡ true
      → (entry_of s page).physical_address * 4096 + page % 4096 ≡ a
      → IsMapped s page a

-- A page that is not mapped lacks one.
pub data IsUnmapped (s : Machine) (page : ℕ) : Type 0 where
  no_table : (directory s (directory_index page)).present ≡ false → IsUnmapped s page
  no_entry :
      (directory s (directory_index page)).present ≡ true
      → (entry_of s page).present ≡ false
      → IsUnmapped s page

both_bits :
    (p q : Bool) (x a : ℕ)
    → (if p then (if q then some x else none) else none) ≡ some a
    → (p ≡ true) × (q ≡ true) × (x ≡ a)
both_bits true true x a e = (refl, refl, ground (arith, e))
both_bits true false x a e = absurd (ground (arith, e))
both_bits false q x a e = absurd (ground (arith, e))

some_bit :
    (p q : Bool) (x : ℕ)
    → (if p then (if q then some x else none) else none) ≡ none
    → (p ≡ false) ⊎ ((p ≡ true) × (q ≡ false))
some_bit true true x e = absurd (ground (arith, e))
some_bit true false x e = inr (refl, refl)
some_bit false q x e = inl refl

pub translate-IsMapped : (s : Machine) (page a : ℕ) → translate s page ≡ some a → IsMapped s page a
unfolding translate
translate-IsMapped s page a e =
    let (there, present, is_a) =
      both_bits (directory s (directory_index page)).present (entry_of s page).present
        ((entry_of s page).physical_address * 4096 + page % 4096) a e in
    both there present is_a

pub translate-IsUnmapped : (s : Machine) (page : ℕ) → translate s page ≡ none → IsUnmapped s page
unfolding translate
translate-IsUnmapped s page e =
    elim (some_bit (directory s (directory_index page)).present (entry_of s page).present
      ((entry_of s page).physical_address * 4096 + page % 4096) e) [
        | inl gone ↦ no_table gone
        | inr (there, gone) ↦ no_entry there gone
      ]

-- The page is not mapped any more, no frame is given back, and every other page is translated as before.
pub record Unmapped (s : Machine) (page a : ℕ) (r : ℕ × Machine) : Type 0 where
  pub address : r.0 ≡ a
  pub tree : IsTree r.1
  pub here : translate r.1 page ≡ none
  pub freed : r.1.freed ≡ s.freed
  pub others : (q : ℕ) → IsBelowWindow q → q / 4096 ≢ page / 4096 → translate r.1 q ≡ translate s q

module _ (s : Machine) (page : ℕ) (h : IsTree s) (low : IsBelowWindow page) where
  unmap_page-both : (a : ℕ) → IsMapped s page a → Ensures (Unmapped s page a) (unmap_page page s)
  unfolding unmap_page all_present
  unmap_page-both a (both there present is_a) =
      rw
        (
          get_pte_type-directory s h page low,
          present_flag (directory s (directory_index page)),
          there,
          get_pte_type-table s h page low there,
          present_flag (entry_of s page),
          present,
          get_pte_address-table s h page low there,
          set_pte-table s h page low there 0 0,
        )
        (ensures (record {
          address = is_a;
          tree =
              put-IsTree s h (table_of s page) (page / 2 ^ 12 % 1024) cleared
                (h.apart (directory_index page) low there);
          here =
              translate-clear after page
                (ap (λ (x : PageTableEntry). x.present) (entry-written s h page low there cleared));
          freed = refl;
          others = translate-others s h page low there cleared;
        }))
    where
      cleared : PageTableEntry
      cleared = with_flags 0 (with_address 0 (entry_of s page))

      after : Machine
      after = written s h page low there cleared

  unmap_page-neither : IsUnmapped s page → unmap_page page s ≡ some (eoutofbounds, s)
  unfolding unmap_page all_present
  unmap_page-neither (no_table gone) =
      rw
        (
          get_pte_type-directory s h page low,
          present_flag (directory s (directory_index page)),
          gone,
        )
        refl
  unmap_page-neither (no_entry there gone) =
      rw
        (
          get_pte_type-directory s h page low,
          present_flag (directory s (directory_index page)),
          there,
          get_pte_type-table s h page low there,
          present_flag (entry_of s page),
          gone,
        )
        refl

-- On page tables that are well formed, and for a page below the window: where the page is mapped,
-- `unmap_page` returns the address that it was translated to and removes the mapping of this page,
-- no frame is given back, and every other page below the window is translated as before; where it is not mapped, the
-- answer is EOUTOFBOUNDS, and nothing changes.
pub unmap_page-Unmapped :
    (s : Machine) (page : ℕ)
    → IsTree s
    → IsBelowWindow page
    → ((a : ℕ) → translate s page ≡ some a → Ensures (Unmapped s page a) (unmap_page page s))
      × (translate s page ≡ none → unmap_page page s ≡ some (eoutofbounds, s))
unmap_page-Unmapped s page h low = (
  λ a e. unmap_page-both s page h low a (translate-IsMapped s page a e),
  λ e. unmap_page-neither s page h low (translate-IsUnmapped s page e),
)

-- The answer of `unmap_page` after `map_page`, and what is left of both.
pub record Restored (s : Machine) (page frame : ℕ) (r : ℕ × Machine) : Type 0 where
  pub returned : r.0 ≡ frame + page % 4096
  pub tree : IsTree r.1
  pub here : translate r.1 page ≡ none
  pub others : (q : ℕ) → IsBelowWindow q → q / 4096 ≢ page / 4096 → translate r.1 q ≡ translate s q

-- On page tables that are well formed, `map_page` of a page below the window and an aligned frame
-- of 32 bits, where the page has a table or the allocator a free frame for it, and then
-- `unmap_page` of the page return the frame (with the page's offset); the page is then not mapped,
-- and every other page below the window is translated as before both.
pub map-unmap :
    (s : Machine) (page frame flags : ℕ)
    → IsTree s
    → IsBelowWindow page
    → frame % 4096 ≡ 0
    → frame < 2 ^ 32
    → IsReady s page
    → Ensures (Restored s page frame) ((map_page page frame flags >> unmap_page page) s)
map-unmap s page frame flags h low z lt ready =
    Ensures-then (map_page-Mapped s page frame flags h low z lt ready) λ status u m.
      Ensures-map ((unmap_page-Unmapped u page m.tree low).0 (frame + page % 4096) m.here) λ r w.
        record {
          returned = w.address;
          tree = w.tree;
          here = w.here;
          others = λ q below ne. w.others q below ne ∙ m.others q below ne;
        }
