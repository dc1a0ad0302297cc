-- ===== src/PageMap/Creation.antt =====
-- `create_address_space` and `current_address_space` on the loaded page tables.
use quark_kernel.Base.{ℕ, ◌+◌, ◌≡◌, ◌≢◌, refl, false, none, some, arith, ne→not-==, ap, ◌∙◌}
use quark_kernel.Status.{enomem}
use quark_kernel.Paging.{
  PageTableEntry, Machine, table_at, locate, put_entry, write_entry, with_address, clear_from,
  paging_init_top_table,
}
use quark_kernel.Paging.Tree.{directory, IsTree, read-directory, write-directory}
use quark_kernel.Paging.Directory.{top-IsTree, changed-same}
use quark_kernel.PageMap.{reserve_pages, reserve_page, create_address_space}
use quark_kernel.PageMap.Translate.{IsTree-same}

module _ (s : Machine) (h : IsTree s) (gone : (directory s 0).present ≡ false) where
  -- The first page of the window is not there.
  write-first : (e : PageTableEntry) → write_entry 0 e s ≡ none
  unfolding write_entry locate table_at
  write-first e = rw (h.self, h.to_self, gone) refl

  clear-first : clear_from 1024 0 s ≡ none
  unfolding clear_from
  clear-first =
      rw
        (write-first (record {
          present = false;
          rw = false;
          usermode = false;
          other = 0;
          physical_address = 0;
        }))
        refl

module _ (s : Machine) (h : IsTree s) (gone : (directory s 0).present ≡ false)
    (kernel_start table : ℕ) where
  init-fault : paging_init_top_table kernel_start table s ≡ none
  unfolding paging_init_top_table
  init-fault =
      let e = with_address table (directory s 0) in
      let h' = top-IsTree s h 0 (omega arith) e (λ z. absurd (cc (gone, z))) in
      let same = changed-same s h 0 (omega arith) e in
      rw
        (
          read-directory s h 0 (omega arith),
          write-directory s h 0 e (omega arith),
          clear-first (put_entry s.cr3 0 e s) h'
              (ap (λ (x : PageTableEntry). x.present) same ∙ gone),
        )
        refl

-- On page tables that are well formed but have no first entry in the top table,
-- `create_address_space` faults where it gets a frame: the new table is not found at the start of
-- the window.
pub create_address_space-fault :
    (s : Machine) (kernel_start table : ℕ)
    → IsTree s
    → (directory s 0).present ≡ false
    → s.replies s.calls ≡ some table
    → table ≢ enomem
    → create_address_space kernel_start s ≡ none
unfolding create_address_space reserve_page reserve_pages
create_address_space-fault s kernel_start table h gone reply ne =
    let reserved : Machine = record s { calls = s.calls + 1 } in
    rw
      (
        reply,
        ne→not-== table 4 ne,
        init-fault reserved (IsTree-same s reserved refl (λ d. refl) h) gone kernel_start table,
      )
      refl
