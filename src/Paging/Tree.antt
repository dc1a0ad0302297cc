-- ===== src/Paging/Tree.antt =====
-- The invariant of the loaded page tables, and the walk through the window under it.
use quark_kernel.Base.{
  ℕ, ◌+◌, ◌/◌, ◌%◌, ◌^◌, ◌<◌, ◌≡◌, ◌≢◌, refl, true, false, some, ◌==◌, arith, ne→not-==, sym,
}
use quark_kernel.Paging.{
  PageTableEntry, Machine, directory_base, table_at, locate, put_entry, read_entry, write_entry,
}

-- The entry of the top table, and the index in the table below, for a page.
abbrev pub directory_index : ℕ → ℕ
directory_index page = page / 2 ^ 22

abbrev pub table_index : ℕ → ℕ
table_index page = page / 2 ^ 12 % 1024

abbrev pub directory : Machine → ℕ → PageTableEntry
directory s d = s.frames s.cr3 d

-- The last entry of the top table points to that table; the others that are present point to
-- tables that are not the top table, and no two to the same one.
pub record IsTree (s : Machine) : Type 0 where
  pub self : (directory s 1023).present ≡ true
  pub to_self : (directory s 1023).physical_address ≡ s.cr3
  pub apart :
      (d : ℕ) → d < 1023 → (directory s d).present ≡ true → (directory s d).physical_address ≢ s.cr3
  pub distinct :
      (d d' : ℕ)
      → d < 1023
      → d' < 1023
      → (directory s d).present ≡ true
      → (directory s d').present ≡ true
      → (directory s d).physical_address ≡ (directory s d').physical_address
      → d ≡ d'

directory_part :
    (d : ℕ) → d < 1024 → ((directory_base + d) / 1024 ≡ 1023) × ((directory_base + d) % 1024 ≡ d)
directory_part d h = omega arith

module _ (s : Machine) (h : IsTree s) where
  pub locate-directory : (d : ℕ) → d < 1024 → locate s (directory_base + d) ≡ some (s.cr3, d)
  unfolding locate table_at
  locate-directory d lt =
      let (q, r) = directory_part d lt in rw (h.self, h.to_self, q, h.self, h.to_self, r) refl

  pub read-directory :
      (d : ℕ) → d < 1024 → read_entry (directory_base + d) s ≡ some (directory s d, s)
  unfolding read_entry
  read-directory d lt = rw (locate-directory d lt) refl

  pub write-directory :
      (d : ℕ) (e : PageTableEntry)
      → d < 1024
      → write_entry (directory_base + d) e s ≡ some (tt, put_entry s.cr3 d e s)
  unfolding write_entry
  write-directory d e lt = rw (locate-directory d lt) refl

  module _ (p : ℕ) (there : (directory s (p / 1024)).present ≡ true) where
    pub locate-table : locate s p ≡ some ((directory s (p / 1024)).physical_address, p % 1024)
    unfolding locate table_at
    locate-table = rw (h.self, h.to_self, there) refl

    pub read-table :
        read_entry p s ≡ some (s.frames (directory s (p / 1024)).physical_address (p % 1024), s)
    unfolding read_entry
    read-table = rw locate-table refl

    pub write-table :
        (e : PageTableEntry)
        → write_entry p e s
          ≡ some (tt, put_entry (directory s (p / 1024)).physical_address (p % 1024) e s)
    unfolding write_entry
    write-table e = rw locate-table refl

  -- A write to a frame other than the top table keeps the tree.
  pub put-IsTree : (f i : ℕ) (e : PageTableEntry) → f ≢ s.cr3 → IsTree (put_entry f i e s)
  put-IsTree f i e ne =
      let off : (s.cr3 == f) ≡ false = ne→not-== s.cr3 f (λ z. ne (sym z)) in
      record {
        self = rw off h.self;
        to_self = rw off h.to_self;
        apart = rw off h.apart;
        distinct = rw off h.distinct;
      }

  pub directory-put :
      (f i d : ℕ) (e : PageTableEntry) → f ≢ s.cr3 → directory (put_entry f i e s) d ≡ directory s d
  directory-put f i d e ne = rw (ne→not-== s.cr3 f (λ z. ne (sym z))) refl
