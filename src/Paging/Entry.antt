-- ===== src/Paging/Entry.antt =====
-- The reads and writes of an entry by page and level, on the loaded tables.
use mathlib.Core.Path.{fun_ext}
use quark_kernel.Base.{
  ℕ, ◌+◌, ◌*◌, ◌/◌, ◌%◌, ◌^◌, ◌<◌, ◌≡◌, ◌≢◌, refl, true, false, ◌&&◌, none, some, ◌==◌, arith,
  Bool-cases, inl, inr, ==_refl, ap, ◌∙◌,
}
use quark_kernel.Paging.{
  PageTableEntry, Machine, put_entry, read_entry, write_entry, get_pte_pointer, flags_of,
  get_pte_type, with_flags, set_pte_type, get_pte_address, with_address, set_pte_address, set_pte,
}
use quark_kernel.Paging.Tree.{
  directory_index, table_index, directory, IsTree, read-directory, read-table, write-table,
  put-IsTree, directory-put,
}

-- The last of two writes of an entry stays.
pub put-put :
    (f i : ℕ) (e e' : PageTableEntry) (s : Machine)
    → put_entry f i e' (put_entry f i e s) ≡ put_entry f i e' s
put-put f i e e' s =
    ap (λ (g : ℕ → ℕ → PageTableEntry). record s { frames = g })
      (fun_ext λ t. fun_ext λ j. twice t j)
  where
    twice :
        (t j : ℕ)
        → (put_entry f i e' (put_entry f i e s)).frames t j ≡ (put_entry f i e' s).frames t j
    twice t j = elim (Bool-cases (t == f && j == i)) [ inl z ↦ rw z | inr z ↦ rw z ]

pub put-read : (f i : ℕ) (e : PageTableEntry) (s : Machine) → (put_entry f i e s).frames f i ≡ e
put-read f i e s = rw (==_refl f, ==_refl i) refl

pub halves : (page : ℕ) → page / 2 ^ 12 / 1024 ≡ directory_index page
halves page = omega arith

-- The table of a page, and the page's entry there.
abbrev pub table_of : Machine → ℕ → ℕ
table_of s page = (directory s (directory_index page)).physical_address

abbrev pub entry_of : Machine → ℕ → PageTableEntry
entry_of s page = s.frames (table_of s page) (table_index page)

module _ (s : Machine) (h : IsTree s) (page : ℕ) (low : directory_index page < 1023) where
  abbrev top : PageTableEntry
  top = directory s (directory_index page)

  pub get_pte_type-directory : get_pte_type page 0 s ≡ some (flags_of top, s)
  unfolding get_pte_type get_pte_pointer
  get_pte_type-directory = rw (read-directory s h (directory_index page) (omega (arith, low))) refl

  pointer-table : top.present ≡ true → get_pte_pointer page 1 s ≡ some (some (page / 2 ^ 12), s)
  unfolding get_pte_pointer
  pointer-table there =
      rw (read-directory s h (directory_index page) (omega (arith, low)), there) refl

  pointer-none : top.present ≡ false → get_pte_pointer page 1 s ≡ some (none, s)
  unfolding get_pte_pointer
  pointer-none gone = rw (read-directory s h (directory_index page) (omega (arith, low)), gone) refl

  pub get_pte_type-none : top.present ≡ false → get_pte_type page 1 s ≡ some (0, s)
  unfolding get_pte_type
  get_pte_type-none gone = rw (pointer-none gone) refl

  -- The entry of the page in its table.
  module _ (there : top.present ≡ true) where
    at_index : (directory s (page / 2 ^ 12 / 1024)).present ≡ true
    at_index = rw (halves page) there

    read-page : read_entry (page / 2 ^ 12) s ≡ some (entry_of s page, s)
    read-page = rw (halves page) at (read-table s h (page / 2 ^ 12) at_index)

    write-page :
        (e : PageTableEntry)
        → write_entry (page / 2 ^ 12) e s
          ≡ some (tt, put_entry (table_of s page) (table_index page) e s)
    write-page e = rw (halves page) at (write-table s h (page / 2 ^ 12) at_index e)

    pub get_pte_type-table : get_pte_type page 1 s ≡ some (flags_of (entry_of s page), s)
    unfolding get_pte_type
    get_pte_type-table = rw (pointer-table there, read-page) refl

    pub get_pte_address-table :
        get_pte_address page 1 s
        ≡ some ((entry_of s page).physical_address * 2 ^ 12 + page % 4096, s)
    unfolding get_pte_address
    get_pte_address-table = rw (pointer-table there, read-page) refl

    set_pte_address-table :
        (addr : ℕ)
        → set_pte_address page 1 addr s
          ≡ some (
            0,
            put_entry (table_of s page) (table_index page) (with_address addr (entry_of s page)) s,
          )
    unfolding set_pte_address
    set_pte_address-table addr =
        rw (pointer-table there, read-page, write-page (with_address addr (entry_of s page))) refl

    set_pte_type-table :
        (flags : ℕ)
        → set_pte_type page 1 flags s
          ≡ some (
            0,
            put_entry (table_of s page) (table_index page) (with_flags flags (entry_of s page)) s,
          )
    unfolding set_pte_type
    set_pte_type-table flags =
        rw (pointer-table there, read-page, write-page (with_flags flags (entry_of s page))) refl

-- Both writes of `set_pte`, of the address and of the flags, as one.
module _ (s : Machine) (h : IsTree s) (page : ℕ) (low : directory_index page < 1023)
    (there : (directory s (directory_index page)).present ≡ true) (flags addr : ℕ) where
  abbrev addressed : PageTableEntry
  addressed = with_address addr (entry_of s page)

  abbrev after_address : Machine
  after_address = put_entry (table_of s page) (table_index page) addressed s

  not_top : table_of s page ≢ s.cr3
  not_top = h.apart (directory_index page) low there

  kept : directory after_address (directory_index page) ≡ directory s (directory_index page)
  kept =
      directory-put s h (table_of s page) (table_index page) (directory_index page) addressed
        not_top

  pub set_pte-table :
      set_pte page 1 flags addr s
      ≡ some (0, put_entry (table_of s page) (table_index page) (with_flags flags addressed) s)
  unfolding set_pte
  set_pte-table = rw (set_pte_address-table s h page low there addr) (
      set_pte_type-table after_address
        (put-IsTree s h (table_of s page) (table_index page) addressed not_top) page low
        (rw kept there) flags
      ∙ ap (λ (u : Machine). some (0, u)) rewritten)
    where
      rewritten :
          put_entry
            (table_of after_address page)
            (table_index page)
            (with_flags flags (entry_of after_address page))
            after_address
          ≡ put_entry (table_of s page) (table_index page) (with_flags flags addressed) s
      rewritten =
          ap
            (λ (e : PageTableEntry).
              put_entry e.physical_address (table_index page)
                (with_flags flags (after_address.frames e.physical_address (table_index page)))
                after_address)
            kept
          ∙ ap
              (λ (e : PageTableEntry).
                put_entry (table_of s page) (table_index page) (with_flags flags e) after_address)
              (put-read (table_of s page) (table_index page) addressed s)
          ∙ put-put (table_of s page) (table_index page) addressed (with_flags flags addressed) s
