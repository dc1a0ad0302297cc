-- ===== src/PageMap/PageType.antt =====
-- `page_type` and `physical_address`, and the translation of the pages below the window of the page
-- tables.
use quark_kernel.Base.{ℕ, ◌≡◌, refl, true, false, none, some, ap, ◌∙◌}
use quark_kernel.Base.Fault.{Ensures, ensures}
use quark_kernel.Paging.{Machine, page_present, page_anon, has_flag}
use quark_kernel.Paging.Tree.{directory_index, directory, IsTree}
use quark_kernel.Paging.Entry.{
  entry_of, get_pte_type-directory, get_pte_type-table, get_pte_address-table,
}
use quark_kernel.PageMap.{type_from, page_type, physical_address}
use quark_kernel.PageMap.Translate.{translate, IsBelowWindow}
use quark_kernel.PageMap.Tables.{present_flag, anon_flag, flag_bits}
use quark_kernel.PageMap.Unmapping.{
  IsMapped, both, IsUnmapped, no_table, no_entry, translate-IsMapped, translate-IsUnmapped,
}

module _ (s : Machine) (page : ℕ) (h : IsTree s) (low : IsBelowWindow page) where
  page_type-mapped :
      (a : ℕ)
      → IsMapped s page a
      → Ensures
          (λ r. (has_flag page_present r.0 ≡ true) × (has_flag page_anon r.0 ≡ false) × (r.1 ≡ s))
          (page_type page s)
        × (physical_address page s ≡ some (a, s))
  unfolding page_type type_from physical_address
  page_type-mapped a (both there present is_a) = (
    rw
        (
          get_pte_type-directory s h page low,
          present_flag (directory s (directory_index page)),
          there,
          get_pte_type-table s h page low there,
        )
        (ensures (present_flag (entry_of s page) ∙ present, anon_flag (entry_of s page), refl)),
    rw (get_pte_address-table s h page low there) (ap (λ x. some (x, s)) is_a),
  )

  page_type-unmapped :
      IsUnmapped s page
      → Ensures
          (λ r. (has_flag page_present r.0 ≡ false) × (has_flag page_anon r.0 ≡ false) × (r.1 ≡ s))
          (page_type page s)
  unfolding page_type type_from
  page_type-unmapped (no_table gone) =
      rw
        (
          get_pte_type-directory s h page low,
          present_flag (directory s (directory_index page)),
          gone,
        )
        (let (present, anon) =
            flag_bits false (directory s (directory_index page)).rw
              (directory s (directory_index page)).usermode in
          ensures (present, anon, refl))
  page_type-unmapped (no_entry there gone) =
      rw
        (
          get_pte_type-directory s h page low,
          present_flag (directory s (directory_index page)),
          there,
          get_pte_type-table s h page low there,
        )
        (ensures (present_flag (entry_of s page) ∙ gone, anon_flag (entry_of s page), refl))

-- On page tables that are well formed, and for a page below the window, `page_type` has the bit
-- PAGE_PRESENT exactly if the page is mapped, and never PAGE_ANON, and `physical_address` of a page that is mapped is
-- its translation; neither changes the state.
pub page_type-translate :
    (s : Machine) (page : ℕ)
    → IsTree s
    → IsBelowWindow page
    → ((a : ℕ)
        → translate s page ≡ some a
        → Ensures
            (λ r. (has_flag page_present r.0 ≡ true) × (has_flag page_anon r.0 ≡ false) × (r.1 ≡ s))
            (page_type page s)
          × (physical_address page s ≡ some (a, s)))
      × (translate s page ≡ none
          → Ensures
              (λ r.
                (has_flag page_present r.0 ≡ false) × (has_flag page_anon r.0 ≡ false) × (r.1 ≡ s))
              (page_type page s))
page_type-translate s page h low = (
  λ a e. page_type-mapped s page h low a (translate-IsMapped s page a e),
  λ e. page_type-unmapped s page h low (translate-IsUnmapped s page e),
)
