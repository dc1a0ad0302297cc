-- ===== src/PageMap/Tests.antt =====
-- The theorems on src/mmgr.c at concrete page tables.
use quark_kernel.Base.{
  [], ◌==◌, if◌then◌else◌, ne→not-==, ◌<◌, ℕ, ◌≡◌, refl, none, some, arith, true, false,
}
use quark_kernel.Base.Fault.{Ensures}
use quark_kernel.Base.State.{◌>>◌}
use quark_kernel.Status.{eoutofbounds}
use quark_kernel.Paging.Tree.{directory, IsTree}
use quark_kernel.PageMap.Creation.{create_address_space-fault}
use quark_kernel.Paging.{Machine, page_rw, page_present, page_anon, has_flag}
use quark_kernel.PageMap.{create_address_space, map_page, unmap_page, page_type, physical_address}
use quark_kernel.PageMap.Samples.{
  points_to, empty_entry, one_page, frame_3, one_page-IsTree, frame_3-IsFree,
}
use quark_kernel.PageMap.Translate.{translate}
use quark_kernel.PageMap.Tables.{IsReady}
use quark_kernel.PageMap.Mapping.{Mapped, map_page-Mapped}
use quark_kernel.PageMap.Unmapping.{Unmapped, unmap_page-Unmapped, Restored, map-unmap}
use quark_kernel.PageMap.PageType.{page_type-translate}

-- The page 0x400000 + 4096 is in the second table, which is not there.
map_page-Mapped_example :
    Ensures
      (Mapped (one_page frame_3) 4198400 36864 page_rw)
      (map_page 4198400 36864 page_rw (one_page frame_3))
map_page-Mapped_example =
    map_page-Mapped (one_page frame_3) 4198400 36864 page_rw (one_page-IsTree frame_3) (omega arith)
      refl (omega arith) (IsReady.fresh 3 refl refl (omega arith) frame_3-IsFree)

unmap_page-Unmapped_example :
    ((a : ℕ)
      → translate (one_page frame_3) 4112 ≡ some a
      → Ensures (Unmapped (one_page frame_3) 4112 a) (unmap_page 4112 (one_page frame_3)))
    × (translate (one_page frame_3) 4112 ≡ none
        → unmap_page 4112 (one_page frame_3) ≡ some (eoutofbounds, one_page frame_3))
unmap_page-Unmapped_example =
    unmap_page-Unmapped (one_page frame_3) 4112 (one_page-IsTree frame_3) (omega arith)

map-unmap_example :
    Ensures
      (Restored (one_page frame_3) 4198400 36864)
      ((map_page 4198400 36864 page_rw >> unmap_page 4198400) (one_page frame_3))
map-unmap_example =
    map-unmap (one_page frame_3) 4198400 36864 page_rw (one_page-IsTree frame_3) (omega arith) refl
      (omega arith) (IsReady.fresh 3 refl refl (omega arith) frame_3-IsFree)

page_type-translate_example :
    ((a : ℕ)
      → translate (one_page frame_3) 4112 ≡ some a
      → Ensures
          (λ r.
            (has_flag page_present r.0 ≡ true)
            × (has_flag page_anon r.0 ≡ false)
            × (r.1 ≡ one_page frame_3))
          (page_type 4112 (one_page frame_3))
        × (physical_address 4112 (one_page frame_3) ≡ some (a, one_page frame_3)))
    × (translate (one_page frame_3) 4112 ≡ none
        → Ensures
            (λ r.
              (has_flag page_present r.0 ≡ false)
              × (has_flag page_anon r.0 ≡ false)
              × (r.1 ≡ one_page frame_3))
            (page_type 4112 (one_page frame_3)))
page_type-translate_example =
    page_type-translate (one_page frame_3) 4112 (one_page-IsTree frame_3) (omega arith)

-- The page 4112 is mapped: `translate` finds frame 5.
mapped_4112 : translate (one_page frame_3) 4112 ≡ some 20496
unfolding translate
mapped_4112 = refl

-- The top table is frame 1, and has no other entry.
abbrev no_page : Machine
no_page = record {
  frames = λ f i. if f == 1 then if i == 1023 then points_to 1 else empty_entry else empty_entry;
  cr3 = 1;
  replies = frame_3;
  calls = 0;
  freed = [];
}

no_page-gone : (d : ℕ) → d < 1023 → (directory no_page d).present ≡ false
no_page-gone d low = rw (ne→not-== d 1023 (λ e. omega (arith, e, low))) refl

no_page-IsTree : IsTree no_page
no_page-IsTree = record {
  self = refl;
  to_self = refl;
  apart = λ d low there. absurd (cc (no_page-gone d low, there));
  distinct = λ d d' low low' there there' same. absurd (cc (no_page-gone d low, there));
}

create_address_space-fault_example : create_address_space 3222274048 no_page ≡ none
create_address_space-fault_example =
    create_address_space-fault no_page 3222274048 12288 no_page-IsTree refl refl (omega arith)
