-- ===== src/Multiboot/Endless.antt =====
-- Tables on which the loops do not end.
use quark_kernel.Base.{
  ℕ, zero, suc, ◌+◌, ◌-◌, ◌%◌, ◌^◌, ◌<◌, ◌≡◌, ◌≢◌, refl, none, ne→not-==, arith,
}
use quark_kernel.Context.{get_word}
use quark_kernel.Multiboot.{
  RegionTypes, BootInfo, get_long, entry_type, memmap_insert_region, read_map, read_tag,
  read_multiboot_table_entry, read_tags,
}

-- The loop over a memory map whose entries have the size 0 does not end, whatever the fuel, unless
-- the map is empty.
pub read_map-endless :
    (types : RegionTypes) (fuel tag_size entry : ℕ) (b : BootInfo)
    → tag_size ≢ 0
    → tag_size < 2 ^ 32
    → read_map types fuel tag_size 0 entry b ≡ none
unfolding read_map
read_map-endless types zero tag_size entry b ne lt = refl
read_map-endless types (suc fuel) tag_size entry b ne lt =
    let same : (tag_size + 2 ^ 32 - 0) % 2 ^ 32 ≡ tag_size = omega arith in
    rw (ne→not-== tag_size 0 ne, same)
      (read_map-endless types fuel tag_size ((entry + 0) % 2 ^ 32)
        (memmap_insert_region (get_long b.memory entry) (get_long b.memory (entry + 8))
          (entry_type types (get_word b.memory (entry + 16))) b)
        ne lt)

-- The loop over the tags does not end, however many rounds it gets, at a tag of a type that the
-- code passes over and of the size 0.
pub read_tags-endless :
    (types : RegionTypes) (rounds fuel table : ℕ) (b : BootInfo)
    → table ≢ 0
    → table < 2 ^ 32
    → 6 < get_word b.memory table
    → get_word b.memory (table + 4) ≡ 0
    → read_tags types rounds fuel b table ≡ none
unfolding read_tags read_multiboot_table_entry read_tag
read_tags-endless types zero fuel table b ne lt type size = refl
read_tags-endless types (suc rounds) fuel table b ne lt type size =
    let other = λ (k : ℕ) (le : k < 7).
      ne→not-== (get_word b.memory table) k (λ e. omega (arith, e, le, type)) in
    let again : (table + 0) % 2 ^ 32 ≡ table = omega arith in
    rw
      (
        ne→not-== table 0 ne,
        other 0 (omega arith),
        other 4 (omega arith),
        other 6 (omega arith),
        other 3 (omega arith),
        other 1 (omega arith),
        other 2 (omega arith),
        size,
        again,
      )
      (read_tags-endless types rounds fuel table b ne lt type size)
