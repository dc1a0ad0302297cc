-- ===== src/Multiboot/Table.antt =====
-- The whole table: the loop over its tags.
use quark_kernel.Base.{
  ℕ, zero, suc, ◌+◌, ◌-◌, ◌*◌, ◌/◌, ◌%◌, ◌^◌, ◌≤◌, ◌<◌, ◌≡◌, ◌≢◌, ◌∙◌, refl, List, [], ◌∷◌, length,
  ne→not-==, All, arith,
}
use quark_kernel.Base.Fault.{Ensures, ensures, Ensures-inv}
use quark_kernel.Strings.{Memory}
use quark_kernel.Context.{get_word}
use quark_kernel.Multiboot.{
  RegionTypes, BootInfo, read_tag, read_multiboot_table_entry, read_tags, read_multiboot_table,
}
use quark_kernel.Multiboot.Tags.{
  Tag, memory_info, memory_map, boot_module, boot_command, boot_loader, other, type_of, padded,
  TagAt, TagsAt, cost,
}
use quark_kernel.Multiboot.Summary.{Summary, apply, apply_all, Holds, IsPlaced}
use quark_kernel.Multiboot.Entries.{Agrees, word-at}
use quark_kernel.Multiboot.Reading.{
  Reading, read_memory_info-Reading, read_memory_map-Reading, read_command-Reading,
  read_loader-Reading,
}
use quark_kernel.Multiboot.Modules.{read_module-Reading}

module _ (start : Memory) (top : ℕ) (types : RegionTypes) (fits : top < 2 ^ 32) where
  -- The switch does to the structure what the tag says.
  read_tag-Reading :
      (p fuel : ℕ) (b : BootInfo) (s : Summary) (t : Tag)
      → cost t < fuel
      → Reading start top b s
      → TagAt start top p t
      → Ensures (λ b'. Reading start top b' (apply types t s)) (read_tag types fuel (type_of t) b p)
  unfolding read_tag
  read_tag-Reading p fuel b s (memory_info low high) f r t =
      ensures (read_memory_info-Reading start top types fits p b s low high r t)
  read_tag-Reading p fuel b s (memory_map regions) f r t =
      read_memory_map-Reading start top types fits p fuel b s regions f r t
  read_tag-Reading p fuel b s (boot_module low high name) f r t =
      read_module-Reading start top types fits p b s
        (record { start = low; end = high; name = name }) r
        (record {
          its_type = t.its_type;
          its_contents = t.its_contents;
          large = t.large;
          below = t.below;
        })
        fuel f
  read_tag-Reading p fuel b s (boot_command command) f r t =
      read_command-Reading start top types fits p fuel b s command f r t
  read_tag-Reading p fuel b s (boot_loader name) f r t =
      read_loader-Reading start top types fits p fuel b s name f r t
  read_tag-Reading p fuel b s (other type) f r t =
      let (n0, n1, n2, n3, n4, n6) = t.its_contents in
      rw
        (
          ne→not-== type 4 n4,
          ne→not-== type 6 n6,
          ne→not-== type 3 n3,
          ne→not-== type 1 n1,
          ne→not-== type 2 n2,
        )
        (ensures r)

  not-last : (p : ℕ) (t : Tag) → TagAt start top p t → type_of t ≢ 0
  not-last p (memory_info low high) t e = omega (arith, e)
  not-last p (memory_map regions) t e = omega (arith, e)
  not-last p (boot_module low high name) t e = omega (arith, e)
  not-last p (boot_command command) t e = omega (arith, e)
  not-last p (boot_loader name) t e = omega (arith, e)
  not-last p (other type) t e = t.its_contents.0 e

  padded-behind :
      (p size : ℕ)
      → p + (size + 7) / 8 * 8 ≤ top
      → (p + ((size + 7) % 2 ^ 32 - (size + 7) % 2 ^ 32 % 8)) % 2 ^ 32 ≡ p + (size + 7) / 8 * 8
  padded-behind p size le = omega arith

  -- An entry of the table, and the address behind it.
  read_entry-Reading :
      (p fuel : ℕ) (b : BootInfo) (s : Summary) (t : Tag)
      → cost t < fuel
      → Reading start top b s
      → TagAt start top p t
      → Ensures
          (λ (q, b'). (q ≡ p + padded start top p) × Reading start top b' (apply types t s))
          (read_multiboot_table_entry types fuel b p)
  unfolding read_multiboot_table_entry
  read_entry-Reading p fuel b s t f r a =
      let at : get_word b.memory p ≡ type_of t =
        word-at start top b.memory p r.agrees (omega (arith, a.large, a.below)) ∙ a.its_type in
      let (b', e, r') = Ensures-inv (read_tag-Reading p fuel b s t f r a) in
      rw
        (
          at,
          ne→not-== (type_of t) 0 (not-last p t a),
          e,
          word-at start top b'.memory (p + 4) r'.agrees (omega (arith, a.large, a.below)),
        )
        (ensures (padded-behind p (get_word start (p + 4)) a.below, r'))

  -- The loop over the tags. The rounds are two more than the tags, or more.
  read_tags-Reading :
      (rounds fuel p : ℕ) (b : BootInfo) (s : Summary) (ts : List Tag)
      → length ts + 1 < rounds
      → All (λ t. cost t < fuel) ts
      → 0 < p
      → Reading start top b s
      → TagsAt start top p ts
      → Ensures
          (λ b'. Reading start top b' (apply_all types ts s))
          (read_tags types rounds fuel b p)
  unfolding read_tags read_multiboot_table_entry
  read_tags-Reading zero fuel p b s ts lt f pos r a = absurd (omega arith)
  read_tags-Reading (suc zero) fuel p b s ts lt f pos r a = absurd (omega arith)
  read_tags-Reading (suc (suc rounds)) fuel p b s [] lt f pos r a =
      let at : get_word b.memory p ≡ 0 =
        word-at start top b.memory p r.agrees (omega (arith, a.1)) ∙ a.0 in
      rw (ne→not-== p 0 (λ e. omega (arith, e, pos)), at) (ensures r)
  read_tags-Reading (suc (suc rounds)) fuel p b s (t ∷ ts) lt f pos r a =
      let (u, e, c) = Ensures-inv (read_entry-Reading p fuel b s t f.0 r a.0) in
      rw (ne→not-== p 0 (λ e. omega (arith, e, pos)), e, c.0)
        (read_tags-Reading (suc rounds) fuel (p + padded start top p) u.1 (apply types t s) ts
          (omega (arith, lt)) f.1 (omega arith) c.1 a.1)

TagsAt-le : (m : Memory) (top p : ℕ) (ts : List Tag) → TagsAt m top p ts → p ≤ top
TagsAt-le m top p [] a = omega (arith, a.1)
TagsAt-le m top p (t ∷ ts) a = omega (arith, a.0.below)

-- A table of tags that ends below the buffers and the modules, which are apart from each other: the
-- loop ends, what is returned is the address behind the table, and the structure holds what the
-- tags say, in their order, on top of what it held: the size of the memory, each region of the map
-- and of a module, the first eight modules with their bounds and names, and the last command and
-- loader's name. The table is left as it was. The table ends below the end of the addresses; the
-- rounds are at least two more than the tags, and the fuel is more than the entries of a map and
-- the length of a string.
pub read_multiboot_table-Holds :
    (types : RegionTypes) (rounds fuel table top : ℕ) (b : BootInfo) (s : Summary) (ts : List Tag)
    → top < 2 ^ 32
    → IsPlaced top b.modules b.parameters b.bootloader
    → Holds b s
    → TagsAt b.memory top (table + 8) ts
    → length ts + 1 < rounds
    → All (λ t. cost t < fuel) ts
    → Ensures
        (λ (end, b').
          (end ≡ (table + get_word b.memory table) % 2 ^ 32)
          × Holds b' (apply_all types ts s)
          × Agrees b.memory top b'.memory)
        (read_multiboot_table types rounds fuel b table)
unfolding read_multiboot_table
read_multiboot_table-Holds types rounds fuel table top b s ts fits placed holds tags lt f =
    let reading : Reading b.memory top b s = record {
      agrees = λ q l. refl;
      placed = placed;
      holds = holds;
    } in
    let (b', e, r) = Ensures-inv (
      read_tags-Reading b.memory top types fits rounds fuel (table + 8) b s ts lt f (omega arith)
        reading tags) in
    let from : (table + 8) % 2 ^ 32 ≡ table + 8 =
      omega (arith, TagsAt-le b.memory top (table + 8) ts tags) in
    rw (from, e) (ensures (refl, r.holds, r.agrees))
