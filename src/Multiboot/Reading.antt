-- ===== src/Multiboot/Reading.antt =====
-- What each tag does to the structure.
use quark_kernel.Base.{
  ℕ, ◌+◌, ◌-◌, ◌*◌, ◌%◌, ◌^◌, ◌≤◌, ◌<◌, ◌≡◌, inl, inr, ◌∙◌, ap, refl, some, List, length, get_elem?,
  arith,
}
use quark_kernel.Base.Fault.{Ensures, ensures, Ensures-inv, Ensures-map}
use quark_kernel.Strings.{Memory, strcpy}
use quark_kernel.Context.{get_word}
use quark_kernel.Multiboot.{
  RegionTypes, Region, BootInfo, read_string, read_memory_info, read_memory_map,
}
use quark_kernel.Multiboot.Tags.{memory_info, memory_map, boot_command, boot_loader, Spells, TagAt}
use quark_kernel.Multiboot.Names.{OnlyAt, Spells-same, strcpy-Spells}
use quark_kernel.Multiboot.Summary.{
  LoadedModule, Summary, apply, add_regions, HoldsModule, Holds, Apart, IsPlaced,
}
use quark_kernel.Multiboot.Entries.{
  Agrees, word-at, read_map-inserts, OnlyAt-SameAt, OnlyAt-larger, HoldsModule-same,
  HoldsString-same, get_elem?-lt,
}

-- In the course of the reading: the table is as at the start, and the structure holds what was read.
pub record Reading (start : Memory) (top : ℕ) (b : BootInfo) (s : Summary) : Type 0 where
  pub agrees : Agrees start top b.memory
  pub placed : IsPlaced top b.modules b.parameters b.bootloader
  pub holds : Holds b s

module _ (start : Memory) (top : ℕ) (types : RegionTypes) (fits : top < 2 ^ 32) (p : ℕ) where
  -- The modules and strings, where the memory is written only in `n` bytes apart from them.
  pub modules-same :
      (b : BootInfo) (s : Summary) (m : Memory) (q k : ℕ)
      → Holds b s
      → Apart b.modules 512 q k
      → OnlyAt b.memory m q k
      → (i : ℕ) (x : LoadedModule) → get_elem? s.modules i ≡ some x
      → HoldsModule m (b.modules + 64 * i) x
  modules-same b s m q k h apart only i x e =
      let few : i < 8 = omega (arith, get_elem?-lt s.modules i e, h.few) in
      HoldsModule-same b.memory m (b.modules + 64 * i) x
        (λ r a c.
          OnlyAt-SameAt b.memory m b.modules 512 q k apart only r (omega arith)
            (omega (arith, few, c)))
        (h.modules i x e)

  pub read_memory_info-Reading :
      (b : BootInfo) (s : Summary) (low high : ℕ)
      → Reading start top b s
      → TagAt start top p (memory_info low high)
      → Reading start top (read_memory_info b p) (apply types (memory_info low high) s)
  unfolding read_memory_info
  read_memory_info-Reading b s low high r t =
      let (l, h, le) = t.its_contents in
      record {
        agrees = r.agrees;
        placed = r.placed;
        holds = record {
          size =
              rw
                (
                  word-at start top b.memory (p + 12) r.agrees (omega (arith, le, t.below)),
                  word-at start top b.memory (p + 8) r.agrees (omega (arith, le, t.below)),
                  l,
                  h,
                )
                refl;
          regions = r.holds.regions;
          count = r.holds.count;
          few = r.holds.few;
          modules = r.holds.modules;
          command = r.holds.command;
          loader = r.holds.loader;
        };
      }

  pub read_memory_map-Reading :
      (fuel : ℕ) (b : BootInfo) (s : Summary) (rs : List Region)
      → length rs < fuel
      → Reading start top b s
      → TagAt start top p (memory_map rs)
      → Ensures
          (λ b'. Reading start top b' (apply types (memory_map rs) s))
          (read_memory_map types fuel b p)
  unfolding read_memory_map
  read_memory_map-Reading fuel b s rs f r t =
      let (le, total, entries) = t.its_contents in
      let e : ℕ = get_word start (p + 8) in
      let behind : (16 + e * length rs + 2 ^ 32 - 16) % 2 ^ 32 ≡ e * length rs =
        omega (arith, total, t.below, fits) in
      rw
        (
          word-at start top b.memory (p + 4) r.agrees (omega (arith, t.large, t.below)),
          word-at start top b.memory (p + 8) r.agrees (omega (arith, total, t.below)),
          total,
          behind,
          read_map-inserts start top types fuel e (p + 16) rs b r.agrees entries le fits
              (omega (arith, total, t.below, fits)) f,
        )
        (ensures (record {
          agrees = r.agrees;
          placed = r.placed;
          holds = record {
            size = r.holds.size;
            regions = ap (add_regions types rs) r.holds.regions;
            count = r.holds.count;
            few = r.holds.few;
            modules = r.holds.modules;
            command = r.holds.command;
            loader = r.holds.loader;
          };
        }))

  -- A string that is copied to a buffer behind the table.
  pub copy-Spells :
      (fuel destination offset : ℕ) (b : BootInfo) (cs : List ℕ)
      → Agrees start top b.memory
      → length cs < fuel
      → length cs < 64
      → Spells start (p + offset) cs
      → p + offset + length cs < top
      → top ≤ destination
      → Ensures
          (λ m. OnlyAt b.memory m destination (length cs + 1) × Spells m destination cs)
          (strcpy fuel b.memory destination (p + offset))
  copy-Spells fuel destination offset b cs agrees f short s lt le =
      strcpy-Spells fuel b.memory destination (p + offset) cs
        (Spells-same start b.memory (p + offset) cs (λ q a c. agrees q (omega (arith, c, lt))) s) f
        (omega (arith, short)) (omega arith)

  pub kept :
      (m m' : Memory) (q n : ℕ)
      → Agrees start top m
      → top ≤ q
      → OnlyAt m m' q n
      → Agrees start top m'
  kept m m' q n agrees le only r lt = only r (inl (omega arith)) ∙ agrees r lt

  swap : (q r : ℕ) → Apart q 64 r 64 → Apart r 64 q 64
  swap q r (inl le) = inr le
  swap q r (inr le) = inl le

  -- A string for the boot command or the loader's name.
  read_string-kept :
      (fuel destination : ℕ) (b : BootInfo) (cs : List ℕ)
      → Agrees start top b.memory
      → length cs < fuel
      → Spells start (p + 8) cs
      → p + 8 + length cs < top
      → length cs < 64
      → top ≤ destination
      → Ensures
          (λ b'.
            (m : Memory) × (b' ≡ record b { memory = m })
            × Agrees start top m
            × OnlyAt b.memory m destination 64
            × Spells m destination cs)
          (read_string fuel destination b p)
  unfolding read_string
  read_string-kept fuel destination b cs agrees f s lt short le =
      let (m, e, c) = Ensures-inv (copy-Spells fuel destination 8 b cs agrees f short s lt le) in
      rw e (
        ensures (
          m,
          refl,
          kept b.memory m destination (length cs + 1) agrees le c.0,
          OnlyAt-larger b.memory m destination (length cs + 1) destination 64 (omega arith)
              (omega arith) c.0,
          c.1,
        ))

  pub read_command-Reading :
      (fuel : ℕ) (b : BootInfo) (s : Summary) (cs : List ℕ)
      → length cs < fuel
      → Reading start top b s
      → TagAt start top p (boot_command cs)
      → Ensures
          (λ b'. Reading start top b' (apply types (boot_command cs) s))
          (read_string fuel b.parameters b p)
  read_command-Reading fuel b s cs f r t =
      let (spelt, le, short) = t.its_contents in
      Ensures-map
        (read_string-kept fuel b.parameters b cs r.agrees f spelt (omega (arith, t.below, le)) short
          r.placed.parameters_behind)
        λ b' (m, e, agrees, only, spells). rw e (record {
          agrees = agrees;
          placed = r.placed;
          holds = record {
            size = r.holds.size;
            regions = r.holds.regions;
            count = r.holds.count;
            few = r.holds.few;
            modules = modules-same b s m b.parameters 64 r.holds r.placed.modules_parameters only;
            command = (spells, short);
            loader =
                HoldsString-same b.memory m b.bootloader s.loader
                  (OnlyAt-SameAt b.memory m b.bootloader 64 b.parameters 64
                    (swap b.parameters b.bootloader r.placed.parameters_bootloader) only)
                  r.holds.loader;
          };
        })

  pub read_loader-Reading :
      (fuel : ℕ) (b : BootInfo) (s : Summary) (cs : List ℕ)
      → length cs < fuel
      → Reading start top b s
      → TagAt start top p (boot_loader cs)
      → Ensures
          (λ b'. Reading start top b' (apply types (boot_loader cs) s))
          (read_string fuel b.bootloader b p)
  read_loader-Reading fuel b s cs f r t =
      let (spelt, le, short) = t.its_contents in
      Ensures-map
        (read_string-kept fuel b.bootloader b cs r.agrees f spelt (omega (arith, t.below, le)) short
          r.placed.bootloader_behind)
        λ b' (m, e, agrees, only, spells). rw e (record {
          agrees = agrees;
          placed = r.placed;
          holds = record {
            size = r.holds.size;
            regions = r.holds.regions;
            count = r.holds.count;
            few = r.holds.few;
            modules = modules-same b s m b.bootloader 64 r.holds r.placed.modules_bootloader only;
            command =
                HoldsString-same b.memory m b.parameters s.command
                  (OnlyAt-SameAt b.memory m b.parameters 64 b.bootloader 64
                    r.placed.parameters_bootloader only)
                  r.holds.command;
            loader = (spells, short);
          };
        })
