-- ===== src/Multiboot/Summary.antt =====
-- What the table says: the abstract view of the structure, and how a tag changes it.
use quark_kernel.Base.{
  ℕ, ◌+◌, ◌-◌, ◌*◌, ◌/◌, ◌%◌, ◌^◌, ◌≤◌, ◌<◌, ◌≡◌, ◌⊎◌, Option, none, some, List, [], ◌∷◌, ◌++◌,
  length, get_elem?, ltb, if◌then◌else◌,
}
use quark_kernel.Strings.{Memory}
use quark_kernel.Context.{get_word}
use quark_kernel.Multiboot.{RegionTypes, Region, BootInfo, entry_type}
use quark_kernel.Multiboot.Tags.{
  Tag, memory_info, memory_map, boot_module, boot_command, boot_loader, other, Spells,
}

pub record LoadedModule : Type 0 where
  pub start : ℕ
  pub end : ℕ
  pub name : List ℕ

-- The modules in the order of the table, the regions with the last one first, and the strings, if
-- there were any.
pub record Summary : Type 0 where
  pub memory_size : ℕ
  pub regions : List Region
  pub modules : List LoadedModule
  pub command : Option (List ℕ)
  pub loader : Option (List ℕ)

abbrev pub add_regions : RegionTypes → List Region → List Region → List Region
add_regions types [] known = known
add_regions types (r ∷ rs) known =
    add_regions types rs (record r { type = entry_type types r.type } ∷ known)

-- The region of a module, in whole pages.
abbrev pub module_region : RegionTypes → (start end : ℕ) → Region
module_region types start end = record {
  base = start;
  size = (end + 2 ^ 32 - start + 4095) % 2 ^ 32 / 4096 * 4096;
  type = types.m_unavailable;
}

abbrev pub add_module : RegionTypes → LoadedModule → Summary → Summary
add_module types x s =
    if ltb (length s.modules) 8
    then record s {
      regions = module_region types x.start x.end ∷ s.regions;
      modules = s.modules ++ (x ∷ []);
    }
    else s

abbrev pub apply : RegionTypes → Tag → Summary → Summary
apply types (memory_info low high) s = record s {
  memory_size = (high * 1024 + low * 1024) % 2 ^ 32;
}
apply types (memory_map regions) s = record s { regions = add_regions types regions s.regions }
apply types (boot_module start end name) s =
    add_module types (record { start = start; end = end; name = name }) s
apply types (boot_command command) s = record s { command = some command }
apply types (boot_loader name) s = record s { loader = some name }
apply types (other type) s = s

abbrev pub apply_all : RegionTypes → List Tag → Summary → Summary
apply_all types [] s = s
apply_all types (t ∷ ts) s = apply_all types ts (apply types t s)

pub record HoldsModule (m : Memory) (p : ℕ) (x : LoadedModule) : Type 0 where
  pub its_start : get_word m p ≡ x.start
  pub its_end : get_word m (p + 4) ≡ x.end
  pub its_name : Spells m (p + 8) x.name
  pub short : length x.name < 56

abbrev pub HoldsString : Memory → ℕ → Option (List ℕ) → Type 0
HoldsString m p none = Unit
HoldsString m p (some cs) = Spells m p cs × (length cs < 64)

-- The structure holds what the table says.
pub record Holds (b : BootInfo) (s : Summary) : Type 0 where
  pub size : b.memory_size ≡ s.memory_size
  pub regions : b.map ≡ s.regions
  pub count : b.module_count ≡ length s.modules
  pub few : length s.modules ≤ 8
  pub modules :
      (i : ℕ) (x : LoadedModule)
      → get_elem? s.modules i ≡ some x
      → HoldsModule b.memory (b.modules + 64 * i) x
  pub command : HoldsString b.memory b.parameters s.command
  pub loader : HoldsString b.memory b.bootloader s.loader

abbrev pub Apart : (p n q k : ℕ) → Type 0
Apart p n q k = (p + n ≤ q) ⊎ (q + k ≤ p)

-- The two buffers of 64 bytes and the array of modules lie behind the table, apart from each other.
pub record IsPlaced (top modules parameters bootloader : ℕ) : Type 0 where
  pub modules_behind : top ≤ modules
  pub parameters_behind : top ≤ parameters
  pub bootloader_behind : top ≤ bootloader
  pub modules_parameters : Apart modules 512 parameters 64
  pub modules_bootloader : Apart modules 512 bootloader 64
  pub parameters_bootloader : Apart parameters 64 bootloader 64
