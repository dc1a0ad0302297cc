-- ===== src/Multiboot/Tags.antt =====
-- The table as a list of tags, and how they lie in the memory.
use quark_kernel.Base.{ℕ, ◌+◌, ◌*◌, ◌/◌, ◌^◌, ◌≤◌, ◌<◌, ◌≡◌, ◌≢◌, List, [], ◌∷◌, length}
use quark_kernel.Strings.{Memory}
use quark_kernel.Context.{get_word}
use quark_kernel.Multiboot.{Region, get_long}

-- A region of a memory map has the type that the loader gave it. The strings are their bytes.
pub data Tag : Type 0 where
  memory_info : (low high : ℕ) → Tag
  memory_map : List Region → Tag
  boot_module : (start end : ℕ) → (name : List ℕ) → Tag
  boot_command : (command : List ℕ) → Tag
  boot_loader : (name : List ℕ) → Tag
  other : (type : ℕ) → Tag

abbrev pub type_of : Tag → ℕ
type_of (memory_info low high) = 4
type_of (memory_map regions) = 6
type_of (boot_module start end name) = 3
type_of (boot_command command) = 1
type_of (boot_loader name) = 2
type_of (other type) = type

-- The bytes of a string, and the 0 that ends it.
abbrev pub Spells : Memory → ℕ → List ℕ → Type 0
Spells m p [] = m p ≡ 0
Spells m p (c ∷ cs) = (m p ≡ c) × (c ≢ 0) × Spells m (p + 1) cs

module _ (m : Memory) (top : ℕ) where
  pub record EntryAt (p : ℕ) (r : Region) : Type 0 where
    pub its_base : get_long m p ≡ r.base
    pub its_size : get_long m (p + 8) ≡ r.size
    pub its_type : get_word m (p + 16) ≡ r.type

  -- The entries of a memory map, of `e` bytes each.
  abbrev pub EntriesAt : (e p : ℕ) → List Region → Type 0
  EntriesAt e p [] = Unit
  EntriesAt e p (r ∷ rs) = EntryAt p r × (p + e ≤ top) × EntriesAt e (p + e) rs

  -- What stands behind the type and the size.
  abbrev pub Contents : (p size : ℕ) → Tag → Type 0
  Contents p size (memory_info low high) =
      (get_word m (p + 8) ≡ low) × (get_word m (p + 12) ≡ high) × (16 ≤ size)
  Contents p size (memory_map regions) =
      (20 ≤ get_word m (p + 8))
      × (size ≡ 16 + get_word m (p + 8) * length regions)
      × EntriesAt (get_word m (p + 8)) (p + 16) regions
  Contents p size (boot_module start end name) =
      (get_word m (p + 8) ≡ start)
      × (get_word m (p + 12) ≡ end)
      × (start < 2 ^ 32)
      × (end < 2 ^ 32)
      × Spells m (p + 16) name
      × (17 + length name ≤ size)
      × (length name < 56)
  Contents p size (boot_command command) =
      Spells m (p + 8) command × (9 + length command ≤ size) × (length command < 64)
  Contents p size (boot_loader name) =
      Spells m (p + 8) name × (9 + length name ≤ size) × (length name < 64)
  Contents p size (other type) =
      (type ≢ 0) × (type ≢ 1) × (type ≢ 2) × (type ≢ 3) × (type ≢ 4) × (type ≢ 6)

  abbrev pub padded : ℕ → ℕ
  padded p = (get_word m (p + 4) + 7) / 8 * 8

  -- A tag, which ends below `top`.
  pub record TagAt (p : ℕ) (t : Tag) : Type 0 where
    pub its_type : get_word m p ≡ type_of t
    pub its_contents : Contents p (get_word m (p + 4)) t
    pub large : 8 ≤ get_word m (p + 4)
    pub below : p + padded p ≤ top

  -- The tags from `p` on, and the one of the type 0 that ends them.
  abbrev pub TagsAt : ℕ → List Tag → Type 0
  TagsAt p [] = (get_word m p ≡ 0) × (p + 8 ≤ top)
  TagsAt p (t ∷ ts) = TagAt p t × TagsAt (p + padded p) ts

-- The rounds that the loop of the tag makes.
abbrev pub cost : Tag → ℕ
cost (memory_info low high) = 0
cost (memory_map regions) = length regions
cost (boot_module start end name) = length name
cost (boot_command command) = length command
cost (boot_loader name) = length name
cost (other type) = 0
