-- ===== src/Elf/Program.antt =====
-- The headers of a program in the memory, and what it is that all its segments are loaded.
pub mod Headers
pub mod Whole
use native.Mathlib.Nat.{add_assoc}
use quark_kernel.Base.{
  ℕ, zero, suc, ◌+◌, ◌-◌, ◌*◌, ◌/◌, ◌%◌, ◌^◌, ◌≤◌, ◌<◌, ◌≡◌, ◌≢◌, ◌⊎◌, inl, inr, Bool-cases, ◌∙◌,
  refl, ap, sym, subst, ◌==◌, true, false, ==_iff, not-==→ne, ne→not-==, if◌then◌else◌, some, List,
  [], ◌∷◌, length, All, All-imp, arith,
}
use quark_kernel.Base.Fault.{Ensures, ensures, Ensures-map, Ensures-inv}
use quark_kernel.Status.{enone}
use quark_kernel.Paging.{Machine}
use quark_kernel.Paging.Tree.{IsTree, directory, directory_index}
use quark_kernel.Paging.Directory.{shows}
use quark_kernel.PageMap.Translate.{translate, IsBelowWindow}
use quark_kernel.MemoryCalls.Fill.{HasTables, Replies, Filled, below_window}
use quark_kernel.Elf.{
  Loader, offset, vaddr, memsize, phoffset, phsize, phcount, load_segment, load_headers,
  load_program,
}
use quark_kernel.Elf.Access.{Shows, word_of, half_of, read_word-image, read_half-image}
use quark_kernel.Elf.Segment.{page_count, IsOutside, Loaded, IsSegment, AreFree}
use quark_kernel.Elf.Segment.Loop.{load_pages-Loaded}

-- A program header.
pub record Header : Type 0 where
  pub type : ℕ
  pub source : ℕ
  pub address : ℕ
  pub size : ℕ

-- The pages that a header asks for.
abbrev pub pages_in : Header → ℕ
pages_in h = if h.type == 1 then page_count h.size else 0

abbrev pub total : List Header → ℕ
total [] = 0
total (h ∷ hs) = pages_in h + total hs

-- A page address outside the pages of a header.
abbrev pub IsBeside : ℕ → Header → Type 0
IsBeside q h = h.type ≡ 1 → (q < h.address) ⊎ (h.address + page_count h.size * 4096 ≤ q)

module _ (lo hi elf : ℕ) (phys image : ℕ → ℕ) where
  -- The header at `p` is such, and its segment can be loaded apart from the file.
  pub record HeaderAt (s : Machine) (p : ℕ) (h : Header) : Type 0 where
    pub inside : (lo ≤ p) × (p + 24 ≤ hi)
    pub its_type : word_of image p ≡ h.type
    pub its_address : word_of image (vaddr p) ≡ h.address
    pub its_source : (elf + word_of image (offset p)) % 2 ^ 32 ≡ h.source
    pub segment : h.type ≡ 1 → IsSegment lo hi image p h.address h.source h.size
    pub tables : h.type ≡ 1 → HasTables s h.address (page_count h.size)

  -- The headers of `step` bytes from `p` on; the pages of each are apart from those of the next ones.
  abbrev pub HeadersAt : (s : Machine) (step p : ℕ) → List Header → Type 0
  HeadersAt s step p [] = Unit
  HeadersAt s step p (h ∷ hs) =
      HeaderAt s p h
      × All
          (λ k.
            k.type ≡ 1
            → h.type ≡ 1
            → (h.address + page_count h.size * 4096 ≤ k.address)
              ⊎ (k.address + page_count k.size * 4096 ≤ h.address))
          hs
      × (p + step < 2 ^ 32)
      × HeadersAt s step (p + step) hs

  -- The bytes of the file that the header names are in the memory at its address.
  abbrev pub InMemory : Loader → Header → Type 0
  InMemory l h =
      h.type ≡ 1
      → (i : ℕ) → i < h.size
      → (a : ℕ) × (translate l.machine (h.address + i) ≡ some a) × (l.ram a ≡ image (h.source + i))

  pub record AllLoaded (l : Loader) (hs : List Header) (frame : ℕ → ℕ) (r : ℕ × Loader)
      : Type 0 where
    pub status : r.0 ≡ enone
    pub tree : IsTree r.1.machine
    pub segments : All (InMemory r.1) hs
    pub others :
        (q : ℕ)
        → IsBelowWindow q
        → All (IsBeside q) hs
        → translate r.1.machine q ≡ translate l.machine q
    pub ram : (a : ℕ) → ((k : ℕ) → k < total hs → IsOutside (frame k) a) → r.1.ram a ≡ l.ram a
    pub calls : r.1.machine.calls ≡ l.machine.calls + total hs
