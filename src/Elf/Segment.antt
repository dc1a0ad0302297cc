-- ===== src/Elf/Segment.antt =====
-- A segment of a program, its pages and the frames for them.
pub mod Page
pub mod Loop
use native.Mathlib.Nat.{add_assoc}
use quark_kernel.Base.{
  ℕ, zero, suc, ◌+◌, ◌-◌, ◌*◌, ◌/◌, ◌%◌, ◌^◌, ◌≤◌, ◌<◌, ◌≡◌, ◌≢◌, ◌⊎◌, inl, inr, Bool-cases, ◌∙◌,
  refl, ap, sym, subst, ◌==◌, true, false, ltb, if◌then◌else◌, lt→ltb, ltb→lt, le→not-ltb,
  ne→not-==, some, arith,
}
use quark_kernel.Base.Fault.{Ensures, ensures, Ensures-map, Ensures-inv}
use quark_kernel.Status.{enone, enomem}
use quark_kernel.Paging.{Machine, page_rw, page_usermode, page_executable}
use quark_kernel.Paging.Tree.{IsTree, directory}
use quark_kernel.PageMap.{map_page}
use quark_kernel.PageMap.Translate.{translate, IsTree-same, translate-same, translate-within}
use quark_kernel.PageMap.Mapping.{First, map_page-First}
use quark_kernel.MemoryCalls.Fill.{
  HasTables, Replies, Filled, below_window, rest-tables, rest-replies, rest-Filled,
  reserve_page-reply,
}
use quark_kernel.Elf.{Loader, memsize, copy_bytes, after_map, load_page, load_pages}
use quark_kernel.Elf.Access.{Shows, word_of, read_word-image}
use quark_kernel.Elf.Copy.{Copied, copy_bytes-Copied}

abbrev pub flags : ℕ
flags = page_rw + page_usermode + page_executable

abbrev pub page_count : ℕ → ℕ
page_count size = (size + 4095) / 4096

not-ltb→le : (a b : ℕ) → ltb a b ≡ false → b ≤ a
not-ltb→le a b h = ground arith

-- An address outside a frame.
abbrev pub IsOutside : (frame a : ℕ) → Type 0
IsOutside frame a = (a < frame) ⊎ (frame + 4096 ≤ a)

-- The pages from `b` on are mapped to the frames and hold `bytes` bytes of the image from `src` on;
-- all else is as before.
pub record Loaded (l : Loader) (b pages bytes src : ℕ) (frame image : ℕ → ℕ) (r : ℕ × Loader)
    : Type 0 where
  pub filled : Filled l.machine b pages frame (r.0, r.1.machine)
  pub tables : (e : ℕ) → directory r.1.machine e ≡ directory l.machine e
  pub replies : r.1.machine.replies ≡ l.machine.replies
  pub inside :
      (k j : ℕ)
      → k < pages
      → j < 4096
      → k * 4096 + j < bytes
      → r.1.ram (frame k + j) ≡ image (src + (k * 4096 + j))
  pub outside : (a : ℕ) → ((k : ℕ) → k < pages → IsOutside (frame k) a) → r.1.ram a ≡ l.ram a

-- A file in the memory from `lo` to `hi`, a program header in it, and a segment of the file that goes
-- to the page at `d`, apart from the file.
pub record IsSegment (lo hi : ℕ) (image : ℕ → ℕ) (header d s size : ℕ) : Type 0 where
  pub aligned : d % 4096 ≡ 0
  pub fits : d + page_count size * 4096 ≤ 1023 * 2 ^ 22
  pub low : hi ≤ 1023 * 2 ^ 22
  pub in_file : (lo ≤ header) × (header + 24 ≤ hi) × (lo ≤ s) × (s + size ≤ hi)
  pub its_size : word_of image (memsize header) ≡ size
  pub apart : (hi ≤ d) ⊎ (d + page_count size * 4096 ≤ lo)

-- The part of the segment from the offset `n` on.
abbrev pub Rest : (size n pages : ℕ) → Type 0
Rest size n pages = n + pages * 4096 ≡ page_count size * 4096

-- The frames hold no byte of the file, and lie apart from each other.
pub record AreFree (lo hi : ℕ) (phys : ℕ → ℕ) (pages : ℕ) (frame : ℕ → ℕ) : Type 0 where
  pub of_file : (k q : ℕ) → k < pages → lo ≤ q → q < hi → IsOutside (frame k) (phys q)
  pub of_others :
      (k j : ℕ) → k < j → j < pages → (frame k + 4096 ≤ frame j) ⊎ (frame j + 4096 ≤ frame k)

-- The bytes that are copied to the page at `n`.
abbrev pub chunk : ℕ → ℕ → ℕ
chunk size n = if ltb ((n + 4096) % 2 ^ 32) size then 4096 else size - n

pub chunk_bounds :
    (size n : ℕ)
    → n < size
    → n + 4096 < 2 ^ 32
    → (chunk size n ≤ 4096)
      × (n + chunk size n ≤ size)
      × ((j : ℕ) → j < 4096 → n + j < size → j < chunk size n)
chunk_bounds size n lt small = elim (Bool-cases (ltb ((n + 4096) % 2 ^ 32) size)) [
  | inl e ↦ rw e (omega arith, omega (arith, ltb→lt ((n + 4096) % 2 ^ 32) size e), λ j a b. a)
  | inr e ↦
      let last = not-ltb→le ((n + 4096) % 2 ^ 32) size e in
      rw e (omega (arith, last), omega arith, λ j a b. omega (arith, b))
]

module _ (lo hi : ℕ) (phys image : ℕ → ℕ) (header d s size : ℕ)
    (g : IsSegment lo hi image header d s size) where
  -- The file is in its place after a page of the segment is mapped.
  pub file-Shows :
      (l : Loader) (u : Machine) (n k : ℕ) (frame : ℕ)
      → Rest size n (suc k)
      → First (record l.machine { calls = l.machine.calls + 1 }) (d + n) frame flags u
      → Shows l lo hi phys image
      → Shows (record l { machine = u }) lo hi phys image
  file-Shows l u n k frame rest f shows q le lt =
      let (there, byte) = shows q le lt in
      (
        f.mapped.others q (omega (arith, lt, g.low)) (other g.apart)
            ∙ translate-same l.machine (record l.machine { calls = l.machine.calls + 1 }) q refl
                (λ z. refl)
            ∙ there,
        byte,
      )
    where
      other : (hi ≤ d) ⊎ (d + page_count size * 4096 ≤ lo) → q / 4096 ≢ (d + n) / 4096
      other (inl h) = λ e. omega (arith, h, e, lt)
      other (inr h) = λ e. omega (arith, h, e, le, rest)
