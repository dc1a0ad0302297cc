-- ===== src/Elf/Access.antt =====
-- Reads and writes through the page tables.
use quark_kernel.Base.{ℕ, ◌+◌, ◌*◌, ◌≤◌, ◌<◌, ◌≡◌, ◌∙◌, refl, ap, some, arith}
use quark_kernel.Kernel.State.{put}
use quark_kernel.PageMap.Translate.{translate}
use quark_kernel.Elf.{Loader, read_byte, write_byte, read_half, read_word}

pub read_byte-at :
    (l : Loader) (p a : ℕ) → translate l.machine p ≡ some a → read_byte p l ≡ some (l.ram a, l)
unfolding read_byte
read_byte-at l p a e = rw e refl

pub write_byte-at :
    (l : Loader) (p a v : ℕ)
    → translate l.machine p ≡ some a
    → write_byte p v l ≡ some (tt, record l { ram = put l.ram a v })
unfolding write_byte
write_byte-at l p a v e = rw e refl

-- The bytes from `lo` to `hi` are those of the image, at such physical addresses.
abbrev pub Shows : Loader → (lo hi : ℕ) → (phys image : ℕ → ℕ) → Type 0
Shows l lo hi phys image =
    (q : ℕ) → lo ≤ q → q < hi → (translate l.machine q ≡ some (phys q)) × (l.ram (phys q) ≡ image q)

abbrev pub half_of : (ℕ → ℕ) → ℕ → ℕ
half_of image p = image p + 256 * image (p + 1)

abbrev pub word_of : (ℕ → ℕ) → ℕ → ℕ
word_of image p = half_of image p + 65536 * half_of image (p + 2)

module _ (l : Loader) (lo hi : ℕ) (phys image : ℕ → ℕ) (shows : Shows l lo hi phys image) where
  read_byte-image : (p : ℕ) → lo ≤ p → p < hi → read_byte p l ≡ some (image p, l)
  read_byte-image p le lt =
      let (there, byte) = shows p le lt in
      read_byte-at l p (phys p) there ∙ ap (λ v. some (v, l)) byte

  pub read_half-image : (p : ℕ) → lo ≤ p → p + 2 ≤ hi → read_half p l ≡ some (half_of image p, l)
  unfolding read_half
  read_half-image p le lt =
      rw (read_byte-image p le (omega arith), read_byte-image (p + 1) (omega arith) (omega arith))
        refl

  pub read_word-image : (p : ℕ) → lo ≤ p → p + 4 ≤ hi → read_word p l ≡ some (word_of image p, l)
  unfolding read_word
  read_word-image p le lt =
      rw (read_half-image p le (omega arith), read_half-image (p + 2) (omega arith) (omega arith))
        refl
