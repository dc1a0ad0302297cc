-- ===== src/Elf.antt =====
-- src/elf.c, include/elf.h: the loader of programs, over the page map and the bytes of the memory.
-- An access to an address is one to the byte that the loaded page tables translate it to, and a
-- fault, `none`, where they have none; `none` is also the model's fuel running out. The entries of
-- the page tables are kept apart from the bytes of the memory. The layout is that of i386.
pub mod Access
pub mod Copy
pub mod Segment
pub mod Program
pub mod Unaligned
mod Tests
use quark_kernel.Base.{
  ℕ, zero, suc, ◌+◌, ◌-◌, ◌*◌, ◌%◌, ◌^◌, Option, none, some, ltb, ◌==◌, if◌then◌else◌,
}
use quark_kernel.Base.State.{St, pure, fault, ◌>>=◌, ◌>>◌, read, modify, lift}
use quark_kernel.Status.{enone, eoutofbounds, enomem}
use quark_kernel.Kernel.State.{put}
use quark_kernel.Paging.{Machine, page_size, page_rw, page_usermode, page_executable}
use quark_kernel.PageMap.{reserve_page, map_page}
use quark_kernel.PageMap.Translate.{translate}

-- `ram` is the byte at each physical address.
pub record Loader : Type 0 where
  pub machine : Machine
  pub ram : ℕ → ℕ

abbrev pub elf_load : ℕ
elf_load = 1

abbrev pub with_machine : {A : Type 0} → Loader → Option (A × Machine) → Option (A × Loader)
with_machine l none = none
with_machine l (some (a, m)) = some (a, record l { machine = m })

abbrev pub in_machine : {A : Type 0} → St Machine A → St Loader A
in_machine m l = with_machine l (m l.machine)

unfoldable pub read_byte : ℕ → St Loader ℕ
read_byte p = do l ← read; a ← lift (translate l.machine p); pure (l.ram a)

unfoldable pub write_byte : ℕ → ℕ → St Loader (Unit {0})
write_byte p v = do
  l ← read
  a ← lift (translate l.machine p)
  modify λ l. record l { ram = put l.ram a v }

-- Numbers of two and of four bytes, the lowest first.
unfoldable pub read_half : ℕ → St Loader ℕ
read_half p = do b ← read_byte p; b' ← read_byte (p + 1); pure (b + 256 * b')

unfoldable pub read_word : ℕ → St Loader ℕ
read_word p = do h ← read_half p; h' ← read_half (p + 2); pure (h + 65536 * h')

-- The loop of `memcpy` from the index `i`, with `rounds` bytes left.
unfoldable pub copy_bytes : (rounds dest src i : ℕ) → St Loader (Unit {0})
copy_bytes zero dest src i = pure tt
copy_bytes (suc rounds) dest src i = do
  v ← read_byte (src + i)
  write_byte (dest + i) v
  copy_bytes rounds dest src (i + 1)

-- The fields of `struct elf_file_header_t` and `struct elf_program_header_t`.
abbrev pub phoffset : ℕ → ℕ
phoffset elf = elf + 28

abbrev pub phsize : ℕ → ℕ
phsize elf = elf + 42

abbrev pub phcount : ℕ → ℕ
phcount elf = elf + 44

abbrev pub offset : ℕ → ℕ
offset header = header + 4

abbrev pub vaddr : ℕ → ℕ
vaddr header = header + 8

abbrev pub memsize : ℕ → ℕ
memsize header = header + 20

-- The cases of the switch on the status of `map_page`, at the offset `n`; any other status is passed
-- over.
unfoldable pub after_map : (header d s n status : ℕ) → St Loader ℕ
after_map header d s n status =
    let copy : St Loader ℕ = do
      size ← read_word (memsize header)
      copy_bytes (if ltb ((n + page_size) % 2 ^ 32) size then page_size else size - n) (d + n)
          (s + n) 0
      pure enone
    in if status == enomem
      then pure enomem
      else if status == eoutofbounds
      then pure eoutofbounds
      else if status == enone
      then copy
      else pure enone

-- The body of the loop over the pages of a segment: the status that the loader returns with, or
-- ENONE where the loop goes on.
unfoldable pub load_page : (header d s n : ℕ) → St Loader ℕ
load_page header d s n =
    let map : ℕ → St Loader ℕ = λ page. do
      status ←
          in_machine (map_page ((d + n) % 2 ^ 32) page (page_rw + page_usermode + page_executable))
      after_map header d s n status
    in do page ← in_machine reserve_page; if page == enomem then pure enomem else map page

-- The loop, from the offset `n`.
unfoldable pub load_pages : (fuel header d s n : ℕ) → St Loader ℕ
load_pages zero header d s n = fault
load_pages (suc fuel) header d s n =
    let round : St Loader ℕ = do
      status ← load_page header d s n
      if status == enone then load_pages fuel header d s ((n + page_size) % 2 ^ 32) else pure status
    in do size ← read_word (memsize header); if ltb n size then round else pure enone

unfoldable pub load_segment : (fuel elf header : ℕ) → St Loader ℕ
load_segment fuel elf header = do
  d ← read_word (vaddr header)
  o ← read_word (offset header)
  load_pages fuel header d ((elf + o) % 2 ^ 32) 0

-- The loop over the program headers, with `count` of them left.
unfoldable pub load_headers : (fuel count elf header : ℕ) → St Loader ℕ
load_headers fuel zero elf header = pure enone
load_headers fuel (suc count) elf header =
    let next : ℕ → St Loader ℕ = λ status.
      if status == enone
      then (do
        size ← read_half (phsize elf)
        load_headers fuel count elf ((header + size) % 2 ^ 32))
      else pure status in
    do
      type ← read_word header
      status ← (if type == elf_load then load_segment fuel elf header else pure enone)
      next status

-- The fuel is for the pages of a segment.
unfoldable pub load_program : (fuel elf : ℕ) → St Loader ℕ
load_program fuel elf = do
  o ← read_word (phoffset elf)
  count ← read_half (phcount elf)
  load_headers fuel count elf ((elf + o) % 2 ^ 32)
