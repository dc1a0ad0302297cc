-- ===== src/Elf/Tests.antt =====
-- The loader on a file in the page 4096, which is mapped to the frame 20480.
use quark_kernel.Base.{
  ℕ, ◌+◌, ◌-◌, ◌*◌, ◌/◌, ◌^◌, ◌≡◌, refl, inl, none, some, [], ◌∷◌, ltb, ◌==◌, if◌then◌else◌, ap,
  ◌∙◌, arith,
}
use quark_kernel.Base.Fault.{Ensures}
use quark_kernel.Paging.Tree.{directory}
use quark_kernel.PageMap.Translate.{translate, translate-within}
use quark_kernel.PageMap.Samples.{one_page, one_page-IsTree}
use quark_kernel.MemoryCalls.Fill.{HasTables, Replies}
use quark_kernel.Elf.{Loader, load_program, load_pages}
use quark_kernel.Elf.Access.{Shows}
use quark_kernel.Elf.Segment.{IsSegment, AreFree}
use quark_kernel.Elf.Program.{Header, HeadersAt, AllLoaded}
use quark_kernel.Elf.Program.Whole.{load_program-AllLoaded}
use quark_kernel.Elf.Unaligned.{load_pages-unaligned}

-- The headers are at 52, of 32 bytes each, and the segment of 10 bytes at 120 goes to the page 8192.
abbrev image : ℕ → ℕ
image q =
    if q == 4124
    then 52
    else if q == 4138
    then 32
    else if q == 4140
    then 2
    else if q == 4148
    then 1
    else if q == 4152
    then 120
    else if q == 4157
    then 32
    else if q == 4168
    then 10
    else if ltb q 4216
    then 0
    else q - 4216 + 65

abbrev phys : ℕ → ℕ
phys q = 20480 + (q - 4096)

abbrev frame_at : ℕ → ℕ
frame_at k = (6 + k) * 4096

abbrev loader : Loader
loader = record { machine = one_page (λ k. some (frame_at k)); ram = λ a. image (a - 20480 + 4096) }

abbrev code : Header
code = record { type = 1; source = 4216; address = 8192; size = 10 }

abbrev unused : Header
unused = record { type = 0; source = 4096; address = 0; size = 0 }

first : translate loader.machine 4096 ≡ some 20480
unfolding translate
first = refl

gone : translate loader.machine 12288 ≡ none
unfolding translate
gone = refl

file-Shows : Shows loader 4096 4300 phys image
file-Shows q le lt = (
  ap (translate loader.machine) here
      ∙ translate-within loader.machine 4096 20480 (q - 4096) refl (omega (arith, lt)) first,
  ap image back,
)
  where
    here : q ≡ 4096 + (q - 4096)
    here = omega (arith, le)

    back : 20480 + (q - 4096) - 20480 + 4096 ≡ q
    back = omega (arith, le)

code-tables : HasTables loader.machine 8192 1
code-tables q le lt =
    let top : q / 2 ^ 22 ≡ 0 = omega (arith, lt) in
    ap (λ d. (directory loader.machine d).present) top

code-IsSegment : IsSegment 4096 4300 image 4148 8192 4216 10
code-IsSegment = record {
  aligned = refl;
  fits = omega arith;
  low = omega arith;
  in_file = (omega arith, omega arith, omega arith, omega arith);
  its_size = refl;
  apart = inl (omega arith);
}

headers : HeadersAt 4096 4300 4096 phys image loader.machine 32 4148 (code ∷ unused ∷ [])
headers = (
  record {
    inside = (omega arith, omega arith);
    its_type = refl;
    its_address = refl;
    its_source = refl;
    segment = λ load. code-IsSegment;
    tables = λ load. code-tables;
  },
  (λ load. absurd (omega (arith, load)), tt),
  omega arith,
  (
    record {
      inside = (omega arith, omega arith);
      its_type = refl;
      its_address = refl;
      its_source = refl;
      segment = λ load. absurd (omega (arith, load));
      tables = λ load. absurd (omega (arith, load));
    },
    tt,
    omega arith,
    tt,
  ),
)

frames : Replies loader.machine 1 frame_at
frames k lt = (ap (λ n. some (frame_at n)) (omega arith), omega arith, omega (arith, lt))

frames-AreFree : AreFree 4096 4300 phys 1 frame_at
frames-AreFree = record {
  of_file = λ k q lt le lt'. inl (omega (arith, lt, le, lt'));
  of_others = λ k j lt lt'. absurd (omega (arith, lt, lt'));
}

load_program-AllLoaded_example :
    Ensures
      (AllLoaded 4096 4300 4096 phys image loader (code ∷ unused ∷ []) frame_at)
      (load_program 2 4096 loader)
load_program-AllLoaded_example =
    load_program-AllLoaded 4096 4300 4096 phys image (omega arith, omega arith) (code ∷ unused ∷ [])
      2 loader frame_at refl (omega arith, (omega arith, tt))
      (one_page-IsTree λ k. some (frame_at k)) headers frames frames-AreFree file-Shows

-- The same segment, at 4 bytes before the end of the page 8192.
load_pages-unaligned_example : load_pages 2 4148 12284 4216 0 loader ≡ none
load_pages-unaligned_example =
    load_pages-unaligned 4096 4300 phys image 4148 12284 4216 10 1 (frame_at 0) loader file-Shows
      (omega arith, omega arith, omega arith) refl (inl (omega arith)) (λ e. omega (arith, e))
      (omega arith) (omega arith) (one_page-IsTree λ k. some (frame_at k)) refl
      (refl, omega arith, omega arith) gone
