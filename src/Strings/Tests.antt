-- ===== src/Strings/Tests.antt =====
-- The theorems on src/string.c at a concrete memory, where the byte at each address up to 5 is
-- the address itself, and all others are 0.
use quark_kernel.Base.{◌≡◌, refl, inr, some, arith, ltb, if◌then◌else◌}
use quark_kernel.Strings.{Memory, copy_down, memmove, strlen}
use quark_kernel.Strings.Copy.{Copied, memmove-Copied}
use quark_kernel.Strings.Scan.{IsString, strlen-IsString}

abbrev sample : Memory
sample p = if ltb p 6 then p else 0

memmove-Copied_example : Copied sample (memmove sample 10 1 3) 10 1 0 3
memmove-Copied_example = memmove-Copied sample 10 1 3 (inr (omega arith)) (omega arith)

-- The byte at 2 would be 1 after a full copy.
skipped : memmove sample 2 1 3 2 ≡ 2
unfolding memmove copy_down
skipped = refl

sample-IsString : IsString sample 1 5
sample-IsString = record { bytes = λ j lt. ground arith; end = refl }

strlen-IsString_example : strlen 6 sample 1 ≡ some 5
strlen-IsString_example = strlen-IsString 6 sample 1 5 sample-IsString (omega arith) (omega arith)
