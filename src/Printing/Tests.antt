-- ===== src/Printing/Tests.antt =====
-- The theorems on src/stdio.c at concrete numbers and formats.
use quark_kernel.Base.{ℕ, [], arith}
use quark_kernel.Base.Fault.{Ensures}
use quark_kernel.Console.{Console}
use quark_kernel.Printing.{itoa}
use quark_kernel.Printing.Digits.{Printed, itoa-Printed}

abbrev zeros : ℕ → ℕ
zeros i = 0

abbrev blank : Console
blank = record { screen = λ i. 32; cursor = 0; port = [] }

-- `%08x` of 48879, which is "0000beef".
itoa-Printed_example : Ensures (Printed 16 48879 8) (itoa zeros 48879 16 8)
itoa-Printed_example =
    itoa-Printed zeros 48879 16 8 (omega arith) (omega arith) (omega arith) (omega arith)

-- "a%u" with 7.
