-- ===== src/Console/Tests.antt =====
-- The theorems on src/x86/putc.c at concrete screens.
use quark_kernel.Base.{ℕ, []}
use quark_kernel.Console.{Console}

-- A screen of blanks.
abbrev blank_at : ℕ → Console
blank_at k = record { screen = λ i. 32; cursor = k; port = [] }
