-- ===== src/Console/Cursor.antt =====
-- Strings on the console, and what a carriage return does to the cursor.
use quark_kernel.Base.{
  All, ℕ, ◌+◌, ◌-◌, ◌*◌, ◌/◌, ◌%◌, ◌^◌, ◌≤◌, ◌<◌, ◌≡◌, ◌≢◌, refl, none, List, [], ◌∷◌, lt→not-leb,
  arith, ne→not-==,
}
use quark_kernel.Base.Fault.{Ensures, ensures}
use quark_kernel.Base.State.{◌>>◌, Ensures-then}
use quark_kernel.Console.{
  Console, newline, tab, carriage_return, scroll, put_cell, place, putchar, puts,
}
use quark_kernel.Console.Screen.{putchar-Shown}

-- A string without a carriage return is printed, and the cursor stays on the screen.
pub puts-on_screen :
    (str : List ℕ) (s : Console)
    → s.cursor < 2000
    → All (λ c. c ≢ carriage_return) str
    → Ensures (λ r. (r.0 ≡ 0) × (r.1.cursor < 2000)) (puts str s)
unfolding puts
puts-on_screen [] s lt all = ensures (refl, lt)
puts-on_screen (c ∷ str) s lt (ne, all) =
    Ensures-then (putchar-Shown c s lt ne) λ r u w. puts-on_screen str u w.scrolled.on_screen all

wrapped :
    (k : ℕ)
    → k < 63
    → ((k + 2 ^ 32 - 79) % 2 ^ 32 + (80 - (k + 2 ^ 32 - 79) % 2 ^ 32 % 80)) % 2 ^ 32 ≡ 2 ^ 32 - 16
wrapped k lt = omega arith

start_of_line :
    (k : ℕ)
    → 80 ≤ k
    → k < 2000
    → k % 80 < 79
    → ((k + 2 ^ 32 - 79) % 2 ^ 32 + (80 - (k + 2 ^ 32 - 79) % 2 ^ 32 % 80)) % 2 ^ 32 ≡ k / 80 * 80
start_of_line k le lt column = omega arith

-- A carriage return on a line but the first, before the last column, moves the cursor to the start
-- of its line; in the first 63 columns of the first line it moves the cursor so far that the next
-- character that is printed is written past the screen's array, a fault.
pub carriage_return-cursor :
    (c : ℕ) (s : Console)
    → c ≢ newline
    → c ≢ tab
    → c ≢ carriage_return
    → (80 ≤ s.cursor
        → s.cursor < 2000
        → s.cursor % 80 < 79
        → Ensures
            (λ r. (r.1.cursor ≡ s.cursor / 80 * 80) × (r.1.screen ≡ s.screen))
            (putchar carriage_return s))
      × (s.cursor < 63 → (putchar carriage_return >> putchar c) s ≡ none)
unfolding putchar place put_cell scroll
carriage_return-cursor c s ne ne' ne'' = (
  λ le lt column.
      rw
        (
          start_of_line s.cursor le lt column,
          lt→not-leb 2000 (s.cursor / 80 * 80) (omega (arith, lt)),
        )
        (ensures (refl, refl)),
  λ lt. rw (wrapped s.cursor lt, ne→not-== c 10 ne, ne→not-== c 9 ne', ne→not-== c 13 ne'') refl,
)
