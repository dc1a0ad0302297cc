-- ===== src/Console.antt =====
-- src/x86/putc.c: the screen of 25 lines of 80 cells, and the serial port.
-- A character is an `int`, given as an `unsigned int`, and a `char` is its byte. The colours are
-- left out, and a character on its way waits until the port is ready, which is not part of the state.
pub mod Screen
pub mod Cursor
mod Tests
use quark_kernel.Base.{
  ℕ, zero, suc, ◌+◌, ◌-◌, ◌*◌, ◌/◌, ◌%◌, ◌^◌, Bool, true, false, List, [], ◌∷◌, ◌++◌, Option, none,
  some, ◌==◌, ltb, leb, not, if◌then◌else◌, ◌&&◌,
}
use quark_kernel.Base.State.{St, pure, fault, ◌>>=◌, ◌>>◌, read, modify}

-- The characters of the cells, the cursor, an unsigned integer of 32 bits, and what went to the
-- port, with the last character first.
pub record Console : Type 0 where
  pub screen : ℕ → ℕ
  pub cursor : ℕ
  pub port : List ℕ

abbrev pub tab_width : ℕ
tab_width = 4

abbrev pub line_width : ℕ
line_width = 80

abbrev pub line_count : ℕ
line_count = 25

-- The cells of the array `screen`.
abbrev pub cell_count : ℕ
cell_count = 4096 / 2

abbrev pub newline : ℕ
newline = 10

abbrev pub tab : ℕ
tab = 9

abbrev pub carriage_return : ℕ
carriage_return = 13

abbrev pub space : ℕ
space = 32

-- The parameter is a `char`, to which an `int` is cut.
abbrev pub outb : ℕ → Console → Console
outb c s = record s { port = c % 2 ^ 8 ∷ s.port }

-- A difference of unsigned integers of 32 bits, and a sum.
abbrev pub minus : ℕ → ℕ → ℕ
minus a b = (a + 2 ^ 32 - b) % 2 ^ 32

abbrev pub plus : ℕ → ℕ → ℕ
plus a b = (a + b) % 2 ^ 32

abbrev pub start_of : (width : ℕ) → ℕ → ℕ
start_of width cursor = minus cursor (cursor % width)

-- `(char) c` in the cell under the cursor, a fault past the array.
unfoldable pub put_cell : ℕ → St Console (Unit {0})
put_cell c s =
    if ltb s.cursor cell_count
    then some (
      tt,
      record s {
        screen = λ i. if i == s.cursor then c % 2 ^ 8 else s.screen i;
        cursor = plus s.cursor 1;
      },
    )
    else none

-- The switch on the character.
unfoldable pub place : ℕ → St Console (Unit {0})
place c =
    if c == newline
    then modify (λ s.
      outb carriage_return (record s { cursor = start_of line_width (plus s.cursor line_width) }))
    else if c == tab
    then modify (λ s. record s { cursor = start_of tab_width (plus s.cursor tab_width) })
    else if c == carriage_return
    then modify (λ s.
      let cursor = minus s.cursor (line_width - 1) in
      record s { cursor = plus cursor (line_width - cursor % line_width) })
    else put_cell c

-- The loop that moves the lines up, from the cell `i`, with `rounds` cells left.
unfoldable pub scroll_from : (rounds i : ℕ) → (ℕ → ℕ) → ℕ → ℕ
scroll_from zero i screen = screen
scroll_from (suc rounds) i screen =
    let c = if ltb i ((line_count - 1) * line_width) then screen (i + line_width) else space in
    scroll_from rounds (i + 1) (λ j. if j == i then c else screen j)

unfoldable pub scroll : Console → Console
scroll s =
    if leb (line_count * line_width) s.cursor
    then record s {
      screen = scroll_from (line_count * line_width) 0 s.screen;
      cursor = minus s.cursor line_width;
    }
    else s

unfoldable pub putchar : ℕ → St Console ℕ
putchar c = do modify (outb c); place c; modify scroll; pure c

-- The characters of a string, without the byte that ends it.
unfoldable pub puts : List ℕ → St Console ℕ
puts [] = pure 0
puts (c ∷ str) = putchar c >> puts str
