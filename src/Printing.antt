-- ===== src/Printing.antt =====
-- src/stdio.c: the digits of a number, and formatted output on the console.
-- `buffer` is the static array of 65 characters; a pointer into it is an index. A format is the list
-- of its characters without the byte that ends it, and an argument is an unsigned integer of 32 bits
-- or a string. A read past the end of the format, of an argument that is not there or of another
-- type, and of a string at NULL is a fault.
pub mod Characters
pub mod Digits
pub mod Format
mod Tests
use quark_kernel.Base.{
  ℕ, zero, suc, ◌+◌, ◌-◌, ◌*◌, ◌/◌, ◌%◌, ◌^◌, Bool, true, false, List, [], ◌∷◌, Option, none, some,
  ◌==◌, ltb, leb, not, if◌then◌else◌, ◌&&◌, ◌||◌,
}
use quark_kernel.Base.State.{St, pure, fault, ◌>>=◌, ◌>>◌, lift}
use quark_kernel.Console.{Console, putchar, puts}

-- `digits[d]`, in the string "0123456789abcdef".
abbrev pub digit : ℕ → ℕ
digit d = if ltb d 10 then 48 + d else 87 + d

abbrev pub set_at : (ℕ → ℕ) → ℕ → ℕ → ℕ → ℕ
set_at buffer s c i = if i == s then c else buffer i

-- The loop of `itoa` from the pointer `s`; a write before the array is a fault.
unfoldable pub digits_from : (s : ℕ) → (n base width count : ℕ) → (ℕ → ℕ) → Option (ℕ × (ℕ → ℕ))
digits_from zero n base width count buffer = none
digits_from (suc s) n base width count buffer =
    let written = set_at buffer s (digit (n % base)) in
    let rest = digits_from s (n / base) base width (count + 1) written in
    if ltb (count + 1) width || not (n / base == 0) then rest else some (s, written)

abbrev pub returned : Option (ℕ × (ℕ → ℕ)) → Option (Option (ℕ × (ℕ → ℕ)))
returned none = none
returned (some r) = some (some r)

-- The string's place and the array, or NULL.
unfoldable pub itoa : (buffer : ℕ → ℕ) → (n base width : ℕ) → Option (Option (ℕ × (ℕ → ℕ)))
itoa buffer n base width =
    let printed = returned (digits_from 64 n base width 0 (set_at buffer 64 0)) in
    if ltb base 2 || ltb 16 base then some none else printed

-- The characters of a string in the array, up to the byte that ends it.
abbrev pub string_at : (rounds : ℕ) → (ℕ → ℕ) → ℕ → List ℕ
string_at zero buffer s = []
string_at (suc rounds) buffer s =
    let rest = string_at rounds buffer (s + 1) in if buffer s == 0 then [] else buffer s ∷ rest

pub data Argument : Type 0 where
  number : ℕ → Argument
  string : List ℕ → Argument

-- What the format reads next: its text, or a conversion after its sign, with the width so far.
pub data Mode : Type 0 where
  text : Mode
  conversion : (width : ℕ) → Mode

-- `puts(itoa(...))`.
abbrev pub put_string : Option (Option (ℕ × (ℕ → ℕ))) → St Console ℕ
put_string none = fault
put_string (some none) = fault
put_string (some (some (s, written))) = puts (string_at (65 - s) written s)

module _ (buffer : ℕ → ℕ) where
  unfoldable pub put_number : (n base width : ℕ) → St Console ℕ
  put_number n base width = put_string (itoa buffer n base width)

  -- Negative numbers are those from 2 ^ 31 on.
  unfoldable pub put_signed : (n width : ℕ) → St Console ℕ
  put_signed n width =
      if ltb n (2 ^ 31)
      then put_number n 10 width
      else putchar 45 >> put_number (2 ^ 32 - n) 10 width

  unfoldable pub put_argument : (base width : ℕ) → List Argument → St Console (List Argument)
  put_argument base width (Argument.number n ∷ args) = put_number n base width >> pure args
  put_argument base width (Argument.string str ∷ args) = fault
  put_argument base width [] = fault

  unfoldable pub put_signed_argument : (width : ℕ) → List Argument → St Console (List Argument)
  put_signed_argument width (Argument.number n ∷ args) = put_signed n width >> pure args
  put_signed_argument width (Argument.string str ∷ args) = fault
  put_signed_argument width [] = fault

  unfoldable pub put_string_argument : List Argument → St Console (List Argument)
  put_string_argument (Argument.string str ∷ args) = puts str >> pure args
  put_string_argument (Argument.number n ∷ args) = fault
  put_string_argument [] = fault

  -- The switch on the character of a conversion; the case of `o` goes on with that of `x`.
  unfoldable pub convert : (c width : ℕ) → List Argument → St Console (List Argument)
  convert c width args =
      if c == 105
      then put_signed_argument width args
      else if c == 117
      then put_argument 10 width args
      else if c == 111
      then put_argument 8 width args >>= put_argument 16 width
      else if c == 120
      then put_argument 16 width args
      else if c == 115
      then put_string_argument args
      else if c == 37
      then putchar 37 >> pure args
      else pure args

  -- A zero behind the sign is read as a digit is: the flag of the padding is not used.
  unfoldable pub printf_from : (format : List ℕ) → Mode → List Argument → St Console ℕ
  printf_from [] Mode.text args = pure 0
  printf_from [] (Mode.conversion width) args = fault
  printf_from (c ∷ format) Mode.text args =
      if c == 37
      then printf_from format (Mode.conversion 0) args
      else putchar c >> printf_from format Mode.text args
  printf_from (c ∷ format) (Mode.conversion width) args =
      if leb 48 c && leb c 57
      then printf_from format (Mode.conversion ((width * 10 + c - 48) % 2 ^ 32)) args
      else convert c width args >>= printf_from format Mode.text

  unfoldable pub printf : (format : List ℕ) → List Argument → St Console ℕ
  printf format args = printf_from format Mode.text args
