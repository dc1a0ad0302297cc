-- ===== src/Strings.antt =====
-- src/string.c: the memory and string functions. A memory is its byte at each address; the code
-- converts addresses to `size_t`, of 32 bits, only in the tests of `memmove`.
-- `none` is a fault, or the model's fuel running out.
pub mod Copy
pub mod Scan
pub mod StringCopy
mod Tests
use quark_kernel.Base.{
  ℕ, zero, suc, ◌+◌, ◌-◌, ◌%◌, ◌^◌, ◌||◌, Option, none, some, ltb, leb, not, ◌==◌, if◌then◌else◌,
}
use quark_kernel.Base.Fault.{◌>>=◌}
use quark_kernel.Base.Int.{ℤ, pos, negsuc}

abbrev pub Memory : Type 0
Memory = ℕ → ℕ

abbrev pub poke : Memory → ℕ → ℕ → Memory
poke m p v q = if q == p then v else m q

-- The loop of `memcpy` from the index `i`, with `rounds` bytes left.
unfoldable pub copy_up : (rounds : ℕ) → Memory → ℕ → ℕ → ℕ → Memory
copy_up zero m dest src i = m
copy_up (suc rounds) m dest src i =
    copy_up rounds (poke m (dest + i) (m (src + i))) dest src (i + 1)

unfoldable pub memcpy : Memory → ℕ → ℕ → ℕ → Memory
memcpy m destination source num = if ltb 0 num then copy_up num m destination source 0 else m

-- The backward loop, at the index `i`, which ends when the index gets to 0. It starts above 0.
unfoldable pub copy_down : ℕ → Memory → ℕ → ℕ → Memory
copy_down zero m dest src = m
copy_down (suc i) m dest src = copy_down i (poke m (dest + suc i) (m (src + suc i))) dest src

unfoldable pub memmove : Memory → ℕ → ℕ → ℕ → Memory
memmove m destination source num =
    if ltb 0 num
    then (if ltb destination source || leb ((source + num) % 2 ^ 32) destination
        then memcpy m destination source num
        else if not (destination == source)
        then copy_down (num - 1) m destination source
        else m)
    else m

-- The loop of `memcmp` from the index `i`, with `rounds` bytes left.
unfoldable pub compare_from : (rounds : ℕ) → Memory → ℕ → ℕ → ℕ → ℤ
compare_from zero m a b i = pos 0
compare_from (suc rounds) m a b i =
    let rest = compare_from rounds m a b (i + 1) in
    if ltb (m (a + i)) (m (b + i))
    then negsuc 0
    else if ltb (m (b + i)) (m (a + i))
    then pos 1
    else rest

unfoldable pub memcmp : Memory → ℕ → ℕ → ℕ → ℤ
memcmp m ptr1 ptr2 num = compare_from num m ptr1 ptr2 0

-- The loop of `memset` from the index `i`, with `rounds` bytes left.
unfoldable pub fill_from : (rounds : ℕ) → Memory → ℕ → ℕ → ℕ → Memory
fill_from zero m dest v i = m
fill_from (suc rounds) m dest v i = fill_from rounds (poke m (dest + i) v) dest v (i + 1)

-- The value is an `int`, given as an `unsigned int`, and is cut to a byte.
unfoldable pub memset : Memory → ℕ → ℕ → ℕ → Memory
memset m ptr value num = fill_from num m ptr (value % 2 ^ 8) 0

-- The loop of `strlen` from the index `i`, an `int`, whose overflow is undefined in C: a fault.
unfoldable pub strlen_from : (fuel : ℕ) → Memory → ℕ → ℕ → Option ℕ
strlen_from zero m str i = none
strlen_from (suc fuel) m str i =
    let rest = strlen_from fuel m str (i + 1) in
    if m (str + i) == 0 then some i else if ltb (i + 1) (2 ^ 31) then rest else none

unfoldable pub strlen : (fuel : ℕ) → Memory → ℕ → Option ℕ
strlen fuel m str = strlen_from fuel m str 0

-- The forward loop of `strcpy`, where both pointers are `i` bytes on.
unfoldable pub strcpy_from : (fuel : ℕ) → Memory → ℕ → ℕ → ℕ → Option Memory
strcpy_from zero m dest src i = none
strcpy_from (suc fuel) m dest src i =
    let m' = poke m (dest + i) (m (src + i)) in
    let rest = strcpy_from fuel m' dest src (i + 1) in if m' (src + i) == 0 then some m' else rest

-- The backward loop is that of `memmove`: there the string is not empty.
unfoldable pub strcpy : (fuel : ℕ) → Memory → ℕ → ℕ → Option Memory
strcpy fuel m destination source = do
  source_len ← strlen fuel m source
  if leb destination source || ltb (source + source_len) destination
      then strcpy_from fuel m destination source 0
      else some (copy_down source_len m destination source)
