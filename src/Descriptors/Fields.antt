-- ===== src/Descriptors/Fields.antt =====
-- A segment descriptor as the processor reads it: the 64 bits of the entry, and the fields that
-- the processor's manual takes from them.
use quark_kernel.Base.{ℕ, ◌+◌, ◌*◌, ◌/◌, ◌%◌, ◌^◌, ◌<◌, ◌≡◌, arith}
use quark_kernel.Descriptors.{
  GdtEntry, SegmentType, kernel_code, kernel_data, user_code, user_data, tss,
}
use quark_kernel.Descriptors.Encode.{create_segment_descriptor}

-- The bits of the packed structure, the first field lowest.
unfoldable pub segment_bits : GdtEntry → ℕ
segment_bits d =
    d.limit_low
    + 2 ^ 16 * d.base_low
    + 2 ^ 40 * d.accessed
    + 2 ^ 41 * d.read_write
    + 2 ^ 42 * d.conforming_expand_down
    + 2 ^ 43 * d.code
    + 2 ^ 44 * d.code_data_segment
    + 2 ^ 45 * d.dpl
    + 2 ^ 47 * d.present
    + 2 ^ 48 * d.limit_high
    + 2 ^ 52 * d.available
    + 2 ^ 53 * d.long_mode
    + 2 ^ 54 * d.big
    + 2 ^ 55 * d.granularity
    + 2 ^ 56 * d.base_high

abbrev pub base_of : ℕ → ℕ
base_of d = d / 2 ^ 16 % 2 ^ 24 + 2 ^ 24 * (d / 2 ^ 56 % 2 ^ 8)

abbrev pub limit_of : ℕ → ℕ
limit_of d = d % 2 ^ 16 + 2 ^ 16 * (d / 2 ^ 48 % 2 ^ 4)

-- The byte of the type, the privilege level and the present bit.
abbrev pub access_of : ℕ → ℕ
access_of d = d / 2 ^ 40 % 2 ^ 8

-- The four bits over the limit: available, long mode, size and granularity.
abbrev pub flag_field : ℕ → ℕ
flag_field d = d / 2 ^ 52 % 2 ^ 4

-- The bytes that the manual gives for each kind of segment: present, level 0 or 3, code that can
-- be read or data that can be written; a 32-bit task state with the busy bit off.
unfoldable pub access_byte : SegmentType → ℕ
access_byte kernel_code = 0x9A
access_byte kernel_data = 0x92
access_byte user_code = 0xFA
access_byte user_data = 0xF2
access_byte tss = 0xE9

unfoldable pub flag_bits : SegmentType → ℕ
flag_bits kernel_code = 0xC
flag_bits kernel_data = 0xC
flag_bits user_code = 0xC
flag_bits user_data = 0xC
flag_bits tss = 0

pub record Described (base limit : ℕ) (type : SegmentType) (d : ℕ) : Type 0 where
  pub its_base : base_of d ≡ base
  pub its_limit : limit_of d ≡ limit
  pub its_access : access_of d ≡ access_byte type
  pub its_flags : flag_field d ≡ flag_bits type

-- The fields, with the access byte and the flags in one.
word : (l b a h f k : ℕ) → ℕ
word l b a h f k = l + 2 ^ 16 * b + 2 ^ 40 * a + 2 ^ 48 * h + 2 ^ 52 * f + 2 ^ 56 * k

module _ (l b a h f k : ℕ) (l' : l < 2 ^ 16) (b' : b < 2 ^ 24) (a' : a < 2 ^ 8) (h' : h < 2 ^ 4)
    (f' : f < 2 ^ 4) (k' : k < 2 ^ 8) where
  word-parts :
      (word l b a h f k % 2 ^ 16 ≡ l)
      × (word l b a h f k / 2 ^ 16 % 2 ^ 24 ≡ b)
      × (word l b a h f k / 2 ^ 40 % 2 ^ 8 ≡ a)
      × (word l b a h f k / 2 ^ 48 % 2 ^ 4 ≡ h)
      × (word l b a h f k / 2 ^ 52 % 2 ^ 4 ≡ f)
      × (word l b a h f k / 2 ^ 56 % 2 ^ 8 ≡ k)
  unfolding word
  word-parts = omega arith

-- Each kind of segment gets its access byte and flags.
segment_bits-word :
    (d : GdtEntry) (base limit : ℕ) (type : SegmentType)
    → segment_bits (create_segment_descriptor d base limit type)
      ≡ word
          (limit % 2 ^ 16)
          (base % 2 ^ 24)
          (access_byte type)
          (limit / 2 ^ 16 % 2 ^ 4)
          (flag_bits type)
          (base / 2 ^ 24 % 2 ^ 8)
unfolding segment_bits create_segment_descriptor word access_byte flag_bits
segment_bits-word d base limit kernel_code = omega arith
segment_bits-word d base limit kernel_data = omega arith
segment_bits-word d base limit user_code = omega arith
segment_bits-word d base limit user_data = omega arith
segment_bits-word d base limit tss = omega arith

access_byte-lt : (type : SegmentType) → (access_byte type < 2 ^ 8) × (flag_bits type < 2 ^ 4)
unfolding access_byte flag_bits
access_byte-lt kernel_code = omega arith
access_byte-lt kernel_data = omega arith
access_byte-lt user_code = omega arith
access_byte-lt user_data = omega arith
access_byte-lt tss = omega arith

-- Whatever the entry held, the processor reads from the 64 bits of a new segment descriptor the
-- base and the limit that were given, and the access byte and flags of the kind of segment. The
-- base has 32 bits and the limit 20.
pub create_segment_descriptor-Described :
    (d : GdtEntry) (base limit : ℕ) (type : SegmentType)
    → base < 2 ^ 32
    → limit < 2 ^ 20
    → Described base limit type (segment_bits (create_segment_descriptor d base limit type))
create_segment_descriptor-Described d base limit type b l =
    let parts =
      word-parts (limit % 2 ^ 16) (base % 2 ^ 24) (access_byte type) (limit / 2 ^ 16 % 2 ^ 4)
        (flag_bits type) (base / 2 ^ 24 % 2 ^ 8) (omega arith) (omega arith) (access_byte-lt type).0
        (omega arith) (access_byte-lt type).1 (omega arith) in
    rw (segment_bits-word d base limit type) (record {
      its_base = omega (arith, parts);
      its_limit = omega (arith, parts);
      its_access = parts.2;
      its_flags = parts.4;
    })
