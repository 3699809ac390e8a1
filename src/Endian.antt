-- ===== src/Endian.antt =====
-- msys/ms_endian.c: byte swaps, and how a word lies in memory on either kind of platform.
pub mod Laws
use mcoap.Base.{
  ℕ, ◌+◌, ◌*◌, ◌/◌, ◌%◌, ◌^◌, Option, none, some, List, [], ◌∷◌, ◌++◌, Bool, bit_and, to_u8, to_u16,
  u32_mod, u64_mod, ◌==◌, if◌then◌else◌,
}

-- The byte order of the platform.
pub data Endian : Type 0 where
  little big : Endian

-- The platforms that the library is built for (Windows and Linux on x86) are little-endian; the
-- modules that lay words out in memory are about those.
abbrev pub host : Endian
host = Endian.little

-- The bytes of a `uint16_t` and of a `uint32_t` in memory, and back.
abbrev pub bytes_of_u16 : Endian → ℕ → List ℕ
bytes_of_u16 Endian.little v = (v % 256) ∷ (v / 256 % 256) ∷ []
bytes_of_u16 Endian.big v = (v / 256 % 256) ∷ (v % 256) ∷ []

abbrev pub bytes_of_u32 : Endian → ℕ → List ℕ
bytes_of_u32 Endian.little v =
    (v % 256) ∷ (v / 256 % 256) ∷ (v / 65536 % 256) ∷ (v / 16777216 % 256) ∷ []
bytes_of_u32 Endian.big v =
    (v / 16777216 % 256) ∷ (v / 65536 % 256) ∷ (v / 256 % 256) ∷ (v % 256) ∷ []

abbrev pub u16_of_bytes : Endian → List ℕ → Option ℕ
u16_of_bytes Endian.little (a ∷ b ∷ []) = some (a + b * 256)
u16_of_bytes Endian.big (a ∷ b ∷ []) = some (a * 256 + b)
u16_of_bytes _ _ = none

abbrev pub u32_of_bytes : Endian → List ℕ → Option ℕ
u32_of_bytes Endian.little (a ∷ b ∷ c ∷ d ∷ []) = some (a + b * 256 + c * 65536 + d * 16777216)
u32_of_bytes Endian.big (a ∷ b ∷ c ∷ d ∷ []) = some (a * 16777216 + b * 65536 + c * 256 + d)
u32_of_bytes _ _ = none

abbrev pub bytes_of_u64 : Endian → ℕ → List ℕ
bytes_of_u64 Endian.little v =
    bytes_of_u32 Endian.little (v % u32_mod) ++ bytes_of_u32 Endian.little (v / u32_mod)
bytes_of_u64 Endian.big v =
    bytes_of_u32 Endian.big (v / u32_mod) ++ bytes_of_u32 Endian.big (v % u32_mod)

abbrev first_byte : List ℕ → ℕ
first_byte [] = 0
first_byte (b ∷ _) = b

-- `*(char *)&x == 1` for the `int` 1: the first byte of its representation.
unfoldable pub is_littleendian : Endian → Bool
is_littleendian e = first_byte (bytes_of_u32 e 1) == 1

-- Each byte is masked out as in the source: `(i >> 8) & 0xFF`.
abbrev byte_at : ℕ → ℕ → ℕ
byte_at i shift = to_u8 (bit_and (i / 2 ^ shift) 0xff)

unfoldable pub swap_u16 : ℕ → ℕ
swap_u16 i = let c1 = to_u8 (bit_and i 0xff) in let c2 = byte_at i 8 in to_u16 (c1 * 2 ^ 8 + c2)

unfoldable pub swap_u32 : ℕ → ℕ
swap_u32 i =
    let c1 = to_u8 (bit_and i 0xff) in
    let c2 = byte_at i 8 in
    let c3 = byte_at i 16 in
    let c4 = byte_at i 24 in (c1 * 2 ^ 24 + c2 * 2 ^ 16 + c3 * 2 ^ 8 + c4) % u32_mod

unfoldable pub swap_u64 : ℕ → ℕ
swap_u64 i =
    let c1 = to_u8 (bit_and i 0xff) in
    let c2 = byte_at i 8 in
    let c3 = byte_at i 16 in
    let c4 = byte_at i 24 in
    let c5 = byte_at i 32 in
    let c6 = byte_at i 40 in
    let c7 = byte_at i 48 in
    let c8 = byte_at i 56 in
    (c1 * 2 ^ 56
      + c2 * 2 ^ 48
      + c3 * 2 ^ 40
      + c4 * 2 ^ 32
      + c5 * 2 ^ 24
      + c6 * 2 ^ 16
      + c7 * 2 ^ 8
      + c8)
    % u64_mod

unfoldable pub hton64 : Endian → ℕ → ℕ
hton64 e value = if is_littleendian e then swap_u64 value else value

unfoldable pub ntoh64 : Endian → ℕ → ℕ
ntoh64 e value = if is_littleendian e then swap_u64 value else value
