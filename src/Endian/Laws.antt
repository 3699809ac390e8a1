-- ===== src/Endian/Laws.antt =====
-- The swaps as arithmetic, and what they do to the bytes in memory.
use mcoap.Base.{ℕ, ◌+◌, ◌*◌, ◌/◌, ◌%◌, ◌^◌, ◌<◌, ◌≡◌, refl, arith, bit_and, IsU16, IsU32}
use mcoap.Base.Bits.{bit_and_low}
use mcoap.Endian.{
  Endian, little, big, bytes_of_u16, bytes_of_u32, bytes_of_u64, swap_u16, swap_u32, swap_u64,
  hton64, ntoh64, is_littleendian,
}

low_byte : (x : ℕ) → bit_and x 0xff ≡ x % 256
low_byte x = bit_and_low 8 x

pub swap_u16_lem : (i : ℕ) → swap_u16 i ≡ i % 256 * 256 + i / 256 % 256
unfolding swap_u16
swap_u16_lem i = simp low_byte (omega arith)

pub swap_u32_lem :
    (i : ℕ)
    → swap_u32 i
      ≡ i % 256 * 16777216 + i / 256 % 256 * 65536 + i / 65536 % 256 * 256 + i / 16777216 % 256
unfolding swap_u32
swap_u32_lem i = simp low_byte (omega arith)

pub swap_u64_lem :
    (i : ℕ)
    → swap_u64 i
      ≡ i % 256 * 2 ^ 56
        + i / 2 ^ 8 % 256 * 2 ^ 48
        + i / 2 ^ 16 % 256 * 2 ^ 40
        + i / 2 ^ 24 % 256 * 2 ^ 32
        + i / 2 ^ 32 % 256 * 2 ^ 24
        + i / 2 ^ 40 % 256 * 2 ^ 16
        + i / 2 ^ 48 % 256 * 2 ^ 8
        + i / 2 ^ 56 % 256
unfolding swap_u64
swap_u64_lem i = simp low_byte (omega arith)

pub swap_u16-swap_u16 : (i : ℕ) → IsU16 i → swap_u16 (swap_u16 i) ≡ i
swap_u16-swap_u16 i h = simp swap_u16_lem (omega arith)

pub swap_u32-swap_u32 : (i : ℕ) → IsU32 i → swap_u32 (swap_u32 i) ≡ i
swap_u32-swap_u32 i h = simp swap_u32_lem (omega arith)

pub swap_u64-swap_u64 : (i : ℕ) → i < 2 ^ 64 → swap_u64 (swap_u64 i) ≡ i
swap_u64-swap_u64 i h = simp swap_u64_lem (omega arith)

-- On a little-endian host the swapped word lies in memory in network order.
pub bytes_of_u16-swap_u16 :
    (v : ℕ) → IsU16 v → bytes_of_u16 little (swap_u16 v) ≡ bytes_of_u16 big v
bytes_of_u16-swap_u16 v h = simp swap_u16_lem (ground arith)

pub bytes_of_u32-swap_u32 :
    (v : ℕ) → IsU32 v → bytes_of_u32 little (swap_u32 v) ≡ bytes_of_u32 big v
bytes_of_u32-swap_u32 v h = simp swap_u32_lem (ground arith)

-- On either kind of host `ms_hton64` leaves the value in memory in network order, most significant
-- byte first, and `ms_ntoh64` takes it back.
pub hton64_network :
    (e : Endian) (v : ℕ)
    → v < 2 ^ 64
    → (bytes_of_u64 e (hton64 e v) ≡ bytes_of_u64 big v) × (ntoh64 e (hton64 e v) ≡ v)
unfolding hton64 ntoh64 is_littleendian
hton64_network little v h = (simp swap_u64_lem (ground arith), swap_u64-swap_u64 v h)
hton64_network big v h = (refl, refl)
