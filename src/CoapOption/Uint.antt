-- ===== src/CoapOption/Uint.antt =====
-- Integer values of options: stored in network order, one, two or four bytes.
use mcoap.Base.{
  ℕ, ◌+◌, ◌*◌, ◌/◌, ◌%◌, ◌≡◌, ◌⊎◌, none, some, List, [], ◌∷◌, arith, IsU32, length, ltb,
  if◌then◌else◌,
}
use mcoap.Endian.Laws.{swap_u16_lem, swap_u32_lem}
use mcoap.CoapOption.{CoapOption, init_uint32, as_uint32}

-- A number in network order, in one, two or four bytes.
unfoldable pub network_uint : ℕ → List ℕ
network_uint value =
    if ltb value 256
    then value ∷ []
    else if ltb value 65536
    then (value / 256) ∷ (value % 256) ∷ []
    else (value / 16777216) ∷ (value / 65536 % 256) ∷ (value / 256 % 256) ∷ (value % 256) ∷ []

-- `mc_option_init_uint32` stores a 32-bit value in network order, in the fewest of one, two or four
-- bytes, under the number given.
init_uint32-network_uint :
    (option : CoapOption) (num value : ℕ)
    → IsU32 value
    → init_uint32 option num value ≡ record {
      option_num = num;
      value = record { nbytes = length (network_uint value); bytes = some (network_uint value) };
    }
unfolding init_uint32 network_uint
init_uint32-network_uint option num value h =
    ground (arith, swap_u16_lem (value % 65536), swap_u32_lem value)

-- `mc_option_as_uint32` reads back every 32-bit value that `mc_option_init_uint32` stored.
pub as_uint32-init_uint32 :
    (option : CoapOption) (num value : ℕ)
    → IsU32 value
    → as_uint32 (some (init_uint32 option num value)) ≡ some value
unfolding as_uint32 network_uint
as_uint32-init_uint32 option num value h = rw (init_uint32-network_uint option num value h) (
    ground (
      arith,
      swap_u16_lem (value / 256 + value % 256 * 256),
      swap_u32_lem (
          value / 16777216
          + value / 65536 % 256 * 256
          + value / 256 % 256 * 65536
          + value % 256 * 16777216),
    ))

-- A value of no byte or of three, as RFC 7252 allows for an integer, makes `mc_option_as_uint32` read
-- four bytes: outside a block of just that size.
pub as_uint32_overread :
    (option : CoapOption) (block : List ℕ)
    → option.value.bytes ≡ some block
    → option.value.nbytes ≡ length block
    → (length block ≡ 0) ⊎ (length block ≡ 3)
    → as_uint32 (some option) ≡ none
unfolding as_uint32
as_uint32_overread option block e n h = ground arith
