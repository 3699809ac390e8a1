-- ===== src/Header.antt =====
-- mcoap/mc_header.c: the 32 bits of a message header.
pub mod Fields
use mcoap.Base.{ℕ, ◌*◌, ◌/◌, ◌%◌, ◌^◌, bit_and, bit_or, to_u8, to_u16, u32_mod}

-- VERSION_MASK, MTYPE_MASK, TKLEN_MASK, CODE_MASK, MID_MASK
abbrev version_mask : ℕ
version_mask = 0xC0000000

abbrev mtype_mask : ℕ
mtype_mask = 0x30000000

abbrev tklen_mask : ℕ
tklen_mask = 0x0F000000

abbrev code_mask : ℕ
code_mask = 0x00FF0000

abbrev mid_mask : ℕ
mid_mask = 0x0000FFFF

-- `x << k` on 32 bits.
abbrev shl32 : ℕ → ℕ → ℕ
shl32 x k = x * 2 ^ k % u32_mod

unfoldable pub create : ℕ → ℕ → ℕ → ℕ → ℕ → ℕ
create version message_type token_len code message_id =
    let header = bit_and version_mask (shl32 version 30) in
    let header = bit_or header (bit_and mtype_mask (shl32 message_type 28)) in
    let header = bit_or header (bit_and tklen_mask (shl32 token_len 24)) in
    let header = bit_or header (bit_and code_mask (shl32 code 16)) in
    bit_or header (bit_and mid_mask message_id)

unfoldable pub get_version : ℕ → ℕ
get_version header = to_u8 (bit_and version_mask header / 2 ^ 30)

unfoldable pub get_message_type : ℕ → ℕ
get_message_type header = to_u8 (bit_and mtype_mask header / 2 ^ 28)

unfoldable pub get_token_length : ℕ → ℕ
get_token_length header = to_u8 (bit_and tklen_mask header / 2 ^ 24)

unfoldable pub get_code : ℕ → ℕ
get_code header = to_u8 (bit_and code_mask header / 2 ^ 16)

unfoldable pub get_message_id : ℕ → ℕ
get_message_id header = to_u16 (bit_and mid_mask header)
