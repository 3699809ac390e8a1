-- ===== src/Header/Fields.antt =====
-- The fields of a header: what `mc_header_create` packs, the getters read back.
use mcoap.Base.{ℕ, ◌+◌, ◌*◌, ◌/◌, ◌%◌, ◌<◌, ◌≡◌, arith, bit_and, bit_or, IsU32}
use mcoap.Base.Bits.{bit_and_field, bit_and_ones, bit_or_add}
use mcoap.Header.{create, get_version, get_message_type, get_token_length, get_code, get_message_id}

version_bits : (x : ℕ) → bit_and 0xC0000000 x ≡ x / 1073741824 % 4 * 1073741824
version_bits x = bit_and_field 30 2 x

mtype_bits : (x : ℕ) → bit_and 0x30000000 x ≡ x / 268435456 % 4 * 268435456
mtype_bits x = bit_and_field 28 2 x

tklen_bits : (x : ℕ) → bit_and 0x0F000000 x ≡ x / 16777216 % 16 * 16777216
tklen_bits x = bit_and_field 24 4 x

code_bits : (x : ℕ) → bit_and 0x00FF0000 x ≡ x / 65536 % 256 * 65536
code_bits x = bit_and_field 16 8 x

mid_bits : (x : ℕ) → bit_and 0x0000FFFF x ≡ x % 65536
mid_bits x = bit_and_ones 16 x

version_field : (x : ℕ) → bit_and 0xC0000000 (x * 1073741824 % 4294967296) ≡ x % 4 * 1073741824
version_field x = omega (arith, version_bits (x * 1073741824 % 4294967296))

mtype_field : (x : ℕ) → bit_and 0x30000000 (x * 268435456 % 4294967296) ≡ x % 4 * 268435456
mtype_field x = omega (arith, mtype_bits (x * 268435456 % 4294967296))

tklen_field : (x : ℕ) → bit_and 0x0F000000 (x * 16777216 % 4294967296) ≡ x % 16 * 16777216
tklen_field x = omega (arith, tklen_bits (x * 16777216 % 4294967296))

code_field : (x : ℕ) → bit_and 0x00FF0000 (x * 65536 % 4294967296) ≡ x % 256 * 65536
code_field x = omega (arith, code_bits (x * 65536 % 4294967296))

join_fields :
    (a b c d e : ℕ)
    → b < 4
    → c < 16
    → d < 256
    → e < 65536
    → bit_or
        (bit_or (bit_or (bit_or (a * 1073741824) (b * 268435456)) (c * 16777216)) (d * 65536))
        e
      ≡ a * 1073741824 + b * 268435456 + c * 16777216 + d * 65536 + e
join_fields a b c d e hb hc hd he = rw (
  bit_or_add 30 (a * 1073741824) (b * 268435456) (omega arith) (omega arith),
  bit_or_add 28 (a * 1073741824 + b * 268435456) (c * 16777216) (omega arith) (omega arith),
  bit_or_add 24 (a * 1073741824 + b * 268435456 + c * 16777216) (d * 65536) (omega arith)
      (omega arith),
  bit_or_add 16 (a * 1073741824 + b * 268435456 + c * 16777216 + d * 65536) e (omega arith)
      (omega arith),
)

-- Each argument of `mc_header_create` is cut to the width of its field.
pub create_lem :
    (version mtype tklen code mid : ℕ)
    → create version mtype tklen code mid
      ≡ version % 4 * 1073741824
        + mtype % 4 * 268435456
        + tklen % 16 * 16777216
        + code % 256 * 65536
        + mid % 65536
unfolding create
create_lem version mtype tklen code mid =
    rw (version_field version, mtype_field mtype, tklen_field tklen, code_field code, mid_bits mid)
      (join_fields (version % 4) (mtype % 4) (tklen % 16) (code % 256) (mid % 65536) (omega arith)
        (omega arith) (omega arith) (omega arith))

-- The getters read back what `mc_header_create` packed: each argument cut to its field's width.
pub fields-create :
    (version mtype tklen code mid : ℕ)
    → let header = create version mtype tklen code mid in
      (get_version header ≡ version % 4)
      × (get_message_type header ≡ mtype % 4)
      × (get_token_length header ≡ tklen % 16)
      × (get_code header ≡ code % 256)
      × (get_message_id header ≡ mid % 65536)
unfolding get_version get_message_type get_token_length get_code get_message_id
fields-create version mtype tklen code mid =
    rw (create_lem, version_bits, mtype_bits, tklen_bits, code_bits, mid_bits) (omega arith)

-- Every 32-bit header is composed of its five fields.
create-fields :
    (header : ℕ)
    → IsU32 header
    → create
        (get_version header)
        (get_message_type header)
        (get_token_length header)
        (get_code header)
        (get_message_id header)
      ≡ header
unfolding get_version get_message_type get_token_length get_code get_message_id
create-fields header h =
    rw (create_lem, version_bits, mtype_bits, tklen_bits, code_bits, mid_bits) (omega arith)
