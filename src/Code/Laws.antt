-- ===== src/Code/Laws.antt =====
-- The code byte splits into its category and its detail.
use mcoap.Base.{ℕ, ◌+◌, ◌*◌, ◌/◌, ◌%◌, ◌<◌, ◌≡◌, ap, arith, bit_and, bit_or, IsU8}
use mcoap.Base.Bits.{
  bit_and_field, bit_and_comm, bit_and_zero, bit_and_offset, bit_and_ones, bit_or_add,
}
use mcoap.Code.{create, get_category, get_detail, class_code}

high_bits : (x : ℕ) → bit_and 0xE0 x ≡ x / 32 % 8 * 32
high_bits x = bit_and_field 5 3 x

low_bits : (x : ℕ) → bit_and 0x1F x ≡ x % 32
low_bits x = bit_and_ones 5 x

high_field : (c : ℕ) → bit_and 0xE0 (c * 32) % 256 ≡ c % 8 * 32
high_field c = omega (arith, high_bits (c * 32))

join : (a b : ℕ) → bit_or (a * 32) (b % 32) ≡ a * 32 + b % 32
join a b = bit_or_add 5 (a * 32) (b % 32) (omega arith) (omega arith)

pub create_lem : (category detail : ℕ) → create category detail ≡ category % 8 * 32 + detail % 32
unfolding create
create_lem category detail =
    rw (high_field category, low_bits detail, join (category % 8) detail) (omega arith)

-- `mc_code_create` keeps the low 3 bits of the category and the low 5 of the detail, and the two
-- getters read them back, whatever the arguments.
pub get-create :
    (category detail : ℕ)
    → (get_category (create category detail) ≡ category % 8)
      × (get_detail (create category detail) ≡ detail % 32)
unfolding get_category get_detail
get-create category detail = rw (create_lem, high_bits, low_bits) (omega arith)

-- Every code byte is composed of its category and its detail.
create-get : (code : ℕ) → IsU8 code → create (get_category code) (get_detail code) ≡ code
unfolding get_category get_detail
create-get code h = rw (create_lem, high_bits, low_bits) (omega arith)

-- The response codes of mc_code.h are composed by `&`, so each is 0 and none is the code of its
-- category and detail.
pub class_code-eq-zero : (category detail : ℕ) → detail < 32 → class_code category detail ≡ 0
unfolding class_code
class_code-eq-zero category detail h =
    let none_left : detail / 32 ≡ 0 = omega arith in
    omega (
      arith,
      bit_and_offset 5 category detail,
      ap (bit_and category) none_left,
      bit_and_comm category 0,
      bit_and_zero category,
    )
