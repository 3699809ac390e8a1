-- ===== src/Code.antt =====
-- mcoap/mc_code.c and mcoap/mc_code.h: the code byte, a category of 3 bits and a detail of 5.
pub mod Laws
use mcoap.Base.{ℕ, ◌*◌, ◌/◌, ◌^◌, bit_and, bit_or, to_u8}

-- MC_CODE_CATEGORY_MASK, MC_CODE_DETAIL_MASK
abbrev category_mask : ℕ
category_mask = 0xE0

abbrev detail_mask : ℕ
detail_mask = 0x1F

unfoldable pub create : ℕ → ℕ → ℕ
create category detail =
    let code = to_u8 (bit_and category_mask (category * 2 ^ 5)) in
    to_u8 (bit_or code (bit_and detail_mask detail))

unfoldable pub get_category : ℕ → ℕ
get_category code = to_u8 (bit_and category_mask code / 2 ^ 5)

unfoldable pub get_detail : ℕ → ℕ
get_detail code = to_u8 (bit_and detail_mask code)

-- MC_CODE_RESPONSE, MC_CLT_ERROR and MC_SRV_ERROR
abbrev pub response_category : ℕ
response_category = 2

abbrev pub client_error_category : ℕ
client_error_category = 4

abbrev pub server_error_category : ℕ
server_error_category = 5

-- MC_GET, MC_POST, MC_PUT, MC_DELETE
abbrev pub method_get : ℕ
method_get = 1

abbrev pub method_post : ℕ
method_post = 2

abbrev pub method_put : ℕ
method_put = 3

abbrev pub method_delete : ℕ
method_delete = 4

-- How the header composes each response code: `(category << 5) & detail`.
unfoldable pub class_code : ℕ → ℕ → ℕ
class_code category detail = bit_and (category * 2 ^ 5) detail

abbrev pub created : ℕ
unfolding class_code
created = class_code response_category 1

abbrev pub content : ℕ
unfolding class_code
content = class_code response_category 5

abbrev pub not_found : ℕ
unfolding class_code
not_found = class_code client_error_category 4
