-- ===== src/Examples/Words.antt =====
-- Words, codes, headers, tokens and integer values of options.
use mcoap.Base.{◌≡◌, inr, refl, none, some, [], ◌∷◌, arith}
use mcoap.CoapOption.{init_uint32, as_uint32}
use mcoap.CoapOption.Uint.{as_uint32-init_uint32, as_uint32_overread}
use mcoap.Examples.Data.{uri_path}

as_uint32-init_uint32_example : as_uint32 (some (init_uint32 uri_path 12 500)) ≡ some 500
as_uint32-init_uint32_example = as_uint32-init_uint32 uri_path 12 500 (omega arith)

as_uint32_overread_example : as_uint32 (some uri_path) ≡ none
as_uint32_overread_example = as_uint32_overread uri_path (97 ∷ 98 ∷ 99 ∷ []) refl refl (inr refl)
