-- ===== src/Examples/Buffers.antt =====
-- Buffers.
use mcoap.Base.{◌+◌, ◌≤◌, ◌<◌, ◌≡◌, ◌⊎◌, refl, none, some, [], ◌∷◌, arith, take, drop, splice}
use mcoap.Buffer.{copy_to, next_uint16}
use mcoap.Buffer.Copy.{copy_to_lem, copy_to_wraps}
use mcoap.Buffer.Next.{next_uint16_lem}
use mcoap.Examples.Data.{empty_buffer, empty_buffer-Holds, zeros, received, received_buffer}

-- Three bytes of what was received, to the end of the empty buffer.
copy_to_lem_example :
    ((13 + 3 ≤ 16)
      × (5 + 3 ≤ 13)
      × (copy_to (some empty_buffer) 13 (some received_buffer) 5 3
          ≡ some (
              some (record empty_buffer {
                bytes = some (splice zeros 13 (take 3 (drop 5 received)));
              }))))
    ⊎ (((16 < 13 + 3) ⊎ (13 < 5 + 3))
        × (copy_to (some empty_buffer) 13 (some received_buffer) 5 3 ≡ some none))
copy_to_lem_example =
    copy_to_lem empty_buffer-Holds received_buffer (omega arith) (omega arith) 13 5 3 (omega arith)
      (omega arith)

copy_to_wraps_example : copy_to (some empty_buffer) 17 (some received_buffer) 0 4 ≡ none
copy_to_wraps_example =
    copy_to_wraps empty_buffer-Holds received_buffer (omega arith) (omega arith) 17 0 4 refl
      (omega arith) (omega arith) (omega arith) (omega arith)

next_uint16_lem_example :
    next_uint16 0xbeef (record { nbytes = 4; bytes = some (9 ∷ 1 ∷ 2 ∷ 8 ∷ []) }) 1
    ≡ some (0xbeef, 3, record { nbytes = 4; bytes = some (9 ∷ 0xef ∷ 0xbe ∷ 8 ∷ []) })
next_uint16_lem_example =
    next_uint16_lem (record { nbytes = 4; bytes = some (9 ∷ 1 ∷ 2 ∷ 8 ∷ []) }) (9 ∷ []) (8 ∷ [])
      0xbeef 1 2 refl (omega arith)
