-- ===== src/Buffer/Next.antt =====
-- The reads of mc_buffer.c at a position.
use mcoap.Base.{
  ℕ, ◌+◌, ◌*◌, ◌<◌, ◌≡◌, some, List, [], ◌∷◌, ◌++◌, arith, length, add32, get_elem?-append,
  read_at-append, write_at-append,
}
use mcoap.Endian.{host, bytes_of_u16}
use mcoap.Buffer.{Buffer, next_uint8, next_uint16, next_uint32, next_ptr}

-- `mc_buffer_next_ptr` never returns null, however many bytes are asked for: its check compares an
-- unsigned difference with 0. It always moves the position.
pub next_ptr_lem :
    (buffer : Buffer) (len bpos : ℕ) → next_ptr buffer len bpos ≡ (some bpos, add32 bpos len)
unfolding next_ptr
next_ptr_lem buffer len bpos = ground arith

module _ (buffer : Buffer) (front back : List ℕ) where
  pub next_uint8_lem :
      (byte : ℕ)
      → buffer.bytes ≡ some (front ++ (byte ∷ back))
      → length front + 1 < 4294967296
      → next_uint8 buffer (length front) ≡ some (byte, length front + 1)
  unfolding next_uint8
  next_uint8_lem byte e small = ground (arith, get_elem?-append front byte back)

  pub next_uint32_lem :
      (a b c d : ℕ)
      → buffer.bytes ≡ some (front ++ ((a ∷ b ∷ c ∷ d ∷ []) ++ back))
      → length front + 4 < 4294967296
      → next_uint32 buffer (length front)
        ≡ some (a + b * 256 + c * 65536 + d * 16777216, length front + 4)
  unfolding next_uint32
  next_uint32_lem a b c d e small = ground (arith, read_at-append front (a ∷ b ∷ c ∷ d ∷ []) back)

  -- `mc_buffer_next_uint16` does not read the buffer: it returns what its local variable held and
  -- overwrites the two bytes at the position with that.
  pub next_uint16_lem :
      (result a b : ℕ)
      → buffer.bytes ≡ some (front ++ ((a ∷ b ∷ []) ++ back))
      → length front + 2 < 4294967296
      → next_uint16 result buffer (length front)
        ≡ some (
          result,
          length front + 2,
          record buffer { bytes = some (front ++ (bytes_of_u16 host result ++ back)) },
        )
  unfolding next_uint16
  next_uint16_lem result a b e small =
      ground (arith, write_at-append front (a ∷ b ∷ []) back (bytes_of_u16 host result))
