-- ===== src/Buffer.antt =====
-- mcoap/mc_buffer.c: a buffer is a count and a block of memory, read through a position.
-- Blocks are values; an allocation always succeeds. A result `none` is a fault: an access outside the
-- block. An inner `none` is a returned null pointer.
pub mod Copy
pub mod Next
use mcoap.Base.{
  ℕ, ◌+◌, ◌≤◌, ◌≡◌, Option, none, some, List, [], ◌∷◌, length, get_elem?, replicate, read_at,
  write_at, block_of, add32, sub32, ltb, ◌==◌, if◌then◌else◌, ◌>>=◌, IsU32,
}
use mcoap.Endian.{host, bytes_of_u16, u32_of_bytes}

-- `mc_buffer_t`
pub record Buffer : Type 0 where
  pub nbytes : ℕ
  pub bytes : Option (List ℕ)

-- `ms_calloc(1, mc_buffer_t)`
unfoldable pub alloc : Buffer
alloc = record { nbytes = 0; bytes = none }

-- `ms_calloc(count, uint8_t)`
abbrev pub calloc : ℕ → List ℕ
calloc count = replicate count 0

unfoldable pub init : Buffer → ℕ → Option (List ℕ) → Buffer
init buffer nbytes bytes = record buffer { nbytes = nbytes; bytes = bytes }

unfoldable pub deinit : Buffer → Buffer
deinit buffer = record buffer { nbytes = 0; bytes = none }

-- Each of the reads returns the value and the new position.
unfoldable pub next_uint8 : Buffer → ℕ → Option (ℕ × ℕ)
next_uint8 buffer bpos = do byte ← get_elem? (block_of buffer.bytes) bpos; some (byte, add32 bpos 1)

-- `memcpy(&(buffer->bytes[*bpos]), &result, 2)` copies from the local variable, whose content
-- `result` is whatever the stack held, into the buffer.
unfoldable pub next_uint16 : ℕ → Buffer → ℕ → Option (ℕ × ℕ × Buffer)
next_uint16 result buffer bpos = do
  block ← write_at (block_of buffer.bytes) bpos (bytes_of_u16 host result)
  some (result, add32 bpos 2, record buffer { bytes = some block })

unfoldable pub next_uint32 : Buffer → ℕ → Option (ℕ × ℕ)
next_uint32 buffer bpos = do
  four ← read_at (block_of buffer.bytes) bpos 4
  result ← u32_of_bytes host four
  some (result, add32 bpos 4)

-- A pointer into the block is its offset there. The unsigned difference is compared with 0.
unfoldable pub next_ptr : Buffer → ℕ → ℕ → Option ℕ × ℕ
next_ptr buffer len bpos =
    if ltb (sub32 (sub32 buffer.nbytes len) bpos) 0
    then (none, bpos)
    else (some bpos, add32 bpos len)

-- the static `copy_to`, without size checks
unfoldable pub copy_bytes : Buffer → ℕ → Buffer → ℕ → ℕ → Option Buffer
copy_bytes dest dpos src spos nbytes = if nbytes == 0 then some dest else (do
  bytes ← read_at (block_of src.bytes) spos nbytes
  block ← write_at (block_of dest.bytes) dpos bytes
  some (record dest { bytes = some block }))

-- The result is the returned pointer with what it points to.
unfoldable pub copy_to : Option Buffer → ℕ → Option Buffer → ℕ → ℕ → Option (Option Buffer)
copy_to none dpos src spos nbytes = some none
copy_to (some dest) dpos none spos nbytes = some (some dest)
copy_to (some dest) dpos (some src) spos nbytes =
    if ltb (sub32 dest.nbytes dpos) nbytes
    then some none
    else if ltb (sub32 src.nbytes spos) nbytes
    then some none
    else (do dest' ← copy_bytes dest dpos src spos nbytes; some (some dest'))

unfoldable pub copy : Option Buffer → ℕ → ℕ → Option (Option Buffer)
copy none spos nbytes = some none
copy (some src) spos nbytes = if ltb (sub32 src.nbytes spos) nbytes then some none else (do
  result ← copy_bytes (init alloc nbytes (some (calloc nbytes))) 0 src spos nbytes
  some (some result))

-- The buffer's block is `block`, and its count lies within it.
pub record Holds (buffer : Buffer) (block : List ℕ) : Type 0 where
  pub bytes : buffer.bytes ≡ some block
  pub within : buffer.nbytes ≤ length block
  pub small : IsU32 buffer.nbytes
