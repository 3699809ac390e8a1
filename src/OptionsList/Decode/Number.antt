-- ===== src/OptionsList/Decode/Number.antt =====
-- The part of mc_options_list.c that reads one option: its numbers, its length and its value.
use mcoap.Base.{
  ℕ, ◌+◌, ◌/◌, ◌^◌, Option, none, some, List, block_of, read_at, to_u16, bit_and, ltb, ◌==◌,
  if◌then◌else◌, ◌>>=◌,
}
use mcoap.Endian.{swap_u16}
use mcoap.Buffer
use mcoap.Buffer.{Buffer}
use mcoap.CoapOption
use mcoap.CoapOption.{CoapOption}

-- The result and the value.
unfoldable pub encoded_int_to_value : ℕ → ℕ → ℕ × ℕ
encoded_int_to_value head extended =
    if ltb head 13
    then (1, head)
    else if head == 13
    then (2, to_u16 (extended + 13))
    else if head == 14
    then (3, to_u16 (extended + 269))
    else (0, 0)

-- `junk` is what the local variable of `mc_buffer_next_uint16` holds, by the position of the call.
-- The result is the value, the position and the buffer, which that function writes to.
unfoldable pub option_num_from_buffer : (ℕ → ℕ) → Buffer → ℕ → ℕ → Option (ℕ × ℕ × Buffer)
unfolding encoded_int_to_value
option_num_from_buffer junk buffer prefix bpos =
    if prefix == 13
    then (do
      (extended, next) ← Buffer.next_uint8 buffer bpos
      some ((encoded_int_to_value prefix extended).1, next, buffer))
    else if prefix == 14
    then (do
      (result, next, buffer') ← Buffer.next_uint16 (to_u16 (junk bpos)) buffer bpos
      some ((encoded_int_to_value prefix (swap_u16 result)).1, next, buffer'))
    else some (prefix, bpos, buffer)

-- `ms_copy_uint8(optlen, optbytes)`, of a pointer into the buffer or null.
unfoldable pub copy_from : Buffer → Option ℕ → ℕ → Option (List ℕ)
copy_from buffer none len = read_at (block_of none) 0 len
copy_from buffer (some pos) len = read_at (block_of buffer.bytes) pos len

unfoldable pub option_from_buffer :
    (ℕ → ℕ) → CoapOption → Buffer → ℕ → ℕ → Option (Option CoapOption × ℕ × Buffer)
option_from_buffer junk option buffer prevnum bpos =
    if ltb buffer.nbytes 1 then some (none, bpos, buffer) else (do
      (byte, bpos1) ← Buffer.next_uint8 buffer bpos
      (delta, bpos2, buffer2) ← option_num_from_buffer junk buffer (byte / 2 ^ 4) bpos1
      (optlen, bpos3, buffer3) ← option_num_from_buffer junk buffer2 (bit_and byte 0x0f) bpos2
      let (optbytes, bpos4) = Buffer.next_ptr buffer3 optlen bpos3
      bytes ← copy_from buffer3 optbytes optlen
      some (
        some (CoapOption.init option (to_u16 (delta + prevnum)) optlen (some bytes)),
        bpos4,
        buffer3,
      ))
