-- ===== src/Message/Encode.antt =====
-- The part of mc_message.c that writes a message into a buffer.
pub mod Wire
pub mod Writes
use mcoap.Base.{
  ℕ, ◌+◌, Option, none, some, List, [], ◌∷◌, block_of, write_at, add32, ltb, if◌then◌else◌, ◌>>=◌,
}
use mcoap.Endian.{host, bytes_of_u32, swap_u32}
use mcoap.Buffer
use mcoap.Buffer.{Buffer}
use mcoap.OptionsList
use mcoap.OptionsList.Encode.{Out}
use mcoap.OptionsList.Encode
use mcoap.Message.{Message}

-- The marker and the payload, if there are payload bytes.
unfoldable pub payload_size : Option Buffer → ℕ → ℕ
payload_size none size = size
payload_size (some payload) size =
    if ltb 0 payload.nbytes then add32 (add32 size 1) payload.nbytes else size

-- The last part of `mc_message_to_buffer`: the marker, the payload, the number of bytes written.
unfoldable pub payload_to_buffer : Option Buffer → Buffer → ℕ → Option (ℕ × Buffer)
payload_to_buffer none buffer bpos = some (bpos, buffer)
payload_to_buffer (some payload) buffer bpos =
    if ltb 0 payload.nbytes
    then (do
      block ← write_at (block_of buffer.bytes) bpos (0xff ∷ [])
      let marked = record buffer { bytes = some block }
      copied ← Buffer.copy_to (some marked) (add32 bpos 1) (some payload) 0 payload.nbytes
      some (elim copied [
        | none ↦ (0, marked)
        | some whole ↦ (add32 (add32 bpos 1) payload.nbytes, whole)
      ]))
    else some (bpos, buffer)

module _ {Addr : Type 0} where
  unfoldable pub buffer_size : Option (Message Addr) → Option ℕ
  buffer_size none = some 0
  buffer_size (some message) = do
    token ← message.token
    options ← OptionsList.buffer_size message.options
    some (payload_size message.payload (add32 (add32 4 token.nbytes) options))

  -- The token, the options and the payload, behind the header.
  unfoldable pub body_to_buffer : Message Addr → Buffer → Buffer → Option (ℕ × Buffer)
  body_to_buffer message token buffer = do
    copied ← Buffer.copy_to (some buffer) 4 (some token) 0 token.nbytes
    elim copied [
      | none ↦ some (0, buffer)
      | some buffer' ↦ (do
        out ← Encode.to_buffer message.options buffer' (some (add32 4 token.nbytes))
        if out.done
            then payload_to_buffer message.payload out.buffer out.bpos
            else some (0, out.buffer))
    ]

  -- The number of bytes written, 0 for a failure, and the buffer.
  unfoldable pub to_buffer : Message Addr → Buffer → Option (ℕ × Buffer)
  to_buffer message buffer = do
    size ← buffer_size (some message)
    token ← message.token
    if ltb buffer.nbytes size then some (0, buffer) else (do
      block ← write_at (block_of buffer.bytes) 0 (bytes_of_u32 host (swap_u32 message.header))
      body_to_buffer message token (record buffer { bytes = some block }))
