-- ===== src/Message/Decode.antt =====
-- The part of mc_message.c that reads a message from a buffer.
pub mod Reads
use mcoap.Base.{
  ℕ, ◌-◌, Option, none, some, block_of, get_elem?, add32, sub32, ltb, ◌==◌, if◌then◌else◌, ◌>>=◌,
}
use mcoap.Base.Run
use mcoap.Base.Run.{Run, ok, lift}
use mcoap.Endian.{swap_u32}
use mcoap.Header
use mcoap.Buffer
use mcoap.Buffer.{Buffer}
use mcoap.OptionsList
use mcoap.OptionsList.{Qsort, position}
use mcoap.OptionsList.Decode
use mcoap.OptionsList.Decode.Number.{copy_from}
use mcoap.Message.{Message}

unfoldable pub token_from_buffer : Buffer → ℕ → ℕ → Option (Buffer × ℕ)
token_from_buffer buffer tklen bpos = do
  let (tkdata, bpos') = Buffer.next_ptr buffer tklen bpos
  bytes ← copy_from buffer tkdata tklen
  some (Buffer.init Buffer.alloc tklen (some bytes), bpos')

module _ {Addr : Type 0} where
  -- The last part of `mc_message_from_buffer`, with the header, the token and the options read. The
  -- result is the returned pointer with what it points to, the position and the buffer.
  unfoldable pub payload_from_buffer :
      Message Addr → Buffer → ℕ → Option (Option (Message Addr) × ℕ × Buffer)
  payload_from_buffer message buffer bpos =
      let remaining = sub32 buffer.nbytes bpos in
      if ltb 1 remaining
      then (do
        marker ← get_elem? (block_of buffer.bytes) bpos
        let bpos' = add32 bpos 1
        let pllen = remaining - 1
        if marker == 0xff
            then (do
              let payload = Buffer.init Buffer.alloc pllen (some (Buffer.calloc pllen))
              copied ← Buffer.copy_to (some payload) 0 (some buffer) bpos' pllen
              some (elim copied [
                | none ↦ (none, bpos', buffer)
                | some filled ↦
                    (some (record message { payload = some filled }), add32 bpos' pllen, buffer)
              ]))
            else some (none, bpos, buffer))
      else some (some message, bpos, buffer)

  unfoldable pub from_buffer :
      Qsort
      → (ℕ → ℕ)
      → (ℕ → ℕ)
      → Option (Message Addr)
      → Option Buffer
      → Option ℕ
      → Run (Option (Message Addr) × ℕ × Option Buffer)
  from_buffer qsort counting reading none buffer start = ok (none, position start, buffer)
  from_buffer qsort counting reading (some message) none start = ok (none, position start, none)
  from_buffer qsort counting reading (some message) (some buffer) start =
      if ltb buffer.nbytes 4
      then ok (none, position start, some buffer)
      else Run.◌>>=◌ (lift (Buffer.next_uint32 buffer (position start))) (λ (raw, bpos).
        let header = swap_u32 raw in
        Run.◌>>=◌ (lift (token_from_buffer buffer (Header.get_token_length header) bpos))
          (λ (token, bpos').
            Run.◌>>=◌
              (Decode.from_buffer qsort counting reading OptionsList.alloc buffer (some bpos'))
              (λ read.
                Run.◌>>=◌
                  (lift (
                    payload_from_buffer
                      (record message { header = header; token = some token; options = read.list })
                      read.buffer read.bpos))
                  (λ (result, end, buffer'). ok (result, end, some buffer')))))
