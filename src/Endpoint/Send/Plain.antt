-- ===== src/Endpoint/Send/Plain.antt =====
-- `mc_endpt_udp_send` of a message that is not to be confirmed.
use mcoap.Base.{
  ℕ, ◌≤◌, ◌<◌, ◌≡◌, inl, inr, refl, sym, subst, false, Option, some, List, [], ◌++◌, arith, length,
  take, drop, leb, le→leb, read_at, read_at-append, splice, block_of, if◌then◌else◌, lt→leb, IsU32,
}
use mcoap.Base.Int.{ℤ}
use mcoap.Base.Run.{ok}
use mcoap.Timeout
use mcoap.Sockaddr.{Sockaddr}
use mcoap.Buffer.{Buffer, Holds}
use mcoap.CoapOption.{CoapOption}
use mcoap.OptionsList.Encode.Format.{AllWritable}
use mcoap.OptionsList.Encode.Writes.{written, Holds-written}
use mcoap.Message
use mcoap.Message.{Message}
use mcoap.Message.Encode.{to_buffer}
use mcoap.Message.Encode.Wire.{wire, IsMessage}
use mcoap.Message.Encode.Writes.{to_buffer-wire}
use mcoap.Queue.{Ptr}
use mcoap.Endpoint.{Endpoint, sent, log}
use mcoap.Endpoint.Send.{Net, Slot, transmit, send_endpt_buffer, send}

-- The endpoint that has handed the bytes to the socket.
abbrev pub transmitted : Net → ℤ → Endpoint → List ℕ → Option Sockaddr → Endpoint
transmitted net now endpt bytes to =
    log (record endpt { tmout = Timeout.markstart now endpt.tmout })
      (sent bytes to (net endpt.trace bytes to))

pub transmit_lem :
    (net : Net) (now : ℤ) (endpt : Endpoint) (buffer : Buffer) (n : ℕ) (bytes : List ℕ)
    (to : Option Sockaddr)
    → read_at (block_of buffer.bytes) 0 n ≡ some bytes
    → transmit net now endpt buffer n to
      ≡ ok (net endpt.trace bytes to, transmitted net now endpt bytes to)
unfolding transmit
transmit_lem net now endpt buffer n bytes to e = rw e refl

-- A buffer that starts with the bytes.
pub record Starts (buffer : Buffer) (bytes : List ℕ) : Type 0 where
  pub block : List ℕ
  pub holds : Holds buffer block
  pub fits : length bytes ≤ buffer.nbytes
  pub reads : read_at block 0 (length bytes) ≡ some bytes

-- What the write buffer holds of a message whose bytes are `whole`: nothing if there is no room.
abbrev pub datagram : Buffer → List ℕ → List ℕ
datagram buffer whole = if leb (length whole) buffer.nbytes then whole else []

Starts-written :
    {buffer : Buffer} {block : List ℕ} (h : Holds buffer block) (bytes : List ℕ)
    → length bytes ≤ buffer.nbytes
    → Starts (written buffer block 0 bytes) bytes
Starts-written {buffer} {block} h bytes fits = record {
  block = splice block 0 bytes;
  holds = Holds-written h 0 bytes (omega (arith, fits));
  fits = fits;
  reads =
      subst (λ n. read_at (take 0 block ++ (bytes ++ drop n block)) 0 (length bytes) ≡ some bytes)
        (omega arith) (read_at-append [] bytes (drop (length bytes) block));
}

module _ {message : Message Sockaddr} {token : List ℕ} {options : List CoapOption}
    {payload : List ℕ} (m : IsMessage message token options payload) (w : AllWritable 0 options)
    (header_small : IsU32 message.header)
    (small : length (wire message.header token options payload) < 4294967296) where
  pub serialized :
      {buffer : Buffer} {block : List ℕ}
      → Holds buffer block
      → (buffer' : Buffer) × (to_buffer message buffer
          ≡ some (length (datagram buffer (wire message.header token options payload)), buffer'))
        × Starts buffer' (datagram buffer (wire message.header token options payload))
        × (buffer'.nbytes ≡ buffer.nbytes)
  serialized {buffer} {block} h =
      let bytes : List ℕ = wire message.header token options payload in
      elim (to_buffer-wire message token options payload m w header_small h small) [
        | inl (fits, e) ↦
            let yes : datagram buffer bytes ≡ bytes =
              rw (le→leb (length bytes) buffer.nbytes fits) refl in
            (
              written buffer block 0 bytes,
              rw yes e,
              subst (Starts (written buffer block 0 bytes)) (sym yes) (Starts-written h bytes fits),
              refl,
            )
        | inr (over, e) ↦
            let no : datagram buffer bytes ≡ [] =
              rw (lt→leb (length bytes) buffer.nbytes over) refl in
            (
              buffer,
              rw no e,
              subst (Starts buffer) (sym no) record {
                block = block;
                holds = h;
                fits = omega arith;
                reads = read_at-append [] [] block;
              },
              refl,
            )
      ]

  -- The write buffer is one of the same count afterwards.
  pub send-held :
      (net : Net) (slot : Slot) (endpt : Endpoint) (block : List ℕ) (to : Option Sockaddr)
      (resultfn : Ptr)
      → Holds endpt.wrbuffer block
      → Message.is_confirmable message ≡ false
      → (buffer : Buffer) × (send net slot endpt to message resultfn
          ≡ ok (
            net endpt.trace
                (datagram endpt.wrbuffer (wire message.header token options payload))
                to,
            transmitted net slot.sending
                (record endpt { wrbuffer = buffer })
                (datagram endpt.wrbuffer (wire message.header token options payload))
                to,
          ))
        × ((block' : List ℕ) × Holds buffer block')
        × (buffer.nbytes ≡ endpt.wrbuffer.nbytes)
  unfolding send send_endpt_buffer
  send-held net slot endpt block to resultfn h plain =
      let (buffer, e, starts, same) = serialized h in
      let bytes : List ℕ = datagram endpt.wrbuffer (wire message.header token options payload) in
      let reads : read_at (block_of buffer.bytes) 0 (length bytes) ≡ some bytes =
        rw starts.holds.bytes starts.reads in
      (
        buffer,
        rw
            (
              e,
              plain,
              transmit_lem net slot.sending (record endpt { wrbuffer = buffer }) buffer
                  (length bytes) bytes to reads,
            )
            refl,
        (starts.block, starts.holds),
        same,
      )

  -- A message that is not to be confirmed is handed to the socket in one datagram, its bytes as RFC 7252
  -- lays them out, and the socket's answer is returned; a message for which the write buffer has no room
  -- is not reported: an empty datagram is sent. Neither touches the queue, nor calls the result function.
  -- The format can hold the options, and the length is below 2 ^ 32.
  pub send-datagram :
      (net : Net) (slot : Slot) (endpt : Endpoint) (block : List ℕ) (to : Option Sockaddr)
      (resultfn : Ptr)
      → Holds endpt.wrbuffer block
      → Message.is_confirmable message ≡ false
      → (buffer : Buffer) × (send net slot endpt to message resultfn
          ≡ ok (
            net endpt.trace
                (datagram endpt.wrbuffer (wire message.header token options payload))
                to,
            transmitted net slot.sending
                (record endpt { wrbuffer = buffer })
                (datagram endpt.wrbuffer (wire message.header token options payload))
                to,
          ))
  send-datagram net slot endpt block to resultfn h plain =
      let (buffer, run, held, same) = send-held net slot endpt block to resultfn h plain in
      (buffer, run)
