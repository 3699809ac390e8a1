-- ===== src/Endpoint/Receive/Datagram.antt =====
-- Receiving a datagram that holds a message.
use mcoap.Base.{
  ℕ, ◌+◌, ◌≤◌, ◌<◌, ◌≡◌, ◌⊎◌, inl, inr, refl, true, false, none, some, List, ◌++◌, arith, length,
  drop, splice, write_at_lem, IsU32,
}
use mcoap.Base.Run.{ok, fault}
use mcoap.Timeout
use mcoap.Header
use mcoap.Sockaddr.{Sockaddr, is_done}
use mcoap.Buffer.{Holds}
use mcoap.CoapOption.{CoapOption}
use mcoap.OptionsList.Decode.Readable.{AllReadable}
use mcoap.Message
use mcoap.Message.{Message}
use mcoap.Message.Encode.Wire.{wire}
use mcoap.Message.Decode.Reads.{as_read, from_buffer-front}
use mcoap.Queue.Segment.{Cells}
use mcoap.Queue.Refine.{Represents}
use mcoap.Queue.Scan.{Found, NoneOf}
use mcoap.Queue.Lookup.{has_msgid}
use mcoap.Endpoint.{Endpoint}
use mcoap.Endpoint.Send.Confirmed.{told}
use mcoap.Endpoint.Receive.{Reading, Arrival, receive, confirm, recv}
use mcoap.Endpoint.Receive.Confirmation.{confirm-ack}

-- A datagram that is the form of a message on the wire, with no more than can be read back: its options,
-- if it has any, have numbers less than 269 apart and values shorter than 269 bytes.
pub record IsWire (bytes : List ℕ) (header : ℕ) (token : List ℕ) (options : List CoapOption)
    (payload : List ℕ) : Type 0 where
  pub form : bytes ≡ wire header token options payload
  pub header_small : IsU32 header
  pub token_length : Header.get_token_length header ≡ length token
  pub readable : AllReadable 0 options
  pub small : length (wire header token options payload) + 3 < 4294967296

-- The message that the parts are read as, with its sender.
abbrev pub received : Reading → ℕ → List ℕ → List CoapOption → List ℕ → Sockaddr → Message Sockaddr
received r header token options payload sender =
    record (as_read r.qsort Message.alloc header token options payload) { source = some sender }

-- The endpoint whose read buffer starts with the datagram.
abbrev pub with_datagram : Endpoint → List ℕ → Arrival → Endpoint
with_datagram endpt block a = record endpt {
  tmout = Timeout.markstart a.now endpt.tmout;
  rdbuffer = record endpt.rdbuffer { bytes = some (splice block 0 a.bytes) };
}

-- The endpoint that has waited and received nothing.
abbrev pub marked_at : Endpoint → Arrival → Endpoint
marked_at endpt a = record endpt { tmout = Timeout.markstart a.now endpt.tmout }

pub quiet_recv :
    (r : Reading) (fuel : ℕ) (endpt : Endpoint) (a : Arrival)
    → is_done a.err ≡ false
    → recv r fuel endpt a ≡ ok (none, marked_at endpt a)
unfolding recv receive
quiet_recv r fuel endpt a e = rw e refl

module _ (r : Reading) (endpt : Endpoint) (a : Arrival) (block : List ℕ) (header : ℕ)
    (token : List ℕ) (options : List CoapOption) (payload : List ℕ) (h : Holds endpt.rdbuffer block)
    (done : is_done a.err ≡ true) (w : IsWire a.bytes header token options payload)
    (room : length a.bytes ≤ endpt.rdbuffer.nbytes) where
  receive-wire :
      receive r endpt a
      ≡ ok (some (received r header token options payload a.sender), with_datagram endpt block a)
  unfolding receive
  receive-wire =
      rw
        (
          done,
          h.bytes,
          write_at_lem block 0 a.bytes (omega (arith, h.within, room)),
          w.form,
          from_buffer-front {Addr = Sockaddr} r.qsort r.counting r.reading Message.alloc header
              token options payload w.header_small w.token_length w.readable w.small
              (drop (0 + length (wire header token options payload)) block) (some 0) refl,
        )
        refl

  -- A datagram that holds a message, and for which the read buffer has room, is received: the message
  -- comes back with the datagram's header, token, options, as a null list if there are none, and payload
  -- and its sender, where it is not an acknowledgement. The options have numbers less than 269 apart and
  -- values shorter than 269 bytes. Of the endpoint only the start of the timeout and the contents of the read buffer
  -- change, whose count is what it was.
  pub recv-wire :
      (fuel : ℕ)
      → Message.is_ack (some (received r header token options payload a.sender)) ≡ false
      → recv r fuel endpt a
        ≡ ok (some (received r header token options payload a.sender), with_datagram endpt block a)
  unfolding recv confirm
  recv-wire fuel plain = rw (receive-wire, plain) refl

  -- An acknowledgement that arrives in a datagram is received too, and takes the first entry of its
  -- message id out of the queue, whose other entries stay in their order; the entry's result function is
  -- told. An acknowledgement of a message that does not wait is a fault. Its options, if it has any, have
  -- numbers less than 269 apart and values shorter than 269 bytes.
  pub recv-ack :
      (fuel : ℕ) (xs : Cells)
      → Represents endpt.confirmq xs
      → length xs < fuel
      → Message.is_ack (some (received r header token options payload a.sender)) ≡ true
      → let msg = received r header token options payload a.sender in
        let id = Message.get_message_id msg in
        ((f : Found (has_msgid id) xs) × (endpt' : Endpoint) × (recv r fuel endpt a
            ≡ ok (some msg, endpt'))
          × Represents endpt'.confirmq (f.front ++ f.back)
          × (endpt'.trace ≡ told endpt.trace f.body.resultfn f.body.msgid a.err))
        ⊎ (NoneOf (has_msgid id) xs × (recv r fuel endpt a ≡ fault))
  unfolding recv
  recv-ack fuel xs queue enough ack =
      let msg : Message Sockaddr = received r header token options payload a.sender in
      elim (confirm-ack fuel (with_datagram endpt block a) xs msg a.err queue enough ack) [
        | inl (f, endpt', e, queue', trace) ↦
            inl (f, endpt', rw (receive-wire, e) refl, queue', trace)
        | inr (others, e) ↦ inr (others, rw (receive-wire, e) refl)
      ]
