-- ===== src/Examples/Arrivals.antt =====
-- Datagrams that hold a message, received by an endpoint, by the time server and by mcget.
use mcoap.Base.{ℕ, ◌≡◌, ◌<◌, ◌⊎◌, ◌++◌, true, length, refl, some, List, [], ◌∷◌, arith}
use mcoap.Base.Int.{pos}
use mcoap.Base.Run.{ok, fault}
use mcoap.Header
use mcoap.Sockaddr.{is_done}
use mcoap.Message
use mcoap.Message.Encode.Wire.{wire}
use mcoap.OptionsList.Encode.Format.{encode, encode_option, nibble, extension}
use mcoap.Queue.Refine.{Represents}
use mcoap.Queue.Scan.{Found, NoneOf}
use mcoap.Queue.Lookup.{has_msgid}
use mcoap.Endpoint.{Endpoint}
use mcoap.Endpoint.Send.Confirmed.{told}
use mcoap.Endpoint.Receive.{Arrival, recv}
use mcoap.Endpoint.Receive.Datagram.{IsWire, received, with_datagram, recv-wire, recv-ack}
use mcoap.Examples.Data.{two_options, two_options-AllReadable, zeros, empty_buffer-Holds}
use mcoap.Examples.Queues.{two_cells, two_queue-Represents}
use mcoap.Examples.Uris.{nowhere}
use mcoap.Examples.Endpoints.{endpoint, reading}

-- A datagram with the header, a token of one byte, two options and a payload of one byte.
abbrev pub datagram_with : ℕ → List ℕ
unfolding wire
datagram_with header = wire header (9 ∷ []) two_options (42 ∷ [])

pub datagram_has : (header : ℕ) → is_done (pos 0) ≡ true → 0 < length (datagram_with header)
unfolding datagram_with
datagram_has header e = omega arith

abbrev pub arrival_with : ℕ → Arrival
arrival_with header = record {
  now = pos 0;
  err = pos 0;
  bytes = datagram_with header;
  sender = nowhere;
  some_byte = datagram_has header;
}

pub plain-IsWire : IsWire (datagram_with 0x51020007) 0x51020007 (9 ∷ []) two_options (42 ∷ [])
unfolding wire encode encode_option nibble extension Header.get_token_length
plain-IsWire = record {
  form = refl;
  header_small = omega arith;
  token_length = refl;
  readable = two_options-AllReadable;
  small = omega arith;
}

pub ack-IsWire : IsWire (datagram_with 0x61020008) 0x61020008 (9 ∷ []) two_options (42 ∷ [])
unfolding wire encode encode_option nibble extension Header.get_token_length
ack-IsWire = record {
  form = refl;
  header_small = omega arith;
  token_length = refl;
  readable = two_options-AllReadable;
  small = omega arith;
}

recv-wire_example :
    recv reading 3 endpoint (arrival_with 0x51020007)
    ≡ ok (
      some (received reading 0x51020007 (9 ∷ []) two_options (42 ∷ []) nowhere),
      with_datagram endpoint zeros (arrival_with 0x51020007),
    )
unfolding wire encode encode_option nibble extension Message.is_ack Message.get_type
    Header.get_message_type
recv-wire_example =
    recv-wire reading endpoint (arrival_with 0x51020007) zeros 0x51020007 (9 ∷ []) two_options
      (42 ∷ []) empty_buffer-Holds refl plain-IsWire (omega arith) 3 refl

recv-ack_example :
    let msg = received reading 0x61020008 (9 ∷ []) two_options (42 ∷ []) nowhere in
    let id = Message.get_message_id msg in
    ((f : Found (has_msgid id) two_cells) × (endpt' : Endpoint) × (recv reading 3 endpoint
          (arrival_with 0x61020008)
        ≡ ok (some msg, endpt'))
      × Represents endpt'.confirmq (f.front ++ f.back)
      × (endpt'.trace ≡ told [] f.body.resultfn f.body.msgid (pos 0)))
    ⊎ (NoneOf (has_msgid id) two_cells
        × (recv reading 3 endpoint (arrival_with 0x61020008) ≡ fault))
unfolding wire encode encode_option nibble extension Message.is_ack Message.get_type
    Header.get_message_type
recv-ack_example =
    recv-ack reading endpoint (arrival_with 0x61020008) zeros 0x61020008 (9 ∷ []) two_options
      (42 ∷ []) empty_buffer-Holds refl ack-IsWire (omega arith) 3 two_cells two_queue-Represents
      (omega arith) refl
