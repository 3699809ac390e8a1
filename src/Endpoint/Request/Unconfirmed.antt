-- ===== src/Endpoint/Request/Unconfirmed.antt =====
-- A request without a result function, which is not to be confirmed.
use mcoap.Base.{
  ℕ, ◌<◌, ◌≡◌, refl, false, Option, some, List, arith, length, All, IsU32, if◌then◌else◌,
}
use mcoap.Base.Run.{ok}
use mcoap.CString.{Text}
use mcoap.Header
use mcoap.Header.Fields.{create_lem, fields-create}
use mcoap.Sockaddr.{Sockaddr, is_done}
use mcoap.Buffer
use mcoap.Buffer.{Buffer, Holds}
use mcoap.CoapOption.{CoapOption}
use mcoap.OptionsList.{OptionsList, compare_options}
use mcoap.OptionsList.Sorted.{IsFit, sort-AllWritable}
use mcoap.Token
use mcoap.Message
use mcoap.Message.{Message}
use mcoap.Message.Encode.Wire.{wire, CarriesPayload, IsMessage}
use mcoap.Uri.Parse.{sorted_list}
use mcoap.Queue.{null}
use mcoap.Endpoint.{Endpoint, next_id}
use mcoap.Endpoint.Send.{Net, Slot}
use mcoap.Endpoint.Send.Plain.{datagram, transmitted, send-held}
use mcoap.Endpoint.Request.{Outside, mk_options, mk_message, send_msg}
use mcoap.Endpoint.Request.Sends.{token_bytes, request, request-IsMessage}

-- The header of a request that is not to be confirmed.
unfoldable pub plain_header : ℕ → ℕ → ℕ
plain_header code msgid = Header.create Message.message_version Message.type_noconfirm 6 code msgid

pub plain_header-IsU32 : (code msgid : ℕ) → IsU32 (plain_header code msgid)
unfolding plain_header
plain_header-IsU32 code msgid = rw (create_lem) (omega arith)

module _ (o : Outside) (options : List CoapOption) (unused : ℕ) (code msgid : ℕ)
    (payload : Option Buffer) where
  abbrev plain_request : Message Sockaddr
  plain_request = record (request o options unused code msgid payload) {
    header = plain_header code msgid;
  }

  request-plain : Message.is_confirmable plain_request ≡ false
  unfolding Message.is_confirmable Message.get_type plain_header
  request-plain = rw (fields-create 1 1 6 code msgid).1 refl

  plain_request-IsMessage :
      (bytes : List ℕ)
      → All IsFit options
      → CarriesPayload payload bytes
      → IsMessage plain_request (token_bytes o msgid) (o.qsort.sort compare_options options) bytes
  plain_request-IsMessage bytes fit carries =
      let m = request-IsMessage o options unused code msgid payload bytes fit carries in
      record {
        token_buffer = m.token_buffer;
        token_there = m.token_there;
        token_carries = m.token_carries;
        options_carry = m.options_carry;
        payload_carries = m.payload_carries;
      }

  plain_message_lem :
      (endpt : Endpoint)
      → endpt.nextid ≡ msgid
      → mk_message o endpt code null (some (sorted_list o.qsort options unused)) payload
        ≡ ok (msgid, plain_request, (next_id endpt).1)
  unfolding mk_message next_id Message.non_init Message.init plain_header Token.create2 Buffer.init
      Buffer.alloc
  plain_message_lem endpt e = rw e refl

  -- A request without a result function is not to be confirmed: it is handed to the socket in one
  -- datagram, with the next message id, the code, a token of six bytes that starts with the id, the
  -- options in the order of `qsort` and the payload, and an empty datagram goes out where the write
  -- buffer has no room. The result is the id, or 0 if the socket fails. Nothing is put into the queue,
  -- and of the endpoint only the next id, the write buffer, whose count stays, and the start of the
  -- timeout change.
  pub request-datagram :
      (net : Net) (slot : Slot) (endpt : Endpoint) (block : List ℕ) (to : Sockaddr) (uri : Text)
      (extra : Option OptionsList) (bytes : List ℕ)
      → mk_options o uri (some to) extra ≡ ok (some (sorted_list o.qsort options unused))
      → All IsFit options
      → CarriesPayload payload bytes
      → length (
          wire
            (plain_header code msgid)
            (token_bytes o msgid)
            (o.qsort.sort compare_options options)
            bytes)
        < 4294967296
      → endpt.nextid ≡ msgid
      → Holds endpt.wrbuffer block
      → let sent = datagram endpt.wrbuffer (
          wire
            (plain_header code msgid)
            (token_bytes o msgid)
            (o.qsort.sort compare_options options)
            bytes) in
        (buffer : Buffer) × (send_msg o net slot endpt (some to) null code uri extra payload
          ≡ ok (
            if is_done (net endpt.trace sent (some to)) then msgid else 0,
            transmitted net slot.sending
                (record (next_id endpt).1 { wrbuffer = buffer })
                sent
                (some to),
          ))
        × ((block' : List ℕ) × Holds buffer block')
        × (buffer.nbytes ≡ endpt.wrbuffer.nbytes)
  unfolding send_msg next_id
  request-datagram net slot endpt block to uri extra bytes made fit carries small e h =
      let (buffer, run, held, same) =
        send-held (plain_request-IsMessage bytes fit carries)
          (sort-AllWritable o.qsort options fit).0 (plain_header-IsU32 code msgid) small net slot
          (next_id endpt).1 block (some to) null h request-plain in
      (buffer, rw (made, plain_message_lem endpt e, run) refl, held, same)
