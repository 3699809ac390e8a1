-- ===== src/Endpoint/Request/Sends.antt =====
-- What a request puts on the wire: the message that the options, the code and the id make.
use mcoap.Base.{
  ℕ, ◌%◌, ◌<◌, ◌≡◌, ◌≢◌, refl, sym, subst, ◌∙◌, true, false, Option, none, some, List, ◌++◌, arith,
  length, All, replicate, u32_mod, IsU32, ◌==◌, if◌then◌else◌,
}
use mcoap.Base.Run.{ok}
use mcoap.CString.{Text}
use mcoap.Endian.{host, bytes_of_u16, bytes_of_u32}
use mcoap.Header
use mcoap.Header.Fields.{create_lem, fields-create}
use mcoap.Sockaddr.{Sockaddr, is_done}
use mcoap.Buffer
use mcoap.Buffer.{Buffer, Holds}
use mcoap.CoapOption
use mcoap.CoapOption.{CoapOption}
use mcoap.OptionsList.{OptionsList, compare_options}
use mcoap.OptionsList.Sorted.{IsFit, sort-AllWritable}
use mcoap.Token
use mcoap.Message
use mcoap.Message.{Message}
use mcoap.Message.Encode.Wire.{wire, CarriesPayload, IsMessage}
use mcoap.Uri.Parse.{sorted_list}
use mcoap.Queue.{Ptr, null}
use mcoap.Queue.Segment.{Cells}
use mcoap.Queue.Refine.{Represents}
use mcoap.Endpoint.{Endpoint, next_id}
use mcoap.Endpoint.Send.{Net, Slot}
use mcoap.Endpoint.Send.Plain.{datagram}
use mcoap.Endpoint.Send.Confirmed.{Outcome, send-Outcome}
use mcoap.Endpoint.Request.{Outside, mk_options, mk_message, send_msg}

-- The six bytes of the token for an id.
abbrev pub token_bytes : Outside → ℕ → List ℕ
token_bytes o msgid = bytes_of_u16 host msgid ++ bytes_of_u32 host (o.rand % u32_mod)

-- The header of a confirmable request.
unfoldable pub header_of : ℕ → ℕ → ℕ
header_of code msgid = Header.create Message.message_version Message.type_confirm 6 code msgid

header_of-IsU32 : (code msgid : ℕ) → IsU32 (header_of code msgid)
unfolding header_of
header_of-IsU32 code msgid = rw (create_lem) (omega arith)

module _ (o : Outside) (options : List CoapOption) (unused : ℕ) (code msgid : ℕ)
    (payload : Option Buffer) where
  abbrev pub request : Message Sockaddr
  request = record {
    header = header_of code msgid;
    token = some (Token.create2 o.rand msgid);
    options = some (sorted_list o.qsort options unused);
    payload = payload;
    source = none;
  }

  request-confirmable : Message.is_confirmable request ≡ true
  unfolding Message.is_confirmable Message.get_type header_of
  request-confirmable = rw (fields-create 1 0 6 code msgid).1 refl

  request_id : msgid < 65536 → Message.get_message_id request ≡ msgid
  unfolding Message.get_message_id header_of
  request_id h = (fields-create 1 0 6 code msgid).4 ∙ omega arith

  pub request-IsMessage :
      (bytes : List ℕ)
      → All IsFit options
      → CarriesPayload payload bytes
      → IsMessage request (token_bytes o msgid) (o.qsort.sort compare_options options) bytes
  unfolding Token.create2 Buffer.init Buffer.alloc
  request-IsMessage bytes fit carries = record {
    token_buffer = Token.create2 o.rand msgid;
    token_there = refl;
    token_carries = record { count = refl; held = omega arith; first = refl; small = omega arith };
    options_carry =
        (replicate unused CoapOption.alloc, refl, sym (sort-AllWritable o.qsort options fit).1);
    payload_carries = carries;
  }

  mk_message_lem :
      (endpt : Endpoint) (resultfn : Ptr)
      → resultfn ≢ null
      → endpt.nextid ≡ msgid
      → mk_message o endpt code resultfn (some (sorted_list o.qsort options unused)) payload
        ≡ ok (msgid, request, (next_id endpt).1)
  unfolding mk_message next_id Message.con_init Message.init header_of Token.create2 Buffer.init
      Buffer.alloc
  mk_message_lem endpt resultfn ne e =
      let there : (resultfn == null) ≡ false = ground (arith, ne) in rw (there, e) refl

  -- A confirmable request ends with the message id, or with 0 if the socket fails. The message that goes
  -- out has the id, the code, a token of six bytes that starts with the id, the options in the order of
  -- `qsort` and the payload, as RFC 7252 lays them out, in one datagram.
  pub request-Outcome :
      (net : Net) (slot : Slot) (endpt : Endpoint) (block : List ℕ) (to : Sockaddr) (resultfn : Ptr)
      (xs : Cells) (uri : Text) (extra : Option OptionsList) (bytes : List ℕ)
      → mk_options o uri (some to) extra ≡ ok (some (sorted_list o.qsort options unused))
      → All IsFit options
      → CarriesPayload payload bytes
      → length (
          wire
            (header_of code msgid)
            (token_bytes o msgid)
            (o.qsort.sort compare_options options)
            bytes)
        < 4294967296
      → endpt.nextid ≡ msgid
      → msgid < 65536
      → resultfn ≢ null
      → Holds endpt.wrbuffer block
      → Represents endpt.confirmq xs
      → slot.fresh ≢ null
      → endpt.confirmq.cell slot.fresh ≡ none
      → let sent = datagram endpt.wrbuffer (
          wire
            (header_of code msgid)
            (token_bytes o msgid)
            (o.qsort.sort compare_options options)
            bytes) in
        (endpt' : Endpoint) × (send_msg o net slot endpt (some to) resultfn code uri extra payload
          ≡ ok (if is_done (net endpt.trace sent (some to)) then msgid else 0, endpt'))
        × Outcome slot endpt to msgid resultfn xs sent (net endpt.trace sent (some to)) endpt'
  unfolding send_msg next_id
  request-Outcome net slot endpt block to resultfn xs uri extra bytes made fit carries small e id ne
        h r fresh free =
      let (endpt', run, outcome) =
        send-Outcome (request-IsMessage bytes fit carries) (sort-AllWritable o.qsort options fit).0
          (header_of-IsU32 code msgid) small net slot (next_id endpt).1 block to resultfn xs h
          request-confirmable r fresh free in
      (
        endpt',
        rw (made, mk_message_lem endpt resultfn ne e, run) refl,
        subst
            (λ i.
              Outcome slot endpt to i resultfn xs
                (datagram endpt.wrbuffer (
                  wire (header_of code msgid) (token_bytes o msgid)
                    (o.qsort.sort compare_options options) bytes))
                (net endpt.trace
                  (datagram endpt.wrbuffer (
                    wire (header_of code msgid) (token_bytes o msgid)
                      (o.qsort.sort compare_options options) bytes))
                  (some to))
                endpt')
            (request_id id) outcome,
      )
