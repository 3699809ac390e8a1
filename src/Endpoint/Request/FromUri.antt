-- ===== src/Endpoint/Request/FromUri.antt =====
-- A request for a URI, from the string to the datagram.
use mcoap.Base.{
  ℕ, ◌+◌, ◌<◌, ◌≡◌, ◌≢◌, refl, false, Option, none, some, List, [], ◌∷◌, ◌++◌, arith, length, map,
  All, All-append, length-append, leb, Bool-cases, inl, inr, if◌then◌else◌,
}
use mcoap.Base.Run.{ok}
use mcoap.CString.{Text, atoi, int_to_u32}
use mcoap.Sockaddr.{Sockaddr, is_done, inet_init_at}
use mcoap.Buffer
use mcoap.Buffer.{Buffer, Holds}
use mcoap.CoapOption
use mcoap.CoapOption.{CoapOption}
use mcoap.OptionsList.{compare_options}
use mcoap.OptionsList.Sorted.{IsFit}
use mcoap.Message.Encode.Wire.{wire, CarriesPayload}
use mcoap.Uri.{port_or_default, equaladdr}
use mcoap.Uri.Options.{str_option}
use mcoap.Uri.Pieces.{IsFree, IsPiece, path_text, query_text}
use mcoap.Uri.Parse.{IsHost, prefix, both, to_options_pieces}
use mcoap.Queue.{Ptr, null}
use mcoap.Queue.Segment.{Cells}
use mcoap.Queue.Refine.{Represents}
use mcoap.Endpoint.{Endpoint}
use mcoap.Endpoint.Send.{Net, Slot}
use mcoap.Endpoint.Send.Plain.{datagram}
use mcoap.Endpoint.Send.Confirmed.{Outcome}
use mcoap.Endpoint.Request.{Outside, mk_options, send_msg}
use mcoap.Endpoint.Request.Sends.{token_bytes, header_of, request-Outcome}

-- Short enough for the value of an option.
abbrev pub IsShort : Text → Type 0
IsShort text = length text < 65536

str_option-IsFit :
    (num : ℕ) (text : Text) → num < 65536 → IsShort text → IsFit (str_option num text)
unfolding CoapOption.init_str CoapOption.alloc Buffer.init
str_option-IsFit num text small short = record {
  number = small;
  short = omega (arith, short);
  held = omega (arith, short, length-append text (0 ∷ []));
}

uint_option-IsFit :
    (num value : ℕ) → num < 65536 → IsFit (CoapOption.init_uint32 CoapOption.alloc num value)
unfolding CoapOption.init_uint32 CoapOption.alloc Buffer.init
uint_option-IsFit num value small = elim (Bool-cases (leb value 0xff)) [
  | inl one ↦ rw one (record { number = small; short = omega arith; held = omega arith })
  | inr more ↦ elim (Bool-cases (leb value 0xffff)) [
    | inl two ↦ rw (more, two) (record { number = small; short = omega arith; held = omega arith })
    | inr four ↦
        rw (more, four) (record { number = small; short = omega arith; held = omega arith })
  ]
]

str_options-IsFit :
    (num : ℕ) (texts : List Text)
    → num < 65536
    → All IsShort texts
    → All IsFit (map (str_option num) texts)
str_options-IsFit num [] small short = tt
str_options-IsFit num (text ∷ texts) small short =
    (str_option-IsFit num text small short.0, str_options-IsFit num texts small short.1)

-- The options of a URI.
abbrev pub uri_options : Text → ℕ → List Text → List Text → List CoapOption
uri_options host port paths queries =
    both host port ++ (map (str_option 11) paths ++ map (str_option 15) queries)

pub uri_options-IsFit :
    (host : Text) (port : ℕ) (paths queries : List Text)
    → IsShort host
    → All IsShort paths
    → All IsShort queries
    → All IsFit (uri_options host port paths queries)
uri_options-IsFit host port paths queries h p q = (
  str_option-IsFit 3 host (omega arith) h,
  (
    uint_option-IsFit 7 port (omega arith),
    All-append IsFit (map (str_option 11) paths) (map (str_option 15) queries)
        (str_options-IsFit 11 paths (omega arith) p) (str_options-IsFit 15 queries (omega arith) q),
  ),
)

-- A confirmable request of any of the four methods for coap://host:port/path?query, without extra
-- options, to an address that is not the URI's. What goes out, in one datagram, is the message of RFC
-- 7252 with the next message id, the method's code, a token of six bytes that starts with the id, the
-- options for the host, the port, the pieces of the path and those of the query, in the order of `qsort`,
-- and the payload; an empty datagram if the write buffer has no room for it. The result is the id and the
-- message waits in the queue, or, if the socket fails, 0, and the result function is told. The path has at
-- least one piece, no piece of the path or the query is empty, each is shorter than 65536 bytes, as is
-- the host, a name that is not in brackets; port, path and query are together shorter than 2 ^ 32 - 2
-- bytes, and the message is shorter than 2 ^ 32 bytes.
pub send_msg-Outcome :
    (o : Outside) (net : Net) (slot : Slot) (endpt : Endpoint) (block : List ℕ) (to : Sockaddr)
    (resultfn : Ptr) (xs : Cells) (code : ℕ) (payload : Option Buffer) (bytes : List ℕ)
    (host digits : Text) (path : Text) (paths queries : List Text)
    → IsHost host
    → IsFree (b'/' ∷ b'?' ∷ []) digits
    → All (IsPiece (b'/' ∷ b'?' ∷ [])) (path ∷ paths)
    → All (IsPiece (b'&' ∷ [])) queries
    → IsShort host
    → All IsShort (path ∷ paths)
    → All IsShort queries
    → length digits + length (path_text (path ∷ paths) ++ query_text b'?' queries) + 2 < 4294967296
    → equaladdr o.same_in6
        (some
          (inet_init_at o.resolver o.junk host
            (port_or_default (int_to_u32 (atoi o.wild digits)))).1)
        (some to)
      ≡ false
    → CarriesPayload payload bytes
    → length (
        wire
          (header_of code endpt.nextid)
          (token_bytes o endpt.nextid)
          (o.qsort.sort compare_options (
            uri_options host
              (port_or_default (int_to_u32 (atoi o.wild digits)))
              (path ∷ paths)
              queries))
          bytes)
      < 4294967296
    → endpt.nextid < 65536
    → resultfn ≢ null
    → Holds endpt.wrbuffer block
    → Represents endpt.confirmq xs
    → slot.fresh ≢ null
    → endpt.confirmq.cell slot.fresh ≡ none
    → let sent = datagram endpt.wrbuffer (
        wire
          (header_of code endpt.nextid)
          (token_bytes o endpt.nextid)
          (o.qsort.sort compare_options (
            uri_options host
              (port_or_default (int_to_u32 (atoi o.wild digits)))
              (path ∷ paths)
              queries))
          bytes) in
      (endpt' : Endpoint) × (send_msg o net slot endpt
          (some to)
          resultfn
          code
          (prefix
            ++ (host ++ (b':' ∷ (digits ++ (path_text (path ∷ paths) ++ query_text b'?' queries)))))
          none
          payload
        ≡ ok (if is_done (net endpt.trace sent (some to)) then endpt.nextid else 0, endpt'))
      × Outcome slot endpt to endpt.nextid resultfn xs sent (net endpt.trace sent (some to)) endpt'
unfolding mk_options
send_msg-Outcome o net slot endpt block to resultfn xs code payload bytes host digits path paths
      queries h d p q short p_short q_short uri_small other carries small id ne held r fresh free =
    let port : ℕ = port_or_default (int_to_u32 (atoi o.wild digits)) in
    let (unused, made) =
      to_options_pieces o.qsort o.resolver o.same_in6 o.junk o.wild (some to) host digits path paths
        queries h d p q uri_small other in
    request-Outcome o (uri_options host port (path ∷ paths) queries) unused code endpt.nextid
      payload net slot endpt block to resultfn xs
      (prefix
        ++ (host ++ (b':' ∷ (digits ++ (path_text (path ∷ paths) ++ query_text b'?' queries)))))
      none bytes made (uri_options-IsFit host port (path ∷ paths) queries short p_short q_short)
      carries small refl id ne held r fresh free
