-- ===== src/Programs/Mcget/Shows.antt =====
-- One request of mcget: what it sends and what it shows.
use mcoap.Base.{
  ℕ, zero, suc, ◌+◌, ◌≡◌, ◌⊎◌, ◌<◌, ◌≤◌, inl, inr, refl, ap, subst, Bool, true, false, none, some,
  Option, List, [], ◌∷◌, ◌++◌, All, Bool-cases, arith, length, append-nil, read_at, read_at-append,
  lt→ltb, le→leb, length-replicate, ◌==◌, if◌then◌else◌, to_u16, dec_lt,
}
use mcoap.Base.Run.{ok}
use mcoap.CString.{Text}
use mcoap.Code
use mcoap.Header
use mcoap.Sockaddr.{Sockaddr, is_done}
use mcoap.Buffer
use mcoap.Buffer.{Buffer, Holds}
use mcoap.CoapOption.{CoapOption}
use mcoap.OptionsList.{compare_options}
use mcoap.OptionsList.Sorted.{IsFit}
use mcoap.Message
use mcoap.Message.{Message}
use mcoap.Message.Encode.Wire.{wire}
use mcoap.Message.Encode.Writes.{length-wire, payload-le-marked}
use mcoap.Uri.Address.{to_address}
use mcoap.Uri.Parse.{sorted_list}
use mcoap.Endpoint
use mcoap.Endpoint.{Endpoint, Event, sent, next_id, skip_zero}
use mcoap.Endpoint.Send.{Net}
use mcoap.Endpoint.Send.Plain.{datagram, transmitted}
use mcoap.Endpoint.Receive.{Reading, Arrival}
use mcoap.Endpoint.Receive.Datagram.{
  IsWire, received, marked_at, with_datagram, recv-wire, quiet_recv,
}
use mcoap.Endpoint.Request
use mcoap.Endpoint.Request.{Outside, mk_options}
use mcoap.Endpoint.Request.Sends.{token_bytes}
use mcoap.Endpoint.Request.Unconfirmed.{plain_header, request-datagram}
use mcoap.Programs.{address_after}
use mcoap.Programs.Opened.{fresh, opened-fresh}
use mcoap.Programs.Mcget.{
  Visit, Shown, no_response, response, shown_text, print_token, print_msg, tries, get_uri,
}

-- The bytes before the first 0.
abbrev pub up_to_zero : List ℕ → List ℕ
up_to_zero [] = []
up_to_zero (c ∷ bytes) = let more = up_to_zero bytes in if c == 0 then [] else c ∷ more

shown_text-all : (bytes : List ℕ) → shown_text (length bytes) bytes ≡ some (up_to_zero bytes)
unfolding shown_text
shown_text-all [] = refl
shown_text-all (c ∷ bytes) = elim (Bool-cases (c == 0)) [
  | inl end ↦ rw end refl
  | inr more ↦ rw (more, shown_text-all bytes) refl
]

-- What is printed of a message's payload; nothing where there is none.
abbrev pub printed : List ℕ → Option (List ℕ)
printed [] = none
printed (byte ∷ bytes) = some (up_to_zero (byte ∷ bytes))

-- What is shown of a message with these parts.
abbrev pub shown_of : ℕ → List ℕ → List ℕ → Shown
shown_of header token payload =
    response (Header.get_version header) (Header.get_message_type header)
      (Header.get_message_id header) token (Code.get_category (Header.get_code header))
      (Code.get_detail (Header.get_code header)) (printed payload)

module _ (r : Reading) (header : ℕ) (token : List ℕ) (options : List CoapOption)
    (sender : Sockaddr) where
  token_read : read_at token 0 (length token) ≡ some token
  token_read =
      subst (λ l. read_at l 0 (length token) ≡ some token) (append-nil token)
        (read_at-append [] token [])

  print_msg_lem :
      (payload : List ℕ)
      → length payload < 2147483648
      → print_msg (some (received r header token options payload sender))
        ≡ some (shown_of header token payload)
  unfolding print_msg print_token Message.alloc Message.get_code Message.get_version
      Message.get_type Message.get_message_id
  print_msg_lem [] small = rw token_read refl
  print_msg_lem (byte ∷ bytes) small =
      rw
        (token_read, lt→ltb (length (byte ∷ bytes)) 2147483648 small, shown_text-all (byte ∷ bytes))
        refl

-- A message arrives at one of the first three tries, and nothing before it.
pub record Heard (r : Reading) (arrivals : ℕ → Arrival) : Type 0 where
  pub k : ℕ
  pub soon : k < 3
  pub quiet : (i : ℕ) → i < k → is_done (arrivals i).err ≡ false
  pub done : is_done (arrivals k).err ≡ true
  pub header : ℕ
  pub token : List ℕ
  pub options : List CoapOption
  pub payload : List ℕ
  pub form : IsWire (arrivals k).bytes header token options payload
  pub room : length (arrivals k).bytes ≤ 1024
  pub no_ack :
      Message.is_ack (some (received r header token options payload (arrivals k).sender)) ≡ false

-- Nothing arrives at the first three tries.
abbrev pub IsUnheard : (ℕ → Arrival) → Type 0
IsUnheard arrivals = (i : ℕ) → i < 3 → is_done (arrivals i).err ≡ false

abbrev pub shown_after :
    {r : Reading} {arrivals : ℕ → Arrival} → Heard r arrivals ⊎ IsUnheard arrivals → Shown
shown_after (inl h) = shown_of h.header h.token h.payload
shown_after (inr quiet) = no_response

module _ (r : Reading) (fuel : ℕ) (arrivals : ℕ → Arrival) where
  tries-heard :
      (h : Heard r arrivals) (left ntries : ℕ) (endpt : Endpoint) (block : List ℕ)
      → Holds endpt.rdbuffer block
      → endpt.rdbuffer.nbytes ≡ 1024
      → ntries ≤ h.k
      → h.k < ntries + left
      → (endpt' : Endpoint) × (tries r fuel arrivals left ntries endpt
          ≡ ok (
            some (received r h.header h.token h.options h.payload (arrivals h.k).sender),
            endpt',
          ))
        × (endpt'.trace ≡ endpt.trace)
  unfolding tries
  tries-heard h zero ntries endpt block holds count before enough = absurd (omega arith)
  tries-heard h (suc left) ntries endpt block holds count before enough = elim (dec_lt ntries h.k) [
    | yes earlier ↦
        let (endpt', run, trace) =
          tries-heard h left (ntries + 1) (marked_at endpt (arrivals ntries)) block holds count
            (omega arith) (omega arith) in
        (endpt', rw (quiet_recv r fuel endpt (arrivals ntries) (h.quiet ntries earlier)) run, trace)
    | no now ↦
        let here : ntries ≡ h.k = omega arith in
        (
          with_datagram endpt block (arrivals h.k),
          rw
              (
                here,
                recv-wire r endpt (arrivals h.k) block h.header h.token h.options h.payload holds
                    h.done h.form (omega (arith, h.room)) fuel h.no_ack,
              )
              refl,
          refl,
        )
  ]

  tries-unheard :
      (quiet : IsUnheard arrivals) (left ntries : ℕ) (endpt : Endpoint)
      → ntries + left ≤ 3
      → (endpt' : Endpoint) × (tries r fuel arrivals left ntries endpt ≡ ok (none, endpt'))
        × (endpt'.trace ≡ endpt.trace)
  unfolding tries
  tries-unheard quiet zero ntries endpt bound = (endpt, refl, refl)
  tries-unheard quiet (suc left) ntries endpt bound =
      let (endpt', run, trace) =
        tries-unheard quiet left (ntries + 1) (marked_at endpt (arrivals ntries)) (omega arith) in
      (
        endpt',
        rw (quiet_recv r fuel endpt (arrivals ntries) (quiet ntries (omega arith))) run,
        trace,
      )

-- The three tries, and what is shown.
answer_lem :
    (r : Reading) (fuel : ℕ) (arrivals : ℕ → Arrival)
    (heard : Heard r arrivals ⊎ IsUnheard arrivals) (endpt : Endpoint) (block : List ℕ)
    → Holds endpt.rdbuffer block
    → endpt.rdbuffer.nbytes ≡ 1024
    → (msg : Option (Message Sockaddr)) × (endpt' : Endpoint) × (tries r fuel arrivals 3 0 endpt
        ≡ ok (msg, endpt'))
      × (print_msg msg ≡ some (shown_after heard))
      × (endpt'.trace ≡ endpt.trace)
unfolding print_msg
answer_lem r fuel arrivals (inl h) endpt block holds count =
    let (endpt', run, trace) =
      tries-heard r fuel arrivals h 3 0 endpt block holds count (omega arith)
        (omega (arith, h.soon)) in
    let n = length-wire h.header h.token h.options h.payload in
    let whole = ap length h.form.form in
    (
      _,
      endpt',
      run,
      print_msg_lem r h.header h.token h.options (arrivals h.k).sender h.payload
          (omega (arith, n, whole, h.room, payload-le-marked h.payload)),
      trace,
    )
answer_lem r fuel arrivals (inr quiet) endpt block holds count =
    let (endpt', run, trace) = tries-unheard r fuel arrivals quiet 3 0 endpt (omega arith) in
    (none, endpt', run, refl, trace)

-- The bytes of the request: GET, with the first id of the endpoint.
abbrev pub asked : Outside → Visit → List CoapOption → List ℕ
asked o v options =
    wire (plain_header Code.method_get (skip_zero (to_u16 v.start.rand)))
      (token_bytes (record o { rand = v.rand }) (skip_zero (to_u16 v.start.rand)))
      (o.qsort.sort compare_options options) []

abbrev pub target : Visit → Option (Bool × Sockaddr) → Sockaddr
target v found = address_after found v.start.other

module _ (o : Outside) (net : Net) (r : Reading) (fuel : ℕ) (v : Visit) (port : ℕ) (uri : Text)
    (found : Option (Bool × Sockaddr)) (options : List CoapOption) (unused : ℕ) where
  -- mcget asks for a URI with one datagram to the URI's address, the GET request of RFC 7252 that is not
  -- to be confirmed, with the options that the URI stands for; and shows the parts of the first message
  -- that arrives within three tries to receive, or that there was no response where nothing arrives. The
  -- number that it prints first is the message id, or 0 if the socket fails. The request and the message
  -- fit into 1024 bytes, and the message is not an acknowledgement; its options, if it has any, have
  -- numbers less than 269 apart and values shorter than 269 bytes. Reading the URI for an address and for
  -- options is no fault.
  pub get_uri-shows :
      (heard : Heard r v.arrivals ⊎ IsUnheard v.arrivals)
      → to_address o.resolver o.wild (some v.start.other) uri ≡ some found
      → mk_options (record o { rand = v.rand }) uri (some (target v found)) none
        ≡ ok (some (sorted_list o.qsort options unused))
      → All IsFit options
      → length (asked o v options) ≤ 1024
      → (endpt' : Endpoint) × (get_uri o net r fuel v port uri
          ≡ ok (
            if is_done (net v.start.endpt.trace (asked o v options) (some (target v found)))
                then skip_zero (to_u16 v.start.rand)
                else 0,
            shown_after heard,
            endpt',
          ))
        × (endpt'.trace
            ≡ v.start.endpt.trace
              ++ (sent
                    (asked o v options)
                    (some (target v found))
                    (net v.start.endpt.trace (asked o v options) (some (target v found)))
                  ∷ []))
  unfolding get_uri Request.get Endpoint.deinit Buffer.init next_id
  get_uri-shows heard e made fit fits =
      let n = length-replicate {A = ℕ} 1024 0 in
      let start : Endpoint = fresh v.start in
      let holds : Holds start.wrbuffer (Buffer.calloc 1024) = record {
        bytes = refl;
        within = omega (arith, n);
        small = omega arith;
      } in
      let reads : Holds start.rdbuffer (Buffer.calloc 1024) = record {
        bytes = refl;
        within = omega (arith, n);
        small = omega arith;
      } in
      let whole : datagram start.wrbuffer (asked o v options) ≡ (asked o v options) =
        rw (le→leb (length (asked o v options)) 1024 fits) refl in
      let (buffer, run, held, same) =
        request-datagram (record o { rand = v.rand }) options unused Code.method_get
          (skip_zero (to_u16 v.start.rand)) none net v.slot start (Buffer.calloc 1024)
          (target v found) uri none [] made fit refl (omega (arith, fits)) refl holds in
      let endpt1 : Endpoint =
        transmitted net v.slot.sending (record (next_id start).1 { wrbuffer = buffer })
          (asked o v options) (some (target v found)) in
      let (msg, endpt', heard', shown, trace) =
        answer_lem r fuel v.arrivals heard endpt1 (Buffer.calloc 1024) reads refl in
      (
        Endpoint.deinit endpt',
        rw (e, opened-fresh o.resolver v.start port, run, whole, heard', shown) refl,
        trace,
      )
