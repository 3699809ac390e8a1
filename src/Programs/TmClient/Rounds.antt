-- ===== src/Programs/TmClient/Rounds.antt =====
-- One round of the time client: what it sends and what it makes of the answer.
use mcoap.Base.{
  ℕ, ◌*◌, ◌≡◌, ◌⊎◌, ◌<◌, ◌≤◌, inl, inr, refl, ap, ◌∙◌, sym, subst, dec_lt, true, false, Option,
  none, some, List, [], ◌∷◌, ◌++◌, All, arith, length, length-replicate, take, splice, write_at_lem,
  length-splice, read_at_lem, le→leb, lt→leb, take-length,
}
use mcoap.Base.Run
use mcoap.Base.Run.{Run, ok, fault, lift}
use mcoap.Timeout
use mcoap.CString.{Text}
use mcoap.Code
use mcoap.Sockaddr.{Sockaddr, is_done}
use mcoap.Buffer
use mcoap.Buffer.{Buffer, Holds}
use mcoap.CoapOption.{CoapOption}
use mcoap.OptionsList.{compare_options}
use mcoap.OptionsList.Sorted.{IsFit}
use mcoap.Message
use mcoap.Message.{Message}
use mcoap.Message.Encode.Wire.{wire, Carries}
use mcoap.Uri.Parse.{sorted_list}
use mcoap.Endpoint.{Endpoint, sent, next_id}
use mcoap.Endpoint.Send.{Net}
use mcoap.Endpoint.Send.Plain.{datagram, transmitted}
use mcoap.Endpoint.Receive.{Reading, Arrival, recv}
use mcoap.Endpoint.Receive.Datagram.{IsWire, received, with_datagram, recv-wire, quiet_recv}
use mcoap.Endpoint.Request
use mcoap.Endpoint.Request.{Outside, mk_options}
use mcoap.Endpoint.Request.Sends.{token_bytes}
use mcoap.Endpoint.Request.Unconfirmed.{plain_header, request-datagram}
use mcoap.Programs.TmClient.{Round, mk_payload, process_resp, client_round}

-- The number as a double, and zeros.
abbrev pub payload_bytes : (ℕ → List ℕ) → ℕ → ℕ → List ℕ
payload_bytes float64 ndoubles npacket = splice (Buffer.calloc (ndoubles * 8)) 0 (float64 npacket)

module _ (float64 : ℕ → List ℕ) (eight : (n : ℕ) → length (float64 n) ≡ 8) (ndoubles npacket : ℕ)
    (some_double : 0 < ndoubles) (small : ndoubles * 8 < 4294967296) where
  abbrev payload : List ℕ
  payload = payload_bytes float64 ndoubles npacket

  pub payload_length : length (payload_bytes float64 ndoubles npacket) ≡ ndoubles * 8
  payload_length =
      let n = length-replicate {A = ℕ} (ndoubles * 8) 0 in
      length-splice (Buffer.calloc (ndoubles * 8)) 0 (float64 npacket)
        (omega (arith, n, eight npacket))
      ∙ n

  mk_payload_lem :
      (buffer : Buffer) × (mk_payload float64 ndoubles npacket ≡ some buffer)
      × Carries buffer (payload_bytes float64 ndoubles npacket)
  unfolding mk_payload Buffer.init Buffer.alloc
  mk_payload_lem =
      let n = length-replicate {A = ℕ} (ndoubles * 8) 0 in
      let whole = payload_length in
      (
        record { nbytes = ndoubles * 8; bytes = some payload },
        rw
            (write_at_lem (Buffer.calloc (ndoubles * 8)) 0 (float64 npacket)
              (omega (arith, n, eight npacket)))
            refl,
        record {
          count = omega (arith, whole);
          held = omega (arith, whole);
          first = subst (λ k. take k payload ≡ payload) whole (take-length payload);
          small = small;
        },
      )

-- What arrives after a request: nothing, or a message that is not an acknowledgement.
pub record Answer (r : Reading) (rdsize : ℕ) (a : Arrival) : Type 0 where
  pub done : is_done a.err ≡ true
  pub header : ℕ
  pub token : List ℕ
  pub options : List CoapOption
  pub payload : List ℕ
  pub form : IsWire a.bytes header token options payload
  pub room : length a.bytes ≤ rdsize
  pub no_ack : Message.is_ack (some (received r header token options payload a.sender)) ≡ false

module _ (r : Reading) (header : ℕ) (token : List ℕ) (options : List CoapOption)
    (sender : Sockaddr) where
  process_resp-long :
      (payload : List ℕ)
      → 8 ≤ length payload
      → process_resp (some (received r header token options payload sender))
        ≡ some (some (take 8 payload, length payload))
  unfolding process_resp
  process_resp-long [] long = absurd (omega arith)
  process_resp-long (byte ∷ bytes) long = rw (read_at_lem (byte ∷ bytes) 0 8 long) refl

  process_resp-short :
      (payload : List ℕ)
      → length payload < 8
      → process_resp (some (received r header token options payload sender)) ≡ none
  unfolding process_resp Message.alloc
  process_resp-short [] short = refl
  process_resp-short (byte ∷ bytes) short = rw (lt→leb 8 (length (byte ∷ bytes)) (omega arith)) refl

module _ (o : Outside) (net : Net) (r : Reading) (fuel : ℕ) (float64 : ℕ → List ℕ)
    (rounds : ℕ → Round) (addr : Sockaddr) (uri : Text) (ndoubles itimes : ℕ) (endpt : Endpoint)
    (options : List CoapOption) where
  abbrev pub outside : Outside
  outside = record o { rand = (rounds itimes).rand }

  -- The bytes of the request: POST, with the endpoint's next id.
  abbrev pub posted : List ℕ
  posted =
      wire (plain_header Code.method_post endpt.nextid) (token_bytes outside endpt.nextid)
        (o.qsort.sort compare_options options) (payload_bytes float64 ndoubles itimes)

  -- The round shows this, and has sent the request and nothing else.
  abbrev Goes : Option (List ℕ × ℕ) → Type 0
  Goes shown =
      (endpt' : Endpoint) × (client_round o net r fuel float64 rounds addr uri ndoubles itimes endpt
        ≡ ok (shown, endpt'))
      × (endpt'.trace
          ≡ endpt.trace ++ (sent posted (some addr) (net endpt.trace posted (some addr)) ∷ []))

  abbrev pub Outcome :
      Answer r endpt.rdbuffer.nbytes (rounds itimes).arrival
        ⊎ (is_done (rounds itimes).arrival.err ≡ false)
      → Type 0
  Outcome (inl a) =
      ((length a.payload < 8)
        × (client_round o net r fuel float64 rounds addr uri ndoubles itimes endpt ≡ fault))
      ⊎ ((8 ≤ length a.payload) × Goes (some (take 8 a.payload, length a.payload)))
  Outcome (inr quiet) = Goes none

  -- What is left to do when the request is sent.
  abbrev receives : Endpoint → Run (Option (List ℕ × ℕ) × Endpoint)
  receives endpt1 =
      Run.◌>>=◌ (recv r fuel endpt1 (rounds itimes).arrival)
        (λ (msg, endpt'). Run.◌>>=◌ (lift (process_resp msg)) (λ shown. ok (shown, endpt')))

  module _ (eight : (n : ℕ) → length (float64 n) ≡ 8) (unused : ℕ) where
    sends :
        (wrblock : List ℕ)
        → Holds endpt.wrbuffer wrblock
        → mk_options outside uri (some addr) none ≡ ok (some (sorted_list o.qsort options unused))
        → All IsFit options
        → 0 < ndoubles
        → ndoubles * 8 < 4294967296
        → length posted ≤ endpt.wrbuffer.nbytes
        → (endpt1 : Endpoint) × (client_round o net r fuel float64 rounds addr uri ndoubles itimes
              endpt
            ≡ receives endpt1)
          × (endpt1.rdbuffer ≡ endpt.rdbuffer)
          × (endpt1.trace
              ≡ endpt.trace ++ (sent posted (some addr) (net endpt.trace posted (some addr)) ∷ []))
    unfolding client_round Request.post next_id
    sends wrblock writes made fit some_double small room =
        let (payload, built, carries) =
          mk_payload_lem float64 eight ndoubles itimes some_double small in
        let whole : datagram endpt.wrbuffer posted ≡ posted =
          rw (le→leb (length posted) endpt.wrbuffer.nbytes room) refl in
        let (buffer, run, held, same) =
          request-datagram outside options unused Code.method_post endpt.nextid (some payload) net
            (rounds itimes).slot endpt wrblock addr uri none (payload_bytes float64 ndoubles itimes)
            made fit carries (omega (arith, writes.small, room)) refl writes in
        (
          transmitted net (rounds itimes).slot.sending
              (record (next_id endpt).1 { wrbuffer = buffer }) posted (some addr),
          rw (built, run, whole) refl,
          refl,
          refl,
        )

    -- A round of the client sends one datagram, the POST request with the round's number as its payload's
    -- first double, and then receives once. Where nothing arrives it goes on; where a message arrives with
    -- at least eight bytes of payload it shows the first eight and their number. A message with fewer, or
    -- without a payload, is a fault: the payload is read without a look at its length or whether it is null.
    -- The options are those made of the URI, a double has eight bytes, and the request has room in the write
    -- buffer, what arrives in the read buffer. What arrives is not an acknowledgement, and its options, if
    -- it has any, have numbers less than 269 apart and values shorter than 269 bytes.
    pub client_round-cases :
        (rdblock wrblock : List ℕ)
        → Holds endpt.rdbuffer rdblock
        → Holds endpt.wrbuffer wrblock
        → mk_options outside uri (some addr) none ≡ ok (some (sorted_list o.qsort options unused))
        → All IsFit options
        → 0 < ndoubles
        → ndoubles * 8 < 4294967296
        → length posted ≤ endpt.wrbuffer.nbytes
        → (heard : Answer r endpt.rdbuffer.nbytes (rounds itimes).arrival
            ⊎ (is_done (rounds itimes).arrival.err ≡ false))
        → Outcome heard
    unfolding process_resp
    client_round-cases rdblock wrblock reads writes made fit some_double small room (inl a) =
        let (endpt1, run, same, trace) = sends wrblock writes made fit some_double small room in
        let there : Holds endpt1.rdbuffer rdblock = subst (λ b. Holds b rdblock) (sym same) reads in
        let front =
          recv-wire r endpt1 (rounds itimes).arrival rdblock a.header a.token a.options a.payload
            there a.done a.form (omega (arith, a.room, ap (λ b. b.nbytes) same)) fuel a.no_ack in
        elim (dec_lt (length a.payload) 8) [
          | yes short ↦ inl (
            short,
            run
                ∙ rw
                    (
                      front,
                      process_resp-short r a.header a.token a.options (rounds itimes).arrival.sender
                          a.payload short,
                    )
                    refl,
          )
          | no long ↦ inr (
            omega arith,
            (
              with_datagram endpt1 rdblock (rounds itimes).arrival,
              run
                  ∙ rw
                      (
                        front,
                        process_resp-long r a.header a.token a.options
                            (rounds itimes).arrival.sender a.payload (omega arith),
                      )
                      refl,
              trace,
            ),
          )
        ]
    client_round-cases rdblock wrblock reads writes made fit some_double small room (inr quiet) =
        let (endpt1, run, same, trace) = sends wrblock writes made fit some_double small room in
        (
          record endpt1 { tmout = Timeout.markstart (rounds itimes).arrival.now endpt1.tmout },
          run ∙ rw (quiet_recv r fuel endpt1 (rounds itimes).arrival quiet) refl,
          trace,
        )
