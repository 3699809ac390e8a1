-- ===== src/Programs/Exchange.antt =====
-- A round of the time client that the time server answers.
use mcoap.Base.{
  ℕ, ◌*◌, ◌≡◌, ◌<◌, ◌≤◌, inl, inr, refl, ap, ◌∙◌, true, false, none, some, List, [], ◌∷◌, ◌++◌, All,
  arith, length, take, take-append_eq,
}
use mcoap.Base.Run.{ok}
use mcoap.CString.{Text}
use mcoap.Code
use mcoap.Header
use mcoap.Header.Fields.{fields-create}
use mcoap.Sockaddr.{Sockaddr, Resolver, is_done}
use mcoap.Buffer.{Holds}
use mcoap.CoapOption.{CoapOption}
use mcoap.OptionsList.{compare_options}
use mcoap.OptionsList.Sorted.{IsFit}
use mcoap.OptionsList.Decode.Readable.{AllReadable}
use mcoap.Message
use mcoap.Message.Encode.Wire.{wire}
use mcoap.Uri.Parse.{sorted_list}
use mcoap.Queue.{Ptr}
use mcoap.Endpoint.{Endpoint, sent}
use mcoap.Endpoint.Send.{Net, Slot, Times}
use mcoap.Endpoint.Receive.{Reading, Arrival}
use mcoap.Endpoint.Receive.Datagram.{received}
use mcoap.Endpoint.Receive.Forward.{in_order}
use mcoap.Endpoint.Request.{Outside, mk_options}
use mcoap.Endpoint.Request.Sends.{token_bytes}
use mcoap.Endpoint.Request.Unconfirmed.{plain_header, plain_header-IsU32}
use mcoap.Programs.{Start}
use mcoap.Programs.TmServer.{run_server}
use mcoap.Programs.TmServer.Echo.{Request, run_server-echoes}
use mcoap.Programs.TmClient.{Round, client_round}
use mcoap.Programs.TmClient.Rounds.{
  payload_bytes, payload_length, posted, Answer, client_round-cases,
}

module _ (r : Reading) (code msgid : ℕ) (token : List ℕ) (options : List CoapOption)
    (payload : List ℕ) (sender : Sockaddr) where
  plain_no_ack :
      Message.is_ack (some (received r (plain_header code msgid) token options payload sender))
      ≡ false
  unfolding Message.is_ack Message.get_type plain_header
  plain_no_ack = rw (fields-create 1 1 6 code msgid).1 refl

  plain_plain :
      Message.is_confirmable (received r (plain_header code msgid) token options payload sender)
      ≡ false
  unfolding Message.is_confirmable Message.get_type plain_header
  plain_plain = rw (fields-create 1 1 6 code msgid).1 refl

  plain_token : Header.get_token_length (plain_header code msgid) ≡ 6
  unfolding plain_header
  plain_token = (fields-create 1 1 6 code msgid).2

-- Options that can be read back, with no more than a datagram can hold.
pub record IsLegible (options : List CoapOption) (bytes : List ℕ) : Type 0 where
  pub readable : AllReadable 0 options
  pub fits : length bytes ≤ 1024

module _ (o : Outside) (net : Net) (r : Reading) (fuel : ℕ) (float64 : ℕ → List ℕ)
    (rounds : ℕ → Round) (addr : Sockaddr) (uri : Text) (ndoubles itimes : ℕ) (endpt : Endpoint)
    (options : List CoapOption) (server : Reading) where
  abbrev request : List ℕ
  request = posted o net r fuel float64 rounds addr uri ndoubles itimes endpt options

  abbrev ordered : List CoapOption
  ordered = o.qsort.sort compare_options options

  abbrev id_token : List ℕ
  id_token = token_bytes (record o { rand = (rounds itimes).rand }) endpt.nextid

  abbrev number : List ℕ
  number = payload_bytes float64 ndoubles itimes

  -- The bytes that the server answers with.
  abbrev pub echoed : List ℕ
  echoed =
      wire (plain_header Code.method_post endpt.nextid) id_token (in_order server ordered) number

  request-IsRequest :
      (a : Arrival)
      → is_done a.err ≡ true
      → a.bytes ≡ request
      → IsLegible ordered request
      → length echoed ≤ 1024
      → Request server 1024 1024 a
  request-IsRequest a done same legible fits = record {
    header = plain_header Code.method_post endpt.nextid;
    token = id_token;
    options = ordered;
    payload = number;
    done = done;
    form = record {
      form = same;
      header_small = plain_header-IsU32 Code.method_post endpt.nextid;
      token_length =
          plain_token server Code.method_post endpt.nextid [] [] [] a.sender ∙ omega arith;
      readable = legible.readable;
      small = omega (arith, legible.fits);
    };
    room = omega (arith, ap length same, legible.fits);
    no_ack = plain_no_ack server Code.method_post endpt.nextid id_token ordered number a.sender;
    plain = plain_plain server Code.method_post endpt.nextid id_token ordered number a.sender;
    fits = fits;
  }

  echo-Answer :
      is_done (rounds itimes).arrival.err ≡ true
      → (rounds itimes).arrival.bytes ≡ echoed
      → IsLegible (in_order server ordered) echoed
      → length echoed ≤ endpt.rdbuffer.nbytes
      → Answer r endpt.rdbuffer.nbytes (rounds itimes).arrival
  echo-Answer done same legible room =
      let from : Sockaddr = (rounds itimes).arrival.sender in
      record {
        done = done;
        header = plain_header Code.method_post endpt.nextid;
        token = id_token;
        options = in_order server ordered;
        payload = number;
        form = record {
          form = same;
          header_small = plain_header-IsU32 Code.method_post endpt.nextid;
          token_length = plain_token r Code.method_post endpt.nextid [] [] [] from ∙ omega arith;
          readable = legible.readable;
          small = omega (arith, legible.fits);
        };
        room = omega (arith, ap length same, room);
        no_ack =
            plain_no_ack r Code.method_post endpt.nextid id_token (in_order server ordered) number
              from;
      }

  -- What the server does with the request, and the client with the answer.
  abbrev pub IsExchanged :
      Resolver → Net → (Endpoint → Slot) → Ptr → Start → ℕ → Arrival → Times → Type 0
  IsExchanged resolver back slots handler s port a times =
      ((endpt1 : Endpoint) × (run_server resolver server back slots handler 1 s ((a, times) ∷ [])
            port
          ≡ ok endpt1)
        × (endpt1.trace
            ≡ s.endpt.trace
              ++ (sent echoed (some a.sender) (back s.endpt.trace echoed (some a.sender)) ∷ [])))
      × ((endpt2 : Endpoint) × (client_round o net r fuel float64 rounds addr uri ndoubles itimes
              endpt
            ≡ ok (some (float64 itimes, ndoubles * 8), endpt2)))

  -- When the request of a round of the time client arrives at the time server, and the datagram that the
  -- server sends back arrives at the client, the client shows the bytes of its round's number as a
  -- double, and the length of the payload that it sent. The options can be read back, in the client's
  -- order and in the server's, and both datagrams fit into 1024 bytes and into the client's buffers.
  -- The options are those made of the URI, and a double has eight bytes.
  pub exchange :
      (eight : (n : ℕ) → length (float64 n) ≡ 8) (unused : ℕ) (rdblock wrblock : List ℕ)
      (resolver : Resolver) (back : Net) (slots : Endpoint → Slot) (handler : Ptr) (s : Start)
      (port : ℕ) (a : Arrival) (times : Times)
      → Holds endpt.rdbuffer rdblock
      → Holds endpt.wrbuffer wrblock
      → mk_options (record o { rand = (rounds itimes).rand }) uri (some addr) none
        ≡ ok (some (sorted_list o.qsort options unused))
      → All IsFit options
      → 0 < ndoubles
      → ndoubles * 8 < 4294967296
      → length request ≤ endpt.wrbuffer.nbytes
      → length echoed ≤ endpt.rdbuffer.nbytes
      → IsLegible ordered request
      → IsLegible (in_order server ordered) echoed
      → is_done a.err ≡ true
      → a.bytes ≡ request
      → is_done (rounds itimes).arrival.err ≡ true
      → (rounds itimes).arrival.bytes ≡ echoed
      → IsExchanged resolver back slots handler s port a times
  unfolding request-IsRequest echo-Answer
  exchange eight unused rdblock wrblock resolver back slots handler s port a times reads writes made
        fit some_double small room1 room2 legible1 legible2 done1 same1 done2 same2 =
      let q = request-IsRequest a done1 same1 legible1 legible2.fits in
      let (endpt1, run, trace) =
        run_server-echoes resolver server back slots handler 1 s ((a, times) ∷ []) port (inl q, tt)
          (omega arith) in
      let n = payload_length float64 eight ndoubles itimes some_double small in
      let first : take 8 number ≡ float64 itimes =
        take-append_eq 8 (float64 itimes) _ (omega (arith, eight itimes)) in
      (
        (endpt1, run, trace),
        elim (client_round-cases o net r fuel float64 rounds addr uri ndoubles itimes endpt options
            eight unused rdblock wrblock reads writes made fit some_double small room1
            (inl (echo-Answer done2 same2 legible2 room2))) [
              | inl (short, e) ↦ absurd (omega (arith, n))
              | inr (long, (endpt2, run2, trace2)) ↦ (
                endpt2,
                run2
                    ∙ ap (λ x. ok (some x, endpt2))
                        (ap (λ l. (l, length number)) first ∙ ap (λ k. (float64 itimes, k)) n),
              )
            ],
      )
