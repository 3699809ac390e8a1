-- ===== src/Examples/Requests.antt =====
-- A request for coap://h:80/ab?q, and rounds of the loop in which nothing arrives.
use mcoap.Base.{ℕ, ◌*◌, ◌≡◌, ◌++◌, false, refl, none, some, List, [], ◌∷◌, arith}
use mcoap.Base.Int.{pos, ◌+ℤ◌, ◌-ℤ◌}
use mcoap.Base.Run.{ok}
use mcoap.CString.{atoi}
use mcoap.Sockaddr.{inet_init_at, mn_timeout}
use mcoap.CoapOption
use mcoap.OptionsList.{compare_options}
use mcoap.OptionsList.Encode.Format.{encode, encode_option, nibble, extension}
use mcoap.Message.Encode.Wire.{wire}
use mcoap.Uri.{equaladdr, port_or_default}
use mcoap.Uri.Pieces.{path_text, query_text}
use mcoap.Uri.Parse.{prefix}
use mcoap.Endpoint.{Endpoint}
use mcoap.Timeout
use mcoap.Timeout.{second}
use mcoap.Queue.{is_out}
use mcoap.Queue.Refine.{Represents}
use mcoap.Endpoint.Send.{Times}
use mcoap.Endpoint.Receive.{Arrival, ReadFn, read_loop}
use mcoap.Endpoint.Receive.Silence.{read_loop-empty}
use mcoap.Endpoint.Send.Plain.{datagram}
use mcoap.Endpoint.Send.Confirmed.{Outcome}
use mcoap.Endpoint.Request.{Outside, send_msg}
use mcoap.Endpoint.Request.Sends.{token_bytes, header_of}
use mcoap.Endpoint.Request.FromUri.{uri_options, send_msg-Outcome}
use mcoap.Examples.Sorting.{qsort, sort, insert, is_nonpos}
use mcoap.Examples.Data.{zeros, empty_buffer, empty_buffer-Holds}
use mcoap.Examples.Queues.{two_cells, two_queue-Represents, at_second}
use mcoap.Examples.Uris.{resolver, nowhere, host, host-IsHost}
use mcoap.Examples.Endpoints.{endpoint, endpoint-IsSound, net, slot, reading, no_bytes}

abbrev pub outside : Outside
outside = record {
  qsort = qsort;
  resolver = resolver;
  same_in6 = λ a b. false;
  junk = nowhere;
  wild = λ text. pos 0;
  rand = 5;
}

abbrev request_bytes : List ℕ
unfolding wire header_of
request_bytes = datagram empty_buffer (
    wire (header_of 1 7) (token_bytes outside 7)
      (qsort.sort compare_options
        (uri_options host 80 ((b'a' ∷ b'b' ∷ []) ∷ []) ((b'q' ∷ []) ∷ [])))
      [])

send_msg-Outcome_example :
    (endpt' : Endpoint) × (send_msg outside net slot endpoint
        (some nowhere)
        100
        1
        (prefix
          ++ (host
              ++ (b':'
                  ∷ ((b'8' ∷ b'0' ∷ [])
                      ++ (path_text ((b'a' ∷ b'b' ∷ []) ∷ [])
                          ++ query_text b'?' ((b'q' ∷ []) ∷ []))))))
        none
        none
      ≡ ok (7, endpt'))
    × Outcome slot endpoint nowhere 7 100 two_cells request_bytes (pos 0) endpt'
unfolding equaladdr inet_init_at path_text query_text port_or_default atoi wire encode encode_option
    nibble extension sort insert is_nonpos compare_options CoapOption.init_str
    CoapOption.init_uint32 CoapOption.alloc request_bytes
send_msg-Outcome_example =
    send_msg-Outcome outside net slot endpoint zeros nowhere 100 two_cells 1 none [] host
      (b'8' ∷ b'0' ∷ []) (b'a' ∷ b'b' ∷ []) [] ((b'q' ∷ []) ∷ []) host-IsHost (refl, (refl, tt))
      (record { nonempty = omega arith; free = (refl, (refl, tt)); short = omega arith }, tt)
      (record { nonempty = omega arith; free = (refl, tt); short = omega arith }, tt) (omega arith)
      (omega arith, tt) (omega arith, tt) (omega arith) refl refl (omega arith) (omega arith)
      (omega arith) empty_buffer-Holds two_queue-Represents (omega arith) refl

-- A round in which nothing arrives, at the given time.
abbrev silent : ℕ → Arrival × Times
silent t = (
  record {
    now = pos (t * second);
    err = mn_timeout;
    bytes = [];
    sender = nowhere;
    some_byte = no_bytes;
  },
  record {
    tested = λ p. at_second t;
    restarted = λ p. pos (t * second);
    sending = λ p. pos (t * second);
  },
)

abbrev five_rounds : List (Arrival × Times)
five_rounds = silent 100 ∷ silent 200 ∷ silent 300 ∷ silent 400 ∷ silent 500 ∷ []

abbrev no_readfn : ReadFn
no_readfn endpt msg = ok (pos 1, endpt)

read_loop-empty_example :
    (endpt' : Endpoint) × (read_loop reading net no_readfn 3 five_rounds
        (record endpoint { running = pos 1 })
      ≡ ok endpt')
    × Represents endpt'.confirmq []
unfolding is_out Timeout.get Timeout.init Timeout.markstart ◌+ℤ◌ ◌-ℤ◌
read_loop-empty_example =
    read_loop-empty reading net no_readfn 3 five_rounds (record endpoint { running = pos 1 })
      two_cells (record { queue = two_queue-Represents; waiting = endpoint-IsSound.waiting })
      (omega arith) refl
      (
        refl,
        (refl, (refl, tt)),
        (
          refl,
          (refl, (refl, tt)),
          (refl, (refl, (refl, tt)), (refl, (refl, (refl, tt)), (refl, tt, tt))),
        ),
      )
      (omega arith)
