-- ===== src/Examples/Servers.antt =====
-- The time server, the time client and mcget with what arrives at them.
use mcoap.Base.{◌≡◌, inl, inr, refl, List, [], ◌∷◌, arith}
use mcoap.Base.Int.{pos}
use mcoap.Base.Run.{ok}
use mcoap.Header
use mcoap.Sockaddr.{mn_timeout}
use mcoap.OptionsList.{compare_options}
use mcoap.Message
use mcoap.Message.Encode.Wire.{wire}
use mcoap.OptionsList.Encode.Format.{encode, encode_option, nibble, extension}
use mcoap.Endpoint.{Endpoint}
use mcoap.Endpoint.Send.{Times}
use mcoap.Endpoint.Receive.{Arrival}
use mcoap.Programs.{Start}
use mcoap.Programs.TmServer.{run_server}
use mcoap.Programs.TmServer.Echo.{Traffic, echoes, run_server-echoes}
use mcoap.Examples.Sorting.{sort, insert, is_nonpos}
use mcoap.Examples.Data.{two_options}
use mcoap.Examples.Uris.{resolver, nowhere}
use mcoap.Examples.Endpoints.{endpoint, net, slot, reading, no_bytes}
use mcoap.Examples.Queues.{at_second}
use mcoap.Examples.Arrivals.{arrival_with, plain-IsWire}

abbrev pub start : Start
start = record {
  rand = 7;
  create_err = pos 0;
  bind_err = pos 0;
  endpt = endpoint;
  own = nowhere;
  other = record nowhere { padding = 1 };
}

abbrev pub silence : Arrival
silence = record {
  now = pos 0;
  err = mn_timeout;
  bytes = [];
  sender = nowhere;
  some_byte = no_bytes;
}

abbrev pub times : Times
times = record { tested = λ p. at_second 0; restarted = λ p. pos 0; sending = λ p. pos 0 }

abbrev arrivals : List (Arrival × Times)
arrivals = (arrival_with 0x51020007, times) ∷ (silence, times) ∷ []

traffic : Traffic reading 1024 1024 arrivals
unfolding wire encode encode_option nibble extension sort insert is_nonpos compare_options
    Message.is_ack Message.is_confirmable Message.get_type Header.get_message_type
traffic = (
  inl (record {
    header = 0x51020007;
    token = 9 ∷ [];
    options = two_options;
    payload = 42 ∷ [];
    done = refl;
    form = plain-IsWire;
    room = omega arith;
    no_ack = refl;
    plain = refl;
    fits = omega arith;
  }),
  (inr refl, tt),
)

run_server-echoes_example :
    (endpt' : Endpoint) × (run_server resolver reading net (λ e. slot) 200 1 start arrivals 5683
      ≡ ok endpt')
    × (endpt'.trace ≡ echoes net reading 1024 1024 arrivals traffic [])
run_server-echoes_example =
    run_server-echoes resolver reading net (λ e. slot) 200 1 start arrivals 5683 traffic
      (omega arith)
