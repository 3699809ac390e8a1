-- ===== src/Examples/Exchanges.antt =====
-- A round of the time client and the time server's answer.
use mcoap.Base.{ℕ, ◌≡◌, ◌<◌, true, length, refl, List, [], ◌∷◌, arith}
use mcoap.Base.Int.{pos}
use mcoap.Sockaddr.{is_done}
use mcoap.Buffer
use mcoap.CoapOption
use mcoap.CoapOption.{CoapOption}
use mcoap.OptionsList.{compare_options}
use mcoap.OptionsList.Encode.Format.{encode, encode_option, nibble, extension}
use mcoap.Message.Encode.Wire.{wire}
use mcoap.Endpoint.Receive.{Arrival}
use mcoap.Endpoint.Request.FromUri.{uri_options-IsFit}
use mcoap.Programs.Opened.{fresh}
use mcoap.Programs.TmClient.{Round}
use mcoap.Programs.TmClient.Rounds.{posted}
use mcoap.Programs.Mcget.Shows.{target}
use mcoap.Programs.Exchange.{IsExchanged, echoed, exchange}
use mcoap.Examples.Sorting.{sort, insert, is_nonpos}
use mcoap.Examples.Uris.{resolver, nowhere, host}
use mcoap.Examples.Endpoints.{endpoint, net, slot, reading}
use mcoap.Examples.Requests.{outside}
use mcoap.Examples.Servers.{start, silence, times}
use mcoap.Examples.Clients.{visit, uri, options, found, double, made, opened-Holds}

abbrev unanswered : ℕ → Round
unanswered i = record { rand = 3; slot = slot; arrival = silence }

abbrev answer_bytes : List ℕ
answer_bytes =
    echoed outside net reading 1 double unanswered (target visit found) uri 3 0 (fresh start)
      options reading

answer_has : is_done (pos 0) ≡ true → 0 < length answer_bytes
unfolding wire
answer_has e = omega arith

abbrev rounds : ℕ → Round
rounds i = record {
  rand = 3;
  slot = slot;
  arrival = record {
    now = pos 0;
    err = pos 0;
    bytes = answer_bytes;
    sender = nowhere;
    some_byte = answer_has;
  };
}

abbrev request_bytes : List ℕ
request_bytes =
    posted outside net reading 1 double rounds (target visit found) uri 3 0 (fresh start) options

request_has : is_done (pos 0) ≡ true → 0 < length request_bytes
unfolding wire
request_has e = omega arith

abbrev arrival : Arrival
arrival = record {
  now = pos 0;
  err = pos 0;
  bytes = request_bytes;
  sender = nowhere;
  some_byte = request_has;
}

exchange_example :
    IsExchanged outside net reading 1 double rounds
      (target visit found)
      uri
      3
      0
      (fresh start)
      options
      reading
      resolver
      net
      (λ e. slot)
      200
      start
      5683
      arrival
      times
unfolding Buffer.init wire encode encode_option nibble extension sort insert is_nonpos
    compare_options CoapOption.init_str CoapOption.init_uint32 CoapOption.alloc
exchange_example =
    exchange outside net reading 1 double rounds (target visit found) uri 3 0 (fresh start) options
      reading (λ n. refl) made.0 (Buffer.calloc 1024) (Buffer.calloc 1024) resolver net (λ e. slot)
      200 start 5683 arrival times (opened-Holds endpoint.rdbuffer) (opened-Holds endpoint.wrbuffer)
      made.1
      (uri_options-IsFit host 80 ((b'a' ∷ b'b' ∷ []) ∷ []) [] (omega arith) (omega arith, tt) tt)
      (omega arith) (omega arith) (omega arith) (omega arith)
      (record { readable = (omega arith, (omega arith, (omega arith, tt))); fits = omega arith })
      (record { readable = (omega arith, (omega arith, (omega arith, tt))); fits = omega arith })
      refl refl refl refl
