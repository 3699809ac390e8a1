-- ===== src/Examples/Clients.antt =====
-- Requests of mcget and of the time client, and their answers.
use mcoap.Base.{
  ℕ, zero, suc, ◌<◌, ◌≡◌, ◌⊎◌, ◌++◌, inl, refl, false, none, some, Bool, Option, List, [], ◌∷◌,
  arith, length-replicate, replicate, ◌==◌, if◌then◌else◌, to_u16,
}
use mcoap.Base.Int.{pos}
use mcoap.Base.Run.{ok}
use mcoap.CString.{Text, atoi, int_to_u32}
use mcoap.Endian.{swap_u16}
use mcoap.Header
use mcoap.Sockaddr.{Sockaddr, inet_init, inet_init_at}
use mcoap.CoapOption
use mcoap.CoapOption.{CoapOption}
use mcoap.OptionsList.{compare_options}
use mcoap.Message
use mcoap.Message.Encode.Wire.{wire}
use mcoap.OptionsList.Encode.Format.{encode, encode_option, nibble, extension}
use mcoap.Uri.{
  equaladdr, port_or_default, authority, getaddress, skip_host, getport, advanceto, advanceby,
  gethost,
}
use mcoap.Uri.Address.{to_address}
use mcoap.Uri.Pieces.{path_text, query_text}
use mcoap.Uri.Parse.{prefix, sorted_list, to_options_pieces}
use mcoap.Endpoint.{Endpoint, sent}
use mcoap.Endpoint.Receive.{Arrival}
use mcoap.Endpoint.Request.{mk_options}
use mcoap.Endpoint.Request.FromUri.{uri_options, uri_options-IsFit}
use mcoap.Buffer
use mcoap.Buffer.{Buffer, Holds}
use mcoap.Programs.Opened.{fresh}
use mcoap.Programs.TmClient.{Round}
use mcoap.Programs.TmClient.Rounds.{Answer, Outcome, client_round-cases}
use mcoap.Programs.Args.{port_flag}
use mcoap.Programs.Args.Scan.{Flagged, IsTrailing, IsAbsent}
use mcoap.Programs.Mcget.{Visit, main, get_uri}
use mcoap.Programs.Mcget.Main.{asks, main-asks}
use mcoap.Programs.Mcget.Shows.{Heard, IsUnheard, shown_after, asked, target, get_uri-shows}
use mcoap.Examples.Sorting.{qsort, sort, insert, is_nonpos}
use mcoap.Examples.Data.{two_options}
use mcoap.Examples.Uris.{resolver, nowhere, host, host-IsHost}
use mcoap.Examples.Endpoints.{endpoint, net, slot, reading}
use mcoap.Examples.Requests.{outside}
use mcoap.Examples.Arrivals.{arrival_with, plain-IsWire}
use mcoap.Examples.Servers.{start, silence}

-- Nothing arrives at the first try, and a message after it.
abbrev arrivals : ℕ → Arrival
arrivals zero = silence
arrivals (suc n) = arrival_with 0x51020007

abbrev pub visit : Visit
visit = record { start = start; rand = 3; slot = slot; arrivals = arrivals }

heard : Heard reading arrivals
unfolding wire encode encode_option nibble extension Message.is_ack Message.get_type
    Header.get_message_type
heard = record {
  k = 1;
  soon = omega arith;
  quiet = quiet;
  done = refl;
  header = 0x51020007;
  token = 9 ∷ [];
  options = two_options;
  payload = 42 ∷ [];
  form = plain-IsWire;
  room = omega arith;
  no_ack = refl;
}
  where
    quiet : (i : ℕ) → i < 1 → mcoap.Sockaddr.is_done (arrivals i).err ≡ false
    quiet zero h = refl
    quiet (suc i) h = absurd (omega arith)

abbrev answer : Heard reading arrivals ⊎ IsUnheard arrivals
answer = inl heard

-- coap://h:80/ab
abbrev pub uri : Text
unfolding path_text query_text
uri = prefix ++ (host ++ (b':' ∷ ((b'8' ∷ b'0' ∷ []) ++ (b'/' ∷ b'a' ∷ b'b' ∷ []))))

abbrev pub options : List CoapOption
options = uri_options host 80 ((b'a' ∷ b'b' ∷ []) ∷ []) []

abbrev pub found : Option (Bool × Sockaddr)
unfolding inet_init_at
found = some (inet_init_at resolver start.other host 80)

found_test : to_address resolver (λ text. pos 0) (some start.other) uri ≡ some found
unfolding to_address authority getaddress skip_host getport advanceto advanceby gethost inet_init
    inet_init_at port_or_default atoi uri found
found_test = refl

pub made :
    (unused : ℕ) × (mk_options (record outside { rand = 3 }) uri (some (target visit found)) none
      ≡ ok (some (sorted_list qsort options unused)))
unfolding mk_options equaladdr inet_init_at path_text query_text port_or_default atoi uri found
    swap_u16
made =
    to_options_pieces qsort resolver (λ a b. false) nowhere (λ text. pos 0)
      (some (inet_init_at resolver start.other host 80).1) host (b'8' ∷ b'0' ∷ [])
      (b'a' ∷ b'b' ∷ []) [] [] host-IsHost (refl, (refl, tt))
      (record { nonempty = omega arith; free = (refl, (refl, tt)); short = omega arith }, tt) tt
      (omega arith) refl

get_uri-shows_example :
    (endpt' : Endpoint) × (get_uri outside net reading 1 visit 5683 uri
      ≡ ok (7, shown_after answer, endpt'))
    × (endpt'.trace ≡ sent (asked outside visit options) (some (target visit found)) (pos 0) ∷ [])
unfolding wire encode encode_option nibble extension sort insert is_nonpos compare_options
    CoapOption.init_str CoapOption.init_uint32 CoapOption.alloc
get_uri-shows_example =
    get_uri-shows outside net reading 1 visit 5683 uri found options made.0 answer found_test made.1
      (uri_options-IsFit host 80 ((b'a' ∷ b'b' ∷ []) ∷ []) [] (omega arith) (omega arith, tt) tt)
      (omega arith)

main-asks_example :
    ((f : Flagged port_flag (uri ∷ [])) × (main outside net reading 1
          (λ i. visit)
          ((b'm' ∷ []) ∷ uri ∷ [])
        ≡ (if to_u16 (int_to_u32 (atoi outside.wild f.value)) == 0
            then ok none
            else asks outside net reading 1
                (λ i. visit)
                (to_u16 (int_to_u32 (atoi outside.wild f.value)))
                (uri ∷ []))))
    ⊎ (IsTrailing port_flag (uri ∷ [])
        × (main outside net reading 1 (λ i. visit) ((b'm' ∷ []) ∷ uri ∷ []) ≡ ok none))
    ⊎ (IsAbsent port_flag (uri ∷ [])
        × (main outside net reading 1 (λ i. visit) ((b'm' ∷ []) ∷ uri ∷ [])
            ≡ asks outside net reading 1 (λ i. visit) 5683 (uri ∷ [])))
unfolding uri
main-asks_example = main-asks outside net reading 1 (λ i. visit) (b'm' ∷ []) (uri ∷ []) refl

abbrev pub double : ℕ → List ℕ
double n = replicate 8 0

-- Each round is answered with one byte of payload, which is too short.
abbrev rounds : ℕ → Round
rounds i = record { rand = 3; slot = slot; arrival = arrival_with 0x51020007 }

short : Answer reading (fresh start).rdbuffer.nbytes (arrival_with 0x51020007)
unfolding Buffer.init wire encode encode_option nibble extension Message.is_ack Message.get_type
    Header.get_message_type
short = record {
  done = refl;
  header = 0x51020007;
  token = 9 ∷ [];
  options = two_options;
  payload = 42 ∷ [];
  form = plain-IsWire;
  room = omega arith;
  no_ack = refl;
}

pub opened-Holds :
    (buffer : Buffer)
    → Holds (Buffer.init buffer 1024 (some (Buffer.calloc 1024))) (Buffer.calloc 1024)
unfolding Buffer.init
opened-Holds buffer =
    let n = length-replicate {A = ℕ} 1024 0 in
    record { bytes = refl; within = omega (arith, n); small = omega arith }

client_round-cases_example :
    Outcome outside net reading 1 double rounds
      (target visit found)
      uri
      3
      0
      (fresh start)
      options
      (inl short)
unfolding Buffer.init wire encode encode_option nibble extension sort insert is_nonpos
    compare_options CoapOption.init_str CoapOption.init_uint32 CoapOption.alloc
client_round-cases_example =
    client_round-cases outside net reading 1 double rounds (target visit found) uri 3 0
      (fresh start) options (λ n. refl) made.0 (Buffer.calloc 1024) (Buffer.calloc 1024)
      (opened-Holds endpoint.rdbuffer) (opened-Holds endpoint.wrbuffer) made.1
      (uri_options-IsFit host 80 ((b'a' ∷ b'b' ∷ []) ∷ []) [] (omega arith) (omega arith, tt) tt)
      (omega arith) (omega arith) (omega arith) (inl short)
