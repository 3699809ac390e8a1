-- ===== src/Examples/Uris.antt =====
-- URIs with and without a port.
use mcoap.Base.{ℕ, ◌≡◌, ◌++◌, false, refl, Option, none, some, [], ◌∷◌, arith}
use mcoap.Base.Int.{pos}
use mcoap.Base.Run.{ok}
use mcoap.CString.{Text, atoi}
use mcoap.Sockaddr.{Sockaddr, Resolver, Lookup, inet_init_at}
use mcoap.OptionsList.{OptionsList}
use mcoap.Uri.{default_port, equaladdr, port_or_default}
use mcoap.Uri.Options.{str_option, to_options}
use mcoap.Uri.Safety.{to_options_total}
use mcoap.Uri.Pieces.{path_text, query_text}
use mcoap.Uri.Parse.{IsHost, prefix, both, sorted_list, to_options_no_port, to_options_pieces}
use mcoap.Examples.Sorting.{qsort}

-- The host is "h", at 10.0.0.1, as a little-endian number.
abbrev pub resolver : Resolver
resolver = record { inet_pton = λ text. none; gethostbyname = λ text. Lookup.found 16777226 }

abbrev pub nowhere : Sockaddr
nowhere = record { family = 0; port = 0; addr = 0; padding = 0 }

abbrev pub host : Text
host = b'h' ∷ []

pub host-IsHost : IsHost host
host-IsHost = record {
  nonempty = omega arith;
  free = (refl, tt);
  unbracketed = omega arith;
  short = omega arith;
}

to_options_total_example :
    (result : Option OptionsList) × (to_options qsort resolver
        (λ a b. false)
        nowhere
        (λ text. pos 0)
        none
        (prefix ++ host)
      ≡ ok result)
to_options_total_example =
    to_options_total qsort resolver (λ a b. false) nowhere (λ text. pos 0) none (prefix ++ host)
      (omega arith)

to_options_no_port_example :
    to_options qsort resolver
      (λ a b. false)
      nowhere
      (λ text. pos 0)
      none
      (prefix ++ (host ++ (b'/' ∷ b'a' ∷ [])))
    ≡ ok (some (sorted_list qsort (both host default_port) 0))
unfolding equaladdr inet_init_at
to_options_no_port_example =
    to_options_no_port qsort resolver (λ a b. false) nowhere (λ text. pos 0) none host (b'a' ∷ [])
      host-IsHost refl

-- coap://h:80/ab?q
to_options_pieces_example :
    (unused : ℕ) × (to_options qsort resolver
        (λ a b. false)
        nowhere
        (λ text. pos 0)
        none
        (prefix
          ++ (host
              ++ (b':'
                  ∷ ((b'8' ∷ b'0' ∷ [])
                      ++ (path_text ((b'a' ∷ b'b' ∷ []) ∷ [])
                          ++ query_text b'?' ((b'q' ∷ []) ∷ []))))))
      ≡ ok (
          some (
            sorted_list qsort
              (both host 80 ++ (str_option 11 (b'a' ∷ b'b' ∷ []) ∷ str_option 15 (b'q' ∷ []) ∷ []))
              unused)))
unfolding equaladdr inet_init_at path_text query_text port_or_default atoi
to_options_pieces_example =
    to_options_pieces qsort resolver (λ a b. false) nowhere (λ text. pos 0) none host
      (b'8' ∷ b'0' ∷ []) (b'a' ∷ b'b' ∷ []) [] ((b'q' ∷ []) ∷ []) host-IsHost (refl, (refl, tt))
      (record { nonempty = omega arith; free = (refl, (refl, tt)); short = omega arith }, tt)
      (record { nonempty = omega arith; free = (refl, tt); short = omega arith }, tt) (omega arith)
      refl
