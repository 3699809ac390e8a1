-- ===== src/Endpoint/Receive/Forward.antt =====
-- Sending a received message on: its parts, as the message that was read has them.
use mcoap.Base.{
  ℕ, ◌<◌, ◌≡◌, refl, sym, ap, ◌∙◌, none, some, List, [], ◌∷◌, map, All, append-nil, arith, length,
  length-take, length-map, take-length, block_of,
}
use mcoap.Sockaddr.{Sockaddr}
use mcoap.CoapOption.{CoapOption}
use mcoap.OptionsList.{compare_options}
use mcoap.OptionsList.Sorted.{IsFit, sort-AllWritable}
use mcoap.OptionsList.Encode.Format.{AllWritable}
use mcoap.OptionsList.Decode.Readable.{AllReadable, owned}
use mcoap.Message
use mcoap.Message.Encode.Wire.{Carries, CarriesOptions, CarriesPayload, IsMessage}
use mcoap.Message.Decode.Reads.{exactly, payload_read, read_list}
use mcoap.Endpoint.Receive.{Reading}
use mcoap.Endpoint.Receive.Datagram.{received}

owned-AllFit :
    (prev : ℕ) (options : List CoapOption)
    → AllReadable prev options
    → All IsFit (map owned options)
owned-AllFit prev [] r = tt
owned-AllFit prev (option ∷ options) r = (
  record {
    number = r.0.writable.number;
    short = r.0.writable.short;
    held =
        omega
          (arith, length-take option.value.nbytes (block_of option.value.bytes), r.0.writable.held);
  },
  owned-AllFit option.option_num options r.1,
)

exactly-Carries : (bytes : List ℕ) → length bytes < 4294967296 → Carries (exactly bytes) bytes
exactly-Carries bytes small = record {
  count = refl;
  held = omega arith;
  first = take-length bytes;
  small = omega arith;
}

payload-Carries :
    (payload : List ℕ)
    → length payload < 4294967296
    → CarriesPayload (payload_read none payload) payload
payload-Carries [] small = refl
payload-Carries (byte ∷ bytes) small = exactly-Carries (byte ∷ bytes) small

-- The options in the order that a received message has them in.
abbrev pub in_order : Reading → List CoapOption → List CoapOption
in_order r options = r.qsort.sort compare_options (map owned options)

empty_lem : (options : List CoapOption) → length options ≡ 0 → options ≡ []
empty_lem [] e = refl
empty_lem (option ∷ options) e = absurd (omega arith)

read_list-CarriesOptions :
    (r : Reading) (options : List CoapOption)
    → AllReadable 0 options
    → CarriesOptions (read_list r.qsort options) (in_order r options)
read_list-CarriesOptions r [] readable =
    empty_lem (in_order r []) (sort-AllWritable r.qsort [] tt).1
read_list-CarriesOptions r (option ∷ options) readable =
    let count : length (in_order r (option ∷ options)) ≡ length (option ∷ options) =
      (sort-AllWritable r.qsort (map owned (option ∷ options))
        (owned-AllFit 0 (option ∷ options) readable)).1
      ∙ length-map (option ∷ options) owned in
    ([], ap some (sym (append-nil (in_order r (option ∷ options)))), sym count)

module _ (r : Reading) (header : ℕ) (token : List ℕ) (options : List CoapOption) (payload : List ℕ)
    (sender : Sockaddr) where
  pub received-IsMessage :
      AllReadable 0 options
      → length token < 4294967296
      → length payload < 4294967296
      → IsMessage
          (received r header token options payload sender)
          token
          (in_order r options)
          payload
  unfolding Message.alloc
  received-IsMessage readable t p = record {
    token_buffer = exactly token;
    token_there = refl;
    token_carries = exactly-Carries token t;
    options_carry = read_list-CarriesOptions r options readable;
    payload_carries = payload-Carries payload p;
  }

  pub received-AllWritable : AllReadable 0 options → AllWritable 0 (in_order r options)
  received-AllWritable readable =
      (sort-AllWritable r.qsort (map owned options) (owned-AllFit 0 options readable)).0
