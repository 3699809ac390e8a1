-- ===== src/Examples/Data.antt =====
-- A Uri-Path of three bytes and a Size1 of one, and buffers for them.
use mcoap.Base.{ℕ, ◌≡◌, refl, some, List, [], ◌∷◌, ◌++◌, arith, replicate}
use mcoap.Buffer.{Buffer, Holds}
use mcoap.CoapOption.{CoapOption}
use mcoap.OptionsList.{OptionsList}
use mcoap.OptionsList.Encode.Format.{AllWritable, encode, encode_option, nibble, extension}
use mcoap.OptionsList.Decode.Readable.{AllReadable}

abbrev pub uri_path : CoapOption
uri_path = record {
  option_num = 11;
  value = record { nbytes = 3; bytes = some (97 ∷ 98 ∷ 99 ∷ []) };
}

abbrev pub size1 : CoapOption
size1 = record { option_num = 60; value = record { nbytes = 1; bytes = some (5 ∷ []) } }

abbrev pub two_options : List CoapOption
two_options = uri_path ∷ size1 ∷ []

abbrev pub options_list : OptionsList
options_list = record { noptions = 2; options = some two_options }

abbrev pub on_wire : List ℕ
on_wire = 0xb3 ∷ 97 ∷ 98 ∷ 99 ∷ 0xd1 ∷ 36 ∷ 5 ∷ []

encode_test : encode 0 two_options ≡ on_wire
unfolding encode encode_option nibble extension
encode_test = refl

pub two_options-AllReadable : AllReadable 0 two_options
two_options-AllReadable = (
  record {
    writable = record {
      rising = omega arith;
      number = omega arith;
      short = omega arith;
      held = omega arith;
    };
    near = omega arith;
    brief = omega arith;
  },
  (
    record {
      writable = record {
        rising = omega arith;
        number = omega arith;
        short = omega arith;
        held = omega arith;
      };
      near = omega arith;
      brief = omega arith;
    },
    tt,
  ),
)

pub two_options-AllWritable : AllWritable 0 two_options
two_options-AllWritable =
    (two_options-AllReadable.0.writable, (two_options-AllReadable.1.0.writable, tt))

abbrev pub zeros : List ℕ
zeros = replicate 16 0

abbrev pub empty_buffer : Buffer
empty_buffer = record { nbytes = 16; bytes = some zeros }

pub empty_buffer-Holds : Holds empty_buffer zeros
empty_buffer-Holds = record { bytes = refl; within = omega arith; small = omega arith }

-- A header of four bytes, the options, and a payload of one byte.
abbrev pub received : List ℕ
received = 0x40 ∷ 1 ∷ 0 ∷ 7 ∷ (on_wire ++ (0xff ∷ 42 ∷ []))

abbrev pub received_buffer : Buffer
received_buffer = record { nbytes = 13; bytes = some received }

pub received_buffer-Holds : Holds received_buffer received
received_buffer-Holds = record { bytes = refl; within = omega arith; small = omega arith }
