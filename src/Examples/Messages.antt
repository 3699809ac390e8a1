-- ===== src/Examples/Messages.antt =====
-- A message with a token, two options and a payload.
use mcoap.Base.Run.{ok}
use mcoap.Header
use mcoap.OptionsList.{compare_options}
use mcoap.OptionsList.Decode.Readable.{owned}
use mcoap.Message.Decode.{from_buffer}
use mcoap.Message.Decode.Reads.{exactly, from_buffer-wire}
use mcoap.Examples.Sorting.{qsort}
use mcoap.Base.{map, ℕ, ◌≤◌, ◌<◌, ◌≡◌, ◌⊎◌, refl, none, some, [], ◌∷◌, arith, length}
use mcoap.OptionsList.Encode.Format.{encode, encode_option, nibble, extension}
use mcoap.OptionsList.Encode.Writes.{written}
use mcoap.Message.{Message}
use mcoap.Message.Encode.{buffer_size, to_buffer}
use mcoap.Message.Encode.Wire.{wire, IsMessage}
use mcoap.Message.Encode.Writes.{buffer_size-wire, to_buffer-wire}
use mcoap.Examples.Data.{
  two_options, options_list, two_options-AllWritable, two_options-AllReadable, zeros, empty_buffer,
  empty_buffer-Holds,
}

abbrev message : Message ℕ
message = record {
  header = 0x41020007;
  token = some (record { nbytes = 1; bytes = some (9 ∷ []) });
  options = some options_list;
  payload = some (record { nbytes = 1; bytes = some (42 ∷ []) });
  source = none;
}

message-IsMessage : IsMessage message (9 ∷ []) two_options (42 ∷ [])
message-IsMessage = record {
  token_buffer = record { nbytes = 1; bytes = some (9 ∷ []) };
  token_there = refl;
  token_carries = record { count = refl; held = omega arith; first = refl; small = omega arith };
  options_carry = ([], refl, refl);
  payload_carries = record { count = refl; held = omega arith; first = refl; small = omega arith };
}

wire_test :
    wire message.header (9 ∷ []) two_options (42 ∷ [])
    ≡ 0x41 ∷ 2 ∷ 0 ∷ 7 ∷ 9 ∷ 0xb3 ∷ 97 ∷ 98 ∷ 99 ∷ 0xd1 ∷ 36 ∷ 5 ∷ 0xff ∷ 42 ∷ []
unfolding wire encode encode_option nibble extension
wire_test = refl

buffer_size-wire_example : buffer_size (some message) ≡ some 14
unfolding wire encode encode_option nibble extension
buffer_size-wire_example =
    buffer_size-wire message (9 ∷ []) two_options (42 ∷ []) message-IsMessage
      two_options-AllWritable (omega arith)

to_buffer-wire_example :
    ((length (wire message.header (9 ∷ []) two_options (42 ∷ [])) ≤ 16)
      × (to_buffer message empty_buffer
          ≡ some (
            length (wire message.header (9 ∷ []) two_options (42 ∷ [])),
            written empty_buffer zeros 0 (wire message.header (9 ∷ []) two_options (42 ∷ [])),
          )))
    ⊎ ((16 < length (wire message.header (9 ∷ []) two_options (42 ∷ [])))
        × (to_buffer message empty_buffer ≡ some (0, empty_buffer)))
unfolding wire encode encode_option nibble extension
to_buffer-wire_example =
    to_buffer-wire message (9 ∷ []) two_options (42 ∷ []) message-IsMessage two_options-AllWritable
      (omega arith) empty_buffer-Holds (omega arith)

from_buffer-wire_example :
    from_buffer qsort
      (λ pos. 1)
      (λ pos. 2)
      (some message)
      (some (exactly (wire 0x41020007 (9 ∷ []) two_options (42 ∷ []))))
      none
    ≡ ok (
      some (record {
        header = 0x41020007;
        token = some (exactly (9 ∷ []));
        options = some (record {
          noptions = 2;
          options = some (qsort.sort compare_options (map owned two_options));
        });
        payload = some (exactly (42 ∷ []));
        source = none;
      }),
      14,
      some (exactly (wire 0x41020007 (9 ∷ []) two_options (42 ∷ []))),
    )
unfolding wire encode encode_option nibble extension Header.get_token_length
from_buffer-wire_example =
    from_buffer-wire qsort (λ pos. 1) (λ pos. 2) message 0x41020007 (9 ∷ []) two_options (42 ∷ [])
      (omega arith) refl two_options-AllReadable (omega arith)
