-- ===== src/Examples/Lists.antt =====
-- Lists of options, written and read.
use mcoap.Base.{
  ◌++◌, ℕ, ◌+◌, ◌≤◌, ◌<◌, ◌≡◌, ◌≢◌, ◌⊎◌, inr, refl, none, some, [], ◌∷◌, false, arith, length, All,
  map,
}
use mcoap.Base.Run.{ok, stuck}
use mcoap.OptionsList
use mcoap.OptionsList.{OptionsList, compare_options}
use mcoap.OptionsList.Lookup.{IsFirst, get-IsFirst}
use mcoap.OptionsList.Merge.{merge-owned}
use mcoap.OptionsList.Encode
use mcoap.OptionsList.Encode.{Out, returned}
use mcoap.OptionsList.Encode.Format.{encode, encode_option, nibble, extension}
use mcoap.OptionsList.Encode.Writes.{written}
use mcoap.OptionsList.Encode.Safety.{Kept, wire_sizes}
use mcoap.OptionsList.Encode.Room.{to_buffer-Kept, to_buffer-encode}
use mcoap.OptionsList.Decode
use mcoap.OptionsList.Decode.{count_options}
use mcoap.OptionsList.Decode.Readable.{owned}
use mcoap.OptionsList.Decode.Count.{count_options-encode}
use mcoap.OptionsList.Decode.RoundTrip.{from_buffer-encode}
use mcoap.OptionsList.Decode.Terminates.{count_options-ne-stuck}
use mcoap.Examples.Sorting.{qsort}
use mcoap.Examples.Data.{
  two_options, options_list, size1, zeros, empty_buffer, empty_buffer-Holds, received_buffer,
  received_buffer-Holds, two_options-AllReadable, two_options-AllWritable,
}

abbrev junk : ℕ → ℕ
junk pos = 0xdead

-- No room: the buffer has 16 bytes, and 12 of them are behind.
to_buffer-Kept_example :
    (out : Out) × (Encode.to_buffer (some options_list) empty_buffer (some 12) ≡ some out)
    × Kept empty_buffer zeros 12 (wire_sizes 0 two_options) out
to_buffer-Kept_example =
    to_buffer-Kept options_list two_options refl refl empty_buffer-Holds 12 (omega arith)
      (omega arith, (omega arith, tt))

to_buffer-encode_example :
    ((4 + length (encode 0 two_options) ≤ 16)
      × (Encode.to_buffer (some options_list) empty_buffer (some 4)
          ≡ some (
              returned
                (written empty_buffer zeros 4 (encode 0 two_options))
                (4 + length (encode 0 two_options)))))
    ⊎ ((16 < 4 + length (encode 0 two_options))
        × ((out : Out) × (Encode.to_buffer (some options_list) empty_buffer (some 4) ≡ some out)
            × (out.done ≡ false)))
to_buffer-encode_example =
    to_buffer-encode options_list two_options refl refl empty_buffer-Holds 4 (omega arith)
      two_options-AllWritable

count_options-encode_example : count_options junk received_buffer 4 ≡ ok (2, received_buffer)
unfolding encode encode_option nibble extension
count_options-encode_example =
    count_options-encode received_buffer-Holds junk two_options 4 (0xff ∷ 42 ∷ [])
      two_options-AllReadable refl (omega arith) (inr (omega arith, (42 ∷ [], refl))) (omega arith)
      (omega arith)

count_options-ne-stuck_example : count_options junk received_buffer 0 ≢ stuck
count_options-ne-stuck_example = count_options-ne-stuck junk received_buffer 0 (omega arith)

from_buffer-encode_example :
    Decode.from_buffer qsort junk junk OptionsList.alloc received_buffer (some 4)
    ≡ ok (record {
      list = some (record {
        noptions = 2;
        options = some (qsort.sort compare_options (map owned two_options));
      });
      buffer = received_buffer;
      bpos = 11;
    })
unfolding encode encode_option nibble extension
from_buffer-encode_example =
    from_buffer-encode received_buffer-Holds junk qsort junk OptionsList.alloc two_options 4
      (0xff ∷ 42 ∷ []) (λ p. cc) two_options-AllReadable refl (omega arith)
      (inr (omega arith, (42 ∷ [], refl))) (omega arith) (omega arith)

get-IsFirst_example :
    ((index : ℕ) × IsFirst 60 two_options index
      × (OptionsList.get options_list 60 ≡ some (some index)))
    ⊎ (All (λ o. o.option_num ≢ 60) two_options × (OptionsList.get options_list 60 ≡ some none))
get-IsFirst_example = get-IsFirst options_list two_options 60 refl refl (omega arith)

merge-owned_example :
    OptionsList.merge qsort
      (some options_list)
      (some (record { noptions = 1; options = some (size1 ∷ []) }))
    ≡ some (
        some (record {
          noptions = 3;
          options =
              some (qsort.sort compare_options (map owned two_options ++ map owned (size1 ∷ [])));
        }))
merge-owned_example =
    merge-owned qsort options_list two_options refl refl (omega arith, (omega arith, tt))
      (record { noptions = 1; options = some (size1 ∷ []) }) (size1 ∷ []) refl refl
      (omega arith, tt) (omega arith)
