-- ===== src/OptionsList/Encode.antt =====
-- The part of mc_options_list.c that writes options into a buffer.
pub mod Format
pub mod Writes
pub mod Safety
pub mod Room
pub mod Size
use mcoap.Base.{
  ℕ, zero, suc, ◌+◌, ◌-◌, ◌*◌, ◌%◌, Bool, true, false, Option, none, some, List, [], ◌∷◌, length,
  read_at, write_at, block_of, add32, sub32, to_u8, to_u16, bit_or, ltb, ◌==◌, if◌then◌else◌, ◌>>=◌,
}
use mcoap.Endian.{host, bytes_of_u16, swap_u16}
use mcoap.Buffer
use mcoap.Buffer.{Buffer}
use mcoap.CoapOption
use mcoap.CoapOption.{CoapOption}
use mcoap.OptionsList
use mcoap.OptionsList.{OptionsList, entries_of, position}

-- What a writer leaves: whether it returned the buffer or null, the buffer and the position.
pub record Out : Type 0 where
  pub done : Bool
  pub buffer : Buffer
  pub bpos : ℕ

abbrev pub returned : Buffer → ℕ → Out
returned buffer bpos = record { done = true; buffer = buffer; bpos = bpos }

abbrev pub failed : Buffer → ℕ → Out
failed buffer bpos = record { done = false; buffer = buffer; bpos = bpos }

-- `if (... == 0) return 0;` between two writers.
infixl 5 ◌then◌
abbrev pub ◌then◌ : Option Out → (Buffer → ℕ → Option Out) → Option Out
none then next = none
some out then next = if out.done then next out.buffer out.bpos else some out

-- The result, the head and the extension; an extension that is not set keeps its initial value.
unfoldable pub value_to_encoded_int : ℕ → ℕ → ℕ → ℕ × ℕ × ℕ
value_to_encoded_int value head extended =
    if ltb value 13
    then (1, to_u8 value, extended)
    else if ltb value 269
    then (2, 13, to_u16 (value - 13))
    else if ltb value 65805
    then (3, 14, to_u16 (value - 269))
    else (0, head, extended)

-- `memcpy(&(buffer->bytes[*bpos]), src, n); (*bpos) += n;`
unfoldable pub store : Buffer → ℕ → List ℕ → Option Out
store buffer bpos src = do
  block ← write_at (block_of buffer.bytes) bpos src
  some (returned (record buffer { bytes = some block }) (add32 bpos (length src)))

unfoldable pub uint8_to_buffer : Buffer → ℕ → ℕ → Option Out
uint8_to_buffer buffer extended bpos =
    if ltb (sub32 buffer.nbytes bpos) 1
    then some (failed buffer bpos)
    else store buffer bpos (to_u8 extended ∷ [])

unfoldable pub uint16_to_buffer : Buffer → ℕ → ℕ → Option Out
uint16_to_buffer buffer extended bpos =
    if ltb (sub32 buffer.nbytes bpos) 2
    then some (failed buffer bpos)
    else store buffer bpos (bytes_of_u16 host (swap_u16 extended))

unfoldable pub extended_num_to_buffer : Buffer → ℕ → ℕ → ℕ → Option Out
extended_num_to_buffer buffer head extended bpos =
    if head == 13
    then uint8_to_buffer buffer extended bpos
    else if head == 14
    then uint16_to_buffer buffer extended bpos
    else if head == 15
    then some (failed buffer bpos)
    else some (returned buffer bpos)

unfoldable pub bytes_to_buffer : Buffer → Buffer → ℕ → Option Out
bytes_to_buffer dest src bpos =
    if ltb (sub32 dest.nbytes bpos) src.nbytes
    then some (failed dest bpos)
    else (do bytes ← read_at (block_of src.bytes) 0 src.nbytes; store dest bpos bytes)

-- The prefix byte, the two extensions and the payload, once the two lengths are encoded.
unfoldable pub parts_to_buffer : Buffer → ℕ → ℕ × ℕ × ℕ → ℕ × ℕ × ℕ → Buffer → Option Out
parts_to_buffer buffer bpos (ncode, num_head, num_ext) (lcode, len_head, len_ext) value =
    if ncode == 0
    then some (failed buffer bpos)
    else if lcode == 0
    then some (failed buffer bpos)
    else (store buffer bpos (to_u8 (bit_or (num_head * 16) len_head) ∷ [])
        then (λ b p. extended_num_to_buffer b num_head num_ext p)
        then (λ b p. extended_num_to_buffer b len_head len_ext p)
        then (λ b p. bytes_to_buffer b value p))

unfoldable pub option_to_buffer : Buffer → CoapOption → ℕ → ℕ → Option Out
option_to_buffer buffer option prev_option_num bpos =
    let delta = to_u16 (option.option_num + 65536 - prev_option_num) in
    if ltb (sub32 buffer.nbytes bpos) 1
    then some (failed buffer bpos)
    else parts_to_buffer buffer bpos (value_to_encoded_int delta 0 0)
        (value_to_encoded_int (to_u16 option.value.nbytes) 0 0) option.value

-- The loop over `noptions` entries of the array; one that is not there is a fault.
unfoldable pub to_buffer_loop : ℕ → List CoapOption → Buffer → ℕ → ℕ → Option Out
to_buffer_loop zero options buffer prev_option_num bpos = some (returned buffer bpos)
to_buffer_loop (suc n) [] buffer prev_option_num bpos = none
to_buffer_loop (suc n) (option ∷ options) buffer prev_option_num bpos =
    option_to_buffer buffer option (to_u16 prev_option_num) bpos
    then (λ b p. to_buffer_loop n options b option.option_num p)

-- Without a position from the caller, position 0.
unfoldable pub to_buffer : Option OptionsList → Buffer → Option ℕ → Option Out
unfolding to_buffer_loop
to_buffer none buffer bpos = some (returned buffer (position bpos))
to_buffer (some list) buffer bpos =
    to_buffer_loop list.noptions (entries_of list.options) buffer 0 (position bpos)

-- A fresh buffer of the size of the list, with the list written into it; whether that worked is not
-- looked at.
unfoldable pub mk_buffer : Option OptionsList → Option Buffer
unfolding to_buffer
mk_buffer list = do
  count ← OptionsList.buffer_size list
  out ← to_buffer list (record { nbytes = count; bytes = some (Buffer.calloc count) }) (some 0)
  some out.buffer
