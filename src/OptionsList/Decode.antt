-- ===== src/OptionsList/Decode.antt =====
-- The part of mc_options_list.c that reads a list of options from a buffer.
pub mod Number
pub mod Readable
pub mod Count
pub mod RoundTrip
pub mod Terminates
use mathlib.Core.Option
use mcoap.Base.{
  ℕ, zero, suc, ◌+◌, ◌*◌, ◌/◌, ◌%◌, ◌^◌, Option, none, some, List, [], ◌∷◌, block_of, get_elem?,
  add32, bit_and, ltb, leb, ◌==◌, if◌then◌else◌,
}
use mcoap.Base.Run.{Run, ok, fault, stuck, lift, ◌>>=◌}
use mcoap.Buffer.{Buffer}
use mcoap.CoapOption
use mcoap.CoapOption.{CoapOption}
use mcoap.OptionsList
use mcoap.OptionsList.{OptionsList, Qsort, position}
use mcoap.OptionsList.Decode.Number.{option_num_from_buffer, option_from_buffer}

-- How a round of the loop ends.
pub data Round : Type 0 where
  finished : ℕ → Buffer → Round
  again : Buffer → ℕ → Round

unfoldable pub skip_extended : ℕ → ℕ → ℕ
skip_extended delta bpos =
    if delta == 13 then add32 bpos 1 else if delta == 14 then add32 bpos 2 else bpos

-- One round of `while (bpos < buffer->nbytes)` in `count_options`.
unfoldable pub count_round : (ℕ → ℕ) → Buffer → ℕ → ℕ → Run Round
count_round junk buffer bpos total =
    if leb buffer.nbytes bpos then ok (finished total buffer) else (do
      byte ← lift (get_elem? (block_of buffer.bytes) bpos)
      if byte == 0xff then ok (finished total buffer) else (do
        (extended, next, buffer') ← lift (
            option_num_from_buffer junk buffer (bit_and byte 0x0f)
              (skip_extended (byte / 2 ^ 4) (add32 bpos 1)))
        ok (
            if ltb buffer'.nbytes (add32 next extended)
            then finished 0 buffer'
            else again buffer' (add32 next extended))))

unfoldable pub count_loop : (ℕ → ℕ) → ℕ → Buffer → ℕ → ℕ → Run (ℕ × Buffer)
count_loop junk zero buffer bpos total = stuck
count_loop junk (suc fuel) buffer bpos total = do
  round ← count_round junk buffer bpos total
  elim round [
    | finished count buffer' ↦ ok (count, buffer')
    | again buffer' bpos' ↦ count_loop junk fuel buffer' bpos' (add32 total 1)
  ]

-- The position grows in every round, so one round for each byte and one more are enough.
unfoldable pub count_options : (ℕ → ℕ) → Buffer → ℕ → Run (ℕ × Buffer)
count_options junk buffer bpos =
    if ltb buffer.nbytes 4
    then ok (0, buffer)
    else count_loop junk (suc buffer.nbytes) buffer bpos 0

-- `n` options, the number before the first being `prevnum`: null as soon as one is null.
unfoldable pub options_from_buffer :
    (ℕ → ℕ) → ℕ → Buffer → ℕ → ℕ → Run (Option (List CoapOption) × ℕ × Buffer)
options_from_buffer junk zero buffer prevnum bpos = ok (some [], bpos, buffer)
options_from_buffer junk (suc n) buffer prevnum bpos = do
  (current, bpos', buffer') ← lift (option_from_buffer junk CoapOption.alloc buffer prevnum bpos)
  elim current [
    | none ↦ ok (none, bpos', buffer')
    | some option ↦ (do
      (rest, bpos'', buffer'') ← options_from_buffer junk n buffer' option.option_num bpos'
      ok (Option.map (λ l. option ∷ l) rest, bpos'', buffer''))
  ]

-- What reading leaves: the returned list or null, the buffer and the position.
pub record In : Type 0 where
  pub list : Option OptionsList
  pub buffer : Buffer
  pub bpos : ℕ

-- `counting` and `reading` are the junk of the two passes over the buffer.
unfoldable pub from_buffer : Qsort → (ℕ → ℕ) → (ℕ → ℕ) → OptionsList → Buffer → Option ℕ → Run In
from_buffer qsort counting reading list buffer start = do
  let bpos = position start
  (noptions, counted) ← count_options counting buffer bpos
  if noptions == 0 then ok (record { list = none; buffer = counted; bpos = bpos }) else (do
    (options, bpos', buffer') ← options_from_buffer reading noptions counted 0 bpos
    ok (record {
      list = Option.map (λ l. OptionsList.init qsort list noptions (some l)) options;
      buffer = buffer';
      bpos = bpos';
    }))
