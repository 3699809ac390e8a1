-- ===== src/OptionsList/Decode/RoundTrip.antt =====
-- Reading back a list of options that was written.
use native.Mathlib.Nat.{add-zero, add_assoc}
use mcoap.Base.{
  ℕ, ◌+◌, ◌≤◌, ◌<◌, ◌≡◌, ◌≢◌, refl, ◌∙◌, none, some, List, [], ◌∷◌, ◌++◌, arith, length, drop, map,
  drop-add, append_assoc, append-nil, length-append, false, ◌==◌, take-length, drop-all, length-map,
  subst,
}
use mcoap.Base.Run.{ok}
use mcoap.Buffer.{Buffer, Holds}
use mcoap.CoapOption.{CoapOption}
use mcoap.OptionsList
use mcoap.OptionsList.{OptionsList, Qsort, compare_options}
use mcoap.OptionsList.Encode.Format.{encode_option, encode}
use mcoap.OptionsList.Decode.{options_from_buffer, from_buffer}
use mcoap.OptionsList.Decode.Readable.{AllReadable, owned, layout, option_lem}
use mcoap.OptionsList.Decode.Count.{IsEnd, count_options-encode}

some_there : (options : List CoapOption) → options ≢ [] → (length options == 0) ≡ false
some_there [] ne = absurd (ne refl)
some_there (option ∷ options) ne = ground arith

module _ {buffer : Buffer} {block : List ℕ} (h : Holds buffer block) (reading : ℕ → ℕ) where
  options_lem :
      (options : List CoapOption) (prev pos : ℕ) (rest : List ℕ)
      → AllReadable prev options
      → 0 < buffer.nbytes
      → drop pos block ≡ encode prev options ++ rest
      → pos + length (encode prev options) ≤ buffer.nbytes
      → options_from_buffer reading (length options) buffer prev pos
        ≡ ok (some (map owned options), pos + length (encode prev options), buffer)
  unfolding options_from_buffer encode
  options_lem [] prev pos rest r ne e fits = rw add-zero refl
  options_lem (option ∷ options) prev pos rest r ne e fits =
      let first = encode_option prev option in
      let more = encode option.option_num options in
      let n : length (first ++ more) ≡ length first + length more = length-append first more in
      let at : drop pos block ≡ first ++ (more ++ rest) = e ∙ append_assoc first more rest in
      rw
        (
          option_lem h reading prev option pos (more ++ rest) r.0 ne
              (layout block prev option pos (more ++ rest) r.0.writable at)
              (omega (arith, n, h.small)) (omega (arith, n, h.within)),
          options_lem options option.option_num (pos + length first) rest r.1 ne
              (drop-add pos block first (more ++ rest) at) (omega (arith, n)),
          n,
          add_assoc,
        )
        refl

  -- A list of at least one option written in the format, with numbers less than 269 apart and values
  -- shorter than 269 bytes, is read back from where it was written, in a buffer with a count from 4 to
  -- below 2 ^ 32 - 3: the same numbers and values, in the order of
  -- `qsort`, with the position left behind them and the buffer as it was. What follows them is the end
  -- of the message or the marker of a payload.
  pub from_buffer-encode :
      (qsort : Qsort) (counting : ℕ → ℕ) (list : OptionsList) (options : List CoapOption) (pos : ℕ)
      (rest : List ℕ)
      → options ≢ []
      → AllReadable 0 options
      → drop pos block ≡ encode 0 options ++ rest
      → pos + length (encode 0 options) ≤ buffer.nbytes
      → IsEnd buffer (pos + length (encode 0 options)) rest
      → 4 ≤ buffer.nbytes
      → buffer.nbytes + 3 < 4294967296
      → from_buffer qsort counting reading list buffer (some pos)
        ≡ ok (record {
          list = some (record {
            noptions = length options;
            options = some (qsort.sort compare_options (map owned options));
          });
          buffer = buffer;
          bpos = pos + length (encode 0 options);
        })
  unfolding from_buffer OptionsList.init OptionsList.options_sort
  from_buffer-encode qsort counting list options pos rest ne r e fits ends big small =
      rw
        (
          count_options-encode h counting options pos rest r e fits ends big small,
          some_there options ne,
          options_lem options 0 pos rest r (omega arith) e fits,
          ← length-map options owned,
          take-length (map owned options),
          drop-all (length (map owned options)) (map owned options) (omega arith),
          append-nil,
        )
        refl

  -- Where the options end at once, with nothing before the end or the marker, the list is null and the
  -- position stays.
  pub from_buffer-none :
      (qsort : Qsort) (counting : ℕ → ℕ) (list : OptionsList) (pos : ℕ) (rest : List ℕ)
      → drop pos block ≡ rest
      → pos ≤ buffer.nbytes
      → IsEnd buffer pos rest
      → 4 ≤ buffer.nbytes
      → buffer.nbytes + 3 < 4294967296
      → from_buffer qsort counting reading list buffer (some pos)
        ≡ ok (record { list = none; buffer = buffer; bpos = pos })
  unfolding from_buffer encode
  from_buffer-none qsort counting list pos rest e fits ends big small =
      let here : pos + length {A = ℕ} [] ≡ pos = omega arith in
      rw
        (count_options-encode h counting [] pos rest tt e (omega arith)
          (subst (λ k. IsEnd buffer k rest) (omega arith) ends) big small)
        refl
