-- ===== src/OptionsList/Decode/Count.antt =====
-- `count_options`: it ends on every buffer, and it counts the options that were written.
use mcoap.Base.{
  ℕ, zero, suc, ◌+◌, ◌-◌, ◌*◌, ◌/◌, ◌^◌, ◌≤◌, ◌<◌, ◌≡◌, ◌⊎◌, refl, ap, ◌∙◌, subst, some, List, [],
  ◌∷◌, ◌++◌, arith, length, drop, block_of, get_elem?, get_elem?-drop, drop-add, append_assoc,
  length-append, add32, bit_and, inl, inr, le→ltb, lt→leb, false, ◌==◌,
}
use mcoap.Base.Run.{ok}
use mcoap.Buffer.{Buffer, Holds}
use mcoap.CoapOption.{CoapOption}
use mcoap.OptionsList.Encode.Format.{nibble, extension, content, encode_option, encode}
use mcoap.OptionsList.Decode.{
  finished, again, skip_extended, count_round, count_loop, count_options,
}
use mcoap.OptionsList.Decode.Readable.{
  IsReadable, AllReadable, Layout, layout, number_lem, nibble-lt, nibble_bits,
}

-- What stands behind the options: the end of the message or the marker of a payload.
abbrev pub IsEnd : Buffer → ℕ → List ℕ → Type 0
IsEnd buffer pos rest =
    (pos ≡ buffer.nbytes) ⊎ ((pos < buffer.nbytes) × ((payload : List ℕ) × (rest ≡ 0xff ∷ payload)))

skip_lem :
    (v pos : ℕ)
    → v < 269
    → pos + 2 < 4294967296
    → skip_extended (nibble v) pos ≡ pos + length (extension v)
unfolding skip_extended nibble extension
skip_lem v pos hv small = ground arith

module _ {buffer : Buffer} {block : List ℕ} (h : Holds buffer block) (junk : ℕ → ℕ) where
  round_end :
      (pos total : ℕ) (rest : List ℕ)
      → drop pos block ≡ rest
      → IsEnd buffer pos rest
      → count_round junk buffer pos total ≡ ok (finished total buffer)
  unfolding count_round
  round_end pos total rest e (inl there) = ground arith
  round_end pos total rest e (inr (before, (payload, marker))) =
      ground (arith, h.bytes, get_elem?-drop pos block (e ∙ marker))

  round_option :
      (prev : ℕ) (option : CoapOption) (pos total : ℕ) (rest : List ℕ)
      → IsReadable prev option
      → Layout block prev option pos rest
      → pos + length (encode_option prev option) ≤ buffer.nbytes
      → buffer.nbytes + 3 < 4294967296
      → count_round junk buffer pos total
        ≡ ok (again buffer (pos + length (encode_option prev option)))
  unfolding count_round
  round_option prev option pos total rest r l fits small =
      rw
        (
          lt→leb buffer.nbytes pos (omega (arith, l.whole)),
          first,
          not_marker,
          bits.0,
          bits.1,
          one,
          skip_lem delta (pos + 1) (omega (arith, r.near, r.writable.rising))
              (omega (arith, l.whole)),
          number_lem h junk len (pos + 1 + length (extension delta)) (content option ++ rest)
              r.brief l.len (omega (arith, l.whole)),
          end,
          le→ltb buffer.nbytes (pos + length (encode_option prev option)) fits,
        )
        refl
    where
      delta : ℕ
      delta = option.option_num - prev

      len : ℕ
      len = option.value.nbytes

      bits :
          ((nibble delta * 16 + nibble len) / 2 ^ 4 ≡ nibble delta)
          × (bit_and (nibble delta * 16 + nibble len) 0x0f ≡ nibble len)
      bits = nibble_bits (nibble delta) (nibble len) (nibble-lt delta) (nibble-lt len)

      not_marker : ((nibble delta * 16 + nibble len) == 0xff) ≡ false
      not_marker = ground (arith, nibble-lt delta, nibble-lt len)

      first : get_elem? (block_of buffer.bytes) pos ≡ some (nibble delta * 16 + nibble len)
      first = ap (λ b. get_elem? (block_of b) pos) h.bytes ∙ l.first

      one : add32 pos 1 ≡ pos + 1
      one = omega (arith, l.whole)

      end :
          add32 (pos + 1 + length (extension delta) + length (extension len)) len
          ≡ pos + length (encode_option prev option)
      end = omega (arith, l.whole)

  loop_lem :
      (options : List CoapOption) (fuel prev pos total : ℕ) (rest : List ℕ)
      → AllReadable prev options
      → drop pos block ≡ encode prev options ++ rest
      → pos + length (encode prev options) ≤ buffer.nbytes
      → IsEnd buffer (pos + length (encode prev options)) rest
      → buffer.nbytes + 3 < 4294967296
      → total + length options < 4294967296
      → length options < fuel
      → count_loop junk fuel buffer pos total ≡ ok (total + length options, buffer)
  unfolding count_loop encode
  loop_lem options zero prev pos total rest r e fits ends small counted enough =
      absurd (omega arith)
  loop_lem [] (suc fuel) prev pos total rest r e fits ends small counted enough =
      rw (round_end pos total rest e (subst (λ k. IsEnd buffer k rest) (omega arith) ends))
        (ground arith)
  loop_lem (option ∷ options) (suc fuel) prev pos total rest r e fits ends small counted enough =
      let first = encode_option prev option in
      let more = encode option.option_num options in
      let n : length (first ++ more) ≡ length first + length more = length-append first more in
      let at : drop pos block ≡ first ++ (more ++ rest) = e ∙ append_assoc first more rest in
      rw
        (round_option prev option pos total (more ++ rest) r.0
          (layout block prev option pos (more ++ rest) r.0.writable at) (omega (arith, n)) small)
        (loop_lem options fuel option.option_num (pos + length first) (add32 total 1) rest r.1
            (drop-add pos block first (more ++ rest) at) (omega (arith, n))
            (subst (λ k. IsEnd buffer k rest) (omega (arith, n)) ends) small (omega arith)
            (omega arith)
          ∙ ap ok (ap (λ k. (k, buffer)) (omega arith)))

  length-le-encode :
      (options : List CoapOption) (prev : ℕ) → length options ≤ length (encode prev options)
  unfolding encode encode_option
  length-le-encode [] prev = omega arith
  length-le-encode (option ∷ options) prev = omega (
    arith,
    length-le-encode options option.option_num,
    length-append (encode_option prev option) (encode option.option_num options),
  )

  -- `count_options` finds as many options as were written, with numbers less than 269 apart and values
  -- shorter than 269 bytes, if what follows them is the end of the message or a payload marker, in a
  -- buffer with a count from 4 to below 2 ^ 32 - 3, and leaves the buffer as it is.
  pub count_options-encode :
      (options : List CoapOption) (pos : ℕ) (rest : List ℕ)
      → AllReadable 0 options
      → drop pos block ≡ encode 0 options ++ rest
      → pos + length (encode 0 options) ≤ buffer.nbytes
      → IsEnd buffer (pos + length (encode 0 options)) rest
      → 4 ≤ buffer.nbytes
      → buffer.nbytes + 3 < 4294967296
      → count_options junk buffer pos ≡ ok (length options, buffer)
  unfolding count_options
  count_options-encode options pos rest r e fits ends big small =
      let n = length-le-encode options 0 in
      rw (le→ltb buffer.nbytes 4 big) (
        loop_lem options (suc buffer.nbytes) 0 pos 0 rest r e fits ends small (omega (arith, n))
          (omega (arith, n))
        ∙ ap ok (ap (λ k. (k, buffer)) (omega arith)))
