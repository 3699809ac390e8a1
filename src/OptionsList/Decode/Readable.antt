-- ===== src/OptionsList/Decode/Readable.antt =====
-- Reading back one option that was written: the two extensions, the value, and the position behind.
use mcoap.Base.{
  ℕ, ◌+◌, ◌-◌, ◌*◌, ◌/◌, ◌%◌, ◌^◌, ◌≤◌, ◌<◌, ◌≡◌, refl, sym, ap, ◌∙◌, some, List, [], ◌∷◌, ◌++◌,
  arith, length, drop, block_of, read_at, get_elem?, get_elem?-drop, drop-add, read_at-drop,
  append_assoc, length-append, length-take, add32, bit_and, ltb, Bool-cases, inl, inr, le→ltb,
}
use mcoap.Base.Bits.{bit_and_low}
use mcoap.Buffer.{Buffer, Holds, next_uint8}
use mcoap.Buffer.Next.{next_ptr_lem}
use mcoap.CoapOption
use mcoap.CoapOption.{CoapOption}
use mcoap.OptionsList.Encode.Format.{nibble, extension, content, encode_option, IsWritable}
use mcoap.OptionsList.Decode.Number.{option_num_from_buffer, option_from_buffer, copy_from}

-- An option that the format can hold with no two-byte extension: its number is less than 269 above
-- the one before, its value shorter than 269 bytes.
pub record IsReadable (prev : ℕ) (option : CoapOption) : Type 0 where
  pub writable : IsWritable prev option
  pub near : option.option_num < prev + 269
  pub brief : option.value.nbytes < 269

abbrev pub AllReadable : ℕ → List CoapOption → Type 0
AllReadable prev [] = Unit {0}
AllReadable prev (option ∷ options) = IsReadable prev option × AllReadable option.option_num options

-- The option with a block of its own that holds just the value.
abbrev pub owned : CoapOption → CoapOption
owned option = record {
  option_num = option.option_num;
  value = record { nbytes = option.value.nbytes; bytes = some (content option) };
}

pub nibble_bits :
    (a b : ℕ) → a < 15 → b < 15 → ((a * 16 + b) / 2 ^ 4 ≡ a) × (bit_and (a * 16 + b) 0x0f ≡ b)
nibble_bits a b ha hb = (omega arith, bit_and_low 4 (a * 16 + b) ∙ omega arith)

pub nibble-lt : (v : ℕ) → nibble v < 15
unfolding nibble
nibble-lt v = ground arith

-- Where the parts of an encoded option stand in a block.
pub record Layout (block : List ℕ) (prev : ℕ) (option : CoapOption) (pos : ℕ) (rest : List ℕ)
    : Type 0 where
  pub first :
      get_elem? block pos
      ≡ some (nibble (option.option_num - prev) * 16 + nibble option.value.nbytes)
  pub delta :
      drop (pos + 1) block
      ≡ extension (option.option_num - prev)
        ++ ((extension option.value.nbytes ++ content option) ++ rest)
  pub len :
      drop (pos + 1 + length (extension (option.option_num - prev))) block
      ≡ extension option.value.nbytes ++ (content option ++ rest)
  pub value :
      drop
        (pos
          + 1
          + length (extension (option.option_num - prev))
          + length (extension option.value.nbytes))
        block
      ≡ content option ++ rest
  pub size : length (content option) ≡ option.value.nbytes
  pub whole :
      length (encode_option prev option)
      ≡ 1
        + length (extension (option.option_num - prev))
        + length (extension option.value.nbytes)
        + option.value.nbytes

pub layout :
    (block : List ℕ) (prev : ℕ) (option : CoapOption) (pos : ℕ) (rest : List ℕ)
    → IsWritable prev option
    → drop pos block ≡ encode_option prev option ++ rest
    → Layout block prev option pos rest
unfolding encode_option
layout block prev option pos rest w e = record {
  first = get_elem?-drop pos block e;
  delta = at_delta;
  len = at_len;
  value = drop-add (pos + 1 + length d) block n (content option ++ rest) at_len;
  size = size;
  whole =
      omega (arith, size, length-append d (n ++ content option), length-append n (content option));
}
  where
    d : List ℕ
    d = extension (option.option_num - prev)

    n : List ℕ
    n = extension option.value.nbytes

    size : length (content option) ≡ option.value.nbytes
    size = omega (arith, length-take option.value.nbytes (block_of option.value.bytes), w.held)

    at_delta : drop (pos + 1) block ≡ d ++ ((n ++ content option) ++ rest)
    at_delta = drop-add pos block (_ ∷ []) _ e ∙ append_assoc d (n ++ content option) rest

    at_len : drop (pos + 1 + length d) block ≡ n ++ (content option ++ rest)
    at_len =
        drop-add (pos + 1) block d ((n ++ content option) ++ rest) at_delta
        ∙ append_assoc n (content option) rest

module _ {buffer : Buffer} {block : List ℕ} (h : Holds buffer block) where
  next_at :
      (pos x : ℕ)
      → get_elem? block pos ≡ some x
      → pos + 1 < 4294967296
      → next_uint8 buffer pos ≡ some (x, pos + 1)
  unfolding next_uint8
  next_at pos x e small = ground (arith, h.bytes, e)

  pub number_lem :
      (junk : ℕ → ℕ) (v pos : ℕ) (rest : List ℕ)
      → v < 269
      → drop pos block ≡ extension v ++ rest
      → pos + length (extension v) < 4294967296
      → option_num_from_buffer junk buffer (nibble v) pos
        ≡ some (v, pos + length (extension v), buffer)
  unfolding option_num_from_buffer nibble extension
  number_lem junk v pos rest hv e small = elim (Bool-cases (ltb v 13)) [
    | inl low ↦ ground arith
    | inr high ↦
        ground (arith, next_at pos (v - 13), get_elem?-drop pos block {y = v - 13} {ys = rest})
  ]

  pub option_lem :
      (junk : ℕ → ℕ) (prev : ℕ) (option : CoapOption) (pos : ℕ) (rest : List ℕ)
      → IsReadable prev option
      → 0 < buffer.nbytes
      → Layout block prev option pos rest
      → pos + length (encode_option prev option) < 4294967296
      → pos + length (encode_option prev option) ≤ length block
      → option_from_buffer junk CoapOption.alloc buffer prev pos
        ≡ some (some (owned option), pos + length (encode_option prev option), buffer)
  unfolding option_from_buffer copy_from CoapOption.init CoapOption.alloc
  option_lem junk prev option pos rest r ne l small inside =
      rw
        (
          le→ltb buffer.nbytes 1 ne,
          next_at pos (nibble delta * 16 + nibble len) l.first (omega (arith, l.whole)),
          bits.0,
          bits.1,
          number_lem junk delta (pos + 1) ((extension len ++ content option) ++ rest)
              (omega (arith, r.near, r.writable.rising)) l.delta (omega (arith, l.whole)),
          number_lem junk len (pos + 1 + length (extension delta)) (content option ++ rest) r.brief
              l.len (omega (arith, l.whole)),
          next_ptr_lem buffer len (pos + 1 + length (extension delta) + length (extension len)),
          h.bytes,
          value,
          number,
          end,
        )
        refl
    where
      delta : ℕ
      delta = option.option_num - prev

      len : ℕ
      len = option.value.nbytes

      bits :
          ((nibble delta * 16 + nibble len) / 2 ^ 4 ≡ nibble delta)
          × (bit_and (nibble delta * 16 + nibble len) 0x0f ≡ nibble len)
      bits = nibble_bits (nibble delta) (nibble len) (nibble-lt delta) (nibble-lt len)

      at : ℕ
      at = pos + 1 + length (extension delta) + length (extension len)

      within : at ≤ length block
      within = omega (arith, l.whole)

      value : read_at block at len ≡ some (content option)
      value =
          ap (read_at block at) (sym l.size)
          ∙ read_at-drop block at (content option) rest l.value within

      number : (delta + prev) % 65536 ≡ option.option_num
      number = omega (arith, r.writable.rising, r.writable.number)

      end : add32 at len ≡ pos + length (encode_option prev option)
      end = omega (arith, l.whole)
