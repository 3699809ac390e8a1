-- ===== src/OptionsList/Encode/Writes.antt =====
-- What the writers leave in the buffer: the encoding, where it fits.
use mcoap.Base.{
  ℕ, ◌+◌, ◌-◌, ◌*◌, ◌%◌, ◌≤◌, ◌<◌, ◌≡◌, refl, false, some, Option, List, [], ◌∷◌, ◌++◌, arith,
  length, block_of, read_at_lem, length-append, length-take, append_assoc, append-nil, splice,
  splice-nil, splice-splice, length-splice, write_at_lem, IsU16, bit_or, ◌==◌, ltb, sub32, le→ltb,
  subst,
}
use mcoap.Base.Bits.{bit_or_add}
use mcoap.Endian.Laws.{swap_u16_lem}
use mcoap.Buffer.{Buffer, Holds}
use mcoap.CoapOption.{CoapOption}
use mcoap.OptionsList.Encode.{
  Out, returned, ◌then◌, value_to_encoded_int, store, uint8_to_buffer, uint16_to_buffer,
  extended_num_to_buffer, bytes_to_buffer, parts_to_buffer, option_to_buffer, to_buffer_loop,
}
use mcoap.OptionsList.Encode.Format.{
  nibble, extension, content, encode_option, encode, IsWritable, AllWritable,
}

-- The buffer with `src` written at `pos`.
abbrev pub written : Buffer → List ℕ → ℕ → List ℕ → Buffer
written buffer block pos src = record buffer { bytes = some (splice block pos src) }

pub Holds-written :
    {buffer : Buffer} {block : List ℕ} (h : Holds buffer block) (pos : ℕ) (src : List ℕ)
    → pos + length src ≤ buffer.nbytes
    → Holds (written buffer block pos src) (splice block pos src)
Holds-written {buffer} {block} h pos src fits = record {
  bytes = refl;
  within = omega (arith, h.within, length-splice block pos src (omega (arith, h.within)));
  small = h.small;
}

-- A writer that, called with room for `src`, writes `src` and returns.
abbrev pub Writer : Type 0
Writer = Buffer → ℕ → Option Out

abbrev pub Writes : Writer → List ℕ → Type 0
Writes f src =
    (buffer : Buffer) (block : List ℕ) (pos : ℕ)
    → Holds buffer block
    → pos + length src ≤ buffer.nbytes
    → f buffer pos ≡ some (returned (written buffer block pos src) (pos + length src))

-- A writer, and one behind it, write both.
pub then-Writes :
    (f g : Writer) (src more : List ℕ)
    → Writes f src
    → Writes g more
    → Writes (λ b p. f b p then g) (src ++ more)
then-Writes f g src more hf hg buffer block pos h fits =
    let n = length-append src more in
    rw
      (
        hf buffer block pos h (omega (arith, n)),
        hg (written buffer block pos src) (splice block pos src) (pos + length src)
            (Holds-written h pos src (omega (arith, n))) (omega (arith, n)),
        splice-splice block pos src more (omega (arith, n, h.within)),
        n,
      )
      (ground arith)

pub store-Writes : (src : List ℕ) → Writes (λ b p. store b p src) src
unfolding store
store-Writes src buffer block pos h fits =
    ground (arith, h, write_at_lem block pos src (omega (arith, h.within)))

abbrev head_of : ℕ → ℕ
head_of v = (value_to_encoded_int v 0 0).1

abbrev extended_of : ℕ → ℕ
extended_of v = (value_to_encoded_int v 0 0).2

extended-Writes :
    (v : ℕ)
    → v < 65805
    → Writes (λ b p. extended_num_to_buffer b (head_of v) (extended_of v) p) (extension v)
unfolding extended_num_to_buffer value_to_encoded_int uint8_to_buffer uint16_to_buffer extension
extended-Writes v small buffer block pos h fits = ground (
  arith,
  h,
  splice-nil block pos,
  swap_u16_lem (v - 269),
  store-Writes (extension v) buffer block pos h,
)

bytes-Writes :
    (option : CoapOption)
    → option.value.nbytes ≤ length (block_of option.value.bytes)
    → Writes (λ b p. bytes_to_buffer b option.value p) (content option)
unfolding bytes_to_buffer
bytes-Writes option held buffer block pos h fits = ground (
  arith,
  h,
  read_at_lem (block_of option.value.bytes) 0 option.value.nbytes,
  length-take option.value.nbytes (block_of option.value.bytes),
  store-Writes (content option) buffer block pos h,
)

encoded_lem :
    (v : ℕ)
    → v < 65805
    → ((value_to_encoded_int v 0 0).1 ≡ nibble v)
      × (0 < (value_to_encoded_int v 0 0).0)
      × (nibble v < 15)
unfolding value_to_encoded_int nibble
encoded_lem v h = ground arith

prefix_lem : (a b : ℕ) → a < 15 → b < 15 → bit_or (a * 16) b % 256 ≡ a * 16 + b
prefix_lem a b ha hb = rw (bit_or_add 4 (a * 16) b (omega arith) (omega arith)) (omega arith)

ne_zero : (n : ℕ) → 0 < n → (n == 0) ≡ false
ne_zero n h = ground arith

-- One option: the prefix, the two extensions, the value.
abbrev prefix : ℕ → ℕ → List ℕ
prefix delta len = (nibble delta * 16 + nibble len) ∷ []

parts-Writes :
    (option : CoapOption) (delta : ℕ)
    → delta < 65805
    → option.value.nbytes < 65805
    → option.value.nbytes ≤ length (block_of option.value.bytes)
    → Writes
        (λ b p.
          parts_to_buffer b p
            (value_to_encoded_int delta 0 0)
            (value_to_encoded_int option.value.nbytes 0 0)
            option.value)
        (((prefix delta option.value.nbytes ++ extension delta) ++ extension option.value.nbytes)
          ++ content option)
unfolding parts_to_buffer
parts-Writes option delta hd hn held buffer block pos h fits =
    rw
      (
        ne_zero (value_to_encoded_int delta 0 0).0 (encoded_lem delta hd).1,
        ne_zero (value_to_encoded_int len 0 0).0 (encoded_lem len hn).1,
      )
      (then-Writes _ _ ((prefix delta len ++ extension delta) ++ extension len) (content option)
        (then-Writes _ _ (prefix delta len ++ extension delta) (extension len)
          (then-Writes _ _ (prefix delta len) (extension delta) first (extended-Writes delta hd))
          (extended-Writes len hn))
        (bytes-Writes option held) buffer block pos h fits)
  where
    len : ℕ
    len = option.value.nbytes

    first :
        Writes
          (λ b p. store b p ((bit_or (head_of delta * 16) (head_of len) % 256) ∷ []))
          (prefix delta len)
    first =
        rw
          (
            (encoded_lem delta hd).0,
            (encoded_lem len hn).0,
            prefix_lem (nibble delta) (nibble len) (encoded_lem delta hd).2 (encoded_lem len hn).2,
          )
          (store-Writes (prefix delta len))

pub option-Writes :
    (prev : ℕ) (option : CoapOption)
    → IsWritable prev option
    → Writes (λ b p. option_to_buffer b option prev p) (encode_option prev option)
unfolding option_to_buffer encode_option
option-Writes prev option w buffer block pos h fits =
    let delta = option.option_num - prev in
    let len = option.value.nbytes in
    let wrapped : (option.option_num + 65536 - prev) % 65536 ≡ delta =
      omega (arith, w.rising, w.number) in
    let short : len % 65536 ≡ len = omega (arith, w.short) in
    let room : ltb (sub32 buffer.nbytes pos) 1 ≡ false =
      le→ltb (sub32 buffer.nbytes pos) 1 (omega (arith, h.small)) in
    rw (wrapped, short, room)
      (subst (Writes _)
        (append_assoc (prefix delta len ++ extension delta) (extension len) (content option))
        (parts-Writes option delta (omega (arith, w.number)) (omega (arith, w.short)) w.held) buffer
        block pos h fits)

-- The entries that are not counted are not written.
pub unused-Writes :
    (options unused : List CoapOption) (prev : ℕ)
    → IsU16 prev
    → AllWritable prev options
    → Writes
        (λ b p. to_buffer_loop (length options) (options ++ unused) b prev p)
        (encode prev options)
unfolding to_buffer_loop encode
unused-Writes [] unused prev hp w buffer block pos h fits = ground (arith, h, splice-nil block pos)
unused-Writes (option ∷ options) unused prev hp w buffer block pos h fits =
    let short : prev % 65536 ≡ prev = omega arith in
    rw short (
      then-Writes (λ b p. option_to_buffer b option prev p)
        (λ b p. to_buffer_loop (length options) (options ++ unused) b option.option_num p)
        (encode_option prev option) (encode option.option_num options)
        (option-Writes prev option w.0)
        (unused-Writes options unused option.option_num w.0.number w.1) buffer block pos h fits)

pub loop-Writes :
    (options : List CoapOption) (prev : ℕ)
    → IsU16 prev
    → AllWritable prev options
    → Writes (λ b p. to_buffer_loop (length options) options b prev p) (encode prev options)
loop-Writes options prev hp w =
    subst (λ l. Writes (λ b p. to_buffer_loop (length options) l b prev p) (encode prev options))
      (append-nil options) (unused-Writes options [] prev hp w)
