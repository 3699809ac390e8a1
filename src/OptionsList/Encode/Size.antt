-- ===== src/OptionsList/Encode/Size.antt =====
-- The sizes that mc_option.c and mc_options_list.c compute are the lengths of the encodings.
use mcoap.Base.{
  ℕ, ◌+◌, ◌-◌, ◌%◌, ◌≤◌, ◌<◌, ◌≡◌, refl, ◌∙◌, some, List, [], ◌∷◌, ◌++◌, sub32, add32, arith,
  length, block_of, length-append, append-nil, length-take, IsU16, ap,
}
use mcoap.CoapOption.{CoapOption, extended_int_size}
use mcoap.CoapOption
use mcoap.OptionsList.{OptionsList, buffer_size, buffer_size_loop}
use mcoap.OptionsList.Encode.Format.{
  extension, content, encode_option, encode, IsWritable, AllWritable,
}
use mcoap.OptionsList.Encode.Safety.{wire_size, wire_sizes}

extended_size : (v : ℕ) → v < 65805 → extended_int_size v ≡ 1 + length (extension v)
unfolding extended_int_size extension
extended_size v h = ground arith

length-encode_option :
    (prev : ℕ) (option : CoapOption)
    → IsWritable prev option
    → length (encode_option prev option)
      ≡ 1
        + length (extension (option.option_num - prev))
        + length (extension option.value.nbytes)
        + option.value.nbytes
unfolding encode_option
length-encode_option prev option w = omega (
  arith,
  w.held,
  length-append (extension (option.option_num - prev))
      (extension option.value.nbytes ++ content option),
  length-append (extension option.value.nbytes) (content option),
  length-take option.value.nbytes (block_of option.value.bytes),
)

wire_size-encode :
    (prev : ℕ) (option : CoapOption)
    → IsWritable prev option
    → wire_size prev option ≡ length (encode_option prev option)
unfolding wire_size
wire_size-encode prev option w =
    rw (wrapped, short) (omega (arith, length-encode_option prev option w))
  where
    wrapped : (option.option_num + 65536 - prev) % 65536 ≡ option.option_num - prev
    wrapped = omega (arith, w.rising, w.number)

    short : option.value.nbytes % 65536 ≡ option.value.nbytes
    short = omega (arith, w.short)

pub wire_sizes-encode :
    (options : List CoapOption) (prev : ℕ)
    → IsU16 prev
    → AllWritable prev options
    → wire_sizes prev options ≡ length (encode prev options)
unfolding wire_sizes encode
wire_sizes-encode [] prev hp w = refl
wire_sizes-encode (option ∷ options) prev hp w = omega (
  arith,
  ap (λ k. wire_size k option) short,
  wire_size-encode prev option w.0,
  wire_sizes-encode options option.option_num w.0.number w.1,
  length-append (encode_option prev option) (encode option.option_num options),
)
  where
    short : prev % 65536 ≡ prev
    short = omega arith

length-extension : (v : ℕ) → length (extension v) ≤ 2
unfolding extension
length-extension v = ground arith

-- The size of one option that the format can hold, as `mc_option_buffer_size` computes it.
pub option_buffer_size :
    (prev : ℕ) (option : CoapOption)
    → IsWritable prev option
    → CoapOption.buffer_size option prev ≡ length (encode_option prev option)
unfolding CoapOption.buffer_size
option_buffer_size prev option w =
    rw
      (
        wrapped,
        extended_size (option.option_num - prev) (omega (arith, w.number)),
        extended_size option.value.nbytes (omega (arith, w.short)),
      )
      (omega (
        arith,
        w.short,
        w.number,
        length-encode_option prev option w,
        length-extension (option.option_num - prev),
        length-extension option.value.nbytes,
      ))
  where
    wrapped : sub32 option.option_num prev ≡ option.option_num - prev
    wrapped = omega (arith, w.rising, w.number)

loop_size :
    (options unused : List CoapOption) (prev size : ℕ)
    → AllWritable prev options
    → size + length (encode prev options) < 4294967296
    → buffer_size_loop (length options) (options ++ unused) prev size
      ≡ some (size + length (encode prev options))
unfolding buffer_size_loop encode
loop_size [] unused prev size w small = ground arith
loop_size (option ∷ options) unused prev size w small =
    ap (buffer_size_loop (length options) (options ++ unused) option.option_num)
      (ap (add32 size) (option_buffer_size prev option w.0) ∙ added)
    ∙ loop_size options unused option.option_num (size + length (encode_option prev option)) w.1
        (omega (arith, whole))
    ∙ ap some (omega (arith, whole))
  where
    whole :
        length (encode prev (option ∷ options))
        ≡ length (encode_option prev option) + length (encode option.option_num options)
    whole = length-append (encode_option prev option) (encode option.option_num options)

    added :
        add32 size (length (encode_option prev option)) ≡ size + length (encode_option prev option)
    added = omega (arith, whole)

-- The entries that are not counted do not matter.
pub buffer_size_unused :
    (list : OptionsList) (options unused : List CoapOption)
    → list.options ≡ some (options ++ unused)
    → list.noptions ≡ length options
    → AllWritable 0 options
    → length (encode 0 options) < 4294967296
    → buffer_size (some list) ≡ some (length (encode 0 options))
unfolding buffer_size
buffer_size_unused list options unused e n w small =
    rw (e, n) (loop_size options unused 0 0 w (omega arith) ∙ ap some (omega arith))

-- `mc_options_list_buffer_size` of a list of options that the format can hold is the length of their
-- encoding, if that is below 2 ^ 32.
pub buffer_size-encode :
    (list : OptionsList) (options : List CoapOption)
    → list.options ≡ some options
    → list.noptions ≡ length options
    → AllWritable 0 options
    → length (encode 0 options) < 4294967296
    → buffer_size (some list) ≡ some (length (encode 0 options))
buffer_size-encode list options e n w small =
    buffer_size_unused list options [] (rw append-nil e) n w small
