-- ===== src/OptionsList/Encode/Format.antt =====
-- The format of RFC 7252, section 3.1, as the bytes of a list of options.
use mcoap.Base.{
  ℕ, ◌+◌, ◌-◌, ◌*◌, ◌/◌, ◌%◌, ◌≤◌, List, [], ◌∷◌, ◌++◌, length, take, block_of, ltb, if◌then◌else◌,
  IsU16,
}
use mcoap.CoapOption.{CoapOption}

-- The 4 bits that stand in the first byte for a number, and the bytes that follow.
unfoldable pub nibble : ℕ → ℕ
nibble v = if ltb v 13 then v else if ltb v 269 then 13 else 14

unfoldable pub extension : ℕ → List ℕ
extension v =
    if ltb v 13
    then []
    else if ltb v 269
    then (v - 13) ∷ []
    else ((v - 269) / 256) ∷ ((v - 269) % 256) ∷ []

-- The bytes of an option's value.
abbrev pub content : CoapOption → List ℕ
content option = take option.value.nbytes (block_of option.value.bytes)

unfoldable pub encode_option : ℕ → CoapOption → List ℕ
encode_option prev option =
    (nibble (option.option_num - prev) * 16 + nibble option.value.nbytes)
    ∷ (extension (option.option_num - prev) ++ (extension option.value.nbytes ++ content option))

unfoldable pub encode : ℕ → List CoapOption → List ℕ
encode prev [] = []
encode prev (option ∷ options) = encode_option prev option ++ encode option.option_num options

-- An option that the format can hold: a 16-bit number not below the one before, and a value shorter
-- than 2 ^ 16 bytes that lies within its block.
pub record IsWritable (prev : ℕ) (option : CoapOption) : Type 0 where
  pub rising : prev ≤ option.option_num
  pub number : IsU16 option.option_num
  pub short : IsU16 option.value.nbytes
  pub held : option.value.nbytes ≤ length (block_of option.value.bytes)

abbrev pub AllWritable : ℕ → List CoapOption → Type 0
AllWritable prev [] = Unit {0}
AllWritable prev (option ∷ options) = IsWritable prev option × AllWritable option.option_num options
