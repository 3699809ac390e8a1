-- ===== src/CString.antt =====
-- C strings: the bytes before the terminating 0. A pointer into a string is what is left of it from
-- there on. The functions are those of the C library that the program calls, and those of
-- msys/ms_copy.c for strings.
pub mod Decimal
use mcoap.Base.{
  ℕ, zero, suc, ◌+◌, ◌-◌, ◌*◌, ◌/◌, ◌%◌, Bool, true, false, ◌&&◌, ◌||◌, Option, none, some, List,
  [], ◌∷◌, length, take, drop, leb, ltb, ◌==◌, if◌then◌else◌,
}
use mcoap.Base.Int.{ℤ, pos, negsuc}

abbrev pub Text : Type 0
Text = List ℕ

-- `*str`
abbrev pub first_char : Text → ℕ
first_char [] = 0
first_char (c ∷ str) = c

-- `str + n`, within the string and its terminating 0.
abbrev pub skip : ℕ → Text → Option Text
skip n str = if leb n (length str) then some (drop n str) else none

abbrev pub has : ℕ → Text → Bool
has c [] = false
has c (d ∷ chars) = c == d || has c chars

-- The number of bytes before the first of `reject`.
abbrev pub strcspn : Text → Text → ℕ
strcspn [] reject = 0
strcspn (c ∷ str) reject = let more = strcspn str reject in if has c reject then 0 else suc more

-- The last place where the character is, if there is one.
abbrev pub strrchr : ℕ → Text → Option Text
strrchr c [] = none
strrchr c (d ∷ str) = elim (strrchr c str) [
  | some later ↦ some later
  | none ↦ if c == d then some (d ∷ str) else none
]

-- `strcmp(left, right) == 0`
abbrev pub is_equal : Text → Text → Bool
is_equal [] [] = true
is_equal [] (d ∷ right) = false
is_equal (c ∷ left) [] = false
is_equal (c ∷ left) (d ∷ right) = c == d && is_equal left right

abbrev is_space : ℕ → Bool
is_space c = c == 32 || (leb 9 c && leb c 13)

abbrev is_digit : ℕ → Bool
is_digit c = leb b'0' c && leb c b'9'

unfoldable pub skip_spaces : Text → Text
skip_spaces [] = []
skip_spaces (c ∷ str) = let more = skip_spaces str in if is_space c then more else c ∷ str

-- The number that the leading digits spell, after those that spelled `value`.
unfoldable pub digits_value : Text → ℕ → ℕ
digits_value [] value = value
digits_value (c ∷ str) value =
    let more = digits_value str (value * 10 + (c - b'0')) in if is_digit c then more else value

abbrev negated : ℕ → ℤ
negated zero = pos 0
negated (suc n) = negsuc n

-- A sign and digits, as an integer.
unfoldable pub signed_value : Text → ℤ
unfolding digits_value
signed_value [] = pos 0
signed_value (c ∷ str) =
    if c == b'-'
    then negated (digits_value str 0)
    else if c == b'+'
    then pos (digits_value str 0)
    else pos (digits_value (c ∷ str) 0)

abbrev fits_int : ℤ → Bool
fits_int (pos n) = ltb n 2147483648
fits_int (negsuc n) = ltb n 2147483648

-- What `atoi` returns for a number that is no `int` is undefined: `wild` is whatever it is then.
unfoldable pub atoi : (Text → ℤ) → Text → ℤ
unfolding skip_spaces signed_value
atoi wild str =
    let value = signed_value (skip_spaces str) in if fits_int value then value else wild str

-- The conversion of an `int` to `uint32_t`.
abbrev pub int_to_u32 : ℤ → ℕ
int_to_u32 (pos n) = n % 4294967296
int_to_u32 (negsuc n) = 4294967295 - n % 4294967296

-- `ms_copy_str`
abbrev pub copy_str : Option Text → Option Text
copy_str none = none
copy_str (some str) = some str

-- `ms_copy_cstr`, of a count within the string.
abbrev pub copy_cstr : ℕ → Text → Text
copy_cstr count str = take (count % 4294967296) str

-- What `%u` prints of an `unsigned int`, which has at most ten digits, before `text`.
unfoldable pub decimal_loop : ℕ → ℕ → Text → Text
decimal_loop zero n text = text
decimal_loop (suc fuel) n text =
    let more = decimal_loop fuel (n / 10) ((b'0' + n % 10) ∷ text) in
    if ltb n 10 then (b'0' + n) ∷ text else more

unfoldable pub decimal : ℕ → Text
unfolding decimal_loop
decimal n = decimal_loop 10 n []
