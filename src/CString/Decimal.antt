-- ===== src/CString/Decimal.antt =====
-- Reading back a number that was printed.
use mcoap.Base.{
  ℕ, zero, suc, ◌+◌, ◌*◌, ◌/◌, ◌%◌, ◌≡◌, ◌<◌, ◌≤◌, refl, sym, ap, ◌∙◌, subst, false, [], ◌∷◌, arith,
  ltb, All, dec_lt, le→ltb, lt→ltb, length,
}
use mcoap.Base.Int.{ℤ, pos}
use mcoap.CString.{Text, skip_spaces, digits_value, signed_value, atoi, decimal_loop, decimal}

-- The numbers of at most so many digits are below it.
abbrev pub power : ℕ → ℕ
power zero = 1
power (suc n) = 10 * power n

digit_step :
    (d : ℕ) (text : Text) (v : ℕ)
    → d < 10
    → digits_value ((b'0' + d) ∷ text) v ≡ digits_value text (v * 10 + d)
unfolding digits_value
digit_step d text v h = ground arith

value_lem :
    (fuel n : ℕ) (text : Text)
    → n < power fuel
    → digits_value (decimal_loop fuel n text) 0 ≡ digits_value text n
unfolding decimal_loop
value_lem zero n text h = ap (digits_value text) (omega arith)
value_lem (suc fuel) n text h = elim (dec_lt n 10) [
  | yes one ↦ rw (lt→ltb n 10 one) (digit_step n text 0 one ∙ ap (digits_value text) (omega arith))
  | no more ↦
      let many : ltb n 10 ≡ false = le→ltb n 10 (omega arith) in
      let whole : n / 10 * 10 + n % 10 ≡ n = omega arith in
      rw many (
        value_lem fuel (n / 10) ((b'0' + n % 10) ∷ text) (omega arith)
        ∙ digit_step (n % 10) text (n / 10) (omega arith)
        ∙ ap (digits_value text) whole)
]

value_all : (n : ℕ) → n < 10000000000 → digits_value (decimal n) 0 ≡ n
unfolding decimal digits_value
value_all n h = value_lem 10 n [] h

abbrev pub IsDigit : ℕ → Type 0
IsDigit c = (b'0' ≤ c) × (c ≤ b'9')

digits_lem :
    (fuel n : ℕ) (text : Text)
    → n < power fuel
    → All IsDigit text
    → All IsDigit (decimal_loop fuel n text)
unfolding decimal_loop
digits_lem zero n text h all = all
digits_lem (suc fuel) n text h all = elim (dec_lt n 10) [
  | yes one ↦ rw (lt→ltb n 10 one) ((omega arith, omega arith), all)
  | no more ↦ rw (le→ltb n 10 (omega arith)) (
      digits_lem fuel (n / 10) ((b'0' + n % 10) ∷ text) (omega arith)
        ((omega arith, omega arith), all))
]

pub decimal-AllDigits : (n : ℕ) → n < 10000000000 → All IsDigit (decimal n)
unfolding decimal
decimal-AllDigits n h = digits_lem 10 n [] h tt

longer_lem :
    (fuel n c : ℕ) (text : Text)
    → (d : ℕ) × (rest : Text) × (decimal_loop fuel n (c ∷ text) ≡ d ∷ rest)
unfolding decimal_loop
longer_lem zero n c text = (c, text, refl)
longer_lem (suc fuel) n c text = elim (dec_lt n 10) [
  | yes one ↦ (b'0' + n, c ∷ text, rw (lt→ltb n 10 one) refl)
  | no more ↦
      let (d, rest, e) = longer_lem fuel (n / 10) (b'0' + n % 10) (c ∷ text) in
      (d, rest, rw (le→ltb n 10 (omega arith)) e)
]

pub decimal_first : (n : ℕ) → (d : ℕ) × (rest : Text) × (decimal n ≡ d ∷ rest)
unfolding decimal decimal_loop
decimal_first n = elim (dec_lt n 10) [
  | yes one ↦ (b'0' + n, [], rw (lt→ltb n 10 one) refl)
  | no more ↦
      let (d, rest, e) = longer_lem 9 (n / 10) (b'0' + n % 10) [] in
      (d, rest, rw (le→ltb n 10 (omega arith)) e)
]

plain_lem :
    (d : ℕ) (rest : Text)
    → IsDigit d
    → signed_value (skip_spaces (d ∷ rest)) ≡ pos (digits_value (d ∷ rest) 0)
unfolding signed_value skip_spaces
plain_lem d rest h = ground (arith, h)

-- `atoi` reads back what `%u` prints of a number that is an `int`.
pub atoi-decimal : (wild : Text → ℤ) (n : ℕ) → n < 2147483648 → atoi wild (decimal n) ≡ pos n
unfolding atoi
atoi-decimal wild n h =
    let (d, rest, e) = decimal_first n in
    let all = subst (All IsDigit) e (decimal-AllDigits n (omega arith)) in
    let value : digits_value (decimal n) 0 ≡ n = value_all n (omega arith) in
    let signed : signed_value (skip_spaces (decimal n)) ≡ pos n =
      rw e (plain_lem d rest all.0) ∙ ap pos (ap (λ t. digits_value t 0) (sym e) ∙ value) in
    rw (signed, lt→ltb n 2147483648 h) refl

length_lem : (fuel n : ℕ) (text : Text) → length (decimal_loop fuel n text) ≤ fuel + length text
unfolding decimal_loop
length_lem zero n text = omega arith
length_lem (suc fuel) n text = elim (dec_lt n 10) [
  | yes one ↦ rw (lt→ltb n 10 one) (omega arith)
  | no more ↦
      rw (le→ltb n 10 (omega arith))
        (omega (arith, length_lem fuel (n / 10) ((b'0' + n % 10) ∷ text)))
]

pub length-decimal : (n : ℕ) → length (decimal n) ≤ 10
unfolding decimal
length-decimal n = length_lem 10 n []
