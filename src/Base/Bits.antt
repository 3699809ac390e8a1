-- ===== src/Base/Bits.antt =====
-- `&` with a mask and `|` of disjoint fields as arithmetic, at every width and offset.
use Prim.Native.Nat.{
  ℕ, zero, suc, ◌+◌, ◌-◌, ◌*◌, ◌/◌, ◌%◌, ◌^◌, ◌≤◌, ◌<◌, min, max, bit_and, bit_or, digits, bitwise,
  bit_and-bitwise, bit_or-bitwise,
}
use mathlib.Core.Path.{◌≡◌, refl, sym, ap, ◌∙◌, subst}
use native.Mathlib.Nat.{
  pow-suc, one-le-pow, mul-one, div-one, div-div-eq-div-mul, add-mul-mod_self_left, mod-eq_of_lt,
  mod-lt, div-add-mod,
}
use native.Mathlib.Omega.{arith}

-- More digits than the number has add nothing.
digits_surplus :
    (left : ℕ → ℕ) (op : ℕ → ℕ → ℕ) (x y total enough : ℕ)
    → x ≤ enough
    → enough ≤ total
    → digits left op total x y ≡ digits left op enough x y
digits_surplus left op zero y zero zero few more = refl
digits_surplus left op zero y (suc total) zero few more = refl
digits_surplus left op zero y (suc total) (suc enough) few more = refl
digits_surplus left op x y zero (suc enough) few more = absurd (omega arith)
digits_surplus left op (suc x) y total zero few more = absurd (omega arith)
digits_surplus left op (suc x) y (suc total) (suc enough) few more =
    ap (λ upper. upper * 2 + op (suc x % 2) (y % 2))
      (digits_surplus left op (suc x / 2) (y / 2) total enough (omega arith) (omega arith))

-- The lowest digit of a bitwise operation, apart from the digits above it.
module _ (left : ℕ → ℕ) (op : ℕ → ℕ → ℕ) (x y : ℕ) where
  lowest :
      bitwise left op (suc x) y ≡ bitwise left op (suc x / 2) (y / 2) * 2 + op (suc x % 2) (y % 2)
  lowest =
      ap (λ upper. upper * 2 + op (suc x % 2) (y % 2))
        (digits_surplus left op (suc x / 2) (y / 2) x (suc x / 2) (omega arith) (omega arith))

bit_and_step : (x y : ℕ) → bit_and x y ≡ bit_and (x / 2) (y / 2) * 2 + min (x % 2) (y % 2)
bit_and_step zero y = rw (bit_and-bitwise 0 y, bit_and-bitwise 0 (y / 2)) (omega arith)
bit_and_step (suc x) y =
    bit_and-bitwise (suc x) y
    ∙ lowest (λ d. 0) min x y
    ∙ ap (λ upper. upper * 2 + min (suc x % 2) (y % 2)) (sym (bit_and-bitwise (suc x / 2) (y / 2)))

bit_or_step : (x y : ℕ) → bit_or x y ≡ bit_or (x / 2) (y / 2) * 2 + max (x % 2) (y % 2)
bit_or_step zero y = rw (bit_or-bitwise 0 y, bit_or-bitwise 0 (y / 2)) (omega arith)
bit_or_step (suc x) y =
    bit_or-bitwise (suc x) y
    ∙ lowest (λ d. d) max x y
    ∙ ap (λ upper. upper * 2 + max (suc x % 2) (y % 2)) (sym (bit_or-bitwise (suc x / 2) (y / 2)))

pub bit_and_zero : (b : ℕ) → bit_and 0 b ≡ 0
bit_and_zero b = bit_and-bitwise 0 b

pub bit_or_zero : (b : ℕ) → bit_or 0 b ≡ b
bit_or_zero b = bit_or-bitwise 0 b

double : (m k : ℕ) → m * 2 ^ suc k ≡ 2 * (m * 2 ^ k)
double m k = omega (arith, ap (λ (t : ℕ). m * t) (pow-suc 2 k))

-- Reading a number one digit to the right.
shift_step : (x k : ℕ) → x / 2 / 2 ^ k ≡ x / 2 ^ suc k
shift_step x k = div-div-eq-div-mul x 2 (2 ^ k) ∙ ap (λ (t : ℕ). x / t) (omega (arith, pow-suc 2 k))

-- A mask at offset `k` looks at the number shifted by `k`.
pub bit_and_offset : (k m x : ℕ) → bit_and (m * 2 ^ k) x ≡ bit_and m (x / 2 ^ k) * 2 ^ k
bit_and_offset zero m x = simp (mul-one, div-one)
bit_and_offset (suc k) m x = ground (
  arith,
  double m k,
  double (bit_and m (x / 2 ^ suc k)) k,
  bit_and_step (m * 2 ^ suc k) x,
  bit_and_offset k m (x / 2),
  shift_step x k,
)

mod_step : (p x : ℕ) → 0 < p → x / 2 % p * 2 + x % 2 ≡ x % (2 * p)
mod_step p x h =
    let r : ℕ = x / 2 % p * 2 + x % 2 in
    let small : r < 2 * p = omega (arith, mod-lt (x / 2) h) in
    let whole : r + 2 * p * (x / 2 / p) ≡ x = omega (arith, div-add-mod (x / 2) p) in
    sym (mod-eq_of_lt small)
    ∙ sym (add-mul-mod_self_left r (2 * p) (x / 2 / p))
    ∙ ap (λ (t : ℕ). t % (2 * p)) whole

-- A mask of `w` ones is the remainder by `2 ^ w`.
pub bit_and_ones : (w x : ℕ) → bit_and (2 ^ w - 1) x ≡ x % 2 ^ w
bit_and_ones zero x = omega (arith, bit_and_zero x)
bit_and_ones (suc w) x = ground (
  arith,
  bit_and_step (2 ^ suc w - 1) x,
  pow-suc 2 w,
  one-le-pow w 2,
  bit_and_ones w (x / 2),
  mod_step (2 ^ w) x,
)

pub bit_and_field : (k w x : ℕ) → bit_and ((2 ^ w - 1) * 2 ^ k) x ≡ x / 2 ^ k % 2 ^ w * 2 ^ k
bit_and_field k w x =
    bit_and_offset k (2 ^ w - 1) x ∙ ap (λ (t : ℕ). t * 2 ^ k) (bit_and_ones w (x / 2 ^ k))

bit_and_comm_fuel : (n a b : ℕ) → a ≤ n → b ≤ n → bit_and a b ≡ bit_and b a
bit_and_comm_fuel zero zero zero p q = refl
bit_and_comm_fuel zero zero (suc b) p q = absurd (omega arith)
bit_and_comm_fuel zero (suc a) b p q = absurd (omega arith)
bit_and_comm_fuel (suc n) a b p q = ground (
  arith,
  bit_and_step a b,
  bit_and_step b a,
  bit_and_comm_fuel n (a / 2) (b / 2) (omega arith) (omega arith),
)

pub bit_and_comm : (a b : ℕ) → bit_and a b ≡ bit_and b a
bit_and_comm a b = bit_and_comm_fuel (a + b) a b (omega arith) (omega arith)

-- The same with the mask behind.
pub bit_and_low : (w x : ℕ) → bit_and x (2 ^ w - 1) ≡ x % 2 ^ w
bit_and_low w x = bit_and_comm x (2 ^ w - 1) ∙ bit_and_ones w x

bit_or_comm_fuel : (n a b : ℕ) → a ≤ n → b ≤ n → bit_or a b ≡ bit_or b a
bit_or_comm_fuel zero zero zero p q = refl
bit_or_comm_fuel zero zero (suc b) p q = absurd (omega arith)
bit_or_comm_fuel zero (suc a) b p q = absurd (omega arith)
bit_or_comm_fuel (suc n) a b p q = ground (
  arith,
  bit_or_step a b,
  bit_or_step b a,
  bit_or_comm_fuel n (a / 2) (b / 2) (omega arith) (omega arith),
)

bit_or_comm : (a b : ℕ) → bit_or a b ≡ bit_or b a
bit_or_comm a b = bit_or_comm_fuel (a + b) a b (omega arith) (omega arith)

-- `|` of a multiple of `2 ^ k` and a number below `2 ^ k` is their sum, in either order.
pub bit_or_fields : (k q r : ℕ) → r < 2 ^ k → bit_or (q * 2 ^ k) r ≡ q * 2 ^ k + r
bit_or_fields zero q r fits =
    let e : r ≡ 0 = omega arith in rw (e, mul-one, bit_or_comm q 0, bit_or_zero q) (omega arith)
bit_or_fields (suc k) q r fits = ground (
  arith,
  bit_or_step (q * 2 ^ suc k) r,
  double q k,
  bit_or_fields k q (r / 2) (omega (arith, pow-suc 2 k)),
)

pub bit_or_add : (k x r : ℕ) → x % 2 ^ k ≡ 0 → r < 2 ^ k → bit_or x r ≡ x + r
bit_or_add k x r aligned fits =
    let e : x ≡ x / 2 ^ k * 2 ^ k = omega (arith, div-add-mod x (2 ^ k)) in
    subst (λ t. bit_or t r ≡ t + r) (sym e) (bit_or_fields k (x / 2 ^ k) r fits)
