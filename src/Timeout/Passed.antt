-- ===== src/Timeout/Passed.antt =====
-- When a timeout has run out, whatever is lost to rounding.
use mcoap.Base.{◌≡◌, inl, inr, refl, subst, false, Bool-cases, arith}
use mcoap.Base.Int.{ℤ, pos, negsuc, ◌+ℤ◌, ◌-ℤ◌, ◌≤ℤ◌, +ℤ_parts, -ℤ_parts}
use mcoap.Timeout.{Timeout, Clock, Rounding, get, is_negative, max_ℤ, min_ℤ, left}

-- The `double`s next to two numbers are in the order of those.
pub record IsMonotone (r : Rounding) : Type 0 where
  pub keeps : (a b : ℤ) → a ≤ℤ b → r.round a ≤ℤ r.round b

max_out : (v : ℤ) → v ≤ℤ pos 0 → max_ℤ v (pos 0) ≡ pos 0
max_out (pos n) h = ground arith
max_out (negsuc n) h = ground arith

min_out : (v : ℤ) → is_negative v ≡ false → min_ℤ v (pos 0) ≡ pos 0
min_out v e = rw e refl

module _ (clock : Clock) (tout : Timeout) (m : IsMonotone clock.rounding)
    (start_exact : clock.rounding.round (pos 0 -ℤ tout.start) ≡ pos 0 -ℤ tout.start)
    (zero_exact : clock.rounding.round (pos 0) ≡ pos 0)
    (passed : tout.start +ℤ tout.total ≤ℤ clock.now) where
  left_passed : left tout.total clock tout ≤ℤ pos 0
  left_passed =
      let gone : ℤ = tout.total -ℤ clock.now in
      let back : ℤ = pos 0 -ℤ tout.start in
      let before : gone ≤ℤ back = omega (
        arith,
        passed,
        -ℤ_parts tout.total clock.now,
        -ℤ_parts (pos 0) tout.start,
        +ℤ_parts tout.start tout.total,
      ) in
      let first : clock.rounding.round gone ≤ℤ back =
        subst (λ z. clock.rounding.round gone ≤ℤ z) start_exact (m.keeps gone back before) in
      let sum : clock.rounding.round gone +ℤ tout.start ≤ℤ pos 0 = omega (
        arith,
        first,
        -ℤ_parts (pos 0) tout.start,
        +ℤ_parts (clock.rounding.round gone) tout.start,
      ) in
      subst (λ z. left tout.total clock tout ≤ℤ z) zero_exact
        (m.keeps (clock.rounding.round gone +ℤ tout.start) (pos 0) sum)

  -- `mn_timeout_get` of a timeout with a total time returns 0 from `start + total` on, with or without a
  -- blocking time, whatever the two roundings of the time left are, if rounding keeps the order of
  -- numbers and leaves 0 and the negative of the start, which are `double`s, as they are.
  pub get_passed : is_negative tout.total ≡ false → get clock tout ≡ pos 0
  unfolding get
  get_passed limited =
      let out = max_out (left tout.total clock tout) left_passed in
      elim (Bool-cases (is_negative tout.block)) [
        | inl unblocked ↦ rw (unblocked, limited, out) refl
        | inr blocked ↦ rw (blocked, limited, out) (min_out tout.block blocked)
      ]
