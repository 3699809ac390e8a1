-- ===== src/Log/Dump.antt =====
-- Reading back the bytes that were logged.
use mcoap.Base.{
  ℕ, ◌+◌, ◌-◌, ◌*◌, ◌/◌, ◌%◌, ◌≡◌, ◌<◌, refl, ap, List, [], ◌∷◌, All, arith, leb, if◌then◌else◌,
  IsU8,
}
use mcoap.CString.{Text}
use mcoap.Log.{hex_digit, hex_line}

-- The value of a digit.
abbrev pub digit_value : ℕ → ℕ
digit_value c = if leb b'a' c then c - b'a' + 10 else c - b'0'

-- The bytes that a line spells, each as `0x`, two digits and a space.
abbrev pub read_line : Text → List ℕ
read_line [] = []
read_line (mark ∷ x ∷ high ∷ low ∷ space ∷ text) =
    (digit_value high * 16 + digit_value low) ∷ read_line text
read_line (c ∷ text) = []

digit_lem : (n : ℕ) → n < 16 → digit_value (hex_digit n) ≡ n
unfolding hex_digit
digit_lem n h = ground arith

-- The first line that `ms_log_bytes` writes determines the bytes.
read_line-hex_line : (bytes : List ℕ) → All IsU8 bytes → read_line (hex_line bytes) ≡ bytes
unfolding hex_line
read_line-hex_line [] small = refl
read_line-hex_line (byte ∷ bytes) small =
    rw
      (
        digit_lem (byte / 16) (omega (arith, small.0)),
        digit_lem (byte % 16) (omega arith),
        read_line-hex_line bytes small.1,
      )
      (ap (λ b. b ∷ bytes) (omega arith))
