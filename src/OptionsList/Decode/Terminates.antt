-- ===== src/OptionsList/Decode/Terminates.antt =====
-- `count_options` ends on every buffer, whatever the bytes are.
use mcoap.Base.{
  ℕ, zero, suc, ◌+◌, ◌≤◌, ◌<◌, ◌≡◌, ◌≢◌, arith, none, some, Option, add32, ltb, if◌then◌else◌,
  Option-cases, Bool-cases, inl, inr, get_elem?, block_of, refl, bit_and, ◌/◌, ◌^◌,
}
use mcoap.Base.Bits.{bit_and_low}
use mcoap.Base.Run.{Run, ok, fault, stuck, lift, ◌>>=◌}
use mcoap.Buffer.{Buffer, next_uint8, next_uint16}
use mcoap.OptionsList.Decode.{
  Round, finished, again, skip_extended, count_round, count_loop, count_options,
}
use mcoap.OptionsList.Decode.Number.{option_num_from_buffer}

number_moves :
    (junk : ℕ → ℕ) (buffer : Buffer) (prefix bpos v p : ℕ) (b : Buffer)
    → prefix < 16
    → bpos + 2 < 4294967296
    → option_num_from_buffer junk buffer prefix bpos ≡ some (v, p, b)
    → (bpos ≤ p) × (p ≤ bpos + 2) × (v < 65536) × (b.nbytes ≡ buffer.nbytes)
unfolding option_num_from_buffer next_uint8 next_uint16
number_moves junk buffer prefix bpos v p b hp small e = ground arith

skip_moves :
    (delta bpos : ℕ)
    → bpos + 2 < 4294967296
    → (bpos ≤ skip_extended delta bpos) × (skip_extended delta bpos ≤ bpos + 2)
unfolding skip_extended
skip_moves delta bpos small = ground arith

-- The end of a round, given what the read of the length returns.
round_end_moves :
    (nbytes bpos : ℕ) (o : Option (ℕ × ℕ × Buffer))
    → nbytes + 65543 < 4294967296
    → bpos < nbytes
    → ((v n : ℕ) (b' : Buffer)
        → o ≡ some (v, n, b')
        → (bpos < n) × (n ≤ bpos + 5) × (v < 65536) × (b'.nbytes ≡ nbytes))
    → (b : Buffer) (p : ℕ)
    → (lift o >>= λ (v, n, b').
        ok (if ltb b'.nbytes (add32 n v) then finished 0 b' else again b' (add32 n v)))
      ≡ ok (again b p)
    → (bpos < p) × (p ≤ nbytes) × (b.nbytes ≡ nbytes)
round_end_moves nbytes bpos none small before h b p e = cc
round_end_moves nbytes bpos (some (v, n, b')) small before h b p e = ground (arith, h v n b' refl)

-- A round that goes on moves the position forward, to within the buffer.
round_moves :
    (junk : ℕ → ℕ) (buffer : Buffer) (bpos total : ℕ) (b : Buffer) (p : ℕ)
    → buffer.nbytes + 65543 < 4294967296
    → count_round junk buffer bpos total ≡ ok (again b p)
    → (bpos < p) × (p ≤ buffer.nbytes) × (b.nbytes ≡ buffer.nbytes)
unfolding count_round
round_moves junk buffer bpos total b p small e =
    elim (Option-cases (get_elem? (block_of buffer.bytes) bpos)) [
      | inl missing ↦ ground arith
      | inr (byte, there) ↦
          let skipped = skip_extended (byte / 2 ^ 4) (add32 bpos 1) in
          let o = option_num_from_buffer junk buffer (bit_and byte 0x0f) skipped in
          let before : bpos < buffer.nbytes = ground arith in
          let moved = skip_moves (byte / 2 ^ 4) (add32 bpos 1) (omega arith) in
          let nibble : bit_and byte 0x0f < 16 = omega (arith, bit_and_low 4 byte) in
          ground (
            arith,
            round_end_moves buffer.nbytes bpos o small before
                (λ v n b' e'. omega (
                  arith,
                  moved,
                  number_moves junk buffer (bit_and byte 0x0f) skipped v n b' nibble
                      (omega (arith, moved)) e',
                ))
                b p,
          )
    ]

round-ne-stuck :
    (junk : ℕ → ℕ) (buffer : Buffer) (bpos total : ℕ) → count_round junk buffer bpos total ≢ stuck
unfolding count_round
round-ne-stuck junk buffer bpos total = ground arith

after-ne-stuck :
    (k : Buffer → ℕ → Run (ℕ × Buffer)) (r : Run Round)
    → r ≢ stuck
    → ((b : Buffer) (p : ℕ) → r ≡ ok (again b p) → k b p ≢ stuck)
    → ◌>>=◌ {B = ℕ × Buffer} r
        (λ round. elim round [ finished count b ↦ ok (count, b) | again b p ↦ k b p ])
      ≢ stuck
after-ne-stuck k (ok (finished count b)) ne h = λ e. cc
after-ne-stuck k (ok (again b p)) ne h = h b p refl
after-ne-stuck k fault ne h = λ e. cc
after-ne-stuck k stuck ne h = absurd (ne refl)

loop-ne-stuck :
    (junk : ℕ → ℕ) (fuel : ℕ) (buffer : Buffer) (bpos total : ℕ)
    → buffer.nbytes + 65543 < 4294967296
    → buffer.nbytes ≤ fuel + bpos
    → count_loop junk (suc fuel) buffer bpos total ≢ stuck
unfolding count_loop
loop-ne-stuck junk zero buffer bpos total small enough =
    after-ne-stuck _ (count_round junk buffer bpos total) (round-ne-stuck junk buffer bpos total)
      (λ b p e. absurd (omega (arith, round_moves junk buffer bpos total b p small e)))
loop-ne-stuck junk (suc fuel) buffer bpos total small enough =
    after-ne-stuck _ (count_round junk buffer bpos total) (round-ne-stuck junk buffer bpos total)
      (λ b p e.
        let m = round_moves junk buffer bpos total b p small e in
        loop-ne-stuck junk fuel b p (add32 total 1) (omega (arith, m)) (omega (arith, m)))

-- On a buffer whose count is not within 64 KiB of 2 ^ 32 the loop of `count_options` ends, whatever
-- the bytes are and whatever the junk is: the fuel, one round for each byte and one more, is enough.
pub count_options-ne-stuck :
    (junk : ℕ → ℕ) (buffer : Buffer) (bpos : ℕ)
    → buffer.nbytes + 65543 < 4294967296
    → count_options junk buffer bpos ≢ stuck
unfolding count_options
count_options-ne-stuck junk buffer bpos small = elim (Bool-cases (ltb buffer.nbytes 4)) [
  | inl e ↦ rw e (λ p. cc)
  | inr e ↦ rw e (loop-ne-stuck junk buffer.nbytes buffer bpos 0 small (omega arith))
]
