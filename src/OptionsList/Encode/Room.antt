-- ===== src/OptionsList/Encode/Room.antt =====
-- `mc_options_list_to_buffer` on every buffer: the encoding where there is room for it, null where
-- there is not.
use mcoap.Base.{
  ℕ, ◌+◌, ◌≤◌, ◌<◌, ◌≡◌, ◌⊎◌, inl, inr, false, some, List, [], ◌∷◌, arith, length, All, block_of,
  dec_le, Bool-cases,
}
use mcoap.Buffer.{Buffer, Holds}
use mcoap.CoapOption.{CoapOption}
use mcoap.OptionsList.{OptionsList}
use mcoap.OptionsList.Encode.{Out, returned, to_buffer}
use mcoap.OptionsList.Encode.Format.{encode, AllWritable}
use mcoap.OptionsList.Encode.Writes.{written, loop-Writes}
use mcoap.OptionsList.Encode.Safety.{Kept, loop-Keeps, wire_sizes}
use mcoap.OptionsList.Encode.Size.{wire_sizes-encode}

held_of_writable :
    (prev : ℕ) (options : List CoapOption)
    → AllWritable prev options
    → All (λ o. o.value.nbytes ≤ length (block_of o.value.bytes)) options
held_of_writable prev [] w = tt
held_of_writable prev (option ∷ options) w =
    (w.0.held, held_of_writable option.option_num options w.1)

module _ (list : OptionsList) (options : List CoapOption) {buffer : Buffer} {block : List ℕ}
    (entries : list.options ≡ some options) (count : list.noptions ≡ length options)
    (h : Holds buffer block) (pos : ℕ) (inside : pos ≤ buffer.nbytes) where
  -- However many options there are and whatever their numbers, if each value lies within its block,
  -- `mc_options_list_to_buffer` accesses no memory outside its blocks, keeps the buffer's count and
  -- the block's length, and leaves the position inside the buffer, whether there is room or not.
  pub to_buffer-Kept :
      All (λ o. o.value.nbytes ≤ length (block_of o.value.bytes)) options
      → (out : Out) × (to_buffer (some list) buffer (some pos) ≡ some out)
        × Kept buffer block pos (wire_sizes 0 options) out
  unfolding to_buffer
  to_buffer-Kept held = rw (entries, count) (loop-Keeps options 0 held buffer block pos h inside)

  -- Options that the format can hold are written exactly as RFC 7252 lays them out, from the position
  -- on and with the position left behind them, where the buffer has room; where it has not, null is
  -- returned.
  pub to_buffer-encode :
      AllWritable 0 options
      → ((pos + length (encode 0 options) ≤ buffer.nbytes)
          × (to_buffer (some list) buffer (some pos)
              ≡ some (
                  returned
                    (written buffer block pos (encode 0 options))
                    (pos + length (encode 0 options)))))
        ⊎ ((buffer.nbytes < pos + length (encode 0 options))
            × ((out : Out) × (to_buffer (some list) buffer (some pos) ≡ some out)
                × (out.done ≡ false)))
  unfolding to_buffer
  to_buffer-encode w = elim (dec_le (pos + length (encode 0 options)) buffer.nbytes) [
    | yes fits ↦
        inl (
          fits,
          rw (entries, count) (loop-Writes options 0 (omega arith) w buffer block pos h fits),
        )
    | no over ↦
        let (out, e, k) = to_buffer-Kept (held_of_writable 0 options w) in
        inr (omega arith, (out, e, refuses out k (λ fits. over fits)))
  ]
    where
      refuses :
          (out : Out)
          → Kept buffer block pos (wire_sizes 0 options) out
          → ¬ (pos + length (encode 0 options) ≤ buffer.nbytes)
          → out.done ≡ false
      refuses out k over = elim (Bool-cases out.done) [
        | inl d ↦
            absurd (
              over
                (omega (arith, k.exact d, k.inside, wire_sizes-encode options 0 (omega arith) w)))
        | inr d ↦ d
      ]
