-- ===== src/Message/Encode/Writes.antt =====
-- What `mc_message_to_buffer` leaves in the buffer.
use mcoap.Base.{
  ℕ, ◌+◌, ◌≤◌, ◌<◌, ◌≡◌, ◌⊎◌, inl, inr, refl, sym, ap, ◌∙◌, subst, Option, none, some, List, [],
  ◌∷◌, ◌++◌, arith, length, splice, splice-splice, write_at_lem, write_at, length-append,
  append-nil, append_assoc, add32, IsU32, le→ltb, lt→ltb, dec_le,
}
use mcoap.Endian.{host, big, bytes_of_u32, swap_u32}
use mcoap.Endian.Laws.{bytes_of_u32-swap_u32}
use mcoap.Buffer
use mcoap.Buffer.{Buffer, Holds}
use mcoap.Buffer.Copy.{copy_to_fits}
use mcoap.CoapOption.{CoapOption}
use mcoap.OptionsList
use mcoap.OptionsList.{OptionsList}
use mcoap.OptionsList.Encode
use mcoap.OptionsList.Encode.{returned}
use mcoap.OptionsList.Encode.Format.{encode, AllWritable}
use mcoap.OptionsList.Encode.Writes.{written, Holds-written, unused-Writes}
use mcoap.OptionsList.Encode.Size.{buffer_size_unused}
use mcoap.Message.{Message}
use mcoap.Message.Encode.{payload_size, buffer_size, payload_to_buffer, body_to_buffer, to_buffer}
use mcoap.Message.Encode.Wire.{marked, wire, Carries, CarriesPayload, CarriesOptions, IsMessage}

module _ {buffer : Buffer} {block : List ℕ} (h : Holds buffer block) where
  -- The buffer with `bytes` written from its start on.
  abbrev filled : List ℕ → Buffer
  filled bytes = written buffer block 0 bytes

  Holds-filled :
      (bytes : List ℕ) → length bytes ≤ buffer.nbytes → Holds (filled bytes) (splice block 0 bytes)
  Holds-filled bytes fits = Holds-written h 0 bytes (omega arith)

  advance :
      (bytes more : List ℕ)
      → length bytes ≤ buffer.nbytes
      → written (filled bytes) (splice block 0 bytes) (length bytes) more ≡ filled (bytes ++ more)
  advance bytes more fits =
      let count : 0 + length bytes ≡ length bytes = omega arith in
      ap (λ l. record buffer { bytes = some l })
        (ap (λ n. splice (splice block 0 bytes) n more) (sym count)
          ∙ splice-splice block 0 bytes more (omega (arith, h.within)))

  options_step :
      (list : Option OptionsList) (options : List CoapOption) (bytes : List ℕ)
      → CarriesOptions list options
      → AllWritable 0 options
      → length (bytes ++ encode 0 options) ≤ buffer.nbytes
      → Encode.to_buffer list (filled bytes) (some (length bytes))
        ≡ some (returned (filled (bytes ++ encode 0 options)) (length (bytes ++ encode 0 options)))
  unfolding Encode.to_buffer encode
  options_step none options bytes c w fits = rw (c, append-nil) refl
  options_step (some list) options bytes (unused, there, count) w fits =
      let n = length-append bytes (encode 0 options) in
      rw (there, count)
        (unused-Writes options unused 0 (omega arith) w (filled bytes) (splice block 0 bytes)
            (length bytes) (Holds-filled bytes (omega (arith, n))) (omega (arith, n))
          ∙ ap some (rw (advance bytes (encode 0 options) (omega (arith, n)), n) refl))

  copy_step :
      (source : Buffer) (bytes more : List ℕ)
      → Carries source more
      → length (bytes ++ more) ≤ buffer.nbytes
      → Buffer.copy_to (some (filled bytes)) (length bytes) (some source) 0 source.nbytes
        ≡ some (some (filled (bytes ++ more)))
  copy_step source bytes more c fits =
      let n = length-append bytes more in
      copy_to_fits (Holds-filled bytes (omega (arith, n))) source c.held c.small (length bytes) 0
        source.nbytes (omega (arith, n, c.count)) (omega arith)
      ∙ ap (λ l. some (some (written (filled bytes) (splice block 0 bytes) (length bytes) l)))
          c.first
      ∙ ap (λ b. some (some b)) (advance bytes more (omega (arith, n)))

  marker_step :
      (bytes : List ℕ)
      → length bytes + 1 ≤ buffer.nbytes
      → write_at (splice block 0 bytes) (length bytes) (0xff ∷ [])
        ≡ some (splice block 0 (bytes ++ (0xff ∷ [])))
  marker_step bytes fits =
      let held = Holds-filled bytes (omega arith) in
      let count : 0 + length bytes ≡ length bytes = omega arith in
      write_at_lem (splice block 0 bytes) (length bytes) (0xff ∷ []) (omega (arith, held.within))
      ∙ ap (λ n. some (splice (splice block 0 bytes) n (0xff ∷ []))) (sym count)
      ∙ ap some (splice-splice block 0 bytes (0xff ∷ []) (omega (arith, h.within)))

  payload_step :
      (payload : Option Buffer) (bytes more : List ℕ)
      → CarriesPayload payload more
      → length (bytes ++ marked more) ≤ buffer.nbytes
      → payload_to_buffer payload (filled bytes) (length bytes)
        ≡ some (length (bytes ++ marked more), filled (bytes ++ marked more))
  unfolding payload_to_buffer
  payload_step none bytes more c fits = rw (c, append-nil) refl
  payload_step (some payload) bytes [] c fits =
      rw (le→ltb 0 payload.nbytes (omega (arith, c.count)), append-nil) refl
  payload_step (some payload) bytes (byte ∷ more) c fits =
      let n = length-append bytes (0xff ∷ byte ∷ more) in
      rw
        (
          lt→ltb 0 payload.nbytes (omega (arith, c.count)),
          marker_step bytes (omega (arith, n)),
          next,
          copy_step payload (bytes ++ (0xff ∷ [])) (byte ∷ more) c
              (subst (λ l. length l ≤ buffer.nbytes) (sym whole) fits),
          whole,
        )
        (ap (λ k. some (k, filled (bytes ++ (0xff ∷ byte ∷ more)))) (omega (arith, n, c.count)))
    where
      whole : (bytes ++ (0xff ∷ [])) ++ (byte ∷ more) ≡ bytes ++ (0xff ∷ byte ∷ more)
      whole = append_assoc bytes (0xff ∷ []) (byte ∷ more)

      next : add32 (length bytes) 1 ≡ length (bytes ++ (0xff ∷ []))
      next = omega (
        arith,
        fits,
        h.small,
        length-append bytes (0xff ∷ []),
        length-append bytes (0xff ∷ byte ∷ more),
      )

options_size :
    (list : Option OptionsList) (options : List CoapOption)
    → CarriesOptions list options
    → AllWritable 0 options
    → length (encode 0 options) < 4294967296
    → OptionsList.buffer_size list ≡ some (length (encode 0 options))
unfolding OptionsList.buffer_size encode
options_size none options c w small = rw c refl
options_size (some list) options (unused, there, count) w small =
    buffer_size_unused list options unused there count w small

payload_size_lem :
    (payload : Option Buffer) (bytes : List ℕ) (size : ℕ)
    → CarriesPayload payload bytes
    → size + length (marked bytes) < 4294967296
    → payload_size payload size ≡ size + length (marked bytes)
unfolding payload_size
payload_size_lem none bytes size c small = rw c (omega arith)
payload_size_lem (some payload) [] size c small =
    rw (le→ltb 0 payload.nbytes (omega (arith, c.count))) (omega arith)
payload_size_lem (some payload) (byte ∷ bytes) size c small =
    rw (lt→ltb 0 payload.nbytes (omega (arith, c.count))) (omega (arith, c.count))

pub length-wire :
    (header : ℕ) (token : List ℕ) (options : List CoapOption) (payload : List ℕ)
    → length (wire header token options payload)
      ≡ 4 + (length token + (length (encode 0 options) + length (marked payload)))
unfolding wire
length-wire header token options payload =
    length-append (bytes_of_u32 big header) (token ++ (encode 0 options ++ marked payload))
    ∙ ap (λ n. 4 + n)
        (length-append token (encode 0 options ++ marked payload)
          ∙ ap (λ n. length token + n) (length-append (encode 0 options) (marked payload)))

pub payload-le-marked : (payload : List ℕ) → length payload ≤ length (marked payload)
payload-le-marked [] = omega arith
payload-le-marked (byte ∷ bytes) = omega arith

wire_parts :
    (header : ℕ) (token : List ℕ) (options : List CoapOption) (payload : List ℕ)
    → ((bytes_of_u32 big header ++ token) ++ encode 0 options) ++ marked payload
      ≡ wire header token options payload
unfolding wire
wire_parts header token options payload =
    append_assoc (bytes_of_u32 big header ++ token) (encode 0 options) (marked payload)
    ∙ append_assoc (bytes_of_u32 big header) token (encode 0 options ++ marked payload)

-- The size that `mc_message_buffer_size` computes is the length of the message on the wire, if that is
-- below 2 ^ 32 and the format can hold the options.
pub buffer_size-wire :
    {Addr : Type 0} (message : Message Addr) (token : List ℕ) (options : List CoapOption)
    (payload : List ℕ)
    → IsMessage message token options payload
    → AllWritable 0 options
    → length (wire message.header token options payload) < 4294967296
    → buffer_size (some message) ≡ some (length (wire message.header token options payload))
unfolding buffer_size wire payload_size
buffer_size-wire message token options payload m w small =
    rw
      (m.token_there, options_size message.options options m.options_carry w (omega (arith, whole)))
      (ap some (
        ap (payload_size message.payload) front
        ∙ payload_size_lem message.payload payload (4 + (length token + length (encode 0 options)))
            m.payload_carries (omega (arith, whole))
        ∙ omega (arith, whole)))
  where
    whole :
        length (wire message.header token options payload)
        ≡ 4 + (length token + (length (encode 0 options) + length (marked payload)))
    whole = length-wire message.header token options payload

    front :
        add32 (add32 4 m.token_buffer.nbytes) (length (encode 0 options))
        ≡ 4 + (length token + length (encode 0 options))
    front = omega (arith, small, whole, m.token_carries.count)

module _ {Addr : Type 0} (message : Message Addr) (token : List ℕ) (options : List CoapOption)
    (payload : List ℕ) (m : IsMessage message token options payload) (w : AllWritable 0 options)
    (header_small : IsU32 message.header) {buffer : Buffer} {block : List ℕ}
    (h : Holds buffer block) where
  header_step :
      length (wire message.header token options payload) ≤ buffer.nbytes
      → write_at block 0 (bytes_of_u32 host (swap_u32 message.header))
        ≡ some (splice block 0 (bytes_of_u32 big message.header))
  header_step fits =
      write_at_lem block 0 (bytes_of_u32 host (swap_u32 message.header))
        (omega (arith, fits, h.within, length-wire message.header token options payload))
      ∙ ap (λ l. some (splice block 0 l)) (bytes_of_u32-swap_u32 message.header header_small)

  body_step :
      (head : List ℕ)
      → length head ≡ 4
      → length (((head ++ token) ++ encode 0 options) ++ marked payload) ≤ buffer.nbytes
      → body_to_buffer message m.token_buffer (filled h head)
        ≡ some (
          length (((head ++ token) ++ encode 0 options) ++ marked payload),
          filled h (((head ++ token) ++ encode 0 options) ++ marked payload),
        )
  unfolding body_to_buffer
  body_step head four fits =
      let three = length-append ((head ++ token) ++ encode 0 options) (marked payload) in
      let two = length-append (head ++ token) (encode 0 options) in
      let one = length-append head token in
      let behind : add32 4 m.token_buffer.nbytes ≡ length (head ++ token) =
        omega (arith, fits, one, two, three, m.token_carries.count, h.small) in
      let copied : Buffer.copy_to (some (filled h head)) 4 (some m.token_buffer) 0
            m.token_buffer.nbytes
          ≡ some (some (filled h (head ++ token))) =
        subst
          (λ k.
            Buffer.copy_to (some (filled h head)) k (some m.token_buffer) 0 m.token_buffer.nbytes
            ≡ some (some (filled h (head ++ token))))
          four
          (copy_step h m.token_buffer head token m.token_carries
            (omega (arith, fits, one, two, three))) in
      rw
        (
          copied,
          behind,
          options_step h message.options options (head ++ token) m.options_carry w
              (omega (arith, fits, three)),
        )
        (payload_step h message.payload ((head ++ token) ++ encode 0 options) payload
          m.payload_carries fits)

  -- `mc_message_to_buffer` writes the message as RFC 7252 lays it out, from the start of the buffer on,
  -- and returns its length, if the buffer has room for it; if not it returns 0 and leaves the buffer as
  -- it was. The format can hold the options, and the length is below 2 ^ 32.
  pub to_buffer-wire :
      length (wire message.header token options payload) < 4294967296
      → ((length (wire message.header token options payload) ≤ buffer.nbytes)
          × (to_buffer message buffer
              ≡ some (
                length (wire message.header token options payload),
                written buffer block 0 (wire message.header token options payload),
              )))
        ⊎ ((buffer.nbytes < length (wire message.header token options payload))
            × (to_buffer message buffer ≡ some (0, buffer)))
  unfolding to_buffer
  to_buffer-wire small =
      let size = buffer_size-wire message token options payload m w small in
      elim (dec_le (length (wire message.header token options payload)) buffer.nbytes) [
        | yes fits ↦ inl (
          fits,
          rw
              (
                size,
                m.token_there,
                le→ltb buffer.nbytes (length (wire message.header token options payload)) fits,
                ← m.token_there,
                h.bytes,
                header_step fits,
              )
              (subst
                (λ l.
                  body_to_buffer message m.token_buffer (filled h (bytes_of_u32 big message.header))
                  ≡ some (length l, filled h l))
                (wire_parts message.header token options payload)
                (body_step (bytes_of_u32 big message.header) refl (
                  subst (λ l. length l ≤ buffer.nbytes)
                    (sym (wire_parts message.header token options payload)) fits))),
        )
        | no over ↦ inr (
          omega arith,
          rw
              (
                size,
                m.token_there,
                lt→ltb buffer.nbytes (length (wire message.header token options payload))
                    (omega arith),
              )
              refl,
        )
      ]
