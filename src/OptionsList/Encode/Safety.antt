-- ===== src/OptionsList/Encode/Safety.antt =====
-- What the writers leave on every path, room or no room: no access outside the block, and a position
-- inside the buffer.
use mcoap.Base.{
  ℕ, ◌+◌, ◌-◌, ◌*◌, ◌%◌, ◌≤◌, ◌<◌, ◌≡◌, ◌⊎◌, refl, ◌∙◌, subst, true, false, some, List, [], ◌∷◌,
  arith, length, block_of, read_at_lem, length-take, take, splice, length-splice, bit_or, ltb,
  sub32, ltb→lt, All, Bool-cases, inl, inr, if◌then◌else◌, IsU16, ◌==◌,
}
use mcoap.Buffer.{Buffer, Holds}
use mcoap.CoapOption.{CoapOption}
use mcoap.Endian.Laws.{swap_u16_lem}
use mcoap.OptionsList.Encode.{
  Out, returned, failed, ◌then◌, value_to_encoded_int, store, uint8_to_buffer, uint16_to_buffer,
  extended_num_to_buffer, bytes_to_buffer, parts_to_buffer, option_to_buffer, to_buffer_loop,
}
use mcoap.OptionsList.Encode.Format.{extension}
use mcoap.OptionsList.Encode.Writes.{Writer, written, Holds-written, store-Writes}

-- The outcome of a writer that needs `n` bytes: the count is the same and the block as long, the
-- position is inside the buffer, and `n` further on if the writer returned the buffer.
pub record Kept (buffer : Buffer) (block : List ℕ) (pos n : ℕ) (out : Out) : Type 0 where
  pub block' : List ℕ
  pub holds : Holds out.buffer block'
  pub as_long : length block' ≡ length block
  pub count : out.buffer.nbytes ≡ buffer.nbytes
  pub inside : out.bpos ≤ buffer.nbytes
  pub exact : out.done ≡ true → out.bpos ≡ pos + n

-- A writer that never faults.
abbrev pub Keeps : Writer → ℕ → Type 0
Keeps f n =
    (buffer : Buffer) (block : List ℕ) (pos : ℕ)
    → Holds buffer block
    → pos ≤ buffer.nbytes
    → (out : Out) × (f buffer pos ≡ some out) × Kept buffer block pos n out

failed-Kept :
    {buffer : Buffer} {block : List ℕ} (pos n : ℕ)
    → Holds buffer block
    → pos ≤ buffer.nbytes
    → Kept buffer block pos n (failed buffer pos)
failed-Kept {buffer} {block} pos n h inside = record {
  block' = block;
  holds = h;
  as_long = refl;
  count = refl;
  inside = inside;
  exact = λ e. cc;
}

written-Kept :
    {buffer : Buffer} {block : List ℕ} (pos : ℕ) (src : List ℕ)
    → Holds buffer block
    → pos + length src ≤ buffer.nbytes
    → Kept buffer block pos
        (length src)
        (returned (written buffer block pos src) (pos + length src))
written-Kept {buffer} {block} pos src h fits = record {
  block' = splice block pos src;
  holds = Holds-written h pos src fits;
  as_long = length-splice block pos src (omega (arith, h.within));
  count = refl;
  inside = fits;
  exact = λ e. refl;
}

then-Keeps : (f g : Writer) (n m : ℕ) → Keeps f n → Keeps g m → Keeps (λ b p. f b p then g) (n + m)
then-Keeps f g n m hf hg buffer block pos h inside =
    let (out, e, k) = hf buffer block pos h inside in rw e (next out k (Bool-cases out.done))
  where
    next :
        (out : Out) (k : Kept buffer block pos n out)
        → (out.done ≡ true) ⊎ (out.done ≡ false)
        → (out' : Out) × ((if out.done then g out.buffer out.bpos else some out) ≡ some out')
          × Kept buffer block pos (n + m) out'
    next out k (inl d) =
        let (out', e', k') =
          hg out.buffer k.block' out.bpos k.holds (omega (arith, k.count, k.inside)) in
        (
          out',
          rw d e',
          record {
            block' = k'.block';
            holds = k'.holds;
            as_long = k'.as_long ∙ k.as_long;
            count = k'.count ∙ k.count;
            inside = omega (arith, k'.inside, k.count);
            exact = λ d'. omega (arith, k'.exact d', k.exact d);
          },
        )
    next out k (inr d) = (
      out,
      rw d refl,
      record {
        block' = k.block';
        holds = k.holds;
        as_long = k.as_long;
        count = k.count;
        inside = k.inside;
        exact = λ d'. cc;
      },
    )

-- A store behind the source's check that the bytes fit.
abbrev checked : List ℕ → Writer
checked src b p = if ltb (sub32 b.nbytes p) (length src) then some (failed b p) else store b p src

room :
    (n pos nbytes : ℕ)
    → pos ≤ nbytes
    → nbytes < 4294967296
    → ltb (sub32 nbytes pos) n ≡ false
    → pos + n ≤ nbytes
room n pos nbytes inside small e = ground arith

checked-Keeps : (src : List ℕ) → Keeps (checked src) (length src)
checked-Keeps src buffer block pos h inside =
    elim (Bool-cases (ltb (sub32 buffer.nbytes pos) (length src))) [
      | inl e ↦ (failed buffer pos, rw e refl, failed-Kept pos (length src) h inside)
      | inr e ↦
          let fits = room (length src) pos buffer.nbytes inside h.small e in
          (
            returned (written buffer block pos src) (pos + length src),
            rw e (store-Writes src buffer block pos h fits),
            written-Kept pos src h fits,
          )
    ]

module _ (v : ℕ) (buffer : Buffer) (pos : ℕ) where
  extended_small :
      v < 13
      → extended_num_to_buffer buffer
          (value_to_encoded_int v 0 0).1
          (value_to_encoded_int v 0 0).2
          pos
        ≡ some (returned buffer pos)
  unfolding extended_num_to_buffer value_to_encoded_int
  extended_small h = ground arith

  extended-checked :
      13 ≤ v
      → IsU16 v
      → extended_num_to_buffer buffer
          (value_to_encoded_int v 0 0).1
          (value_to_encoded_int v 0 0).2
          pos
        ≡ checked (extension v) buffer pos
  unfolding extended_num_to_buffer value_to_encoded_int extension uint8_to_buffer uint16_to_buffer
  extended-checked lo hi = ground (arith, swap_u16_lem (v - 269))

length-extension_small : (v : ℕ) → v < 13 → length (extension v) ≡ 0
unfolding extension
length-extension_small v h = ground arith

extended-Keeps :
    (v : ℕ)
    → IsU16 v
    → Keeps
        (λ b p.
          extended_num_to_buffer b (value_to_encoded_int v 0 0).1 (value_to_encoded_int v 0 0).2 p)
        (length (extension v))
extended-Keeps v small buffer block pos h inside = elim (Bool-cases (ltb v 13)) [
  | inl e ↦ (
    returned buffer pos,
    extended_small v buffer pos (ltb→lt v 13 e),
    record {
      block' = block;
      holds = h;
      as_long = refl;
      count = refl;
      inside = inside;
      exact = λ d. omega (arith, length-extension_small v (ltb→lt v 13 e));
    },
  )
  | inr e ↦
      rw (extended-checked v buffer pos (ground arith) small)
        (checked-Keeps (extension v) buffer block pos h inside)
]

bytes-Keeps :
    (value : Buffer)
    → value.nbytes ≤ length (block_of value.bytes)
    → Keeps (λ b p. bytes_to_buffer b value p) value.nbytes
bytes-Keeps value held buffer block pos h inside =
    subst
      (λ n.
        (out : Out) × (bytes_to_buffer buffer value pos ≡ some out) × Kept buffer block pos n out)
      count (rw as_checked (checked-Keeps bytes buffer block pos h inside))
  where
    bytes : List ℕ
    bytes = take value.nbytes (block_of value.bytes)

    count : length bytes ≡ value.nbytes
    count = omega (arith, length-take value.nbytes (block_of value.bytes))

    as_checked : bytes_to_buffer buffer value pos ≡ checked bytes buffer pos
    as_checked =
        unfold bytes_to_buffer in
        ground (arith, count, read_at_lem (block_of value.bytes) 0 value.nbytes)

-- The bytes that an option takes on the wire after one numbered `prev`, whatever its number.
unfoldable pub wire_size : ℕ → CoapOption → ℕ
wire_size prev option =
    1
    + length (extension ((option.option_num + 65536 - prev) % 65536))
    + length (extension (option.value.nbytes % 65536))
    + option.value.nbytes

unfoldable pub wire_sizes : ℕ → List CoapOption → ℕ
wire_sizes prev [] = 0
wire_sizes prev (option ∷ options) =
    wire_size (prev % 65536) option + wire_sizes option.option_num options

encoded-ne-zero : (v : ℕ) → v < 65536 → ((value_to_encoded_int v 0 0).0 == 0) ≡ false
unfolding value_to_encoded_int
encoded-ne-zero v h = ground arith

option-Keeps :
    (prev : ℕ) (option : CoapOption)
    → option.value.nbytes ≤ length (block_of option.value.bytes)
    → Keeps (λ b p. option_to_buffer b option prev p) (wire_size prev option)
option-Keeps prev option held buffer block pos h inside =
    rw as_checked (chain buffer block pos h inside)
  where
    delta : ℕ
    delta = (option.option_num + 65536 - prev) % 65536

    len : ℕ
    len = option.value.nbytes % 65536

    first : List ℕ
    first =
        (bit_or ((value_to_encoded_int delta 0 0).1 * 16) (value_to_encoded_int len 0 0).1 % 256)
        ∷ []

    steps : Writer
    steps b p =
        checked first b p
        then (λ b p.
            extended_num_to_buffer b (value_to_encoded_int delta 0 0).1
              (value_to_encoded_int delta 0 0).2 p)
        then (λ b p.
            extended_num_to_buffer b (value_to_encoded_int len 0 0).1
              (value_to_encoded_int len 0 0).2 p)
        then (λ b p. bytes_to_buffer b option.value p)

    chain : Keeps steps (wire_size prev option)
    chain =
        unfold wire_size in
        then-Keeps _ _ _ option.value.nbytes
          (then-Keeps _ _ _ (length (extension len))
            (then-Keeps _ _ 1 (length (extension delta)) (checked-Keeps first)
              (extended-Keeps delta (omega arith)))
            (extended-Keeps len (omega arith)))
          (bytes-Keeps option.value held)

    as_checked : option_to_buffer buffer option prev pos ≡ steps buffer pos
    as_checked =
        unfold option_to_buffer parts_to_buffer in
        elim (Bool-cases (ltb (sub32 buffer.nbytes pos) 1)) [
          | inl e ↦ rw e refl
          | inr e ↦
              rw (e, encoded-ne-zero delta (omega arith), encoded-ne-zero len (omega arith)) refl
        ]

-- However many options there are and whatever their numbers, if each value lies within its block then
-- writing them never accesses memory outside the buffer's block, keeps the buffer's count and the
-- block's length, and leaves the position inside the buffer: at the end of the encoding if all were
-- written.
pub loop-Keeps :
    (options : List CoapOption) (prev : ℕ)
    → All (λ o. o.value.nbytes ≤ length (block_of o.value.bytes)) options
    → Keeps (λ b p. to_buffer_loop (length options) options b prev p) (wire_sizes prev options)
unfolding to_buffer_loop wire_sizes
loop-Keeps [] prev held buffer block pos h inside = (
  returned buffer pos,
  refl,
  record {
    block' = block;
    holds = h;
    as_long = refl;
    count = refl;
    inside = inside;
    exact = λ d. omega arith;
  },
)
loop-Keeps (option ∷ options) prev held buffer block pos h inside =
    then-Keeps (λ b p. option_to_buffer b option (prev % 65536) p)
      (λ b p. to_buffer_loop (length options) options b option.option_num p)
      (wire_size (prev % 65536) option) (wire_sizes option.option_num options)
      (option-Keeps (prev % 65536) option held.0) (loop-Keeps options option.option_num held.1)
      buffer block pos h inside
