-- ===== src/Base/Memory.antt =====
-- Blocks of memory: an allocation is the list of its bytes, a null pointer is `none`. A read or a
-- write outside the allocation is a fault, `none` as a result.
use Prim.Native.Nat.{ℕ, ◌+◌, ◌≤◌}
use mathlib.Core.Path.{◌≡◌, sym, ap, ◌∙◌}
use mathlib.Core.List.{List, [], ◌++◌, append_assoc}
use mathlib.Core.Option.{Option, none, some}
use native.Mathlib.Nat.{add_assoc, add-zero}
use native.Mathlib.Omega.{arith}
use mcoap.Base.Tests.{leb, if◌then◌else◌, le→leb}
use mcoap.Base.Lists.{
  length, take, drop, length-append, length-take, length-drop, take-append, drop-append, drop-drop,
  take-append-drop, take-append_eq, drop-append_eq, length-drop_split,
}

-- `memcpy(dest, &block[pos], n)`: the bytes that are read.
abbrev pub read_at : List ℕ → ℕ → ℕ → Option (List ℕ)
read_at block pos n = if leb (pos + n) (length block) then some (take n (drop pos block)) else none

-- `memcpy(&block[pos], src, length src)`: the block afterwards.
abbrev pub write_at : List ℕ → ℕ → List ℕ → Option (List ℕ)
write_at block pos src =
    if leb (pos + length src) (length block)
    then some (take pos block ++ (src ++ drop (pos + length src) block))
    else none

-- What a pointer points to; nothing can be read or written through a null pointer.
abbrev pub block_of : Option (List ℕ) → List ℕ
block_of none = []
block_of (some block) = block

pub read_at-append :
    (front middle back : List ℕ)
    → read_at (front ++ (middle ++ back)) (length front) (length middle) ≡ some middle
read_at-append front middle back = rw (
  le→leb (length front + length middle) (length (front ++ (middle ++ back)))
      (omega (arith, length-append front (middle ++ back), length-append middle back)),
  drop-append front (middle ++ back),
  take-append middle back,
)

pub write_at-append :
    (front old back src : List ℕ)
    → length old ≡ length src
    → write_at (front ++ (old ++ back)) (length front) src ≡ some (front ++ (src ++ back))
write_at-append front old back src h = rw (
  le→leb (length front + length src) (length (front ++ (old ++ back)))
      (omega (arith, length-append front (old ++ back), length-append old back)),
  ← drop-drop (length front) (length src) (front ++ (old ++ back)),
  drop-append front (old ++ back),
  take-append front (old ++ back),
  ← h,
  drop-append old back,
)

pub length-write_at :
    (block : List ℕ) (pos : ℕ) (src : List ℕ) (block' : List ℕ)
    → write_at block pos src ≡ some block'
    → length block' ≡ length block
length-write_at block pos src block' e = ground (
  arith,
  length-append (take pos block) (src ++ drop (pos + length src) block),
  length-append src (drop (pos + length src) block),
  length-take pos block,
  length-drop (pos + length src) block,
)

-- What a read and a write inside a block return.
pub read_at_lem :
    (block : List ℕ) (pos n : ℕ)
    → pos + n ≤ length block
    → read_at block pos n ≡ some (take n (drop pos block))
read_at_lem block pos n h = rw (le→leb (pos + n) (length block) h)

pub length-slice :
    (block : List ℕ) (pos n : ℕ) → pos + n ≤ length block → length (take n (drop pos block)) ≡ n
length-slice block pos n h = omega (arith, length-take n (drop pos block), length-drop pos block)

-- The bytes of a block with those of `src` in place from `pos` on.
abbrev pub splice : List ℕ → ℕ → List ℕ → List ℕ
splice block pos src = take pos block ++ (src ++ drop (pos + length src) block)

pub write_at_lem :
    (block : List ℕ) (pos : ℕ) (src : List ℕ)
    → pos + length src ≤ length block
    → write_at block pos src ≡ some (splice block pos src)
write_at_lem block pos src h = rw (le→leb (pos + length src) (length block) h)

pub length-splice :
    (block : List ℕ) (pos : ℕ) (src : List ℕ)
    → pos + length src ≤ length block
    → length (splice block pos src) ≡ length block
length-splice block pos src h =
    length-write_at block pos src (splice block pos src) (write_at_lem block pos src h)

-- Two writes, one behind the other, are one.
pub splice-splice :
    (block : List ℕ) (pos : ℕ) (src more : List ℕ)
    → pos + length src ≤ length block
    → splice (splice block pos src) (pos + length src) more ≡ splice block pos (src ++ more)
splice-splice block pos src more h =
    rw (front, back, length-append src more)
      (append_assoc head src (more ++ rest)
        ∙ ap (λ l. head ++ l) (sym (append_assoc src more rest)))
  where
    head : List ℕ
    head = take pos block

    rest : List ℕ
    rest = drop (pos + (length src + length more)) block

    length-head : length head ≡ pos
    length-head = omega (arith, length-take pos block)

    whole : splice block pos src ≡ (head ++ src) ++ drop (pos + length src) block
    whole = sym (append_assoc head src (drop (pos + length src) block))

    count : pos + length src ≡ length (head ++ src)
    count = omega (arith, length-append head src, length-head)

    front : take (pos + length src) (splice block pos src) ≡ head ++ src
    front = rw whole (take-append_eq (pos + length src) (head ++ src) _ count)

    back : drop (pos + length src + length more) (splice block pos src) ≡ rest
    back =
        rw (whole, ← drop-drop (pos + length src) (length more))
          (rw
            (drop-append_eq (pos + length src) (head ++ src) (drop (pos + length src) block) count)
            (drop-drop (pos + length src) (length more) block
              ∙ ap (λ k. drop k block) (add_assoc pos (length src) (length more))))

pub splice-nil : (block : List ℕ) (pos : ℕ) → splice block pos [] ≡ block
splice-nil block pos = rw add-zero (take-append-drop pos block)

pub read_at-drop :
    (block : List ℕ) (pos : ℕ) (bytes rest : List ℕ)
    → drop pos block ≡ bytes ++ rest
    → pos ≤ length block
    → read_at block pos (length bytes) ≡ some bytes
read_at-drop block pos bytes rest e h =
    read_at_lem block pos (length bytes) (omega (arith, length-drop_split pos block bytes rest e h))
    ∙ ap some (ap (take (length bytes)) e ∙ take-append bytes rest)
