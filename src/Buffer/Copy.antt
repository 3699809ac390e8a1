-- ===== src/Buffer/Copy.antt =====
-- Copying between buffers: what is copied, what is refused, and where the refusal fails.
use mcoap.Base.{
  ℕ, zero, suc, ap, sym, ◌∙◌, ◌++◌, take-append-drop, ◌+◌, ◌≤◌, ◌<◌, ◌≡◌, ◌^◌, ◌⊎◌, none, some,
  List, [], arith, length, take, drop, read_at_lem, length-slice, splice, length-replicate,
  drop-all, append-nil, block_of, IsU32,
}
use mcoap.Buffer.{Buffer, Holds, alloc, calloc, init, copy_bytes, copy_to, copy}

module _ {dest : Buffer} {to : List ℕ} (hd : Holds dest to) (src : Buffer)
    (held : src.nbytes ≤ length (block_of src.bytes)) (small : IsU32 src.nbytes) where
  abbrev source : List ℕ
  source = block_of src.bytes

  copy_bytes_lem :
      (dpos spos n : ℕ)
      → dpos + n ≤ length to
      → spos + n ≤ length source
      → copy_bytes dest dpos src spos n
        ≡ some (record dest { bytes = some (splice to dpos (take n (drop spos source))) })
  unfolding copy_bytes
  copy_bytes_lem dpos spos zero fits there =
      let here : dpos ≡ dpos + length {A = ℕ} [] = omega arith in
      ap (λ l. some (record { nbytes = dest.nbytes; bytes = l }))
        (hd.bytes
          ∙ ap some (sym (take-append-drop dpos to) ∙ ap (λ k. take dpos to ++ drop k to) here))
  copy_bytes_lem dpos spos (suc n) fits there = ground (
    arith,
    hd.bytes,
    read_at_lem source spos (suc n) there,
    length-slice source spos (suc n) there,
  )

  pub copy_to_fits :
      (dpos spos n : ℕ)
      → dpos + n ≤ dest.nbytes
      → spos + n ≤ src.nbytes
      → copy_to (some dest) dpos (some src) spos n
        ≡ some (some (record dest { bytes = some (splice to dpos (take n (drop spos source))) }))
  unfolding copy_to
  copy_to_fits dpos spos n fits there = ground (arith, hd, held, small, copy_bytes_lem dpos spos n)

  -- From positions inside both buffers, `mc_buffer_copy_to` copies exactly the bytes asked for where
  -- both have room for them, and returns null, with nothing copied, where one has not.
  pub copy_to_lem :
      (dpos spos n : ℕ)
      → dpos ≤ dest.nbytes
      → spos ≤ src.nbytes
      → ((dpos + n ≤ dest.nbytes)
          × (spos + n ≤ src.nbytes)
          × (copy_to (some dest) dpos (some src) spos n
              ≡ some (
                  some
                    (record dest { bytes = some (splice to dpos (take n (drop spos source))) }))))
        ⊎ (((dest.nbytes < dpos + n) ⊎ (src.nbytes < spos + n))
            × (copy_to (some dest) dpos (some src) spos n ≡ some none))
  unfolding copy_to
  copy_to_lem dpos spos n hdpos hspos = ground (arith, hd, held, small, copy_bytes_lem dpos spos n)

  -- From a destination position past the count the unsigned difference wraps, the check lets a copy of
  -- at least one byte through, up to 2 ^ 32 + nbytes from the block's start, and it writes outside a
  -- block that ends at the count.
  pub copy_to_wraps :
      (dpos spos n : ℕ)
      → length to ≡ dest.nbytes
      → dest.nbytes < dpos
      → 0 < n
      → dpos + n ≤ 2 ^ 32 + dest.nbytes
      → spos + n ≤ src.nbytes
      → copy_to (some dest) dpos (some src) spos n ≡ none
  unfolding copy_to copy_bytes
  copy_to_wraps dpos spos n exact past some_byte fits there = ground (
    arith,
    hd,
    held,
    small,
    read_at_lem source spos n (omega (arith, held)),
    length-slice source spos n (omega (arith, held)),
  )

-- A copy into a fresh allocation of the same size is the bytes alone.
copy_fresh :
    {src : Buffer} {from : List ℕ} (hs : Holds src from) (spos n : ℕ)
    → spos + n ≤ length from
    → copy_bytes (init alloc n (some (calloc n))) 0 src spos n
      ≡ some (record { nbytes = n; bytes = some (take n (drop spos from)) })
unfolding copy_bytes init alloc
copy_fresh {src} {from} hs spos n there =
    let slice : List ℕ = take n (drop spos from) in
    ground (
      arith,
      hs.bytes,
      read_at_lem from spos n there,
      length-slice from spos n there,
      length-replicate {A = ℕ} n 0,
      drop-all (0 + length slice) (calloc n),
      append-nil slice,
    )

-- From a position inside the source, `mc_buffer_copy` returns a new buffer of exactly the bytes asked
-- for, or null where the source has fewer.
pub copy_lem :
    {src : Buffer} {from : List ℕ} (hs : Holds src from) (spos n : ℕ)
    → spos ≤ src.nbytes
    → ((spos + n ≤ src.nbytes)
        × (copy (some src) spos n
            ≡ some (some (record { nbytes = n; bytes = some (take n (drop spos from)) }))))
      ⊎ ((src.nbytes < spos + n) × (copy (some src) spos n ≡ some none))
unfolding copy
copy_lem {src} {from} hs spos n h = ground (arith, hs, copy_fresh hs spos n)
