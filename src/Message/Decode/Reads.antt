-- ===== src/Message/Decode/Reads.antt =====
-- Reading back a message that was written.
use mcoap.Base.{
  ℕ, ◌+◌, ◌-◌, ◌≤◌, ◌<◌, ◌≡◌, inl, inr, refl, sym, ap, ◌∙◌, subst, Option, none, some, List, [],
  ◌∷◌, ◌++◌, arith, length, length-append, drop, map, block_of, length-replicate, drop-all,
  take-append, append-nil, append_assoc, add32, sub32, IsU32, le→ltb, lt→ltb, read_at-drop,
  get_elem?, get_elem?-drop, drop-add,
}
use mcoap.Base.Run.{ok}
use mcoap.Endian.{big, bytes_of_u32, swap_u32}
use mcoap.Endian.Laws.{swap_u32_lem}
use mcoap.Header
use mcoap.Buffer
use mcoap.Buffer.{Buffer, Holds}
use mcoap.Buffer.Copy.{copy_to_fits}
use mcoap.Buffer.Next.{next_ptr_lem, next_uint32_lem}
use mcoap.CoapOption.{CoapOption}
use mcoap.OptionsList
use mcoap.OptionsList.Decode
use mcoap.OptionsList.{OptionsList, Qsort, compare_options, position}
use mcoap.OptionsList.Encode.Format.{encode}
use mcoap.OptionsList.Decode.Number.{copy_from}
use mcoap.OptionsList.Decode.Count.{IsEnd}
use mcoap.OptionsList.Decode.Readable.{AllReadable, owned}
use mcoap.OptionsList.Decode.RoundTrip.{from_buffer-encode, from_buffer-none}
use mcoap.Message.{Message}
use mcoap.Message.Encode.Wire.{marked, wire}
use mcoap.Message.Encode.Writes.{length-wire}
use mcoap.Message.Decode.{token_from_buffer, payload_from_buffer, from_buffer}

-- A buffer of just these bytes.
abbrev pub exactly : List ℕ → Buffer
exactly bytes = record { nbytes = length bytes; bytes = some bytes }

-- The payload after reading: a message without payload bytes keeps the one that was there.
abbrev pub payload_read : Option Buffer → List ℕ → Option Buffer
payload_read payload [] = payload
payload_read payload (byte ∷ bytes) = some (exactly (byte ∷ bytes))

module _ {buffer : Buffer} {block : List ℕ} (h : Holds buffer block) where
  token_lem :
      (pos : ℕ) (token rest : List ℕ)
      → drop pos block ≡ token ++ rest
      → pos + length token ≤ buffer.nbytes
      → token_from_buffer buffer (length token) pos ≡ some (exactly token, pos + length token)
  unfolding token_from_buffer copy_from Buffer.init Buffer.alloc
  token_lem pos token rest e fits =
      let behind : add32 pos (length token) ≡ pos + length token = omega (arith, h.small) in
      rw
        (
          next_ptr_lem buffer (length token) pos,
          h.bytes,
          read_at-drop block pos token rest e (omega (arith, h.within)),
          behind,
        )
        refl

  fill_lem :
      (pos : ℕ) (bytes old : List ℕ)
      → drop pos block ≡ bytes ++ old
      → pos + length bytes ≡ buffer.nbytes
      → Buffer.copy_to
          (some (record { nbytes = length bytes; bytes = some (Buffer.calloc (length bytes)) }))
          0
          (some buffer)
          pos
          (length bytes)
        ≡ some (some (exactly bytes))
  fill_lem pos bytes old e whole =
      let n = length-replicate {A = ℕ} (length bytes) 0 in
      copy_to_fits
        (record { bytes = refl; within = omega (arith, n); small = omega (arith, h.small) }) buffer
        (subst (λ b. buffer.nbytes ≤ length (block_of b)) (sym h.bytes) h.within) h.small 0 pos
        (length bytes) (omega arith) (omega arith)
      ∙ rw
          (
            h.bytes,
            e,
            take-append bytes old,
            drop-all (0 + length bytes) (Buffer.calloc (length bytes)) (omega (arith, n)),
            append-nil,
          )
          refl

  nonempty_lem :
      {Addr : Type 0} (message : Message Addr) (pos : ℕ) (bytes old : List ℕ)
      → drop pos block ≡ (0xff ∷ bytes) ++ old
      → 0 < length bytes
      → pos + (1 + length bytes) ≡ buffer.nbytes
      → payload_from_buffer message buffer pos
        ≡ some (some (record message { payload = some (exactly bytes) }), buffer.nbytes, buffer)
  unfolding payload_from_buffer Buffer.init Buffer.alloc
  nonempty_lem message pos bytes old e ne whole =
      let there : drop (pos + 1) block ≡ bytes ++ old =
        drop-add pos block (0xff ∷ []) (bytes ++ old) e in
      let marker : get_elem? (block_of buffer.bytes) pos ≡ some 0xff =
        rw h.bytes (get_elem?-drop pos block e) in
      let next : add32 pos 1 ≡ pos + 1 = omega (arith, h.small) in
      let pllen : sub32 buffer.nbytes pos - 1 ≡ length bytes = omega (arith, h.small) in
      let end : add32 (add32 pos 1) (sub32 buffer.nbytes pos - 1) ≡ buffer.nbytes =
        omega (arith, h.small) in
      rw
        (
          lt→ltb 1 (sub32 buffer.nbytes pos) (omega (arith, h.small)),
          marker,
          pllen,
          next,
          fill_lem (pos + 1) bytes old there (omega arith),
        )
        (ap (λ k. some (some (record message { payload = some (exactly bytes) }), k, buffer)) end)

  payload_lem :
      {Addr : Type 0} (message : Message Addr) (pos : ℕ) (payload old : List ℕ)
      → drop pos block ≡ marked payload ++ old
      → pos + length (marked payload) ≡ buffer.nbytes
      → payload_from_buffer message buffer pos
        ≡ some (
          some (record message { payload = payload_read message.payload payload }),
          buffer.nbytes,
          buffer,
        )
  unfolding payload_from_buffer Buffer.init Buffer.alloc
  payload_lem message pos [] old e whole = ground (arith, h.small)
  payload_lem message pos (byte ∷ bytes) old e whole =
      nonempty_lem message pos (byte ∷ bytes) old e (omega arith) (omega arith)

header_lem :
    (buffer : Buffer) (header : ℕ) (rest : List ℕ)
    → IsU32 header
    → buffer.bytes ≡ some (bytes_of_u32 big header ++ rest)
    → (raw : ℕ) × (Buffer.next_uint32 buffer 0 ≡ some (raw, 4)) × (swap_u32 raw ≡ header)
header_lem buffer header rest small e =
    (_, next_uint32_lem buffer [] rest _ _ _ _ e (omega arith), swap_u32_lem _ ∙ omega arith)

wire_lem :
    (header : ℕ) (token : List ℕ) (options : List CoapOption) (payload old : List ℕ)
    → wire header token options payload ++ old
      ≡ bytes_of_u32 big header ++ (token ++ (encode 0 options ++ (marked payload ++ old)))
unfolding wire
wire_lem header token options payload old =
    append_assoc (bytes_of_u32 big header) (token ++ (encode 0 options ++ marked payload)) old
    ∙ ap (λ l. bytes_of_u32 big header ++ l)
        (append_assoc token (encode 0 options ++ marked payload) old
          ∙ ap (λ l. token ++ l) (append_assoc (encode 0 options) (marked payload) old))

end_lem :
    (buffer : Buffer) (pos : ℕ) (payload old : List ℕ)
    → pos + length (marked payload) ≡ buffer.nbytes
    → IsEnd buffer pos (marked payload ++ old)
end_lem buffer pos [] old whole = inl (omega arith)
end_lem buffer pos (byte ∷ bytes) old whole = inr (omega arith, ((byte ∷ bytes) ++ old, refl))

-- The list that options are read as: null where there are none.
abbrev pub read_list : Qsort → List CoapOption → Option OptionsList
read_list qsort [] = none
read_list qsort (option ∷ options) = some (record {
  noptions = length (option ∷ options);
  options = some (qsort.sort compare_options (map owned (option ∷ options)));
})

list_lem :
    {buffer : Buffer} {block : List ℕ} (h : Holds buffer block) (qsort : Qsort)
    (counting reading : ℕ → ℕ) (options : List CoapOption) (pos : ℕ) (rest : List ℕ)
    → AllReadable 0 options
    → drop pos block ≡ encode 0 options ++ rest
    → pos + length (encode 0 options) ≤ buffer.nbytes
    → IsEnd buffer (pos + length (encode 0 options)) rest
    → 4 ≤ buffer.nbytes
    → buffer.nbytes + 3 < 4294967296
    → Decode.from_buffer qsort counting reading OptionsList.alloc buffer (some pos)
      ≡ ok (record {
        list = read_list qsort options;
        buffer = buffer;
        bpos = pos + length (encode 0 options);
      })
unfolding encode
list_lem {buffer} h qsort counting reading [] pos rest r e fits ends enough small =
    let here : pos + length {A = ℕ} [] ≡ pos = omega arith in
    from_buffer-none h reading qsort counting OptionsList.alloc pos rest e (omega arith)
      (subst (λ k. IsEnd buffer k rest) here ends) enough small
    ∙ ap (λ k. ok (record { list = none; buffer = buffer; bpos = k })) (sym here)
list_lem h qsort counting reading (option ∷ options) pos rest r e fits ends enough small =
    from_buffer-encode h reading qsort counting OptionsList.alloc (option ∷ options) pos rest
      (λ p. cc) r e fits ends enough small

-- The message that those parts are read as.
abbrev pub as_read :
    {Addr : Type 0} → Qsort → Message Addr → ℕ → List ℕ → List CoapOption → List ℕ → Message Addr
as_read qsort message header token options payload = record {
  header = header;
  token = some (exactly token);
  options = read_list qsort options;
  payload = payload_read message.payload payload;
  source = message.source;
}

module _ {Addr : Type 0} (qsort : Qsort) (counting reading : ℕ → ℕ) (message : Message Addr)
    (header : ℕ) (token : List ℕ) (options : List CoapOption) (payload : List ℕ) (hs : IsU32 header)
    (tk : Header.get_token_length header ≡ length token) (r : AllReadable 0 options)
    (small : length (wire header token options payload) + 3 < 4294967296) where
  -- The buffer may be longer than its count: what stands behind the message is not read.
  pub from_buffer-front :
      (old : List ℕ) (start : Option ℕ)
      → position start ≡ 0
      → from_buffer qsort counting reading
          (some message)
          (some (record {
            nbytes = length (wire header token options payload);
            bytes = some (wire header token options payload ++ old);
          }))
          start
        ≡ ok (
          some (as_read qsort message header token options payload),
          length (wire header token options payload),
          some (record {
            nbytes = length (wire header token options payload);
            bytes = some (wire header token options payload ++ old);
          }),
        )
  unfolding from_buffer
  from_buffer-front old start zeroth =
      let front : List ℕ = wire header token options payload in
      let block : List ℕ = front ++ old in
      let buffer : Buffer = record { nbytes = length front; bytes = some block } in
      let h : Holds buffer block = record {
        bytes = refl;
        within = omega (arith, length-append front old);
        small = omega arith;
      } in
      let n = length-wire header token options payload in
      let behind : List ℕ = marked payload ++ old in
      let whole = wire_lem header token options payload old in
      let (raw, word, swapped) =
        header_lem buffer header (token ++ (encode 0 options ++ behind)) hs (ap some whole) in
      let at_token : drop 4 block ≡ token ++ (encode 0 options ++ behind) = ap (drop 4) whole in
      let at_options = drop-add 4 block token (encode 0 options ++ behind) at_token in
      rw
        (
          le→ltb (length front) 4 (omega (arith, n)),
          zeroth,
          word,
          swapped,
          tk,
          token_lem h 4 token (encode 0 options ++ behind) at_token (omega (arith, n)),
          list_lem h qsort counting reading options (4 + length token) behind r at_options
              (omega (arith, n))
              (end_lem buffer (4 + length token + length (encode 0 options)) payload old
                (omega (arith, n)))
              (omega (arith, n)) small,
          payload_lem h _ (4 + length token + length (encode 0 options)) payload old
              (drop-add (4 + length token) block (encode 0 options) behind at_options)
              (omega (arith, n)),
        )
        refl

module _ {Addr : Type 0} (qsort : Qsort) (counting reading : ℕ → ℕ) where
  -- A message as it was written, alone in its buffer, is read back: the header, the token, the options
  -- in the order of `qsort`, as a null list if there are none, and the payload, where without payload
  -- bytes the message keeps the payload it had. The options have numbers less than 269 apart and values
  -- shorter than 269 bytes, the header holds the token's length, and the message is shorter than
  -- 2 ^ 32 - 3 bytes.
  pub from_buffer-wire :
      (message : Message Addr) (header : ℕ) (token : List ℕ) (options : List CoapOption)
      (payload : List ℕ)
      → IsU32 header
      → Header.get_token_length header ≡ length token
      → AllReadable 0 options
      → length (wire header token options payload) + 3 < 4294967296
      → from_buffer qsort counting reading
          (some message)
          (some (exactly (wire header token options payload)))
          none
        ≡ ok (
          some (as_read qsort message header token options payload),
          length (wire header token options payload),
          some (exactly (wire header token options payload)),
        )
  from_buffer-wire message header token options payload hs tk r small =
      let front : List ℕ = wire header token options payload in
      subst
        (λ block.
          from_buffer qsort counting reading (some message)
            (some (record { nbytes = length front; bytes = some block })) none
          ≡ ok (
            some (as_read qsort message header token options payload),
            length front,
            some (record { nbytes = length front; bytes = some block }),
          ))
        (append-nil front)
        (from_buffer-front qsort counting reading message header token options payload hs tk r small
          [] none refl)
