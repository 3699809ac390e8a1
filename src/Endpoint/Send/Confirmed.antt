-- ===== src/Endpoint/Send/Confirmed.antt =====
-- `mc_endpt_udp_send` of a message that is to be confirmed, on the list that the queue stands for.
use mcoap.Base.{
  ℕ, ◌<◌, ◌≡◌, ◌≢◌, ◌⊎◌, inl, inr, refl, sym, ap, subst, ◌∙◌, true, false, none, some, List, [],
  ◌∷◌, ◌++◌, arith, length, take, drop, read_at, read_at_lem, append-nil, block_of, Bool-cases, ltb,
  IsU32, if◌then◌else◌, to_u16,
}
use mathlib.Core.Option.{some-injective}
use mcoap.Base.Int.{ℤ}
use mcoap.Base.Run.{ok}
use mcoap.Timeout
use mcoap.Timeout.{Timeout, unlimited}
use mcoap.Sockaddr.{Sockaddr, is_done}
use mcoap.Buffer
use mcoap.Buffer.{Buffer, Holds}
use mcoap.Buffer.Copy.{copy_lem}
use mcoap.CoapOption.{CoapOption}
use mcoap.OptionsList.Encode.Format.{AllWritable}
use mcoap.Message
use mcoap.Message.{Message}
use mcoap.Message.Encode.Wire.{wire, IsMessage}
use mcoap.Queue.{Ptr, null, Body, Queue, Addition, new_entry, queue_entry_init}
use mcoap.Queue.Segment.{Cells}
use mcoap.Queue.Refine.{Represents, add-Represents}
use mcoap.Queue.Store.{stored, store-Represents}
use mcoap.Queue.Remove.{remove_and_free-Represents}
use mcoap.Endpoint.{Endpoint, Event, sent, called, call_result_fn}
use mcoap.Endpoint.Send.{
  Net, Slot, counted, count_up, with_queue, zero_timeout, send_con_msg, send, send_endpt_buffer,
}
use mcoap.Endpoint.Send.Plain.{transmitted, transmit_lem, datagram, Starts, serialized}

copied :
    {buffer : Buffer} {bytes : List ℕ}
    → Starts buffer bytes
    → Buffer.copy (some buffer) 0 (length bytes)
      ≡ some (some (record { nbytes = length bytes; bytes = some bytes }))
copied {buffer} {bytes} s =
    let slice : take (length bytes) (drop 0 s.block) ≡ bytes =
      some-injective (take (length bytes) (drop 0 s.block)) bytes (
        sym (read_at_lem s.block 0 (length bytes) (omega (arith, s.fits, s.holds.within)))
        ∙ s.reads) in
    elim (copy_lem s.holds 0 (length bytes) (omega arith)) [
      | inl (fits, e) ↦
          e ∙ ap (λ l. some (some (record { nbytes = length bytes; bytes = some l }))) slice
      | inr (over, e) ↦ absurd (omega (arith, s.fits))
    ]

-- The trace once the result function was told, if there is one.
abbrev pub told : List Event → Ptr → ℕ → ℤ → List Event
told trace resultfn msgid err =
    if ltb 1 resultfn then trace ++ (called resultfn msgid err ∷ []) else trace

pub call_result_fn_lem :
    (endpt : Endpoint) (resultfn : Ptr) (msgid : ℕ) (err : ℤ)
    → ((call_result_fn endpt resultfn msgid err).confirmq ≡ endpt.confirmq)
      × ((call_result_fn endpt resultfn msgid err).trace ≡ told endpt.trace resultfn msgid err)
      × ((call_result_fn endpt resultfn msgid err).running ≡ endpt.running)
unfolding call_result_fn
call_result_fn_lem endpt resultfn msgid err = elim (Bool-cases (ltb 1 resultfn)) [
  | inl e ↦ rw e (refl, refl, refl)
  | inr e ↦ rw e (refl, refl, refl)
]

pub count_up_lem :
    (endpt : Endpoint) (front back : Cells) (p : Ptr) (b : Body)
    → Represents endpt.confirmq (front ++ ((p, b) ∷ back))
    → (queue : Queue) × (count_up endpt p ≡ ok (with_queue endpt queue))
      × Represents queue (front ++ ((p, counted b) ∷ back))
unfolding count_up
count_up_lem endpt front back p b r =
    let (loaded, r') = store-Represents endpt.confirmq front back p b (counted b) r in
    (stored endpt.confirmq front back p b (counted b) r, rw loaded refl, r')

-- The content of the entry of a message that was sent once.
abbrev pub waiting : Slot → Sockaddr → ℕ → List ℕ → Ptr → Body
waiting slot to msgid bytes resultfn = record {
  msgid = to_u16 msgid;
  xmitcounter = 1;
  dest = some to;
  timeout = Timeout.markstart slot.queued (Timeout.init zero_timeout unlimited slot.wait);
  resultfn = resultfn;
  msg = some (record { nbytes = length bytes; bytes = some bytes });
}

-- How sending ends: the message waits in the queue behind the others, or the result function was told
-- and the queue is as it was. `bytes` were handed to the socket, which answered `err`.
abbrev pub Outcome : Slot → Endpoint → Sockaddr → ℕ → Ptr → Cells → List ℕ → ℤ → Endpoint → Type 0
Outcome slot endpt to msgid resultfn xs bytes err endpt' =
    ((is_done err ≡ true)
      × Represents endpt'.confirmq (xs ++ ((slot.fresh, waiting slot to msgid bytes resultfn) ∷ []))
      × (endpt'.trace ≡ endpt.trace ++ (sent bytes (some to) err ∷ [])))
    ⊎ ((is_done err ≡ false)
        × Represents endpt'.confirmq xs
        × (endpt'.trace ≡ told (endpt.trace ++ (sent bytes (some to) err ∷ [])) resultfn msgid err))

-- What `send_con_msg` does with bytes that stand at the start of the write buffer.
module _ (net : Net) (slot : Slot) (endpt : Endpoint) (to : Sockaddr) (msg : Message Sockaddr)
    (resultfn : Ptr) (xs : Cells) (r : Represents endpt.confirmq xs) (ne : slot.fresh ≢ null)
    (unused : endpt.confirmq.cell slot.fresh ≡ none) (bytes : List ℕ)
    (starts : Starts endpt.wrbuffer bytes) where
  abbrev err : ℤ
  err = net endpt.trace bytes (some to)

  send_con_msg_lem :
      (endpt' : Endpoint) × (send_con_msg net slot endpt (length bytes) (some to) msg resultfn
        ≡ ok (err, endpt'))
      × Outcome slot endpt to (Message.get_message_id msg) resultfn xs bytes err endpt'
  unfolding send_con_msg send_endpt_buffer queue_entry_init
  send_con_msg_lem =
      let a : Addition = record {
        fresh = slot.fresh;
        now = slot.queued;
        wait = slot.wait;
        timeout = zero_timeout;
        msgid = Message.get_message_id msg;
        dest = some to;
        msg = some (record { nbytes = length bytes; bytes = some bytes });
        resultfn = resultfn;
      } in
      let (queue, added, r1) = add-Represents endpt.confirmq xs a r ne unused in
      let reads : read_at (block_of endpt.wrbuffer.bytes) 0 (length bytes) ≡ some bytes =
        rw starts.holds.bytes starts.reads in
      let after : Endpoint =
        transmitted net slot.sending (with_queue endpt queue) bytes (some to) in
      let sending =
        transmit_lem net slot.sending (with_queue endpt queue) endpt.wrbuffer (length bytes) bytes
          (some to) reads in
      elim (Bool-cases (is_done err)) [
        | inl e ↦
            let (queue', counting, r2) =
              count_up_lem after xs [] slot.fresh (new_entry a null).body r1 in
            (
              with_queue after queue',
              rw (copied starts, added, sending, e, counting) refl,
              inl (e, r2, refl),
            )
        | inr e ↦
            let (same, trace, runs) =
              call_result_fn_lem after resultfn (Message.get_message_id msg) err in
            let (queue', removing, r2, freed) =
              remove_and_free-Represents slot.fresh (new_entry a null).body queue xs [] r1 in
            (
              with_queue (call_result_fn after resultfn (Message.get_message_id msg) err) queue',
              rw (copied starts, added, sending, e, same, removing) refl,
              inr (e, subst (Represents queue') (append-nil xs) r2, trace),
            )
      ]

pub send-Outcome :
    {message : Message Sockaddr} {token : List ℕ} {options : List CoapOption} {payload : List ℕ}
    (m : IsMessage message token options payload) (w : AllWritable 0 options)
    (header_small : IsU32 message.header)
    (small : length (wire message.header token options payload) < 4294967296) (net : Net)
    (slot : Slot) (endpt : Endpoint) (block : List ℕ) (to : Sockaddr) (resultfn : Ptr) (xs : Cells)
    → Holds endpt.wrbuffer block
    → Message.is_confirmable message ≡ true
    → Represents endpt.confirmq xs
    → slot.fresh ≢ null
    → endpt.confirmq.cell slot.fresh ≡ none
    → (endpt' : Endpoint) × (send net slot endpt (some to) message resultfn
        ≡ ok (
          net endpt.trace
              (datagram endpt.wrbuffer (wire message.header token options payload))
              (some to),
          endpt',
        ))
      × Outcome slot endpt to
          (Message.get_message_id message)
          resultfn
          xs
          (datagram endpt.wrbuffer (wire message.header token options payload))
          (net endpt.trace
            (datagram endpt.wrbuffer (wire message.header token options payload))
            (some to))
          endpt'
unfolding send
send-Outcome {message} {token} {options} {payload} m w header_small small net slot endpt block to
      resultfn xs h confirmable r ne unused =
    let (buffer, e, starts, same) = serialized m w header_small small h in
    let bytes : List ℕ = datagram endpt.wrbuffer (wire message.header token options payload) in
    let (endpt', run, outcome) =
      send_con_msg_lem net slot (record endpt { wrbuffer = buffer }) to message resultfn xs r ne
        unused bytes starts in
    (endpt', rw (e, confirmable) run, outcome)
