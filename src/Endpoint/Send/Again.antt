-- ===== src/Endpoint/Send/Again.antt =====
-- `mc_endpt_udp_check_queues` on the list that the queue stands for.
use mcoap.Base.{
  ℕ, zero, suc, ◌≤◌, ◌<◌, ◌≡◌, inl, inr, refl, sym, ap, subst, ◌∙◌, true, false, Option, none, some,
  List, [], ◌∷◌, ◌++◌, arith, length, take, drop, read_at, read_at_lem, append_assoc, block_of,
  Bool-cases, leb, All, ◌==◌, if◌then◌else◌,
}
use mcoap.Base.Int.{ℤ}
use mcoap.Base.Run.{ok}
use mcoap.Sockaddr.{is_done, mn_timeout}
use mcoap.Buffer.{Buffer}
use mcoap.Queue.{Ptr, null, Body, Queue, is_out, remove_and_free}
use mcoap.Queue.Segment.{Cells, first_of, split}
use mcoap.Queue.Refine.{Represents}
use mcoap.Queue.Remove.{remove_and_free-Represents}
use mcoap.Queue.Store.{stored, store-Represents}
use mcoap.Endpoint.{Endpoint, Event, sent, max_retransmit, call_result_fn}
use mcoap.Endpoint.Send.{
  Net, Times, counted, doubled, with_queue, send_entry_buffer, resend, check_loop, check_queues,
}
use mcoap.Endpoint.Send.Plain.{transmitted, transmit_lem}
use mcoap.Endpoint.Send.Confirmed.{told, call_result_fn_lem, count_up_lem}

-- The bytes of the message that waits.
abbrev pub message_of : Body → List ℕ
message_of b = elim b.msg [ none ↦ [] | some m ↦ take m.nbytes (drop 0 (block_of m.bytes)) ]

-- There is a message, and its bytes are within its block.
pub record IsSendable (b : Body) : Type 0 where
  pub buffer : Buffer
  pub there : b.msg ≡ some buffer
  pub held : buffer.nbytes ≤ length (block_of buffer.bytes)

abbrev pub AllSendable : Cells → Type 0
AllSendable xs = All (λ x. IsSendable x.1) xs

module _ (net : Net) (times : Times) where
  -- What becomes of an entry that has run out, and the trace. After four transmissions it goes, with
  -- a timeout for its result function; else it is sent again, and goes if the socket fails.
  abbrev pub resent : Ptr → Body → List Event → Option Body × List Event
  resent p b trace =
      if leb max_retransmit b.xmitcounter
      then (none, told trace b.resultfn b.msgid mn_timeout)
      else (let err = net trace (message_of b) b.dest in
          let trace' = trace ++ (sent (message_of b) b.dest err ∷ []) in
          if is_done err
          then (some (counted (doubled (times.restarted p) b)), trace')
          else (none, told trace' b.resultfn b.msgid err))

  abbrev pub checked : Ptr → Body → List Event → Option Body × List Event
  checked p b trace = if is_out times.tested p b then resent p b trace else (some b, trace)

  abbrev pub keep : Ptr → Option Body → Cells → Cells
  keep p none xs = xs
  keep p (some b) xs = (p, b) ∷ xs

  -- The entries one after the other.
  abbrev pub swept : Cells → List Event → Cells × List Event
  swept [] trace = ([], trace)
  swept ((p, b) ∷ xs) trace =
      let (kept, trace') = checked p b trace in
      let (rest, trace'') = swept xs trace' in (keep p kept rest, trace'')

  send_bytes :
      (endpt : Endpoint) (front back : Cells) (p : Ptr) (b : Body) (bytes : List ℕ)
      → Represents endpt.confirmq (front ++ ((p, b) ∷ back))
      → (s : IsSendable b) → read_at (block_of s.buffer.bytes) 0 s.buffer.nbytes ≡ some bytes
      → leb max_retransmit b.xmitcounter ≡ false
      → (queue : Queue) × (send_entry_buffer net (times.sending p) endpt p
          ≡ ok (
            net endpt.trace bytes b.dest,
            with_queue (transmitted net (times.sending p) endpt bytes b.dest) queue,
          ))
        × Represents queue (front ++ ((p, counted b) ∷ back))
  unfolding send_entry_buffer
  send_bytes endpt front back p b bytes r s reads few =
      let (loaded, _) = store-Represents endpt.confirmq front back p b b r in
      let sending =
        transmit_lem net (times.sending p) endpt s.buffer s.buffer.nbytes bytes b.dest reads in
      let (queue, counting, r') =
        count_up_lem (transmitted net (times.sending p) endpt bytes b.dest) front back p b r in
      (queue, rw (loaded, few, s.there, sending, counting) refl, r')

  send_no_more :
      (endpt : Endpoint) (front back : Cells) (p : Ptr) (b : Body)
      → Represents endpt.confirmq (front ++ ((p, b) ∷ back))
      → leb max_retransmit b.xmitcounter ≡ true
      → send_entry_buffer net (times.sending p) endpt p ≡ ok (mn_timeout, endpt)
  unfolding send_entry_buffer
  send_no_more endpt front back p b r many =
      let (loaded, _) = store-Represents endpt.confirmq front back p b b r in rw (loaded, many) refl

  -- The queue after an entry was looked at; it is known what became of it.
  abbrev After : Cells → Cells → Ptr → ℤ → Option Body × List Event → Endpoint → Type 0
  After front back p running (kept, trace) endpt' =
      Represents endpt'.confirmq (front ++ keep p kept back)
      × (endpt'.trace ≡ trace)
      × (endpt'.running ≡ running)

  -- The entry goes, and its result function is told.
  give_up :
      (endpt : Endpoint) (front back : Cells) (p : Ptr) (b : Body) (err : ℤ)
      → Represents endpt.confirmq (front ++ ((p, b) ∷ back))
      → (queue : Queue) × (remove_and_free (call_result_fn endpt b.resultfn b.msgid err).confirmq p
          ≡ ok (first_of back null, queue))
        × After front back p endpt.running
            (none, told endpt.trace b.resultfn b.msgid err)
            (with_queue (call_result_fn endpt b.resultfn b.msgid err) queue)
  give_up endpt front back p b err r =
      let (same, trace, runs) = call_result_fn_lem endpt b.resultfn b.msgid err in
      let (queue, removing, r', freed) =
        remove_and_free-Represents p b endpt.confirmq front back r in
      (queue, rw same removing, (r', trace, runs))

  resend_lem :
      (endpt : Endpoint) (front back : Cells) (p : Ptr) (b : Body)
      → Represents endpt.confirmq (front ++ ((p, b) ∷ back))
      → IsSendable b
      → (endpt' : Endpoint) × (resend net times endpt p ≡ ok (first_of back null, endpt'))
        × After front back p endpt.running (resent p b endpt.trace) endpt'
  unfolding resend
  resend_lem endpt front back p b r s =
      let c : Body = doubled (times.restarted p) b in
      let (loaded, r1) = store-Represents endpt.confirmq front back p b c r in
      let endpt1 : Endpoint = with_queue endpt (stored endpt.confirmq front back p b c r) in
      let (loaded1, _) = store-Represents endpt1.confirmq front back p c c r1 in
      elim (Bool-cases (leb max_retransmit b.xmitcounter)) [
        | inl e ↦
            let (queue, removing, after) = give_up endpt1 front back p c mn_timeout r1 in
            (
              with_queue (call_result_fn endpt1 b.resultfn b.msgid mn_timeout) queue,
              rw (loaded, send_no_more endpt1 front back p c r1 e, loaded1, removing) refl,
              rw e after,
            )
        | inr e ↦
            let err : ℤ = net endpt.trace (message_of b) b.dest in
            let s' : IsSendable c = record { buffer = s.buffer; there = s.there; held = s.held } in
            let reads : read_at (block_of s.buffer.bytes) 0 s.buffer.nbytes ≡ some (message_of b) =
              rw s.there
                (read_at_lem (block_of s.buffer.bytes) 0 s.buffer.nbytes (omega (arith, s.held))) in
            let (queue, sending, r2) =
              send_bytes endpt1 front back p c (message_of b) r1 s' reads e in
            let endpt2 : Endpoint =
              with_queue (transmitted net (times.sending p) endpt1 (message_of b) b.dest) queue in
            let (loaded2, _) = store-Represents queue front back p (counted c) c r2 in
            elim (Bool-cases (is_done err)) [
              | inl done ↦
                  (endpt2, rw (loaded, sending, loaded2, done) refl, rw (e, done) (r2, refl, refl))
              | inr failed ↦
                  let (queue', removing, after) = give_up endpt2 front back p (counted c) err r2 in
                  (
                    with_queue (call_result_fn endpt2 b.resultfn b.msgid err) queue',
                    rw (loaded, sending, loaded2, failed, removing) refl,
                    rw (e, failed) after,
                  )
            ]
      ]

  -- What the rest of the loop does, from an endpoint on.
  abbrev Swept : ℕ → Endpoint → Cells → Cells → ℤ → (Cells × List Event) → Type 0
  Swept fuel endpt front xs running (rest, trace) =
      (endpt' : Endpoint) × (check_loop net times fuel endpt (first_of xs null) ≡ ok endpt')
      × Represents endpt'.confirmq (front ++ rest)
      × (endpt'.trace ≡ trace)
      × (endpt'.running ≡ running)

  go_on :
      (fuel : ℕ) (endpt : Endpoint) (front xs : Cells) (p : Ptr) (kept : Option Body)
      (trace : List Event) (running : ℤ)
      → After front xs p running (kept, trace) endpt
      → ((before : Cells)
          → Represents endpt.confirmq (before ++ xs)
          → Swept fuel endpt before xs endpt.running (swept xs endpt.trace))
      → Swept fuel endpt front xs running (keep p kept (swept xs trace).0, (swept xs trace).1)
  go_on fuel endpt front xs p none trace running after loop =
      rw (← after.1, ← after.2) (loop front after.0)
  go_on fuel endpt front xs p (some b) trace running after loop =
      let assoc = append_assoc front ((p, b) ∷ []) in
      let (endpt', run, r, e, runs) =
        loop (front ++ ((p, b) ∷ []))
          (subst (Represents endpt.confirmq) (sym (assoc xs)) after.0) in
      rw (← after.1, ← after.2)
        (
          endpt',
          run,
          subst (Represents endpt'.confirmq) (assoc (swept xs endpt.trace).0) r,
          e,
          runs,
        )

  check_loop_lem :
      (fuel : ℕ) (endpt : Endpoint) (front xs : Cells)
      → Represents endpt.confirmq (front ++ xs)
      → AllSendable xs
      → length xs < fuel
      → Swept fuel endpt front xs endpt.running (swept xs endpt.trace)
  unfolding check_loop
  check_loop_lem zero endpt front xs r s enough = absurd (omega arith)
  check_loop_lem (suc fuel) endpt front [] r s enough = (endpt, refl, r, refl, refl)
  check_loop_lem (suc fuel) endpt front ((p, b) ∷ xs) r s enough =
      let (loaded, _) = store-Represents endpt.confirmq front xs p b b r in
      let (before, here) = split endpt.confirmq.cell null null front ((p, b) ∷ xs) r.linked in
      let some_there : (p == null) ≡ false = ground (arith, here.0) in
      elim (Bool-cases (is_out times.tested p b)) [
        | inl out ↦
            let (endpt1, step, after) = resend_lem endpt front xs p b r s.0 in
            let (endpt', run, r', e, runs) =
              go_on fuel endpt1 front xs p (resent p b endpt.trace).0 (resent p b endpt.trace).1
                endpt.running after
                (λ front' r'. check_loop_lem fuel endpt1 front' xs r' s.1 (omega arith)) in
            (endpt', rw (some_there, loaded, out, step) run, rw out r', rw out e, runs)
        | inr waits ↦
            let (endpt', run, r', e, runs) =
              go_on fuel endpt front xs p (some b) endpt.trace endpt.running (r, refl, refl)
                (λ front' r'. check_loop_lem fuel endpt front' xs r' s.1 (omega arith)) in
            (endpt', rw (some_there, loaded, waits) run, rw waits r', rw waits e, runs)
      ]

  -- `mc_endpt_udp_check_queues` goes through all entries once, in order, with one round for each and one
  -- more, and reads no entry that it freed. One that has not run out stays as it is. One that has run
  -- out and was sent fewer than four times is sent again with its count raised and its timeout doubled and
  -- restarted, and goes if the socket fails; one that was sent four times goes. The result function of
  -- each that goes is told. The endpoint runs on if it did. Each entry has its message.
  pub check_queues-swept :
      (fuel : ℕ) (endpt : Endpoint) (xs : Cells)
      → Represents endpt.confirmq xs
      → AllSendable xs
      → length xs < fuel
      → (endpt' : Endpoint) × (check_queues net times fuel endpt ≡ ok endpt')
        × Represents endpt'.confirmq (swept xs endpt.trace).0
        × (endpt'.trace ≡ (swept xs endpt.trace).1)
        × (endpt'.running ≡ endpt.running)
  unfolding check_queues
  check_queues-swept fuel endpt xs r s enough =
      let (endpt', run, r', e, runs) = check_loop_lem fuel endpt [] xs r s enough in
      (endpt', ap (check_loop net times fuel endpt) r.front ∙ run, r', e, runs)
