-- ===== src/Endpoint/Receive/Confirmation.antt =====
-- What a received acknowledgement does to the list that the queue stands for, and messages that cannot
-- be read.
use mcoap.Base.{
  ℕ, ◌<◌, ◌≡◌, ◌⊎◌, inl, inr, refl, true, some, List, ◌++◌, arith, length, write_at_lem, lt→ltb,
  ◌≤◌,
}
use mcoap.Base.Int.{ℤ}
use mcoap.Base.Run.{ok, fault}
use mcoap.Sockaddr.{Sockaddr, is_done}
use mcoap.Message
use mcoap.Message.Decode
use mcoap.Buffer.{Holds}
use mcoap.Message.{Message}
use mcoap.Queue.{load}
use mcoap.Queue.Segment.{Cells}
use mcoap.Queue.Refine.{Represents}
use mcoap.Queue.Remove.{remove_and_free-Represents}
use mcoap.Queue.Store.{store-Represents}
use mcoap.Queue.Scan.{Found, NoneOf, first_with_cases}
use mcoap.Queue.Lookup.{has_msgid, get_first, placed}
use mcoap.Endpoint.{Endpoint, call_result_fn}
use mcoap.Endpoint.Send.{with_queue}
use mcoap.Endpoint.Send.Confirmed.{told, call_result_fn_lem}
use mcoap.Endpoint.Receive.{Reading, Arrival, receive, confirm, recv}

-- An acknowledgement takes the first entry of its message id out of the queue, the others stay in their
-- order, and the entry's result function is told. An acknowledgement of a message that does not wait is
-- a fault.
pub confirm-ack :
    (fuel : ℕ) (endpt : Endpoint) (xs : Cells) (msg : Message Sockaddr) (err : ℤ)
    → Represents endpt.confirmq xs
    → length xs < fuel
    → Message.is_ack (some msg) ≡ true
    → ((f : Found (has_msgid (Message.get_message_id msg)) xs) × (endpt' : Endpoint) × (confirm fuel
            endpt msg err
          ≡ ok endpt')
        × Represents endpt'.confirmq (f.front ++ f.back)
        × (endpt'.trace ≡ told endpt.trace f.body.resultfn f.body.msgid err))
      ⊎ (NoneOf (has_msgid (Message.get_message_id msg)) xs × (confirm fuel endpt msg err ≡ fault))
unfolding confirm load
confirm-ack fuel endpt xs msg err r enough ack =
    let id : ℕ = Message.get_message_id msg in
    let got = get_first endpt.confirmq xs r fuel enough id in
    elim (first_with_cases (has_msgid id) xs) [
      | inl (f, e) ↦
          let r1 = placed xs r f in
          let (loaded, _) =
            store-Represents endpt.confirmq f.front f.back f.address f.body f.body r1 in
          let (same, trace, runs) = call_result_fn_lem endpt f.body.resultfn f.body.msgid err in
          let (queue, removing, r2, freed) =
            remove_and_free-Represents f.address f.body endpt.confirmq f.front f.back r1 in
          inl (
            f,
            with_queue (call_result_fn endpt f.body.resultfn f.body.msgid err) queue,
            rw (ack, got, e, loaded, same, removing) refl,
            r2,
            trace,
          )
      | inr (others, e) ↦ inr (others, rw (ack, got, e) refl)
    ]

-- A datagram of one to three bytes, for which the read buffer has room, is a fault: the message that could not be read is a null pointer.
pub recv-short :
    (r : Reading) (fuel : ℕ) (endpt : Endpoint) (a : Arrival) (block : List ℕ)
    → Holds endpt.rdbuffer block
    → is_done a.err ≡ true
    → length a.bytes < 4
    → length a.bytes ≤ endpt.rdbuffer.nbytes
    → recv r fuel endpt a ≡ fault
unfolding recv receive Decode.from_buffer
recv-short r fuel endpt a block h done short room =
    rw
      (
        done,
        h.bytes,
        write_at_lem block 0 a.bytes (omega (arith, h.within)),
        lt→ltb (length a.bytes) 4 short,
      )
      refl
