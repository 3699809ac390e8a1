-- ===== src/Endpoint/Sound.antt =====
-- The endpoint's invariant: what its queue stands for, and how often what waits in it was sent.
use mcoap.Base.{
  ℕ, suc, ◌≤◌, ◌<◌, ◌≡◌, inl, inr, Option, none, some, List, [], ◌∷◌, arith, length, All, leb,
  Bool-cases,
}
use mcoap.CoapOption.{CoapOption}
use mcoap.Message
use mcoap.Message.{Message}
use mcoap.Base.Run.{ok}
use mcoap.Sockaddr.{Sockaddr, is_done}
use mcoap.Queue.{Ptr, Body, is_out}
use mcoap.Queue.Segment.{Cells}
use mcoap.Queue.Refine.{Represents}
use mcoap.Endpoint.{Endpoint, Event, max_retransmit}
use mcoap.Endpoint.Send.{Net, Times, counted, doubled, check_queues}
use mcoap.Endpoint.Send.Confirmed.{waiting}
use mcoap.Endpoint.Send.Again.{
  IsSendable, AllSendable, message_of, checked, keep, swept, check_queues-swept,
}

-- A message that waits is there, and was sent at most four times.
pub record IsWaiting (b : Body) : Type 0 where
  pub sendable : IsSendable b
  pub count : b.xmitcounter ≤ max_retransmit

abbrev pub AllWaiting : Cells → Type 0
AllWaiting xs = All (λ x. IsWaiting x.1) xs

pub record IsSound (endpt : Endpoint) (xs : Cells) : Type 0 where
  pub queue : Represents endpt.confirmq xs
  pub waiting : AllWaiting xs

pub AllWaiting-AllSendable : (xs : Cells) → AllWaiting xs → AllSendable xs
AllWaiting-AllSendable [] w = tt
AllWaiting-AllSendable (x ∷ xs) w = (w.0.sendable, AllWaiting-AllSendable xs w.1)

module _ (net : Net) (times : Times) where
  abbrev IsKept : Option Body → Type 0
  IsKept none = Unit {0}
  IsKept (some b) = IsWaiting b

  checked-IsKept :
      (p : Ptr) (b : Body) (trace : List Event)
      → IsWaiting b
      → IsKept (checked net times p b trace).0
  checked-IsKept p b trace w = elim (Bool-cases (is_out times.tested p b)) [
    | inl out ↦ elim (Bool-cases (leb max_retransmit b.xmitcounter)) [
      | inl many ↦ rw (out, many) tt
      | inr few ↦
          let again : IsWaiting (counted (doubled (times.restarted p) b)) = record {
            sendable = record {
              buffer = w.sendable.buffer;
              there = w.sendable.there;
              held = w.sendable.held;
            };
            count = ground (arith, few);
          } in
          elim (Bool-cases (is_done (net trace (message_of b) b.dest))) [
            | inl done ↦ rw (out, few, done) again
            | inr failed ↦ rw (out, few, failed) tt
          ]
    ]
    | inr waits ↦ rw waits w
  ]

  keep-AllWaiting :
      (p : Ptr) (kept : Option Body) (xs : Cells)
      → IsKept kept
      → AllWaiting xs
      → AllWaiting (keep net times p kept xs)
        × (length (keep net times p kept xs) ≤ suc (length xs))
  keep-AllWaiting p none xs k w = (w, omega arith)
  keep-AllWaiting p (some b) xs k w = ((k, w), omega arith)

  pub swept-AllWaiting :
      (xs : Cells) (trace : List Event)
      → AllWaiting xs
      → AllWaiting (swept net times xs trace).0 × (length (swept net times xs trace).0 ≤ length xs)
  swept-AllWaiting [] trace w = (tt, omega arith)
  swept-AllWaiting ((p, b) ∷ xs) trace w =
      let (kept, trace') = checked net times p b trace in
      let (rest, fewer) = swept-AllWaiting xs trace' w.1 in
      let (all, one_more) =
        keep-AllWaiting p kept (swept net times xs trace').0 (checked-IsKept p b trace w.0) rest in
      (all, omega (arith, fewer, one_more))

  -- With one round for each entry and one more, `mc_endpt_udp_check_queues` ends, and leaves a queue of
  -- no more entries, each with its message and sent at most four times.
  pub check_queues-IsSound :
      (fuel : ℕ) (endpt : Endpoint) (xs : Cells)
      → IsSound endpt xs
      → length xs < fuel
      → (endpt' : Endpoint) × (xs' : Cells) × (check_queues net times fuel endpt ≡ ok endpt')
        × IsSound endpt' xs'
        × (length xs' ≤ length xs)
  check_queues-IsSound fuel endpt xs s enough =
      let (endpt', run, r, e, runs) =
        check_queues-swept net times fuel endpt xs s.queue (AllWaiting-AllSendable xs s.waiting)
          enough in
      let (all, fewer) = swept-AllWaiting xs endpt.trace s.waiting in
      (endpt', (swept net times xs endpt.trace).0, run, record { queue = r; waiting = all }, fewer)
