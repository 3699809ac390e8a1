-- ===== src/Endpoint/Receive/Silence.antt =====
-- What the loop does with the messages that wait when nothing arrives.
use mcoap.Base.{
  ℕ, suc, ◌+◌, ◌≤◌, ◌<◌, ◌≡◌, inl, inr, refl, true, false, Option, none, some, List, [], ◌∷◌, arith,
  length, All, Bool-cases, leb, to_u16, subst,
}
use mcoap.Base.Run.{ok}
use mcoap.Timeout
use mcoap.Sockaddr.{is_done}
use mcoap.Queue.{Ptr, Body, is_out, is_zero}
use mcoap.Queue.Segment.{Cells}
use mcoap.Queue.Refine.{Represents}
use mcoap.Endpoint.{Endpoint, Event, max_retransmit}
use mcoap.Endpoint.Send.{Net, Times, check_queues}
use mcoap.Endpoint.Send.Again.{message_of, checked, keep, swept, check_queues-swept}
use mcoap.Endpoint.Sound.{IsWaiting, AllWaiting, IsSound, AllWaiting-AllSendable, swept-AllWaiting}
use mcoap.Endpoint.Receive.{Reading, Arrival, ReadFn, receive, recv, pass, read_loop}

-- Each entry has run out when it is looked at.
abbrev pub AllOut : Times → Cells → Type 0
AllOut times xs = All (λ x. is_out times.tested x.0 x.1 ≡ true) xs

-- In each round nothing arrives, and each entry that still waits has run out.
abbrev pub AreSilent : Net → List (Arrival × Times) → Cells → List Event → Type 0
AreSilent net [] xs trace = Unit {0}
AreSilent net ((a, times) ∷ rounds) xs trace =
    (is_done a.err ≡ false)
    × AllOut times xs
    × AreSilent net rounds (swept net times xs trace).0 (swept net times xs trace).1

-- Each entry was sent that often.
abbrev AllSent : ℕ → Cells → Type 0
AllSent k xs = All (λ x. k ≤ x.1.xmitcounter) xs

module _ (net : Net) (times : Times) where
  abbrev IsSent : ℕ → Option Body → Type 0
  IsSent k none = Unit {0}
  IsSent k (some b) = k ≤ b.xmitcounter

  checked-IsSent :
      (k : ℕ) (p : Ptr) (b : Body) (trace : List Event)
      → is_out times.tested p b ≡ true
      → IsWaiting b
      → k ≤ b.xmitcounter
      → IsSent (suc k) (checked net times p b trace).0
  checked-IsSent k p b trace out w h = elim (Bool-cases (leb max_retransmit b.xmitcounter)) [
    | inl many ↦ rw (out, many) tt
    | inr few ↦
        let more : suc k ≤ to_u16 (b.xmitcounter + 1) = omega (arith, w.count) in
        elim (Bool-cases (is_done (net trace (message_of b) b.dest))) [
          | inl done ↦ rw (out, few, done) more
          | inr failed ↦ rw (out, few, failed) tt
        ]
  ]

  keep-AllSent :
      (k : ℕ) (p : Ptr) (kept : Option Body) (xs : Cells)
      → IsSent k kept
      → AllSent k xs
      → AllSent k (keep net times p kept xs)
  keep-AllSent k p none xs here rest = rest
  keep-AllSent k p (some b) xs here rest = (here, rest)

  swept-AllSent :
      (k : ℕ) (xs : Cells) (trace : List Event)
      → AllOut times xs
      → AllWaiting xs
      → AllSent k xs
      → AllSent (suc k) (swept net times xs trace).0
  swept-AllSent k [] trace out w h = tt
  swept-AllSent k ((p, b) ∷ xs) trace out w h =
      let (kept, trace') = checked net times p b trace in
      keep-AllSent (suc k) p kept (swept net times xs trace').0
        (checked-IsSent k p b trace out.0 w.0 h.0) (swept-AllSent k xs trace' out.1 w.1 h.1)

AllSent-zero : (xs : Cells) → AllSent 0 xs
AllSent-zero [] = tt
AllSent-zero (x ∷ xs) = (omega arith, AllSent-zero xs)

AllSent-none : (k : ℕ) (xs : Cells) → AllWaiting xs → AllSent k xs → max_retransmit < k → xs ≡ []
AllSent-none k [] w h many = refl
AllSent-none k (x ∷ xs) w h many = absurd (omega (arith, w.0.count, h.0))

module _ (r : Reading) (net : Net) (readfn : ReadFn) (fuel : ℕ) where
  pub pass_lem :
      (endpt : Endpoint) (a : Arrival) (times : Times)
      → is_done a.err ≡ false
      → pass r net readfn fuel endpt a times
        ≡ check_queues net times fuel (record endpt { tmout = Timeout.markstart a.now endpt.tmout })
  unfolding pass recv receive
  pass_lem endpt a times e = rw e refl

  silence :
      (rounds : List (Arrival × Times)) (k : ℕ) (endpt : Endpoint) (xs : Cells)
      → IsSound endpt xs
      → length xs < fuel
      → is_zero endpt.running ≡ false
      → AreSilent net rounds xs endpt.trace
      → AllSent k xs
      → max_retransmit < k + length rounds
      → (endpt' : Endpoint) × (read_loop r net readfn fuel rounds endpt ≡ ok endpt')
        × Represents endpt'.confirmq []
  unfolding read_loop
  silence [] k endpt xs s enough runs quiet sent many =
      let empty = AllSent-none k xs s.waiting sent (omega arith) in
      (endpt, refl, subst (Represents endpt.confirmq) empty s.queue)
  silence ((a, times) ∷ rounds) k endpt xs s enough runs quiet sent many =
      let marked : Endpoint = record endpt { tmout = Timeout.markstart a.now endpt.tmout } in
      let (endpt1, run, queue, trace, same) =
        check_queues-swept net times fuel marked xs s.queue (AllWaiting-AllSendable xs s.waiting)
          enough in
      let (waiting, fewer) = swept-AllWaiting net times xs endpt.trace s.waiting in
      let (endpt', rest, empty) =
        silence rounds (suc k) endpt1 (swept net times xs endpt.trace).0
          (record { queue = queue; waiting = waiting }) (omega (arith, fewer)) (rw same runs)
          (rw trace quiet.2) (swept-AllSent net times k xs endpt.trace quiet.1 s.waiting sent)
          (omega (arith, many)) in
      (endpt', rw (runs, pass_lem endpt a times quiet.0, run) rest, empty)

  -- When nothing arrives for five rounds of the loop or more, and in each of them every message that still
  -- waits has run out, the loop gives all messages up: it goes through the rounds without a fault, and the
  -- queue is empty then. At first each message in the queue was sent at most four times, and a look through
  -- the queue has one round for each of them and one more.
  pub read_loop-empty :
      (rounds : List (Arrival × Times)) (endpt : Endpoint) (xs : Cells)
      → IsSound endpt xs
      → length xs < fuel
      → is_zero endpt.running ≡ false
      → AreSilent net rounds xs endpt.trace
      → max_retransmit < length rounds
      → (endpt' : Endpoint) × (read_loop r net readfn fuel rounds endpt ≡ ok endpt')
        × Represents endpt'.confirmq []
  read_loop-empty rounds endpt xs s enough runs quiet many =
      silence rounds 0 endpt xs s enough runs quiet (AllSent-zero xs) (omega arith)
