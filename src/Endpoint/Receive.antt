-- ===== src/Endpoint/Receive.antt =====
-- Receiving a message, what an acknowledgement does to the queue, and the loop that reads and
-- dispatches. What `recvfrom` answers, and the function that the loop hands messages to, are arguments.
pub mod Confirmation
pub mod Datagram
pub mod Forward
pub mod Silence
use mcoap.Base.{
  ℕ, ◌≡◌, ◌<◌, Bool, true, false, Option, none, some, List, [], ◌∷◌, block_of, write_at, length,
  ◌==◌, if◌then◌else◌,
}
use mcoap.Base.Int.{ℤ, pos}
use mcoap.Base.Run.{Run, ok, lift, ◌>>=◌}
use mcoap.Timeout
use mcoap.Sockaddr.{Sockaddr, is_done}
use mcoap.Message
use mcoap.Message.{Message}
use mcoap.Message.Decode
use mcoap.OptionsList.{Qsort}
use mcoap.Queue
use mcoap.Queue.{load, remove_and_free, is_zero}
use mcoap.Endpoint.{Endpoint, call_result_fn}
use mcoap.Endpoint.Send.{Net, Times, with_queue, check_queues}

-- What `mn_socket_recvfrom` returned, with the datagram and its sender if it returned `MN_DONE`: it does
-- so only where the system gave at least one byte, and returns `MN_CLOSED` for an empty datagram.
pub record Arrival : Type 0 where
  pub now : ℤ
  pub err : ℤ
  pub bytes : List ℕ
  pub sender : Sockaddr
  pub some_byte : is_done err ≡ true → 0 < length bytes

-- What reading a message takes: `qsort`, and the contents of the local variables of the two passes
-- over the options.
pub record Reading : Type 0 where
  pub qsort : Qsort
  pub counting : ℕ → ℕ
  pub reading : ℕ → ℕ

-- The first part of `mc_endpt_udp_recv`. The datagram is put into the read buffer, whose count is its
-- length until the message is read. A message that cannot be read is a null pointer, whose field for the
-- sender is then written: a fault.
unfoldable pub receive : Reading → Endpoint → Arrival → Run (Option (Message Sockaddr) × Endpoint)
receive r endpt a =
    let marked = record endpt { tmout = Timeout.markstart a.now endpt.tmout } in
    if is_done a.err
    then (do
      block ← lift (write_at (block_of endpt.rdbuffer.bytes) 0 a.bytes)
      (result, bpos, buffer) ←
          Decode.from_buffer r.qsort r.counting r.reading (some Message.alloc)
            (some (record { nbytes = length a.bytes; bytes = some block })) (some 0)
      msg ← lift result
      rdbuffer ← lift buffer
      ok (
        some (record msg { source = some a.sender }),
        record marked { rdbuffer = record rdbuffer { nbytes = endpt.rdbuffer.nbytes } },
      ))
    else ok (none, marked)

-- The second part: the entry that an acknowledgement is for is told and taken out of the queue. Where
-- there is none, a null pointer is read: a fault.
unfoldable pub confirm : ℕ → Endpoint → Message Sockaddr → ℤ → Run Endpoint
confirm fuel endpt msg err =
    if Message.is_ack (some msg)
    then (do
      p ← Queue.get fuel (some endpt.confirmq) (Message.get_message_id msg)
      entry ← load endpt.confirmq p
      let told = call_result_fn endpt entry.body.resultfn entry.body.msgid err
      (next, queue) ← remove_and_free told.confirmq p
      ok (with_queue told queue))
    else ok endpt

unfoldable pub recv : Reading → ℕ → Endpoint → Arrival → Run (Option (Message Sockaddr) × Endpoint)
unfolding receive confirm
recv r fuel endpt a = do
  (result, endpt') ← receive r endpt a
  elim result [
    | none ↦ ok (none, endpt')
    | some msg ↦ (do endpt'' ← confirm fuel endpt' msg a.err; ok (some msg, endpt''))
  ]

-- The function that messages are handed to: whether to go on, and what it did to the endpoint.
abbrev pub ReadFn : Type 0
ReadFn = Endpoint → Message Sockaddr → Run (ℤ × Endpoint)

-- One pass through the loop of `endpt_udp_loop`.
unfoldable pub pass : Reading → Net → ReadFn → ℕ → Endpoint → Arrival → Times → Run Endpoint
unfolding recv
pass r net readfn fuel endpt a times = do
  (result, endpt') ← recv r fuel endpt a
  endpt'' ← elim result [
    | none ↦ ok endpt'
    | some msg ↦ (do
      (running, handled) ← readfn endpt' msg
      ok (record handled { running = running }))
  ]
  check_queues net times fuel endpt''

-- `endpt_udp_loop` with what arrives in each pass; it returns when it is no longer running, or when the
-- arrivals that are given are all read.
unfoldable pub read_loop :
    Reading → Net → ReadFn → ℕ → List (Arrival × Times) → Endpoint → Run Endpoint
unfolding pass
read_loop r net readfn fuel [] endpt = ok endpt
read_loop r net readfn fuel ((a, times) ∷ rest) endpt =
    if is_zero endpt.running
    then ok endpt
    else (do endpt' ← pass r net readfn fuel endpt a times; read_loop r net readfn fuel rest endpt')

-- `mc_endpt_udp_loop`; `address` is that of the function.
unfoldable pub run_loop :
    Reading → Net → ReadFn → ℕ → ℕ → List (Arrival × Times) → Endpoint → Run Endpoint
run_loop r net readfn address fuel arrivals endpt =
    read_loop r net readfn fuel arrivals (record endpt { running = pos 1; readfn = address })
