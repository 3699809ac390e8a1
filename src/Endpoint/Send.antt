-- ===== src/Endpoint/Send.antt =====
-- Sending, and sending again what was not confirmed.
pub mod Plain
pub mod Confirmed
pub mod Again
use mcoap.Base.{
  ℕ, zero, suc, ◌+◌, ◌*◌, Bool, true, false, Option, none, some, List, [], ◌∷◌, ◌++◌, to_u16, leb,
  read_at, block_of, ◌==◌, if◌then◌else◌,
}
use mcoap.Base.Int.{ℤ, pos, negsuc, ◌+ℤ◌}
use mcoap.Base.Run.{Run, ok, fault, stuck, lift, ◌>>=◌}
use mcoap.Timeout
use mcoap.Timeout.{Timeout, Clock, unlimited}
use mcoap.Sockaddr.{Sockaddr, is_done, mn_timeout}
use mcoap.Buffer
use mcoap.Buffer.{Buffer}
use mcoap.Message
use mcoap.Message.{Message}
use mcoap.Message.Encode
use mcoap.Queue
use mcoap.Queue.{Ptr, null, Body, Entry, Queue, load, store, remove_and_free, is_out}
use mcoap.Endpoint.{Endpoint, Event, sent, log, max_retransmit, call_result_fn}

-- What `mn_socket_sendto` returns for these bytes to this address, after what has happened so far.
abbrev pub Net : Type 0
Net = List Event → List ℕ → Option Sockaddr → ℤ

-- Marks the start of the timeout and hands the first `nbytes` of a buffer to the socket.
unfoldable pub transmit : Net → ℤ → Endpoint → Buffer → ℕ → Option Sockaddr → Run (ℤ × Endpoint)
transmit net now endpt buffer nbytes to = do
  bytes ← lift (read_at (block_of buffer.bytes) 0 nbytes)
  let err = net endpt.trace bytes to
  ok (err, log (record endpt { tmout = Timeout.markstart now endpt.tmout }) (sent bytes to err))

abbrev pub with_queue : Endpoint → Queue → Endpoint
with_queue endpt queue = record endpt { confirmq = queue }

abbrev pub counted : Body → Body
counted body = record body { xmitcounter = to_u16 (body.xmitcounter + 1) }

-- `entry->xmitcounter++`
unfoldable pub count_up : Endpoint → Ptr → Run Endpoint
count_up endpt p = do
  entry ← load endpt.confirmq p
  ok (with_queue endpt (store endpt.confirmq p (some (record entry { body = counted entry.body }))))

unfoldable pub send_entry_buffer : Net → ℤ → Endpoint → Ptr → Run (ℤ × Endpoint)
unfolding transmit count_up
send_entry_buffer net now endpt p = do
  entry ← load endpt.confirmq p
  if leb max_retransmit entry.body.xmitcounter then ok (mn_timeout, endpt) else (do
    msg ← lift entry.body.msg
    (err, endpt') ← transmit net now endpt msg msg.nbytes entry.body.dest
    endpt'' ← count_up endpt' p
    ok (err, endpt''))

unfoldable pub send_endpt_buffer : Net → ℤ → Endpoint → ℕ → Option Sockaddr → Run (ℤ × Endpoint)
unfolding transmit
send_endpt_buffer net now endpt nbytes toaddr = transmit net now endpt endpt.wrbuffer nbytes toaddr

-- The address of the entry that is allocated, its first timeout, and the times when that is started
-- and when the message is sent.
pub record Slot : Type 0 where
  pub fresh : Ptr
  pub wait : ℤ
  pub queued : ℤ
  pub sending : ℤ

-- The fields of `calloc`.
abbrev pub zero_timeout : Timeout
zero_timeout = record { block = pos 0; total = pos 0; start = pos 0 }

-- A null address is a fault, since it is copied.
unfoldable pub send_con_msg :
    Net → Slot → Endpoint → ℕ → Option Sockaddr → Message Sockaddr → Ptr → Run (ℤ × Endpoint)
send_con_msg net slot endpt nbytes toaddr msg resultfn = do
  to ← lift toaddr
  copied ← lift (Buffer.copy (some endpt.wrbuffer) 0 nbytes)
  (entry, queue) ← Queue.add endpt.confirmq (record {
    fresh = slot.fresh;
    now = slot.queued;
    wait = slot.wait;
    timeout = zero_timeout;
    msgid = Message.get_message_id msg;
    dest = some to;
    msg = copied;
    resultfn = resultfn;
  })
  (err, endpt') ← send_endpt_buffer net slot.sending (with_queue endpt queue) nbytes toaddr
  if is_done err then (do endpt'' ← count_up endpt' entry; ok (err, endpt'')) else (do
    let told = call_result_fn endpt' resultfn (Message.get_message_id msg) err
    (next, queue') ← remove_and_free told.confirmq entry
    ok (err, with_queue told queue'))

unfoldable pub send :
    Net → Slot → Endpoint → Option Sockaddr → Message Sockaddr → Ptr → Run (ℤ × Endpoint)
send net slot endpt toaddr msg resultfn = do
  (nbytes, wrbuffer) ← lift (Encode.to_buffer msg endpt.wrbuffer)
  let endpt' = record endpt { wrbuffer = wrbuffer }
  if Message.is_confirmable msg
      then send_con_msg net slot endpt' nbytes toaddr msg resultfn
      else send_endpt_buffer net slot.sending endpt' nbytes toaddr

-- The times when an entry's timeout is looked at, when it is started again and when it is sent.
pub record Times : Type 0 where
  pub tested : Ptr → Clock
  pub restarted : Ptr → ℤ
  pub sending : Ptr → ℤ

-- The timeout is doubled and started again.
abbrev pub doubled : ℤ → Body → Body
doubled now body = record body {
  timeout =
      Timeout.markstart now
        (Timeout.init body.timeout unlimited (body.timeout.total +ℤ body.timeout.total));
}

-- What is done with an entry that has run out; the result is the next entry.
unfoldable pub resend : Net → Times → Endpoint → Ptr → Run (Ptr × Endpoint)
unfolding send_entry_buffer
resend net times endpt p = do
  entry ← load endpt.confirmq p
  let longer = record entry { body = doubled (times.restarted p) entry.body }
  (err, endpt') ←
      send_entry_buffer net (times.sending p)
        (with_queue endpt (store endpt.confirmq p (some longer))) p
  current ← load endpt'.confirmq p
  if is_done err then ok (current.next, endpt') else (do
    let told = call_result_fn endpt' current.body.resultfn current.body.msgid err
    (next, queue) ← remove_and_free told.confirmq p
    ok (next, with_queue told queue))

unfoldable pub check_loop : Net → Times → ℕ → Endpoint → Ptr → Run Endpoint
check_loop net times zero endpt current = stuck
check_loop net times (suc fuel) endpt current = if current == null then ok endpt else (do
  entry ← load endpt.confirmq current
  (next, endpt') ←
      if is_out times.tested current entry.body
      then resend net times endpt current
      else ok (entry.next, endpt)
  check_loop net times fuel endpt' next)

-- `mc_endpt_udp_check_queues`; one round for each entry and one more are enough.
unfoldable pub check_queues : Net → Times → ℕ → Endpoint → Run Endpoint
check_queues net times fuel endpt = check_loop net times fuel endpt endpt.confirmq.first
