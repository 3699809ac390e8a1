-- ===== src/Endpoint.antt =====
-- mcoap/mc_endpt_udp.c: the endpoint's state, its construction and its message ids. What the socket
-- answers, the time and `rand` are arguments. The endpoint keeps a trace of what it sent and of the
-- result functions that it called; a result function that calls the endpoint again is not modelled.
pub mod Ids
pub mod Send
pub mod Receive
pub mod Request
pub mod Sound
use mcoap.Base.{
  ℕ, ◌+◌, ◌*◌, ◌^◌, Bool, true, false, Option, none, some, List, [], ◌∷◌, ◌++◌, to_u16, ltb, ◌==◌,
  if◌then◌else◌,
}
use mcoap.Base.Int.{ℤ, pos, negsuc}
use mcoap.CString.{Text}
use mcoap.Timeout
use mcoap.Timeout.{Timeout, unlimited}
use mcoap.Sockaddr
use mcoap.Sockaddr.{Sockaddr, Resolver, inet_init_at, is_done}
use mcoap.Buffer
use mcoap.Buffer.{Buffer}
use mcoap.Queue
use mcoap.Queue.{Ptr, null, Queue}

-- What the endpoint did: bytes handed to the socket, to an address, with the socket's answer; a result
-- function called, with its message id and error code.
pub data Event : Type 0 where
  sent : List ℕ → Option Sockaddr → ℤ → Event
  called : Ptr → ℕ → ℤ → Event

-- `mc_endpt_udp_t`
pub record Endpoint : Type 0 where
  pub thread : Ptr
  pub tmout : Timeout
  pub readfn : Ptr
  pub rdbuffer : Buffer
  pub wrbuffer : Buffer
  pub confirmq : Queue
  pub running : ℤ
  pub nextid : ℕ
  pub trace : List Event

-- `MAX_RETRANSMIT`
abbrev pub max_retransmit : ℕ
max_retransmit = 4

-- `DEFAULT_ENDPT_TIMEOUT`, the `double` next to 0.05 seconds: 0x1.999999999999Ap-5.
abbrev pub default_endpt_timeout : ℤ
default_endpt_timeout = pos (0x1999999999999A * 2 ^ 1017)

-- 0 is no message id.
abbrev pub skip_zero : ℕ → ℕ
skip_zero id = if id == 0 then 1 else id

-- The id for the next message, and the endpoint with the one after it.
unfoldable pub next_id : Endpoint → ℕ × Endpoint
next_id endpt = (endpt.nextid, record endpt { nextid = skip_zero (to_u16 (endpt.nextid + 1)) })

-- `rand` is what `rand()` returns after it was seeded with the time; `create_err` and `bind_err` are
-- the error codes of the socket's creation and binding. The result tells whether null is returned.
unfoldable pub init :
    Resolver → ℕ → ℤ → ℤ → Sockaddr → Endpoint → ℕ → ℕ → Option Text → ℕ → Bool × Endpoint
init resolver rand create_err bind_err junk endpt rdsize wrsize hostname port =
    let ready = record endpt {
      readfn = null;
      thread = null;
      running = pos 0;
      nextid = skip_zero (to_u16 rand);
      rdbuffer = Buffer.init endpt.rdbuffer rdsize (some (Buffer.calloc rdsize));
      wrbuffer = Buffer.init endpt.wrbuffer wrsize (some (Buffer.calloc wrsize));
      confirmq = Queue.init endpt.confirmq;
      tmout = Timeout.init endpt.tmout default_endpt_timeout unlimited;
    } in
    elim hostname [
      | none ↦ (false, ready)
      | some host ↦
          if (inet_init_at resolver junk host port).0
          then if is_done create_err then (is_done bind_err, ready) else (false, ready)
          else (false, ready)
    ]

unfoldable pub set_timeout : Endpoint → ℤ → Endpoint
set_timeout endpt seconds = record endpt { tmout = Timeout.init endpt.tmout seconds unlimited }

unfoldable pub deinit : Endpoint → Endpoint
deinit endpt = record endpt {
  rdbuffer = Buffer.deinit endpt.rdbuffer;
  wrbuffer = Buffer.deinit endpt.wrbuffer;
}

-- `thread` is the thread that was made.
unfoldable pub start : Endpoint → Ptr → Ptr → Endpoint
start endpt readfn thread = record endpt { running = pos 1; readfn = readfn; thread = thread }

unfoldable pub stop : Endpoint → Endpoint
stop endpt = record endpt { running = pos 0; thread = null }

abbrev pub log : Endpoint → Event → Endpoint
log endpt event = record endpt { trace = endpt.trace ++ (event ∷ []) }

-- Null and 1 are no functions.
unfoldable pub call_result_fn : Endpoint → Ptr → ℕ → ℤ → Endpoint
call_result_fn endpt resultfn msgid err =
    if ltb 1 resultfn then log endpt (called resultfn msgid err) else endpt
