-- ===== src/Programs/TmServer/Echo.antt =====
-- What the time server answers.
use mcoap.Base.{
  ℕ, zero, suc, ◌≤◌, ◌<◌, ◌≡◌, ◌⊎◌, inl, inr, refl, ap, ◌∙◌, true, false, some, List, [], ◌∷◌, ◌++◌,
  All, arith, length, length-replicate, length-splice, le→leb, ◌==◌, splice,
}
use mcoap.Base.Int.{pos}
use mcoap.Base.Run.{ok}
use mcoap.Timeout
use mcoap.Sockaddr.{Sockaddr, Resolver, is_done}
use mcoap.Buffer
use mcoap.Buffer.{Buffer, Holds}
use mcoap.CoapOption.{CoapOption}
use mcoap.Message
use mcoap.Message.{Message}
use mcoap.Message.Encode.Wire.{wire}
use mcoap.Message.Encode.Writes.{length-wire, payload-le-marked}
use mcoap.Queue
use mcoap.Queue.{null, is_zero, Ptr}
use mcoap.Queue.Refine.{Represents}
use mcoap.Endpoint
use mcoap.Endpoint.{Endpoint, Event, sent}
use mcoap.Endpoint.Send.{Net, Slot, Times, check_loop, check_queues}
use mcoap.Endpoint.Send.Plain.{transmitted, datagram, send-held}
use mcoap.Endpoint.Receive.{Reading, Arrival, pass, read_loop, run_loop}
use mcoap.Endpoint.Receive.Datagram.{IsWire, received, with_datagram, recv-wire}
use mcoap.Endpoint.Receive.Forward.{in_order, received-IsMessage, received-AllWritable}
use mcoap.Endpoint.Receive.Silence.{pass_lem}
use mcoap.Programs.{Start}
use mcoap.Programs.Opened.{fresh, opened-fresh}
use mcoap.Programs.TmServer.{request_handler, run_server}

-- A request that is answered: a datagram with a message, neither an acknowledgement nor to be
-- confirmed, for which the buffers have room.
pub record Request (r : Reading) (rdsize wrsize : ℕ) (a : Arrival) : Type 0 where
  pub header : ℕ
  pub token : List ℕ
  pub options : List CoapOption
  pub payload : List ℕ
  pub done : is_done a.err ≡ true
  pub form : IsWire a.bytes header token options payload
  pub room : length a.bytes ≤ rdsize
  pub no_ack : Message.is_ack (some (received r header token options payload a.sender)) ≡ false
  pub plain : Message.is_confirmable (received r header token options payload a.sender) ≡ false
  pub fits : length (wire header token (in_order r options) payload) ≤ wrsize

-- The bytes of the answer: the request with its options in the order of `qsort`.
abbrev pub answer :
    {r : Reading} {rdsize wrsize : ℕ} {a : Arrival} → Request r rdsize wrsize a → List ℕ
answer {r} q = wire q.header q.token (in_order r q.options) q.payload

-- In each round a request or nothing arrives.
abbrev pub Traffic : Reading → ℕ → ℕ → List (Arrival × Times) → Type 0
Traffic r rdsize wrsize arrivals =
    All (λ x. Request r rdsize wrsize x.0 ⊎ (is_done x.0.err ≡ false)) arrivals

-- What the endpoint did when each request was answered: its answer was handed to the socket, to where
-- the request came from.
abbrev pub echoes :
    (net : Net) (r : Reading) (rdsize wrsize : ℕ) (arrivals : List (Arrival × Times))
    → Traffic r rdsize wrsize arrivals
    → List Event
    → List Event
echoes net r rdsize wrsize [] t trace = trace
echoes net r rdsize wrsize ((a, times) ∷ rest) (inl q, t) trace =
    echoes net r rdsize wrsize rest t
      (trace ++ (sent (answer q) (some a.sender) (net trace (answer q) (some a.sender)) ∷ []))
echoes net r rdsize wrsize ((a, times) ∷ rest) (inr quiet, t) trace =
    echoes net r rdsize wrsize rest t trace

-- Buffers of these sizes, and nothing that waits.
pub record IsReady (rdsize wrsize : ℕ) (endpt : Endpoint) : Type 0 where
  pub rdblock : List ℕ
  pub reads : Holds endpt.rdbuffer rdblock
  pub rdcount : endpt.rdbuffer.nbytes ≡ rdsize
  pub wrblock : List ℕ
  pub writes : Holds endpt.wrbuffer wrblock
  pub wrcount : endpt.wrbuffer.nbytes ≡ wrsize
  pub waits : Represents endpt.confirmq []
  pub runs : is_zero endpt.running ≡ false

check_queues-none :
    (net : Net) (times : Times) (fuel : ℕ) (endpt : Endpoint)
    → Represents endpt.confirmq []
    → 0 < fuel
    → check_queues net times fuel endpt ≡ ok endpt
unfolding check_queues check_loop
check_queues-none net times zero endpt w enough = absurd (omega arith)
check_queues-none net times (suc fuel) endpt w enough =
    let empty : (endpt.confirmq.first == null) ≡ true = ground (arith, w.front) in rw empty refl

module _ (r : Reading) (net : Net) (slots : Endpoint → Slot) (fuel rdsize wrsize : ℕ)
    (enough : 0 < fuel) where
  -- A request is answered, and the endpoint is ready for the next.
  answered :
      (endpt : Endpoint) (a : Arrival) (times : Times) (q : Request r rdsize wrsize a)
      → IsReady rdsize wrsize endpt
      → (endpt' : Endpoint) × (pass r net (request_handler net slots) fuel endpt a times
          ≡ ok endpt')
        × IsReady rdsize wrsize endpt'
        × (endpt'.trace
            ≡ endpt.trace
              ++ (sent (answer q) (some a.sender) (net endpt.trace (answer q) (some a.sender))
                  ∷ []))
  unfolding pass request_handler
  answered endpt a times q s =
      let h : Holds endpt.rdbuffer s.rdblock = s.reads in
      let n = length-wire q.header q.token (in_order r q.options) q.payload in
      let small : wrsize < 4294967296 = omega (arith, s.writes.small, s.wrcount) in
      let room : length a.bytes ≤ endpt.rdbuffer.nbytes = omega (arith, q.room, s.rdcount) in
      let msg : Message Sockaddr = received r q.header q.token q.options q.payload a.sender in
      let endpt1 : Endpoint = with_datagram endpt s.rdblock a in
      let front =
        recv-wire r endpt a s.rdblock q.header q.token q.options q.payload h q.done q.form room fuel
          q.no_ack in
      let (buffer, run, (block', holds), same) =
        send-held
          (received-IsMessage r q.header q.token q.options q.payload a.sender q.form.readable
            (omega (arith, n, small, q.fits))
            (omega (arith, n, small, q.fits, payload-le-marked q.payload)))
          (received-AllWritable r q.header q.token q.options q.payload a.sender q.form.readable)
          q.form.header_small (omega (arith, small, q.fits)) net (slots endpt1) endpt1 s.wrblock
          (some a.sender) null s.writes q.plain in
      let whole : datagram endpt.wrbuffer (answer q) ≡ answer q =
        rw (le→leb (length (answer q)) endpt.wrbuffer.nbytes (omega (arith, q.fits, s.wrcount)))
          refl in
      let endpt2 : Endpoint =
        transmitted net (slots endpt1).sending (record endpt1 { wrbuffer = buffer }) (answer q)
          (some a.sender) in
      let endpt3 : Endpoint = record endpt2 { running = pos 1 } in
      (
        endpt3,
        rw (front, run, whole) (check_queues-none net times fuel endpt3 s.waits enough),
        record {
          rdblock = splice s.rdblock 0 a.bytes;
          reads = record {
            bytes = refl;
            within = omega (
              arith,
              h.within,
              length-splice s.rdblock 0 a.bytes (omega (arith, h.within, room)),
            );
            small = h.small;
          };
          rdcount = s.rdcount;
          wrblock = block';
          writes = holds;
          wrcount = same ∙ s.wrcount;
          waits = s.waits;
          runs = refl;
        },
        refl,
      )

  quiet_lem :
      (endpt : Endpoint) (a : Arrival) (times : Times)
      → is_done a.err ≡ false
      → IsReady rdsize wrsize endpt
      → pass r net (request_handler net slots) fuel endpt a times
        ≡ ok (record endpt { tmout = Timeout.markstart a.now endpt.tmout })
  quiet_lem endpt a times e s =
      pass_lem r net (request_handler net slots) fuel endpt a times e
      ∙ check_queues-none net times fuel
          (record endpt { tmout = Timeout.markstart a.now endpt.tmout }) s.waits enough

  loop_lem :
      (arrivals : List (Arrival × Times)) (endpt : Endpoint) (t : Traffic r rdsize wrsize arrivals)
      → IsReady rdsize wrsize endpt
      → (endpt' : Endpoint) × (read_loop r net (request_handler net slots) fuel arrivals endpt
          ≡ ok endpt')
        × (endpt'.trace ≡ echoes net r rdsize wrsize arrivals t endpt.trace)
  unfolding read_loop
  loop_lem [] endpt t s = (endpt, refl, refl)
  loop_lem ((a, times) ∷ rest) endpt (inl q, t) s =
      let (endpt1, run, s1, trace1) = answered endpt a times q s in
      let (endpt', runs, trace') = loop_lem rest endpt1 t s1 in
      (endpt', rw (s.runs, run) runs, trace' ∙ ap (echoes net r rdsize wrsize rest t) trace1)
  loop_lem ((a, times) ∷ rest) endpt (inr quiet, t) s =
      let endpt1 : Endpoint = record endpt { tmout = Timeout.markstart a.now endpt.tmout } in
      let (endpt', runs, trace') = loop_lem rest endpt1 t (record {
        rdblock = s.rdblock;
        reads = s.reads;
        rdcount = s.rdcount;
        wrblock = s.wrblock;
        writes = s.writes;
        wrcount = s.wrcount;
        waits = s.waits;
        runs = s.runs;
      }) in
      (endpt', rw (s.runs, quiet_lem endpt a times quiet s) runs, trace')

started-IsReady :
    (s : Start) (handler : Ptr)
    → IsReady 1024 1024 (record (fresh s) { running = pos 1; readfn = handler })
unfolding Buffer.init Queue.init
started-IsReady s handler =
    let n = length-replicate {A = ℕ} 1024 0 in
    record {
      rdblock = Buffer.calloc 1024;
      reads = record { bytes = refl; within = omega (arith, n); small = omega arith };
      rdcount = refl;
      wrblock = Buffer.calloc 1024;
      writes = record { bytes = refl; within = omega (arith, n); small = omega arith };
      wrcount = refl;
      waits = record { front = refl; back = refl; linked = tt; distinct = tt };
      runs = refl;
    }

-- The time server answers each message of its traffic that is neither an acknowledgement nor to be
-- confirmed, in the order in which they arrive, and does nothing else: what it hands to the socket is,
-- for each, one datagram to where the message came from, which is the message with its header, token and
-- payload and its options in the order of `qsort`. It goes through all arrivals without a fault, with
-- nothing sent where nothing arrives. Each message fits into 1024 bytes, as does its answer, and its
-- options, of which there may be none, have numbers less than 269 apart and values shorter than 269
-- bytes.
pub run_server-echoes :
    (resolver : Resolver) (r : Reading) (net : Net) (slots : Endpoint → Slot) (handler : Ptr)
    (fuel : ℕ) (s : Start) (arrivals : List (Arrival × Times)) (port : ℕ)
    (t : Traffic r 1024 1024 arrivals)
    → 0 < fuel
    → (endpt' : Endpoint) × (run_server resolver r net slots handler fuel s arrivals port
        ≡ ok endpt')
      × (endpt'.trace ≡ echoes net r 1024 1024 arrivals t s.endpt.trace)
unfolding run_server run_loop Endpoint.deinit
run_server-echoes resolver r net slots handler fuel s arrivals port t enough =
    let endpt : Endpoint = record (fresh s) { running = pos 1; readfn = handler } in
    let (endpt', run, trace) =
      loop_lem r net slots fuel 1024 1024 enough arrivals endpt t (started-IsReady s handler) in
    (Endpoint.deinit endpt', rw (opened-fresh resolver s port, run) refl, trace)
