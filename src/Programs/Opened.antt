-- ===== src/Programs/Opened.antt =====
-- The endpoint that a program opens.
use mcoap.Base.{ℕ, ◌≡◌, refl, some, Bool, true, false, to_u16, if◌then◌else◌}
use mcoap.Base.Int.{pos}
use mcoap.Timeout
use mcoap.Timeout.{unlimited}
use mcoap.Sockaddr.{Resolver, is_done, inet_init_at}
use mcoap.Buffer
use mcoap.Queue
use mcoap.Queue.{null}
use mcoap.Endpoint
use mcoap.Endpoint.{Endpoint, skip_zero, default_endpt_timeout}
use mcoap.Programs.{Start, any_host, opened}

abbrev pub fresh : Start → Endpoint
fresh s = record s.endpt {
  readfn = null;
  thread = null;
  running = pos 0;
  nextid = skip_zero (to_u16 s.rand);
  rdbuffer = Buffer.init s.endpt.rdbuffer 1024 (some (Buffer.calloc 1024));
  wrbuffer = Buffer.init s.endpt.wrbuffer 1024 (some (Buffer.calloc 1024));
  confirmq = Queue.init s.endpt.confirmq;
  tmout = Timeout.init s.endpt.tmout default_endpt_timeout unlimited;
}

either_way :
    (found made bound : Bool) (endpt : Endpoint)
    → (if◌then◌else◌ {A = Bool × Endpoint} found
        (if made then (bound, endpt) else (false, endpt))
        (false, endpt)).1
      ≡ endpt
either_way true true bound endpt = refl
either_way true false bound endpt = refl
either_way false made bound endpt = refl

-- It is the same whatever the creation and the binding of the socket gave.
pub opened-fresh : (resolver : Resolver) (s : Start) (port : ℕ) → opened resolver s port ≡ fresh s
unfolding opened Endpoint.init
opened-fresh resolver s port =
    either_way (inet_init_at resolver s.own any_host port).0 (is_done s.create_err)
      (is_done s.bind_err) (fresh s)
