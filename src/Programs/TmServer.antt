-- ===== src/Programs/TmServer.antt =====
-- examples/tmserver/tmserver.c: a server that sends each message back to where it came from.
pub mod Echo
use mcoap.Base.{ℕ, Option, none, some, List, [], ◌∷◌, if◌then◌else◌}
use mcoap.Base.Int.{ℤ, pos}
use mcoap.Base.Run.{Run, ok, lift, ◌>>=◌}
use mcoap.CString.{Text}
use mcoap.Sockaddr.{Sockaddr, Resolver}
use mcoap.Message.{Message}
use mcoap.Uri.{default_port}
use mcoap.Queue.{null, is_zero, Ptr}
use mcoap.Endpoint
use mcoap.Endpoint.{Endpoint}
use mcoap.Endpoint.Send.{Net, Slot, Times, send}
use mcoap.Endpoint.Receive.{Reading, Arrival, ReadFn, run_loop}
use mcoap.Programs.{Start, opened}
use mcoap.Programs.Args

-- The memory that a send allocates depends on the endpoint at that time.
unfoldable pub request_handler : Net → (Endpoint → Slot) → ReadFn
request_handler net slots endpt msg = elim msg.source [
  | none ↦ ok (pos 1, endpt)
  | some sender ↦ (do
    (err, endpt') ← send net (slots endpt) endpt (some sender) msg null
    ok (pos 1, endpt'))
]

-- `handler` is the address of `request_handler`.
unfoldable pub run_server :
    Resolver
    → Reading
    → Net
    → (Endpoint → Slot)
    → Ptr
    → ℕ
    → Start
    → List (Arrival × Times)
    → ℕ
    → Run Endpoint
unfolding request_handler opened
run_server resolver r net slots handler fuel s arrivals port = do
  endpt ← run_loop r net (request_handler net slots) handler fuel arrivals (opened resolver s port)
  ok (Endpoint.deinit endpt)

-- `"-s"`
abbrev server_flag : Text
server_flag = b'-' ∷ b's' ∷ []

unfoldable pub getport : (Text → ℤ) → List Text → ℕ → Option (ℤ × ℕ)
getport wild argv port = Args.getport wild server_flag argv port

-- Nothing where the usage is printed.
unfoldable pub main :
    (Text → ℤ)
    → Resolver
    → Reading
    → Net
    → (Endpoint → Slot)
    → Ptr
    → ℕ
    → Start
    → List (Arrival × Times)
    → List Text
    → Run (Option Endpoint)
unfolding getport run_server
main wild resolver r net slots handler fuel s arrivals argv = do
  (err, port) ← lift (getport wild argv default_port)
  if is_zero err
      then (do
        endpt ← run_server resolver r net slots handler fuel s arrivals port
        ok (some endpt))
      else ok none
