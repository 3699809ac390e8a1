-- ===== src/Programs/TmClient.antt =====
-- examples/tmclient/tmclient.c: a client that posts numbered payloads. What it prints of an answer is a
-- value; the times that it measures are left out.
pub mod Answers
pub mod Rounds
use mcoap.Base.{
  ℕ, zero, suc, ◌+◌, ◌*◌, ◌/◌, Option, none, some, List, [], ◌∷◌, ◌++◌, block_of, read_at, write_at,
  ltb, if◌then◌else◌, ◌>>=◌,
}
use mcoap.Base.Int.{ℤ}
use mcoap.Base.Run
use mcoap.Base.Run.{Run, ok, lift}
use mcoap.CString.{Text, decimal}
use mcoap.Buffer
use mcoap.Buffer.{Buffer}
use mcoap.Sockaddr.{Sockaddr}
use mcoap.Message.{Message}
use mcoap.Uri.{default_port}
use mcoap.Uri.Address.{to_address}
use mcoap.Queue.{null, is_zero}
use mcoap.Endpoint
use mcoap.Endpoint.{Endpoint}
use mcoap.Endpoint.Send.{Net, Slot}
use mcoap.Endpoint.Receive.{Reading, Arrival, recv}
use mcoap.Endpoint.Request
use mcoap.Endpoint.Request.{Outside}
use mcoap.Programs.{Start, opened, address_after}
use mcoap.Programs.Args

-- `float64` is the eight bytes of the double that an `int` is converted to.
unfoldable pub mk_payload : (ℕ → List ℕ) → ℕ → ℕ → Option Buffer
mk_payload float64 ndoubles npacket = do
  block ← write_at (Buffer.calloc (ndoubles * 8)) 0 (float64 npacket)
  some (Buffer.init Buffer.alloc (ndoubles * 8) (some block))

-- The eight bytes that are printed as the number of the message, and its count. The payload is read
-- without a look whether it is null.
unfoldable pub process_resp : Option (Message Sockaddr) → Option (Option (List ℕ × ℕ))
process_resp none = some none
process_resp (some msg) = do
  payload ← msg.payload
  number ← read_at (block_of payload.bytes) 0 8
  some (some (number, payload.nbytes))

-- "coap://127.0.0.1:%u/gettime"
abbrev pub uri_front : Text
uri_front =
    b'c' ∷ b'o' ∷ b'a' ∷ b'p' ∷ b':' ∷ b'/' ∷ b'/' ∷ b'1' ∷ b'2' ∷ b'7' ∷ b'.' ∷ b'0' ∷ b'.' ∷ b'0'
    ∷ b'.' ∷ b'1' ∷ b':' ∷ []

abbrev pub uri_back : Text
uri_back = b'/' ∷ b'g' ∷ b'e' ∷ b't' ∷ b't' ∷ b'i' ∷ b'm' ∷ b'e' ∷ []

unfoldable pub server_uri : ℕ → Text
server_uri srvport = uri_front ++ (decimal srvport ++ uri_back)

-- The doubles of a payload for so many bytes, at least three and at most 32.
unfoldable pub doubles_for : ℕ → ℕ
doubles_for nbytes =
    let enough = if ltb nbytes 24 then 24 else nbytes in
    (if ltb 256 enough then 256 else enough) / 8

-- A later flag is looked for only where the ones before were no error.
abbrev next_flag : (Text → ℤ) → ℕ → List Text → ℤ → ℕ → Option (ℤ × ℕ)
next_flag wild letter argv err port =
    if is_zero err then Args.getport wild (b'-' ∷ letter ∷ []) argv port else some (err, port)

-- The arguments of `run_client`, nothing where the usage is printed.
unfoldable pub main_args : (Text → ℤ) → List Text → Option (Option (ℕ × ℕ × ℕ × ℕ))
main_args wild argv = do
  (err1, cltport) ← Args.getport wild (b'-' ∷ b'c' ∷ []) argv (default_port + 1)
  (err2, srvport) ← next_flag wild b's' argv err1 default_port
  (err3, ntimes) ← next_flag wild b't' argv err2 10
  (err4, nbytes) ← next_flag wild b'b' argv err3 256
  some (if is_zero err4 then some (cltport, srvport, ntimes, nbytes) else none)

-- What one round finds: what `rand` returns for the token, the fresh memory, and what arrives.
pub record Round : Type 0 where
  pub rand : ℕ
  pub slot : Slot
  pub arrival : Arrival

module _ (o : Outside) (net : Net) (r : Reading) (fuel : ℕ) (float64 : ℕ → List ℕ)
    (rounds : ℕ → Round) where
  -- One pass through the loop of `run_client`.
  unfoldable pub client_round :
      Sockaddr → Text → ℕ → ℕ → Endpoint → Run (Option (List ℕ × ℕ) × Endpoint)
  unfolding mk_payload process_resp
  client_round addr uri ndoubles itimes endpt =
      let round = rounds itimes in
      Run.◌>>=◌ (lift (mk_payload float64 ndoubles itimes)) (λ payload.
        Run.◌>>=◌
          (Request.post (record o { rand = round.rand }) net round.slot endpt (some addr) null uri
            none (some payload))
          (λ (msgid, endpt').
            Run.◌>>=◌ (recv r fuel endpt' round.arrival) (λ (msg, endpt'').
              Run.◌>>=◌ (lift (process_resp msg)) (λ shown. ok (shown, endpt'')))))

  -- `left` rounds from round `itimes` on.
  unfoldable pub client_loop :
      Sockaddr → Text → ℕ → ℕ → ℕ → Endpoint → Run (List (Option (List ℕ × ℕ)) × Endpoint)
  unfolding client_round
  client_loop addr uri ndoubles zero itimes endpt = ok ([], endpt)
  client_loop addr uri ndoubles (suc left) itimes endpt =
      Run.◌>>=◌ (client_round addr uri ndoubles itimes endpt) (λ (first, endpt').
        Run.◌>>=◌ (client_loop addr uri ndoubles left (itimes + 1) endpt')
          (λ (rest, endpt''). ok (first ∷ rest, endpt'')))

  unfoldable pub run_client : Start → ℕ → ℕ → ℕ → ℕ → Run (List (Option (List ℕ × ℕ)) × Endpoint)
  unfolding opened server_uri doubles_for client_loop
  run_client s cltport srvport ntimes nbytes =
      let uri = server_uri srvport in
      Run.◌>>=◌ (lift (to_address o.resolver o.wild (some s.other) uri)) (λ found.
        let addr = address_after found s.other in
        Run.◌>>=◌ (client_loop addr uri (doubles_for nbytes) ntimes 0 (opened o.resolver s cltport))
          (λ (shown, endpt). ok (shown, Endpoint.deinit endpt)))

  unfoldable pub main : Start → List Text → Run (Option (List (Option (List ℕ × ℕ)) × Endpoint))
  unfolding main_args run_client
  main s argv = Run.◌>>=◌ (lift (main_args o.wild argv)) (λ args. elim args [
    | none ↦ ok none
    | some (cltport, srvport, ntimes, nbytes) ↦
        Run.◌>>=◌ (run_client s cltport srvport ntimes nbytes) (λ shown. ok (some shown))
  ])
