-- ===== src/Programs/Mcget.antt =====
-- mcget/mcget.c: a GET request for each URI among the arguments. What it prints of an answer is a
-- value; its other output is left out.
pub mod Main
pub mod Shows
use mcoap.Base.{
  ℕ, zero, suc, ◌+◌, Bool, Option, none, some, List, [], ◌∷◌, block_of, read_at, length, take, ltb,
  ◌==◌, if◌then◌else◌, ◌>>=◌,
}
use mcoap.Base.Int.{ℤ}
use mcoap.Base.Run
use mcoap.Base.Run.{Run, ok, lift}
use mcoap.CString.{Text}
use mcoap.Code
use mcoap.Buffer.{Buffer}
use mcoap.Sockaddr.{Sockaddr}
use mcoap.Message
use mcoap.Message.{Message}
use mcoap.Uri.{default_port}
use mcoap.Uri.Address.{to_address}
use mcoap.Queue.{null, is_zero}
use mcoap.Endpoint
use mcoap.Endpoint.{Endpoint}
use mcoap.Endpoint.Send.{Net, Slot}
use mcoap.Endpoint.Receive.{Reading, Arrival, recv}
use mcoap.Endpoint.Request
use mcoap.Endpoint.Request.{Outside}
use mcoap.Programs.{Start, opened, address_after}
use mcoap.Programs.Args
use mcoap.Programs.Args.{port_flag, packargs}

-- `print_token`: the bytes that are printed.
unfoldable pub print_token : Option Buffer → Option (List ℕ)
print_token none = none
print_token (some token) = read_at (block_of token.bytes) 0 token.nbytes

-- What `%.*s` prints of a block: at most so many bytes, and none from a 0 on.
unfoldable pub shown_text : ℕ → List ℕ → Option (List ℕ)
shown_text zero block = some []
shown_text (suc n) [] = none
shown_text (suc n) (c ∷ block) =
    let more = shown_text n block in if c == 0 then some [] else (do rest ← more; some (c ∷ rest))

-- A precision that is no `int` is negative, and a negative one is none.
abbrev pub shown_payload : Option Buffer → Option (Option (List ℕ))
unfolding shown_text
shown_payload none = some none
shown_payload (some payload) = do
  let block = block_of payload.bytes
  text ←
      shown_text (if ltb payload.nbytes 2147483648 then payload.nbytes else suc (length block))
        block
  some (some text)

-- What `print_msg` prints.
pub data Shown : Type 0 where
  no_response : Shown
  response : ℕ → ℕ → ℕ → List ℕ → ℕ → ℕ → Option (List ℕ) → Shown

unfoldable pub print_msg : Option (Message Sockaddr) → Option Shown
unfolding print_token shown_payload
print_msg none = some no_response
print_msg (some msg) = do
  let code = Message.get_code msg
  token ← print_token msg.token
  payload ← shown_payload msg.payload
  some (
      response (Message.get_version msg) (Message.get_type msg) (Message.get_message_id msg) token
        (Code.get_category code) (Code.get_detail code) payload)

-- What one request finds: the start of its endpoint, what `rand` returns for the token, the fresh
-- memory, and what arrives at each try.
pub record Visit : Type 0 where
  pub start : Start
  pub rand : ℕ
  pub slot : Slot
  pub arrivals : ℕ → Arrival

-- The tries to receive, `left` of them, after `ntries`.
unfoldable pub tries :
    Reading → ℕ → (ℕ → Arrival) → ℕ → ℕ → Endpoint → Run (Option (Message Sockaddr) × Endpoint)
tries r fuel arrivals zero ntries endpt = ok (none, endpt)
tries r fuel arrivals (suc left) ntries endpt =
    Run.◌>>=◌ (recv r fuel endpt (arrivals ntries)) (λ (msg, endpt'). elim msg [
      | none ↦ tries r fuel arrivals left (ntries + 1) endpt'
      | some m ↦ ok (some m, endpt')
    ])

module _ (o : Outside) (net : Net) (r : Reading) (fuel : ℕ) where
  unfoldable pub get_uri : Visit → ℕ → Text → Run (ℕ × Shown × Endpoint)
  unfolding opened tries print_msg
  get_uri v port uri =
      Run.◌>>=◌ (lift (to_address o.resolver o.wild (some v.start.other) uri)) (λ found.
        let addr = address_after found v.start.other in
        Run.◌>>=◌
          (Request.get (record o { rand = v.rand }) net v.slot (opened o.resolver v.start port)
            (some addr) null uri none)
          (λ (msgid, endpt). Run.◌>>=◌ (tries r fuel v.arrivals 3 0 endpt) (λ (msg, endpt').
            Run.◌>>=◌ (lift (print_msg msg)) (λ shown. ok (msgid, shown, Endpoint.deinit endpt')))))

  -- The loop of `get_uris`, from URI number `iuri` on.
  unfoldable pub get_uris : (ℕ → Visit) → ℕ → ℕ → List Text → Run (List (ℕ × Shown × Endpoint))
  unfolding get_uri
  get_uris visits port iuri [] = ok []
  get_uris visits port iuri (uri ∷ uris) =
      Run.◌>>=◌ (get_uri (visits iuri) port uri)
        (λ first. Run.◌>>=◌ (get_uris visits port (iuri + 1) uris) (λ rest. ok (first ∷ rest)))

  -- Nothing where the usage is printed.
  unfoldable pub main : (ℕ → Visit) → List Text → Run (Option (List (ℕ × Shown × Endpoint)))
  unfolding get_uris
  main visits argv =
      Run.◌>>=◌ (lift (Args.getport o.wild port_flag argv default_port)) (λ (err, port).
        Run.◌>>=◌ (packargs argv) (λ (argc, argv').
          if is_zero err
          then (if ltb argc 1
              then ok none
              else Run.◌>>=◌ (get_uris visits port 0 (take argc argv')) (λ shown. ok (some shown)))
          else ok none))
