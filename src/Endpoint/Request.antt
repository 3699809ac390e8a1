-- ===== src/Endpoint/Request.antt =====
-- The requests of a client, and the message that only acknowledges.
pub mod Sends
pub mod FromUri
pub mod Unconfirmed
use mcoap.Base.{ℕ, Bool, Option, none, some, ◌==◌, if◌then◌else◌}
use mcoap.Base.Int.{ℤ}
use mcoap.Base.Run.{Run, ok, lift, ◌>>=◌}
use mcoap.CString.{Text}
use mcoap.Code
use mcoap.Sockaddr.{Sockaddr, Resolver, is_done}
use mcoap.Buffer.{Buffer}
use mcoap.OptionsList
use mcoap.OptionsList.{OptionsList, Qsort}
use mcoap.Token
use mcoap.Message
use mcoap.Message.{Message}
use mcoap.Uri.Options.{to_options}
use mcoap.Queue.{Ptr, null}
use mcoap.Endpoint.{Endpoint, next_id}
use mcoap.Endpoint.Send.{Net, Slot, send}

-- `mc_endpt_udp_ack`; the message is on the stack, and is not confirmable.
unfoldable pub ack :
    Net → Slot → Endpoint → Option Sockaddr → Option Buffer → ℕ → Run (ℤ × Endpoint)
ack net slot endpt addr token msgid = do
  msg ← lift (Message.init Message.message_version Message.type_ack 0 msgid token none none)
  send net slot endpt addr msg null

-- What a request depends on besides the endpoint: `qsort`, the resolver, `mn_sockaddr_in6` comparison,
-- the content of a local variable, `atoi` out of range, and what `rand` returns for the token.
pub record Outside : Type 0 where
  pub qsort : Qsort
  pub resolver : Resolver
  pub same_in6 : Sockaddr → Sockaddr → Bool
  pub junk : Sockaddr
  pub wild : Text → ℤ
  pub rand : ℕ

-- With extra options the URI's list is released by `mc_options_list_deinit`, which follows the pointer:
-- a null list is a fault.
unfoldable pub mk_options :
    Outside → Text → Option Sockaddr → Option OptionsList → Run (Option OptionsList)
unfolding to_options
mk_options o uri addr none = to_options o.qsort o.resolver o.same_in6 o.junk o.wild addr uri
mk_options o uri addr (some extra) = do
  list ← to_options o.qsort o.resolver o.same_in6 o.junk o.wild addr uri
  merged ← lift (OptionsList.merge o.qsort list (some extra))
  _ ← lift list
  ok merged

-- With a result function the message is confirmable. The id, the message and the endpoint.
unfoldable pub mk_message :
    Outside
    → Endpoint
    → ℕ
    → Ptr
    → Option OptionsList
    → Option Buffer
    → Run (ℕ × Message Sockaddr × Endpoint)
unfolding next_id
mk_message o endpt code resultfn list payload = do
  let (msgid, endpt') = next_id endpt
  let token = some (Token.create2 o.rand msgid)
  msg ← lift (
      if resultfn == null
      then Message.non_init code msgid token list payload
      else Message.con_init code msgid token list payload)
  ok (msgid, msg, endpt')

-- The message id, 0 if the message was not sent.
unfoldable pub send_msg :
    Outside
    → Net
    → Slot
    → Endpoint
    → Option Sockaddr
    → Ptr
    → ℕ
    → Text
    → Option OptionsList
    → Option Buffer
    → Run (ℕ × Endpoint)
unfolding mk_options mk_message send
send_msg o net slot endpt addr resultfn code uri extra payload = do
  list ← mk_options o uri addr extra
  (msgid, msg, endpt') ← mk_message o endpt code resultfn list payload
  (err, endpt'') ← send net slot endpt' addr msg resultfn
  ok (if is_done err then msgid else 0, endpt'')

module _ (o : Outside) (net : Net) (slot : Slot) (endpt : Endpoint) (addr : Option Sockaddr)
    (resultfn : Ptr) (uri : Text) (extra : Option OptionsList) where
  unfoldable pub delete : Run (ℕ × Endpoint)
  delete = send_msg o net slot endpt addr resultfn Code.method_delete uri extra none

  unfoldable pub get : Run (ℕ × Endpoint)
  get = send_msg o net slot endpt addr resultfn Code.method_get uri extra none

  unfoldable pub post : Option Buffer → Run (ℕ × Endpoint)
  post payload = send_msg o net slot endpt addr resultfn Code.method_post uri extra payload

  unfoldable pub put : Option Buffer → Run (ℕ × Endpoint)
  put payload = send_msg o net slot endpt addr resultfn Code.method_put uri extra payload
