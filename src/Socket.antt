-- ===== src/Socket.antt =====
-- mnet/mn_socket_unix.c, as it is built without SOCKET_POLL: the loops around the system calls. What the
-- system answers to each call, what the clock shows and the numbers of errno.h are arguments; `fuel`
-- bounds the calls of one loop.
pub mod Transfer
use mcoap.Base.{
  ℕ, zero, suc, ◌+◌, Bool, true, false, ◌&&◌, ◌||◌, not, Option, none, some, List, [], ◌∷◌, ltb,
  ◌==◌, if◌then◌else◌,
}
use mcoap.Base.Int.{ℤ, pos, negsuc, pos_part}
use mcoap.Base.Run.{Run, ok, stuck, ◌>>=◌}
use mcoap.Sockaddr.{mn_done, mn_timeout, mn_closed, is_done}
use mcoap.Timeout
use mcoap.Timeout.{Timeout, Clock, is_negative}

abbrev pub same_ℤ : ℤ → ℤ → Bool
same_ℤ (pos a) (pos b) = a == b
same_ℤ (pos a) (negsuc b) = false
same_ℤ (negsuc a) (pos b) = false
same_ℤ (negsuc a) (negsuc b) = a == b

-- The error numbers that are told apart.
pub record Codes : Type 0 where
  pub eintr : ℤ
  pub eagain : ℤ
  pub epipe : ℤ
  pub econnaborted : ℤ
  pub einprogress : ℤ

-- What a system call returns, and `errno` after it.
pub record Reply : Type 0 where
  pub ret : ℤ
  pub errno : ℤ

-- The answers during one operation: to its calls, and in the wait behind each to the calls of `select`,
-- which depend on the time left, null where there is no limit; with whether the socket is in the set to
-- read from afterwards.
pub record System : Type 0 where
  pub call : ℕ → Reply
  pub select : ℕ → ℕ → Option ℤ → Reply
  pub readable : ℕ → Bool
  pub clock : ℕ → ℕ → Clock

-- `MN_SOCKET_INVALID`
abbrev pub invalid : ℤ
invalid = negsuc 0

abbrev pub failed : Reply → Bool
failed r = same_ℤ r.ret (negsuc 0)

abbrev pub is_positive : ℤ → Bool
is_positive (pos n) = ltb 0 n
is_positive (negsuc n) = false

-- `mn_timeout_iszero`
abbrev pub iszero : Timeout → Bool
iszero tout = same_ℤ tout.block (pos 0)

-- Whether a wait is for a connection, WAITFD_C.
abbrev pub Wait : Type 0
Wait = Bool

module _ (codes : Codes) (system : System) (tout : Timeout) where
  -- The loop of `mn_socket_waitfd` behind call `k`, from `select` number `n` on.
  unfoldable pub waitfd_loop : ℕ → ℕ → ℕ → Run Reply
  waitfd_loop zero k n = stuck
  waitfd_loop (suc fuel) k n =
      let tleft = Timeout.getretry (system.clock k n) tout in
      let r = system.select k n (if is_negative tleft then none else some tleft) in
      let again = waitfd_loop fuel k (n + 1) in
      if failed r && same_ℤ r.errno codes.eintr then again else ok r

  unfoldable pub waitfd : ℕ → ℕ → Wait → Run ℤ
  unfolding waitfd_loop
  waitfd fuel k connecting = if iszero tout then ok mn_timeout else (do
    r ← waitfd_loop fuel k 0
    ok (
        if failed r
        then r.errno
        else if same_ℤ r.ret (pos 0)
        then mn_timeout
        else if connecting && system.readable k
        then mn_closed
        else mn_done))

  -- The loop that `mn_socket_send`, `mn_socket_sendto`, `mn_socket_recv` and `mn_socket_recvfrom` have,
  -- with the test for a closed connection: the error, and `*sent` or `*got`.
  unfoldable pub transfer_loop : (Reply → Bool) → ℕ → ℕ → Run (ℤ × ℕ)
  unfolding waitfd
  transfer_loop is_closed zero k = stuck
  transfer_loop is_closed (suc fuel) k =
      let r = system.call k in
      let again = transfer_loop is_closed fuel (k + 1) in
      if is_positive r.ret
      then ok (mn_done, pos_part r.ret)
      else if is_closed r
      then ok (mn_closed, 0)
      else if same_ℤ r.errno codes.eintr
      then again
      else if not (same_ℤ r.errno codes.eagain)
      then ok (r.errno, 0)
      else (do err ← waitfd fuel k false; if is_done err then again else ok (err, 0))

  abbrev pub send_closed : Reply → Bool
  send_closed r = same_ℤ r.ret (pos 0) || same_ℤ r.errno codes.epipe

  abbrev pub recv_closed : Reply → Bool
  recv_closed r = same_ℤ r.ret (pos 0)

  unfoldable pub send : ℤ → ℕ → Run (ℤ × ℕ)
  unfolding transfer_loop
  send sock fuel =
      if same_ℤ sock invalid then ok (mn_closed, 0) else transfer_loop send_closed fuel 0

  unfoldable pub sendto : ℤ → ℕ → Run (ℤ × ℕ)
  unfolding transfer_loop
  sendto sock fuel =
      if same_ℤ sock invalid then ok (mn_closed, 0) else transfer_loop send_closed fuel 0

  unfoldable pub recv : ℤ → ℕ → Run (ℤ × ℕ)
  unfolding transfer_loop
  recv sock fuel =
      if same_ℤ sock invalid then ok (mn_closed, 0) else transfer_loop recv_closed fuel 0

  unfoldable pub recvfrom : ℤ → ℕ → Run (ℤ × ℕ)
  unfolding transfer_loop
  recvfrom sock fuel =
      if same_ℤ sock invalid then ok (mn_closed, 0) else transfer_loop recv_closed fuel 0

  -- The error and `*asock`.
  unfoldable pub accept_loop : ℕ → ℕ → Run (ℤ × ℤ)
  unfolding waitfd
  accept_loop zero k = stuck
  accept_loop (suc fuel) k =
      let r = system.call k in
      let again = accept_loop fuel (k + 1) in
      if not (same_ℤ r.ret invalid)
      then ok (mn_done, r.ret)
      else if same_ℤ r.errno codes.eintr
      then again
      else if not (same_ℤ r.errno codes.eagain) && not (same_ℤ r.errno codes.econnaborted)
      then ok (r.errno, r.ret)
      else (do err ← waitfd fuel k false; if is_done err then again else ok (err, r.ret))

  -- `asock` is what the pointer held.
  unfoldable pub accept : ℤ → ℤ → ℕ → Run (ℤ × ℤ)
  unfolding accept_loop
  accept sock asock fuel = if same_ℤ sock invalid then ok (mn_closed, asock) else accept_loop fuel 0

  -- The loop of `mn_socket_connect`: the number of the last call, with none for a connection and `errno`
  -- for an error.
  unfoldable pub connect_loop : ℕ → ℕ → Run (ℕ × Option ℤ)
  connect_loop zero k = stuck
  connect_loop (suc fuel) k =
      let r = system.call k in
      let again = connect_loop fuel (k + 1) in
      if same_ℤ r.ret (pos 0)
      then ok (k, none)
      else if same_ℤ r.errno codes.eintr
      then again
      else ok (k, some r.errno)

  -- `probe` is the answer to the `recv` of no bytes.
  unfoldable pub connect : ℤ → Reply → ℕ → Run ℤ
  unfolding connect_loop waitfd
  connect sock probe fuel = if same_ℤ sock invalid then ok mn_closed else (do
    (k, result) ← connect_loop fuel 0
    elim result [
      | none ↦ ok mn_done
      | some err ↦
          if not (same_ℤ err codes.einprogress) && not (same_ℤ err codes.eagain)
          then ok err
          else if iszero tout
          then ok mn_timeout
          else (do
            waited ← waitfd fuel k true
            ok (
                if same_ℤ waited mn_closed
                then (if same_ℤ probe.ret (pos 0) then mn_done else probe.errno)
                else waited))
    ])

-- `mn_socket_setblocking` and `mn_socket_setnonblocking`, from the answer to the second `fcntl`.
unfoldable pub setblocking : Reply → ℤ
setblocking r = if failed r then r.errno else mn_done

unfoldable pub setnonblocking : Reply → ℤ
setnonblocking r = if failed r then r.errno else mn_done

-- The error and `*sock`, from the answers to `socket` and `setsockopt`.
unfoldable pub create : Reply → Reply → ℤ × ℤ
create made option =
    if same_ℤ made.ret invalid then (made.errno, invalid) else (option.ret, made.ret)

-- From the answers to `fcntl`, `bind` and `fcntl`.
unfoldable pub bind : Reply → Reply → Reply → ℤ
unfolding setblocking setnonblocking
bind blocking bound nonblocking =
    let err = setblocking blocking in
    if not (is_done err)
    then err
    else if is_negative bound.ret
    then bound.errno
    else setnonblocking nonblocking

-- From the answer to `listen`; those to `fcntl` are not looked at.
unfoldable pub listen : Reply → ℤ
listen r = if not (same_ℤ r.ret (pos 0)) then r.errno else mn_done
