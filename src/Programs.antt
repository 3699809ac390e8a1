-- ===== src/Programs.antt =====
-- The programs: mcget, and the time server and its client under examples. What they take from their
-- arguments is in `Args`.
pub mod Args
pub mod Opened
pub mod Mcget
pub mod TmServer
pub mod TmClient
pub mod Exchange
use mcoap.Base.{ℕ, Bool, Option, none, some, List, [], ◌∷◌}
use mcoap.Base.Int.{ℤ}
use mcoap.CString.{Text}
use mcoap.Sockaddr.{Sockaddr, Resolver}
use mcoap.Endpoint
use mcoap.Endpoint.{Endpoint}

-- "0.0.0.0"
abbrev pub any_host : Text
any_host = b'0' ∷ b'.' ∷ b'0' ∷ b'.' ∷ b'0' ∷ b'.' ∷ b'0' ∷ []

-- What the construction of an endpoint finds: the number that `rand` returns, the error codes of the
-- socket's creation and binding, and what the local variables for the endpoint, the address that it is
-- bound to and the address of the other side held.
pub record Start : Type 0 where
  pub rand : ℕ
  pub create_err : ℤ
  pub bind_err : ℤ
  pub endpt : Endpoint
  pub own : Sockaddr
  pub other : Sockaddr

-- `mc_endpt_udp_init(&endpt, 1024, 1024, "0.0.0.0", port)`, whose result the programs do not look at.
unfoldable pub opened : Resolver → Start → ℕ → Endpoint
opened resolver s port =
    let (ready, endpt) =
      Endpoint.init resolver s.rand s.create_err s.bind_err s.own s.endpt 1024 1024 (some any_host)
        port in
    endpt

-- What the address at `addr`, which held `former`, holds after `mc_uri_to_address(&addr, uri)`, whose
-- result the programs do not look at: what it held where no address comes out of the URI.
abbrev pub address_after : Option (Bool × Sockaddr) → Sockaddr → Sockaddr
address_after none former = former
address_after (some (there, addr)) former = addr
