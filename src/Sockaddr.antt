-- ===== src/Sockaddr.antt =====
-- mnet/mn_sockaddr.c: IPv4 socket addresses, and the error codes of mnet/mn_error.h. What the system
-- knows of host names is a parameter.
use mcoap.Base.{ℕ, Bool, true, false, Option, none, some, [], ◌∷◌, to_u16, ◌==◌, if◌then◌else◌}
use mcoap.Base.Int.{ℤ, pos, negsuc}
use mcoap.Endian.{swap_u16}
use mcoap.CString.{Text, is_equal}

abbrev pub mn_done : ℤ
mn_done = pos 0

abbrev pub mn_timeout : ℤ
mn_timeout = negsuc 0

abbrev pub mn_closed : ℤ
mn_closed = negsuc 1

abbrev pub mn_unknown : ℤ
mn_unknown = negsuc 2

-- `err == MN_DONE`
abbrev pub is_done : ℤ → Bool
is_done (pos n) = n == 0
is_done (negsuc n) = false

-- `AF_INET`
abbrev pub af_inet : ℕ
af_inet = 2

-- `struct sockaddr_in`; the port and the address are in network order, `padding` is `sin_zero`.
pub record Sockaddr : Type 0 where
  pub family : ℕ
  pub port : ℕ
  pub addr : ℕ
  pub padding : ℕ

-- `sockaddr_t`, from `calloc`.
unfoldable pub alloc : Sockaddr
alloc = record { family = 0; port = 0; addr = 0; padding = 0 }

-- What `gethostbyname` returns: the first address of the host, or null with `h_errno` and `errno`.
pub data Lookup : Type 0 where
  found : ℕ → Lookup
  missing : ℤ → ℤ → Lookup

-- `inet_pton(AF_INET, ...)` and `gethostbyname`.
pub record Resolver : Type 0 where
  pub inet_pton : Text → Option ℕ
  pub gethostbyname : Text → Lookup

abbrev lookup_error : ℤ → ℤ → ℤ
lookup_error h_errno errno =
    if is_done h_errno then (if is_done errno then mn_unknown else errno) else h_errno

-- The error code, and the address where there is one.
unfoldable pub mn_gethostbyname : Lookup → ℤ × Option ℕ
mn_gethostbyname (found addr) = (mn_done, some addr)
mn_gethostbyname (missing h_errno errno) = (lookup_error h_errno errno, none)

module _ (resolver : Resolver) where
  -- The error code, and what `addr` points to afterwards.
  unfoldable pub host2addr : ℕ → Text → ℤ × ℕ
  unfolding mn_gethostbyname
  host2addr addr hostname = elim (resolver.inet_pton hostname) [
    | some converted ↦ (mn_done, converted)
    | none ↦
        let (err, hostent) = mn_gethostbyname (resolver.gethostbyname hostname) in
        elim hostent [ none ↦ (err, addr) | some first ↦ (mn_done, first) ]
  ]

  -- Whether the pointer or null is returned, and what it points to.
  unfoldable pub inet_init_at : Sockaddr → Text → ℕ → Bool × Sockaddr
  unfolding host2addr
  inet_init_at addr hostname port =
      let with_port = record addr { port = swap_u16 (to_u16 port) } in
      if is_equal hostname (b'*' ∷ [])
      then (true, record with_port { addr = 0 })
      else (let (err, inaddr) = host2addr addr.addr hostname in
          (is_done err, record with_port { family = af_inet; addr = inaddr }))

  unfoldable pub inet_init : Option Sockaddr → Text → ℕ → Option (Bool × Sockaddr)
  unfolding inet_init_at
  inet_init none hostname port = none
  inet_init (some addr) hostname port = some (inet_init_at addr hostname port)
