-- ===== src/Uri/Address.antt =====
-- `mc_uri_to_address`: a socket address from a URI.
use mcoap.Base.{Bool, Option, none, some, length, ◌==◌, if◌then◌else◌, ◌>>=◌}
use mcoap.Base.Int.{ℤ}
use mcoap.CString.{Text}
use mcoap.Sockaddr.{Sockaddr, Resolver, inet_init}
use mcoap.Uri.{authority, getaddress, getport, skip_host}

-- The result is null, or whether the pointer is returned with what it points to.
unfoldable pub to_address :
    Resolver → (Text → ℤ) → Option Sockaddr → Text → Option (Option (Bool × Sockaddr))
to_address resolver wild addr uri = elim (authority uri) [
  | none ↦ some none
  | some current ↦ (do
    address ← getaddress current
    elim address [
      | none ↦ some none
      | some host ↦ if length host == 0 then some none else (do
        rest ← skip_host current host
        port ← getport wild (some rest)
        if port == 0 then some none else some (inet_init resolver addr host port))
    ])
]
