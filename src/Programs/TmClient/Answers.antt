-- ===== src/Programs/TmClient/Answers.antt =====
-- The time client: the address that it asks, and the answers that it cannot read.
use mcoap.Base.{ℕ, ◌≡◌, ◌<◌, refl, false, some, [], ◌∷◌, ◌++◌, All, arith, ◌==◌, length-append}
use mcoap.Base.Int.{ℤ, pos}
use mcoap.CString.{Text, decimal, int_to_u32}
use mcoap.CString.Decimal.{atoi-decimal, decimal-AllDigits, IsDigit, length-decimal}
use mcoap.Sockaddr.{Sockaddr, Resolver, inet_init, inet_init_at}
use mcoap.Uri.{
  authority, getaddress, skip_host, getport, advanceto, advanceby, gethost, port_or_default,
}
use mcoap.Uri.Address.{to_address}
use mcoap.Uri.Host.{skip_within}
use mcoap.Uri.Pieces.{IsFree, copy_free}
use mcoap.Programs.TmClient.{server_uri, uri_back}

-- "127.0.0.1"
abbrev pub loopback : Text
loopback = b'1' ∷ b'2' ∷ b'7' ∷ b'.' ∷ b'0' ∷ b'.' ∷ b'0' ∷ b'.' ∷ b'1' ∷ []

digits-IsFree : (text : Text) → All IsDigit text → IsFree (b'/' ∷ []) text
digits-IsFree [] all = tt
digits-IsFree (c ∷ text) all = (ground (arith, all.0), digits-IsFree text all.1)

-- What stands behind the host.
abbrev behind : ℕ → Text
behind port = b':' ∷ (decimal port ++ uri_back)

authority_lem : (port : ℕ) → authority (server_uri port) ≡ some (loopback ++ behind port)
unfolding authority server_uri advanceto advanceby
authority_lem port = refl

address_is : (port : ℕ) → getaddress (loopback ++ behind port) ≡ some (some loopback)
unfolding getaddress gethost
address_is port = refl

host_lem : (port : ℕ) → skip_host (loopback ++ behind port) loopback ≡ some (behind port)
unfolding skip_host
host_lem port =
    skip_within 9 (loopback ++ behind port) (omega (arith, length-append loopback (behind port)))

port_lem :
    (wild : Text → ℤ) (port : ℕ)
    → 0 < port
    → port < 65536
    → getport wild (some (behind port)) ≡ some port
unfolding getport advanceby port_or_default
port_lem wild port there small =
    let fits : int_to_u32 (pos port) ≡ port = omega arith in
    let one : (port == 0) ≡ false = ground arith in
    let free = digits-IsFree (decimal port) (decimal-AllDigits port (omega arith)) in
    rw
      (
        copy_free (b'/' ∷ []) (decimal port) uri_back free refl
            (omega (arith, length-decimal port)),
        atoi-decimal wild port (omega arith),
        fits,
        one,
      )
      refl

-- The URI that the client makes for the server's port stands for that port at 127.0.0.1.
server_uri-address :
    (resolver : Resolver) (wild : Text → ℤ) (addr : Sockaddr) (port : ℕ)
    → 0 < port
    → port < 65536
    → to_address resolver wild (some addr) (server_uri port)
      ≡ some (some (inet_init_at resolver addr loopback port))
unfolding to_address inet_init
server_uri-address resolver wild addr port there small =
    let one : (port == 0) ≡ false = ground arith in
    rw
      (
        to_address,
        authority_lem port,
        address_is port,
        host_lem port,
        port_lem wild port there small,
        one,
      )
      refl
