-- ===== src/Uri.antt =====
-- mcoap/mc_uri.c: the pieces of a URI. Composing options from them is in `Options`, an address in
-- `Address`. An outer `none` is a read through a null pointer or past the end of a string.
pub mod Options
pub mod Address
pub mod Host
pub mod Safety
pub mod Pieces
pub mod Parse
use mcoap.Base.{
  ℕ, zero, suc, ◌+◌, ◌-◌, Bool, true, false, ◌&&◌, ◌||◌, not, Option, none, some, List, [], ◌∷◌,
  length, drop, add32, ◌==◌, if◌then◌else◌, ◌>>=◌,
}
use mcoap.Base.Int.{ℤ}
use mcoap.CString.{Text, first_char, skip, has, strcspn, is_equal, atoi, int_to_u32, copy_cstr}
use mcoap.Sockaddr.{Sockaddr, af_inet}

-- `MC_DEFAULT_PORT`
abbrev pub default_port : ℕ
default_port = 5683

abbrev pub coap : Text
coap = b'c' ∷ b'o' ∷ b'a' ∷ b'p' ∷ []

abbrev pub coaps : Text
coaps = b'c' ∷ b'o' ∷ b'a' ∷ b'p' ∷ b's' ∷ []

abbrev pub separator : Text
separator = b':' ∷ b'/' ∷ b'/' ∷ []

-- `strstr(uri, ":")` finds the first colon, if there is one.
unfoldable pub getscheme : Text → Option Text
getscheme uri = if has b':' uri then some (copy_cstr (strcspn uri (b':' ∷ [])) uri) else none

unfoldable pub validscheme : Option Text → Bool
validscheme none = false
validscheme (some scheme) =
    if is_equal scheme coap then true else if is_equal scheme coaps then true else false

unfoldable pub advanceby_loop : Text → Text → Option Text
advanceby_loop str [] = some str
advanceby_loop [] (p ∷ prefix) = none
advanceby_loop (c ∷ str) (p ∷ prefix) =
    let more = advanceby_loop str prefix in if c == p then more else none

unfoldable pub advanceby : Option Text → Option Text → Option Text
unfolding advanceby_loop
advanceby none prefix = none
advanceby (some str) none = none
advanceby (some str) (some prefix) = advanceby_loop str prefix

unfoldable pub getip6host : Option Text → Option (Option Text)
unfolding advanceby
getip6host none = some none
getip6host (some uri) = do
  current ← advanceby (some uri) (some (b'[' ∷ []))
  let nchar = strcspn current (b']' ∷ [])
  if nchar == 0
      then some none
      else if first_char (drop nchar current) == b']'
      then some (some (copy_cstr nchar current))
      else some none

unfoldable pub gethost : Option Text → Option Text
gethost none = none
gethost (some uri) = some (copy_cstr (strcspn uri (b':' ∷ b'/' ∷ [])) uri)

unfoldable pub getaddress : Text → Option (Option Text)
unfolding getip6host gethost
getaddress uri = if first_char uri == b'[' then getip6host (some uri) else some (gethost (some uri))

unfoldable pub port_or_default : ℕ → ℕ
port_or_default port = if port == 0 then default_port else port

-- `wild` is what `atoi` returns for a number that is no `int`.
unfoldable pub getport : (Text → ℤ) → Option Text → Option ℕ
unfolding advanceby port_or_default
getport wild none = some 0
getport wild (some uri) =
    if first_char uri == b':'
    then (do
      current ← advanceby (some uri) (some (b':' ∷ []))
      let portstr = copy_cstr (strcspn current (b'/' ∷ [])) current
      some (port_or_default (int_to_u32 (atoi wild portstr))))
    else some default_port

unfoldable pub advanceto : Text → Text → Text
advanceto str chars =
    let nbytes = strcspn str chars in drop (if nbytes == 0 then length str else nbytes) str

unfoldable pub estimatenopts : Text → ℕ → ℕ
estimatenopts [] nopts = nopts
estimatenopts (c ∷ str) nopts =
    estimatenopts str (if c == b'/' || c == b'?' || c == b'&' then add32 nopts 1 else nopts)

unfoldable pub getpath : Option Text → Option (Option Text)
unfolding advanceby
getpath none = some none
getpath (some uri) =
    if first_char uri == b'/'
    then (do
      current ← advanceby (some uri) (some (b'/' ∷ []))
      some (some (copy_cstr (strcspn current (b'/' ∷ b'?' ∷ [])) current)))
    else some none

unfoldable pub getquery : Option Text → Option (Option Text)
getquery none = some none
getquery (some current) =
    if first_char current == b'?' || first_char current == b'&'
    then (do next ← skip 1 current; some (some (copy_cstr (strcspn next (b'&' ∷ [])) next)))
    else some none

abbrev same_in : Sockaddr → Sockaddr → Bool
same_in left right =
    left.family == right.family
    && left.port == right.port
    && left.addr == right.addr
    && left.padding == right.padding

-- The first test, for the same pointer, stands inside a comment. `same_in6` is the comparison of as
-- many bytes as a `struct sockaddr_in6` has, which is more than a `sockaddr_t` has.
unfoldable pub equaladdr : (Sockaddr → Sockaddr → Bool) → Option Sockaddr → Option Sockaddr → Bool
equaladdr same_in6 none right = false
equaladdr same_in6 (some left) none = false
equaladdr same_in6 (some left) (some right) =
    if left.family == right.family
    then if left.family == af_inet then same_in left right else same_in6 left right
    else false

-- Past the brackets of an IPv6 host and past the host.
unfoldable pub skip_host : Text → Text → Option Text
skip_host current host = do
  inside ← if first_char current == b'[' then skip 2 current else some current
  skip (length host) inside

-- From the first colon on, past `://`.
unfoldable pub authority : Text → Option Text
unfolding advanceto advanceby
authority uri = advanceby (some (advanceto uri (b':' ∷ []))) (some separator)
