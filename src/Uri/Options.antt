-- ===== src/Uri/Options.antt =====
-- `mc_uri_to_options`: the options of a URI. The array of options has as many entries as
-- `estimatenopts` says, and a write past them is a fault.
use mcoap.Base.{
  ℕ, zero, suc, ◌-◌, Bool, Option, none, some, List, [], ◌∷◌, ◌++◌, length, replicate, add32, ltb,
  ◌==◌, if◌then◌else◌,
}
use mcoap.Base.Int.{ℤ}
use mcoap.Base.Run.{Run, ok, fault, stuck, lift, ◌>>=◌}
use mcoap.CString.{Text, skip}
use mcoap.Sockaddr.{Sockaddr, Resolver, inet_init_at}
use mcoap.CoapOption
use mcoap.CoapOption.{CoapOption}
use mcoap.OptionsList
use mcoap.OptionsList.{OptionsList, Qsort}
use mcoap.Uri.{
  getscheme, validscheme, authority, getaddress, getport, skip_host, advanceto, estimatenopts,
  getpath, getquery, equaladdr,
}

abbrev pub uri_host : ℕ
uri_host = 3

abbrev pub uri_port : ℕ
uri_port = 7

abbrev pub uri_path : ℕ
uri_path = 11

abbrev pub uri_query : ℕ
uri_query = 15

-- `options[iopt]` is set and `iopt` counted up; `out` are the entries that are set.
unfoldable pub push : ℕ → List CoapOption → CoapOption → Run (List CoapOption)
push nopts out option = if ltb (length out) nopts then ok (out ++ (option ∷ [])) else fault

abbrev pub str_option : ℕ → Text → CoapOption
str_option num value = CoapOption.init_str CoapOption.alloc num value

-- One of the two loops: `get` is `getpath` or `getquery`, `chars` are where a piece ends. The result is
-- the position and the entries. A round passes at least one byte, so one round for each byte and one
-- more are enough.
unfoldable pub pieces_loop :
    (Option Text → Option (Option Text))
    → Text
    → ℕ
    → ℕ
    → ℕ
    → Text
    → List CoapOption
    → Run (Text × List CoapOption)
pieces_loop get chars num nopts zero current out = stuck
pieces_loop get chars num nopts (suc fuel) current out = do
  piece ← lift (get (some current))
  elim piece [
    | none ↦ ok (current, out)
    | some text ↦ (do
      out' ← push nopts out (str_option num text)
      next ← lift (skip 1 current)
      pieces_loop get chars num nopts fuel (advanceto next chars) out')
  ]

-- The path and the query, behind the entries for the host and the port.
unfoldable pub path_and_query : ℕ → Text → List CoapOption → Run (List CoapOption)
unfolding pieces_loop
path_and_query nopts current out = do
  (current', paths) ←
      pieces_loop getpath (b'/' ∷ b'?' ∷ []) uri_path nopts (suc (length current)) current out
  (current'', all) ←
      pieces_loop getquery (b'&' ∷ []) uri_query nopts (suc (length current')) current' paths
  ok all

-- The entries for the host and the port, if the address is not that of the destination.
unfoldable pub host_and_port : Bool → ℕ → Text → ℕ → Run (List CoapOption)
host_and_port elided nopts host port = if elided then ok [] else (do
  out ← push nopts [] (str_option uri_host host)
  push nopts out (CoapOption.init_uint32 CoapOption.alloc uri_port port))

-- `junk` is what the local variable for the address holds at first, `wild` is of `atoi`.
module _ (qsort : Qsort) (resolver : Resolver) (same_in6 : Sockaddr → Sockaddr → Bool)
    (junk : Sockaddr) (wild : Text → ℤ) (dest : Option Sockaddr) where
  -- What remains once the host is known. `rest` is the URI behind it.
  unfoldable pub options_of : Text → Text → Run OptionsList
  options_of host rest = do
    port ← lift (getport wild (some rest))
    let current = advanceto rest (b'/' ∷ b'?' ∷ [])
    let estimate = estimatenopts current 0
    let uriaddr = (inet_init_at resolver junk host port).1
    let elided = equaladdr same_in6 (some uriaddr) dest
    let nopts = if elided then estimate else add32 estimate 2
    out ← host_and_port elided nopts host port
    all ← path_and_query nopts current out
    ok (
        OptionsList.init qsort OptionsList.alloc (length all)
          (some (all ++ replicate (nopts - length all) CoapOption.alloc)))

  unfoldable pub to_options : Text → Run (Option OptionsList)
  to_options uri =
      if validscheme (getscheme uri)
      then elim (authority uri) [
        | none ↦ ok none
        | some current ↦ (do
          address ← lift (getaddress current)
          elim address [
            | none ↦ ok none
            | some host ↦ if length host == 0 then ok none else (do
              rest ← lift (skip_host current host)
              list ← options_of host rest
              ok (some list))
          ])
      ]
      else ok none
