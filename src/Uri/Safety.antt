-- ===== src/Uri/Safety.antt =====
-- `mc_uri_to_options` on every string: it ends, reads nothing past the string's end and writes no
-- entry past the array that it allocated.
use mcoap.Base.{
  length-drop, ℕ, zero, suc, ◌+◌, ◌-◌, ◌≤◌, ◌<◌, ◌≡◌, ◌⊎◌, inl, inr, refl, ap, ◌∙◌, Bool, true,
  false, ◌||◌, Option, none, some, List, [], ◌∷◌, ◌++◌, arith, length, replicate, drop,
  length-append, add32, ◌==◌, if◌then◌else◌, le→leb, lt→ltb, Bool-cases, Option-cases,
}
use mcoap.Base.Int.{ℤ}
use mcoap.Base.Run.{ok}
use mcoap.CString.{Text, skip, strcspn, copy_cstr}
use mcoap.Sockaddr.{Sockaddr, Resolver, inet_init_at}
use mcoap.CoapOption
use mcoap.CoapOption.{CoapOption}
use mcoap.OptionsList
use mcoap.OptionsList.{OptionsList, Qsort}
use mcoap.Uri.{
  getscheme, validscheme, authority, advanceto, advanceby, estimatenopts, getpath, getquery,
  equaladdr,
}
use mcoap.Uri.Options.{
  push, str_option, pieces_loop, path_and_query, host_and_port, options_of, to_options,
}
use mcoap.Uri.Host.{getport_lem, address_lem, authority_le}

abbrev pub is_delimiter : ℕ → Bool
is_delimiter c = c == b'/' || c == b'?' || c == b'&'

unfoldable pub delimiters : Text → ℕ
delimiters [] = 0
delimiters (c ∷ str) = (if is_delimiter c then 1 else 0) + delimiters str

pub estimatenopts_lem :
    (str : Text) (nopts : ℕ)
    → nopts + length str < 4294967296
    → estimatenopts str nopts ≡ nopts + delimiters str
unfolding estimatenopts delimiters
estimatenopts_lem [] nopts small = omega arith
estimatenopts_lem (c ∷ str) nopts small =
    ground (arith, estimatenopts_lem str nopts, estimatenopts_lem str (add32 nopts 1))

pub delimiters-le : (str : Text) → delimiters str ≤ length str
unfolding delimiters
delimiters-le [] = omega arith
delimiters-le (c ∷ str) = ground (arith, delimiters-le str)

delimiters-drop : (n : ℕ) (str : Text) → delimiters (drop n str) ≤ delimiters str
unfolding delimiters
delimiters-drop zero str = omega arith
delimiters-drop (suc n) [] = omega arith
delimiters-drop (suc n) (c ∷ str) = omega (arith, delimiters-drop n str)

advanceto_le :
    (str chars : Text)
    → (length (advanceto str chars) ≤ length str)
      × (delimiters (advanceto str chars) ≤ delimiters str)
unfolding advanceto
advanceto_le str chars =
    let n : ℕ = if strcspn str chars == 0 then length str else strcspn str chars in
    (omega (arith, length-drop n str), delimiters-drop n str)

-- What the loops need of `getpath` and `getquery`.
abbrev Takes : (Option Text → Option (Option Text)) → Type 0
Takes get =
    (str : Text)
    → (get (some str) ≡ some none)
      ⊎ ((c : ℕ) × (rest : Text) × (text : Text) × (str ≡ c ∷ rest)
          × (is_delimiter c ≡ true)
          × (get (some str) ≡ some (some text)))

getpath-Takes : Takes getpath
unfolding getpath advanceby
getpath-Takes [] = inl refl
getpath-Takes (c ∷ str) = elim (Bool-cases (c == b'/')) [
  | inl e ↦
      inr (c, str, copy_cstr (strcspn str (b'/' ∷ b'?' ∷ [])) str, refl, ground arith, ground arith)
  | inr e ↦ inl (rw e refl)
]

getquery-Takes : Takes getquery
unfolding getquery
getquery-Takes [] = inl refl
getquery-Takes (c ∷ str) = elim (Bool-cases (c == b'?' || c == b'&')) [
  | inl e ↦ inr (c, str, copy_cstr (strcspn str (b'&' ∷ [])) str, refl, ground arith, ground arith)
  | inr e ↦ inl (rw e refl)
]

pub push_lem :
    (nopts : ℕ) (out : List CoapOption) (option : CoapOption)
    → length out < nopts
    → push nopts out option ≡ ok (out ++ (option ∷ []))
unfolding push
push_lem nopts out option h = rw (lt→ltb (length out) nopts h) refl

delimiters-cons :
    (c : ℕ) (rest : Text) → is_delimiter c ≡ true → delimiters (c ∷ rest) ≡ 1 + delimiters rest
unfolding delimiters
delimiters-cons c rest d = rw d refl

skip_one : {str rest : Text} {c : ℕ} → str ≡ c ∷ rest → skip 1 str ≡ some rest
skip_one {rest} {c} e = rw (e, le→leb 1 (suc (length rest)) (omega arith)) refl

module _ (get : Option Text → Option (Option Text)) (takes : Takes get) (chars : Text)
    (num nopts : ℕ) where
  pieces_lem :
      (fuel : ℕ) (current : Text) (out : List CoapOption)
      → length current < fuel
      → length out + delimiters current ≤ nopts
      → (current' : Text) × (out' : List CoapOption) × (pieces_loop get chars num nopts fuel current
            out
          ≡ ok (current', out'))
        × (length out' + delimiters current' ≤ nopts)
  unfolding pieces_loop
  pieces_lem zero current out enough room = absurd (omega arith)
  pieces_lem (suc fuel) current out enough room = elim (takes current) [
    | inl e ↦ (current, out, rw e refl, room)
    | inr (c, rest, text, e, d, g) ↦
        let counted = ap delimiters e ∙ delimiters-cons c rest d in
        let shorter = ap length e in
        let longer = length-append out (str_option num text ∷ []) in
        let moved = advanceto_le rest chars in
        let (current', out', run, inside) =
          pieces_lem fuel (advanceto rest chars) (out ++ (str_option num text ∷ []))
            (omega (arith, shorter, moved)) (omega (arith, counted, longer, moved)) in
        (
          current',
          out',
          rw (g, push_lem nopts out (str_option num text) (omega (arith, counted)), skip_one e) run,
          inside,
        )
  ]

path_and_query_lem :
    (nopts : ℕ) (current : Text) (out : List CoapOption)
    → length out + delimiters current ≤ nopts
    → (all : List CoapOption) × (path_and_query nopts current out ≡ ok all) × (length all ≤ nopts)
unfolding path_and_query
path_and_query_lem nopts current out room =
    let (current', paths, first, room') =
      pieces_lem getpath getpath-Takes (b'/' ∷ b'?' ∷ []) 11 nopts (suc (length current)) current
        out (omega arith) room in
    let (current'', all, second, room'') =
      pieces_lem getquery getquery-Takes (b'&' ∷ []) 15 nopts (suc (length current')) current' paths
        (omega arith) room' in
    (all, rw (first, second) refl, omega (arith, room''))

host_and_port_lem :
    (elided : Bool) (estimate : ℕ) (host : Text) (port : ℕ)
    → estimate + 2 < 4294967296
    → (out : List CoapOption) × (host_and_port elided
          (if elided then estimate else add32 estimate 2)
          host
          port
        ≡ ok out)
      × (length out + estimate ≤ (if elided then estimate else add32 estimate 2))
unfolding host_and_port
host_and_port_lem true estimate host port small = ([], refl, omega arith)
host_and_port_lem false estimate host port small =
    let host_option = str_option 3 host in
    let port_option = CoapOption.init_uint32 CoapOption.alloc 7 port in
    (
      host_option ∷ port_option ∷ [],
      rw
          (
            push_lem (add32 estimate 2) [] host_option (omega arith),
            push_lem (add32 estimate 2) (host_option ∷ []) port_option (omega arith),
          )
          refl,
      omega arith,
    )

module _ (qsort : Qsort) (resolver : Resolver) (same_in6 : Sockaddr → Sockaddr → Bool)
    (junk : Sockaddr) (wild : Text → ℤ) (dest : Option Sockaddr) where
  options_of_lem :
      (host rest : Text)
      → length rest + 2 < 4294967296
      → (list : OptionsList) × (options_of qsort resolver same_in6 junk wild dest host rest
          ≡ ok list)
  unfolding options_of
  options_of_lem host rest small =
      let (port, port_is) = getport_lem wild rest in
      let current = advanceto rest (b'/' ∷ b'?' ∷ []) in
      let elided = equaladdr same_in6 (some (inet_init_at resolver junk host port).1) dest in
      let shorter = advanceto_le rest (b'/' ∷ b'?' ∷ []) in
      let few = delimiters-le current in
      let estimate = estimatenopts_lem current 0 (omega (arith, shorter)) in
      let (out, first, room) =
        host_and_port_lem elided (estimatenopts current 0) host port
          (omega (arith, estimate, few, shorter)) in
      let nopts = if elided then estimatenopts current 0 else add32 (estimatenopts current 0) 2 in
      let (all, second, within) =
        path_and_query_lem nopts current out (omega (arith, room, estimate)) in
      (
        OptionsList.init qsort OptionsList.alloc (length all)
            (some (all ++ replicate (nopts - length all) CoapOption.alloc)),
        rw (port_is, first, second) refl,
      )

  -- On every string shorter than 2 ^ 32 - 2 bytes `mc_uri_to_options` returns: its loops end, no read
  -- goes past the string's end, and no option is written past the array that was allocated for the
  -- estimated number, whatever the addresses and the port are.
  pub to_options_total :
      (uri : Text)
      → length uri + 2 < 4294967296
      → (result : Option OptionsList) × (to_options qsort resolver same_in6 junk wild dest uri
          ≡ ok result)
  unfolding to_options
  to_options_total uri small = elim (Bool-cases (validscheme (getscheme uri))) [
    | inr bad ↦ (none, rw bad refl)
    | inl good ↦ elim (Option-cases (authority uri)) [
      | inl e ↦ (none, rw (good, e) refl)
      | inr (current, e) ↦ elim (address_lem current) [
        | inl no_host ↦ (none, rw (good, e, no_host) refl)
        | inr (host, rest, host_is, rest_is, shorter) ↦ elim (Bool-cases (length host == 0)) [
          | inl empty ↦ (none, rw (good, e, host_is, empty) refl)
          | inr there ↦
              let (list, list_is) =
                options_of_lem host rest (omega (arith, shorter, authority_le uri current e)) in
              (some list, rw (good, e, host_is, there, rest_is, list_is) refl)
        ]
      ]
    ]
  ]
