-- ===== src/Uri/Parse.antt =====
-- What `mc_uri_to_options` makes of a URI that was put together from its parts, with a port and without.
use mcoap.Base.{
  ℕ, ◌+◌, ◌-◌, ◌≤◌, ◌<◌, ◌≡◌, ◌≢◌, refl, ap, Bool, true, false, Option, some, List, [], ◌∷◌, ◌++◌,
  arith, length, All, map, replicate, length-append, drop-append, drop-all, take-append, ◌==◌,
  add32,
}
use mcoap.Base.Int.{ℤ}
use mcoap.Base.Run.{ok}
use mcoap.CString.{Text, first_char, atoi, int_to_u32}
use mcoap.Sockaddr.{Sockaddr, Resolver, inet_init_at}
use mcoap.CoapOption
use mcoap.CoapOption.{CoapOption}
use mcoap.OptionsList
use mcoap.OptionsList.{OptionsList, Qsort, compare_options}
use mcoap.Uri.{
  coap, separator, default_port, port_or_default, getscheme, validscheme, authority, getaddress,
  gethost, getport, skip_host, advanceto, advanceby, estimatenopts, equaladdr,
}
use mcoap.Uri.Options.{str_option, host_and_port, path_and_query, options_of, to_options}
use mcoap.Uri.Safety.{delimiters, delimiters-le, estimatenopts_lem, push_lem}
use mcoap.Uri.Host.{skip_within}
use mcoap.Uri.Pieces.{
  IsFree, IsStop, IsPiece, copy_free, advanceto_free, path_text, query_text, path_and_query_pieces,
  delimiters_pieces,
}

-- A host name: what may stand before a port or a path, not in brackets.
pub record IsHost (host : Text) : Type 0 where
  pub nonempty : 0 < length host
  pub free : IsFree (b':' ∷ b'/' ∷ []) host
  pub unbracketed : first_char host ≢ b'['
  pub short : length host < 4294967296

abbrev pub prefix : Text
prefix = coap ++ separator

scheme_valid : (tail : Text) → validscheme (getscheme (prefix ++ tail)) ≡ true
unfolding validscheme getscheme
scheme_valid tail = refl

authority_tail : (tail : Text) → authority (prefix ++ tail) ≡ some tail
unfolding authority advanceto advanceby
authority_tail tail = refl

-- The first byte of a host is that of the text that it begins.
first_char_append :
    (host rest : Text) → 0 < length host → first_char (host ++ rest) ≡ first_char host
first_char_append [] rest h = absurd (omega arith)
first_char_append (c ∷ host) rest h = refl

module _ (host rest : Text) (h : IsHost host) (stop : IsStop (b':' ∷ b'/' ∷ []) rest) where
  no_bracket : (first_char (host ++ rest) == b'[') ≡ false
  no_bracket = ground (arith, first_char_append host rest h.nonempty, h.unbracketed)

  host_is : getaddress (host ++ rest) ≡ some (some host)
  unfolding getaddress gethost
  host_is = rw (no_bracket, copy_free (b':' ∷ b'/' ∷ []) host rest h.free stop h.short) refl

  rest_is : skip_host (host ++ rest) host ≡ some rest
  unfolding skip_host
  rest_is =
      rw
        (
          no_bracket,
          skip_within (length host) (host ++ rest) (omega (arith, length-append host rest)),
        )
        (ap some (drop-append host rest))

-- The options for the host and the port.
abbrev pub both : Text → ℕ → List CoapOption
both host port = str_option 3 host ∷ CoapOption.init_uint32 CoapOption.alloc 7 port ∷ []

host_and_port-both :
    (nopts : ℕ) (host : Text) (port : ℕ)
    → 2 ≤ nopts
    → host_and_port false nopts host port ≡ ok (both host port)
unfolding host_and_port
host_and_port-both nopts host port h =
    rw
      (
        push_lem nopts [] (str_option 3 host) (omega arith),
        push_lem nopts (str_option 3 host ∷ []) (CoapOption.init_uint32 CoapOption.alloc 7 port)
            (omega arith),
      )
      refl

-- A list of these options in the order of `qsort`, with as many unused entries behind them.
abbrev pub sorted_list : Qsort → List CoapOption → ℕ → OptionsList
sorted_list qsort options unused = record {
  noptions = length options;
  options = some (qsort.sort compare_options options ++ replicate unused CoapOption.alloc);
}

init_sorted :
    (qsort : Qsort) (options : List CoapOption) (unused : ℕ)
    → OptionsList.init qsort OptionsList.alloc
        (length options)
        (some (options ++ replicate unused CoapOption.alloc))
      ≡ sorted_list qsort options unused
unfolding OptionsList.init OptionsList.options_sort OptionsList.alloc
init_sorted qsort options unused =
    rw
      (
        take-append options (replicate unused CoapOption.alloc),
        drop-append options (replicate unused CoapOption.alloc),
      )
      refl

no_port_behind :
    (wild : Text → ℤ) (rest : Text) → getport wild (some (b'/' ∷ rest)) ≡ some default_port
unfolding getport
no_port_behind wild rest = refl

port_behind :
    (wild : Text → ℤ) (digits path : Text) (paths queries : List Text)
    → IsFree (b'/' ∷ b'?' ∷ []) digits
    → length digits < 4294967296
    → getport wild (some (b':' ∷ (digits ++ (path_text (path ∷ paths) ++ query_text b'?' queries))))
      ≡ some (port_or_default (int_to_u32 (atoi wild digits)))
unfolding getport advanceby path_text
port_behind wild digits path paths queries free short =
    rw
      (copy_free (b'/' ∷ []) digits (b'/' ∷ ((path ++ path_text paths) ++ query_text b'?' queries))
        (fewer digits free) refl short)
      refl
  where
    fewer : (text : Text) → IsFree (b'/' ∷ b'?' ∷ []) text → IsFree (b'/' ∷ []) text
    fewer [] free = tt
    fewer (c ∷ text) free = (ground (arith, free.0), fewer text free.1)

path_behind :
    (digits path : Text) (paths queries : List Text)
    → IsFree (b'/' ∷ b'?' ∷ []) digits
    → advanceto
        (b':' ∷ (digits ++ (path_text (path ∷ paths) ++ query_text b'?' queries)))
        (b'/' ∷ b'?' ∷ [])
      ≡ path_text (path ∷ paths) ++ query_text b'?' queries
unfolding path_text
path_behind digits path paths queries free =
    advanceto_free (b'/' ∷ b'?' ∷ []) (b':' ∷ digits)
      (b'/' ∷ ((path ++ path_text paths) ++ query_text b'?' queries)) (omega arith) (refl, free)
      refl

-- A delimiter right at the position: it is taken for none, and the position goes to the string's end.
nothing_left : (rest : Text) → advanceto (b'/' ∷ rest) (b'/' ∷ b'?' ∷ []) ≡ []
unfolding advanceto
nothing_left rest = drop-all (length (b'/' ∷ rest)) (b'/' ∷ rest) (omega arith)

module _ (qsort : Qsort) (resolver : Resolver) (same_in6 : Sockaddr → Sockaddr → Bool)
    (junk : Sockaddr) (wild : Text → ℤ) (dest : Option Sockaddr) where
  to_options_of :
      (host rest : Text) (list : OptionsList)
      → IsHost host
      → IsStop (b':' ∷ b'/' ∷ []) rest
      → options_of qsort resolver same_in6 junk wild dest host rest ≡ ok list
      → to_options qsort resolver same_in6 junk wild dest (prefix ++ (host ++ rest))
        ≡ ok (some list)
  unfolding to_options
  to_options_of host rest list h stop e =
      let there : (length host == 0) ≡ false = ground (arith, h.nonempty) in
      rw
        (
          scheme_valid (host ++ rest),
          authority_tail (host ++ rest),
          host_is host rest h stop,
          there,
          rest_is host rest h stop,
          e,
        )
        refl

  options_from :
      (host rest current : Text) (port : ℕ) (all : List CoapOption)
      → getport wild (some rest) ≡ some port
      → advanceto rest (b'/' ∷ b'?' ∷ []) ≡ current
      → equaladdr same_in6 (some (inet_init_at resolver junk host port).1) dest ≡ false
      → length current + 2 < 4294967296
      → path_and_query (delimiters current + 2) current (both host port) ≡ ok all
      → options_of qsort resolver same_in6 junk wild dest host rest
        ≡ ok (sorted_list qsort all (delimiters current + 2 - length all))
  unfolding options_of
  options_from host rest current port all port_is current_is other small pieces =
      let estimate = estimatenopts_lem current 0 (omega arith) in
      let nopts : add32 (estimatenopts current 0) 2 ≡ delimiters current + 2 =
        omega (arith, estimate, delimiters-le current) in
      rw
        (
          port_is,
          current_is,
          other,
          nopts,
          host_and_port-both (delimiters current + 2) host port (omega arith),
          pieces,
          init_sorted qsort all (delimiters current + 2 - length all),
        )
        refl

  -- Without a port all that stands behind the host is lost: the options are the host and the default
  -- port, whatever the path and the query are, if the address is not that of the destination.
  pub to_options_no_port :
      (host rest : Text)
      → IsHost host
      → equaladdr same_in6 (some (inet_init_at resolver junk host default_port).1) dest ≡ false
      → to_options qsort resolver same_in6 junk wild dest (prefix ++ (host ++ (b'/' ∷ rest)))
        ≡ ok (some (sorted_list qsort (both host default_port) 0))
  unfolding delimiters path_text query_text
  to_options_no_port host rest h other =
      to_options_of host (b'/' ∷ rest) (sorted_list qsort (both host default_port) 0) h refl (
        options_from host (b'/' ∷ rest) [] default_port (both host default_port)
          (no_port_behind wild rest) (nothing_left rest) other (omega arith)
          (path_and_query_pieces 2 [] [] (both host default_port) tt tt (omega arith)))

  -- With a port the options are the host, the port, one option for each piece of the path and one for
  -- each piece of the query, in the order of `qsort`, if the path has at least one piece, no piece
  -- of the path or the query is empty, port, path and query are together shorter than 2 ^ 32 - 2
  -- bytes, and the address is not that of the destination.
  pub to_options_pieces :
      (host digits : Text) (path : Text) (paths queries : List Text)
      → IsHost host
      → IsFree (b'/' ∷ b'?' ∷ []) digits
      → All (IsPiece (b'/' ∷ b'?' ∷ [])) (path ∷ paths)
      → All (IsPiece (b'&' ∷ [])) queries
      → length digits + length (path_text (path ∷ paths) ++ query_text b'?' queries) + 2
        < 4294967296
      → equaladdr same_in6
          (some
            (inet_init_at resolver junk host (port_or_default (int_to_u32 (atoi wild digits)))).1)
          dest
        ≡ false
      → (unused : ℕ) × (to_options qsort resolver same_in6 junk wild dest (
            prefix
            ++ (host ++ (b':' ∷ (digits ++ (path_text (path ∷ paths) ++ query_text b'?' queries)))))
          ≡ ok (
              some (
                sorted_list qsort
                  (both host (port_or_default (int_to_u32 (atoi wild digits)))
                    ++ (map (str_option 11) (path ∷ paths) ++ map (str_option 15) queries))
                  unused)))
  to_options_pieces host digits path paths queries h free p q small other =
      let current : Text = path_text (path ∷ paths) ++ query_text b'?' queries in
      let port : ℕ = port_or_default (int_to_u32 (atoi wild digits)) in
      let all : List CoapOption =
        both host port ++ (map (str_option 11) (path ∷ paths) ++ map (str_option 15) queries) in
      (
        delimiters current + 2 - length all,
        to_options_of host (b':' ∷ (digits ++ current))
            (sorted_list qsort all (delimiters current + 2 - length all)) h refl
            (options_from host (b':' ∷ (digits ++ current)) current port all
              (port_behind wild digits path paths queries free (omega arith))
              (path_behind digits path paths queries free) other (omega arith)
              (path_and_query_pieces (delimiters current + 2) (path ∷ paths) queries
                (both host port) p q (omega (arith, delimiters_pieces (path ∷ paths) queries)))),
      )
