-- ===== src/Uri/Pieces.antt =====
-- The loops of `mc_uri_to_options` on a path and a query that were put together from pieces.
use mcoap.Base.{
  ℕ, zero, suc, ◌+◌, ◌%◌, ◌≤◌, ◌<◌, ◌≡◌, ◌⊎◌, inl, inr, refl, sym, ap, subst, true, false, ◌||◌,
  none, some, List, [], ◌∷◌, ◌++◌, arith, length, All, map, length-append, length-map, append_assoc,
  append-nil, take-append_eq, drop-append, ◌==◌, le→leb,
}
use mcoap.Base.Run.{ok}
use mcoap.CString.{Text, skip, has, strcspn, copy_cstr}
use mcoap.CoapOption.{CoapOption}
use mcoap.Uri.{advanceto, advanceby, getpath, getquery}
use mcoap.Uri.Options.{str_option, pieces_loop, path_and_query}
use mcoap.Uri.Safety.{is_delimiter, delimiters, push_lem}

-- No byte of the text is one of `chars`.
abbrev pub IsFree : Text → Text → Type 0
IsFree chars text = All (λ c. has c chars ≡ false) text

-- The end of the string, or one of `chars`.
abbrev pub IsStop : Text → Text → Type 0
IsStop chars [] = Unit {0}
IsStop chars (c ∷ rest) = has c chars ≡ true

-- A piece that stands between delimiters: not empty, none of `chars` in it, of 32-bit length.
pub record IsPiece (chars text : Text) : Type 0 where
  pub nonempty : 0 < length text
  pub free : IsFree chars text
  pub short : length text < 4294967296

strcspn_free :
    (chars text rest : Text)
    → IsFree chars text
    → IsStop chars rest
    → strcspn (text ++ rest) chars ≡ length text
strcspn_free chars [] [] free stop = refl
strcspn_free chars [] (c ∷ rest) free stop = rw stop refl
strcspn_free chars (c ∷ text) rest free stop =
    rw (free.0, strcspn_free chars text rest free.1 stop) refl

pub copy_free :
    (chars text rest : Text)
    → IsFree chars text
    → IsStop chars rest
    → length text < 4294967296
    → copy_cstr (strcspn (text ++ rest) chars) (text ++ rest) ≡ text
copy_free chars text rest free stop short =
    let n = strcspn_free chars text rest free stop in
    take-append_eq (strcspn (text ++ rest) chars % 4294967296) text rest (omega (arith, n))

pub advanceto_free :
    (chars text rest : Text)
    → 0 < length text
    → IsFree chars text
    → IsStop chars rest
    → advanceto (text ++ rest) chars ≡ rest
unfolding advanceto
advanceto_free chars [] rest ne free stop = absurd (omega arith)
advanceto_free chars (c ∷ text) rest ne free stop =
    let some_there : (length (c ∷ text) == 0) ≡ false = ground arith in
    rw (strcspn_free chars (c ∷ text) rest free stop, some_there) (drop-append (c ∷ text) rest)

-- A path: each piece behind a slash.
unfoldable pub path_text : List Text → Text
path_text [] = []
path_text (piece ∷ pieces) = b'/' ∷ (piece ++ path_text pieces)

-- A query: the first piece behind `delimiter`, the others behind `&`.
unfoldable pub query_text : ℕ → List Text → Text
query_text delimiter [] = []
query_text delimiter (piece ∷ pieces) = delimiter ∷ (piece ++ query_text b'&' pieces)

abbrev path_chars : Text
path_chars = b'/' ∷ b'?' ∷ []

abbrev query_chars : Text
query_chars = b'&' ∷ []

-- What may follow a path: the end or a query.
abbrev pub IsBehindPath : Text → Type 0
IsBehindPath [] = Unit {0}
IsBehindPath (c ∷ rest) = c ≡ b'?'

behind-IsStop :
    (pieces : List Text) (rest : Text)
    → IsBehindPath rest
    → IsStop path_chars (path_text pieces ++ rest)
unfolding path_text
behind-IsStop [] [] b = tt
behind-IsStop [] (c ∷ rest) b = ground arith
behind-IsStop (piece ∷ pieces) rest b = refl

query-IsStop : (pieces : List Text) → IsStop query_chars (query_text b'&' pieces)
unfolding query_text
query-IsStop [] = tt
query-IsStop (piece ∷ pieces) = refl

behind_none : (rest : Text) → IsBehindPath rest → getpath (some rest) ≡ some none
unfolding getpath
behind_none [] b = refl
behind_none (c ∷ rest) b = ground arith

getquery-none : getquery (some []) ≡ some none
unfolding getquery
getquery-none = refl

getpath_lem :
    (piece tail : Text)
    → IsPiece path_chars piece
    → IsStop path_chars tail
    → getpath (some (b'/' ∷ (piece ++ tail))) ≡ some (some piece)
unfolding getpath advanceby
getpath_lem piece tail p stop = rw (copy_free path_chars piece tail p.free stop p.short) refl

getquery_lem :
    (delimiter : ℕ) (piece tail : Text)
    → (delimiter ≡ b'?') ⊎ (delimiter ≡ b'&')
    → IsPiece query_chars piece
    → IsStop query_chars tail
    → getquery (some (delimiter ∷ (piece ++ tail))) ≡ some (some piece)
unfolding getquery
getquery_lem delimiter piece tail d p stop =
    let mark : (delimiter == b'?' || delimiter == b'&') ≡ true = ground arith in
    let one : skip 1 (delimiter ∷ (piece ++ tail)) ≡ some (piece ++ tail) =
      rw (le→leb 1 (suc (length (piece ++ tail))) (omega arith)) refl in
    rw (mark, one, copy_free query_chars piece tail p.free stop p.short) refl

module _ (nopts : ℕ) where
  path_lem :
      (pieces : List Text) (rest : Text) (fuel : ℕ) (out : List CoapOption)
      → All (IsPiece path_chars) pieces
      → IsBehindPath rest
      → length pieces < fuel
      → length out + length pieces ≤ nopts
      → pieces_loop getpath path_chars 11 nopts fuel (path_text pieces ++ rest) out
        ≡ ok (rest, out ++ map (str_option 11) pieces)
  unfolding pieces_loop path_text
  path_lem pieces rest zero out ok_pieces behind enough room = absurd (omega arith)
  path_lem [] rest (suc fuel) out ok_pieces behind enough room =
      rw (behind_none rest behind, append-nil) refl
  path_lem (piece ∷ pieces) rest (suc fuel) out ok_pieces behind enough room =
      let tail : Text = path_text pieces ++ rest in
      let stop = behind-IsStop pieces rest behind in
      let first = ok_pieces.0 in
      let longer = length-append out (str_option 11 piece ∷ []) in
      let one : skip 1 (b'/' ∷ (piece ++ tail)) ≡ some (piece ++ tail) =
        rw (le→leb 1 (suc (length (piece ++ tail))) (omega arith)) refl in
      let text : path_text (piece ∷ pieces) ++ rest ≡ b'/' ∷ (piece ++ tail) =
        ap (λ l. b'/' ∷ l) (append_assoc piece (path_text pieces) rest) in
      subst
        (λ t.
          pieces_loop getpath path_chars 11 nopts (suc fuel) t out
          ≡ ok (rest, out ++ map (str_option 11) (piece ∷ pieces)))
        (sym text)
        (rw
          (
            getpath_lem piece tail first stop,
            push_lem nopts out (str_option 11 piece) (omega arith),
            one,
            advanceto_free path_chars piece tail first.nonempty first.free stop,
            path_lem pieces rest fuel (out ++ (str_option 11 piece ∷ [])) ok_pieces.1 behind
                (omega arith) (omega (arith, longer)),
          )
          (ap (λ l. ok (rest, l))
            (append_assoc out (str_option 11 piece ∷ []) (map (str_option 11) pieces))))

  query_lem :
      (delimiter : ℕ) (pieces : List Text) (fuel : ℕ) (out : List CoapOption)
      → (delimiter ≡ b'?') ⊎ (delimiter ≡ b'&')
      → All (IsPiece query_chars) pieces
      → length pieces < fuel
      → length out + length pieces ≤ nopts
      → pieces_loop getquery query_chars 15 nopts fuel (query_text delimiter pieces) out
        ≡ ok ([], out ++ map (str_option 15) pieces)
  unfolding pieces_loop query_text
  query_lem delimiter pieces zero out d ok_pieces enough room = absurd (omega arith)
  query_lem delimiter [] (suc fuel) out d ok_pieces enough room =
      rw (getquery-none, append-nil) refl
  query_lem delimiter (piece ∷ pieces) (suc fuel) out d ok_pieces enough room =
      let tail : Text = query_text b'&' pieces in
      let stop = query-IsStop pieces in
      let first = ok_pieces.0 in
      let longer = length-append out (str_option 15 piece ∷ []) in
      let one : skip 1 (delimiter ∷ (piece ++ tail)) ≡ some (piece ++ tail) =
        rw (le→leb 1 (suc (length (piece ++ tail))) (omega arith)) refl in
      rw
        (
          getquery_lem delimiter piece tail d first stop,
          push_lem nopts out (str_option 15 piece) (omega arith),
          one,
          advanceto_free query_chars piece tail first.nonempty first.free stop,
          query_lem b'&' pieces fuel (out ++ (str_option 15 piece ∷ [])) (inr refl) ok_pieces.1
              (omega arith) (omega (arith, longer)),
        )
        (ap (λ l. ok ([], l))
          (append_assoc out (str_option 15 piece ∷ []) (map (str_option 15) pieces)))

length-path_text : (pieces : List Text) → length pieces ≤ length (path_text pieces)
unfolding path_text
length-path_text [] = omega arith
length-path_text (piece ∷ pieces) =
    omega (arith, length-path_text pieces, length-append piece (path_text pieces))

length-query_text :
    (delimiter : ℕ) (pieces : List Text) → length pieces ≤ length (query_text delimiter pieces)
unfolding query_text
length-query_text delimiter [] = omega arith
length-query_text delimiter (piece ∷ pieces) =
    omega (arith, length-query_text b'&' pieces, length-append piece (query_text b'&' pieces))

query_behind : (pieces : List Text) → IsBehindPath (query_text b'?' pieces)
unfolding query_text
query_behind [] = tt
query_behind (piece ∷ pieces) = refl

-- Both loops: an option for each piece, in their order.
pub path_and_query_pieces :
    (nopts : ℕ) (paths queries : List Text) (out : List CoapOption)
    → All (IsPiece path_chars) paths
    → All (IsPiece query_chars) queries
    → length out + length paths + length queries ≤ nopts
    → path_and_query nopts (path_text paths ++ query_text b'?' queries) out
      ≡ ok ((out ++ map (str_option 11) paths) ++ map (str_option 15) queries)
unfolding path_and_query
path_and_query_pieces nopts paths queries out p q room =
    let text = length-append (path_text paths) (query_text b'?' queries) in
    let count = length-append out (map (str_option 11) paths) in
    let mapped = length-map paths (str_option 11) in
    rw
      (
        path_lem nopts paths (query_text b'?' queries)
            (suc (length (path_text paths ++ query_text b'?' queries))) out p (query_behind queries)
            (omega (arith, text, length-path_text paths)) (omega arith),
        query_lem nopts b'?' queries (suc (length (query_text b'?' queries)))
            (out ++ map (str_option 11) paths) (inl refl) q
            (omega (arith, length-query_text b'?' queries)) (omega (arith, count, mapped)),
      )
      refl

delimiters-append :
    (left right : Text) → delimiters (left ++ right) ≡ delimiters left + delimiters right
unfolding delimiters
delimiters-append [] right = omega arith
delimiters-append (c ∷ left) right = omega (arith, delimiters-append left right)

delimiters-path : (pieces : List Text) → length pieces ≤ delimiters (path_text pieces)
unfolding delimiters path_text
delimiters-path [] = omega arith
delimiters-path (piece ∷ pieces) =
    omega (arith, delimiters-path pieces, delimiters-append piece (path_text pieces))

delimiters-query :
    (delimiter : ℕ) (pieces : List Text)
    → is_delimiter delimiter ≡ true
    → length pieces ≤ delimiters (query_text delimiter pieces)
unfolding delimiters query_text
delimiters-query delimiter [] d = omega arith
delimiters-query delimiter (piece ∷ pieces) d = rw d (
    omega
      (arith, delimiters-query b'&' pieces refl, delimiters-append piece (query_text b'&' pieces)))

-- The estimate is enough for the pieces.
pub delimiters_pieces :
    (paths queries : List Text)
    → length paths + length queries ≤ delimiters (path_text paths ++ query_text b'?' queries)
delimiters_pieces paths queries = omega (
  arith,
  delimiters-append (path_text paths) (query_text b'?' queries),
  delimiters-path paths,
  delimiters-query b'?' queries refl,
)
