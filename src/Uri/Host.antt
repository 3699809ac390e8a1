-- ===== src/Uri/Host.antt =====
-- What the functions of mcoap/mc_uri.c find before the path: the host and the port, inside the string.
use mcoap.Base.{
  ℕ, zero, suc, ◌%◌, min, ◌≤◌, ◌<◌, ◌≡◌, ◌≢◌, ◌⊎◌, inl, inr, refl, sym, true, none, some, [], ◌∷◌,
  arith, length, drop, length-take, length-drop, ◌==◌, if◌then◌else◌, le→leb, Bool-cases,
  Option-cases,
}
use mcoap.Base.Int.{ℤ}
use mcoap.CString.{Text, first_char, skip, strcspn, copy_cstr}
use mcoap.Uri.{
  authority, getaddress, getip6host, gethost, getport, skip_host, advanceto, advanceby,
  advanceby_loop, separator,
}

first_char_inside :
    (n : ℕ) (str : Text) (c : ℕ) → first_char (drop n str) ≡ c → c ≢ 0 → n < length str
first_char_inside zero [] c e ne = absurd (ne (sym e))
first_char_inside zero (d ∷ str) c e ne = omega arith
first_char_inside (suc n) [] c e ne = absurd (ne (sym e))
first_char_inside (suc n) (d ∷ str) c e ne = omega (arith, first_char_inside n str c e ne)

length-advanceto : (str chars : Text) → length (advanceto str chars) ≤ length str
unfolding advanceto
length-advanceto str chars =
    omega
      (arith, length-drop (if strcspn str chars == 0 then length str else strcspn str chars) str)

getport-ne-none : (wild : Text → ℤ) (str : Text) → getport wild (some str) ≢ none
unfolding getport advanceby
getport-ne-none wild [] e = cc
getport-ne-none wild (c ∷ str) e = ground arith

pub getport_lem :
    (wild : Text → ℤ) (str : Text) → (port : ℕ) × (getport wild (some str) ≡ some port)
getport_lem wild str = elim (Option-cases (getport wild (some str))) [
  | inl e ↦ absurd (getport-ne-none wild str e)
  | inr p ↦ p
]

copy_within : (n : ℕ) (str : Text) → length (copy_cstr n str) ≤ min n (length str)
copy_within n str = omega (arith, length-take (n % 4294967296) str)

pub skip_within : (n : ℕ) (str : Text) → n ≤ length str → skip n str ≡ some (drop n str)
skip_within n str h = rw (le→leb n (length str) h) refl

ip6_lem :
    (c : ℕ) (current : Text)
    → (c == b'[') ≡ true
    → (getaddress (c ∷ current) ≡ some none)
      ⊎ ((host : Text) × (rest : Text) × (getaddress (c ∷ current) ≡ some (some host))
          × (skip_host (c ∷ current) host ≡ some rest)
          × (length rest ≤ length (c ∷ current)))
unfolding getaddress skip_host getip6host advanceby
ip6_lem c current e =
    let nchar : ℕ = strcspn current (b']' ∷ []) in
    elim (Bool-cases (nchar == 0)) [
      | inl z ↦ inl (rw (e, z) refl)
      | inr nz ↦ elim (Bool-cases (first_char (drop nchar current) == b']')) [
        | inr open_end ↦ inl (rw (e, nz, open_end) refl)
        | inl closed ↦
            let host : Text = copy_cstr nchar current in
            let inside = first_char_inside nchar current b']' (ground arith) (omega arith) in
            let within = copy_within nchar current in
            let two = skip_within 2 (c ∷ current) (omega (arith, inside)) in
            inr (
              host,
              drop (length host) (drop 1 current),
              rw (e, nz, closed) refl,
              rw (e, two)
                  (skip_within (length host) (drop 1 current)
                    (omega (arith, within, inside, length-drop 1 current))),
              omega (arith, length-drop 1 current, length-drop (length host) (drop 1 current)),
            )
      ]
    ]

-- A host is within the string behind the scheme, brackets included.
pub address_lem :
    (current : Text)
    → (getaddress current ≡ some none)
      ⊎ ((host : Text) × (rest : Text) × (getaddress current ≡ some (some host))
          × (skip_host current host ≡ some rest)
          × (length rest ≤ length current))
unfolding getaddress skip_host getip6host gethost advanceby
address_lem [] = inr ([], [], refl, refl, omega arith)
address_lem (c ∷ current) = elim (Bool-cases (c == b'[')) [
  | inl e ↦ ip6_lem c current e
  | inr e ↦
      let host : Text = copy_cstr (strcspn (c ∷ current) (b':' ∷ b'/' ∷ [])) (c ∷ current) in
      let within = copy_within (strcspn (c ∷ current) (b':' ∷ b'/' ∷ [])) (c ∷ current) in
      inr (
        host,
        drop (length host) (c ∷ current),
        rw e refl,
        rw e (skip_within (length host) (c ∷ current) (omega (arith, within))),
        omega (arith, length-drop (length host) (c ∷ current)),
      )
]

advanceby_le :
    (str prefix rest : Text) → advanceby_loop str prefix ≡ some rest → length rest ≤ length str
unfolding advanceby_loop
advanceby_le str [] rest e = ground arith
advanceby_le [] (p ∷ prefix) rest e = cc
advanceby_le (c ∷ str) (p ∷ prefix) rest e = ground (arith, advanceby_le str prefix rest)

pub authority_le : (uri current : Text) → authority uri ≡ some current → length current ≤ length uri
unfolding authority advanceby
authority_le uri current e = omega (
  arith,
  advanceby_le (advanceto uri (b':' ∷ [])) separator current e,
  length-advanceto uri (b':' ∷ []),
)
