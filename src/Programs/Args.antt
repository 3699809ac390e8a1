-- ===== src/Programs/Args.antt =====
-- The arguments of the programs: mcget/mcget.c, and the same functions in examples/tmserver/tmserver.c
-- and examples/tmclient/tmclient.c. What they print is left out.
pub mod Scan
pub mod Pack
use mcoap.Base.{
  ℕ, zero, suc, ◌+◌, ◌-◌, Bool, true, false, Option, none, some, List, [], ◌∷◌, length, get_elem?,
  ltb, to_u16, ◌==◌, if◌then◌else◌, ◌>>=◌,
}
use mcoap.Base.Int.{ℤ, pos}
use mcoap.Base.Run
use mcoap.Base.Run.{Run, ok, stuck, lift}
use mcoap.CString.{Text, is_equal, atoi, int_to_u32}

-- The loop of `getport` over the arguments behind the program's name, all but the last: what stands
-- behind the first that is the flag.
unfoldable pub option_value : Text → List Text → Option Text
option_value flag [] = none
option_value flag (arg ∷ []) = none
option_value flag (arg ∷ value ∷ args) =
    let later = option_value flag (value ∷ args) in if is_equal flag arg then some value else later

-- `err`, and `*port`, whose former value is `port`. Without arguments, not even the program's name,
-- it reads in front of them: a fault.
unfoldable pub getport : (Text → ℤ) → Text → List Text → ℕ → Option (ℤ × ℕ)
getport wild flag [] port = none
getport wild flag (name ∷ args) port = elim (option_value flag args) [
  | some value ↦
      let parsed = to_u16 (int_to_u32 (atoi wild value)) in
      some (if parsed == 0 then pos 1 else pos 0, parsed)
  | none ↦ (do
    last ← get_elem? (name ∷ args) (length args)
    some (if is_equal flag last then pos 1 else pos 0, port))
]

-- `list[i] = x`
abbrev pub set_elem : List Text → ℕ → Text → Option (List Text)
set_elem [] i text = none
set_elem (t ∷ texts) zero text = some (text ∷ texts)
set_elem (t ∷ texts) (suc i) text = do changed ← set_elem texts i text; some (t ∷ changed)

-- `"-p"`
abbrev pub port_flag : Text
port_flag = b'-' ∷ b'p' ∷ []

-- The loop of `packargs`: `idest` and the vector, which is packed in place.
unfoldable pub packargs_loop : ℕ → List Text → ℕ → ℕ → Run (ℕ × List Text)
packargs_loop zero argv iarg idest = stuck
packargs_loop (suc fuel) argv iarg idest =
    if ltb iarg (length argv)
    then Run.◌>>=◌ (lift (get_elem? argv iarg)) (λ arg. elim (is_equal port_flag arg) [
      | true ↦ packargs_loop fuel argv (iarg + 2) idest
      | false ↦
          Run.◌>>=◌ (lift (set_elem argv idest arg))
            (λ argv'. packargs_loop fuel argv' (iarg + 1) (idest + 1))
    ])
    else ok (idest, argv)

unfoldable pub packargs : List Text → Run (ℕ × List Text)
unfolding packargs_loop
packargs argv = packargs_loop (suc (length argv)) argv 1 0
