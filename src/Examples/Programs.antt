-- ===== src/Examples/Programs.antt =====
-- The arguments of mcget.
use mcoap.Base.{◌≡◌, refl, some, List, [], ◌∷◌}
use mcoap.Base.Int.{pos}
use mcoap.Base.Run.{ok}
use mcoap.CString.{Text, atoi}
use mcoap.Programs.Args
use mcoap.Programs.Args.{port_flag, packargs}

abbrev eighty : Text
eighty = b'8' ∷ b'0' ∷ []

-- mcget -p 80 u v
abbrev arguments : List Text
arguments = (b'm' ∷ []) ∷ port_flag ∷ eighty ∷ (b'u' ∷ []) ∷ (b'v' ∷ []) ∷ []

packargs_test :
    packargs arguments ≡ ok (2, (b'u' ∷ []) ∷ (b'v' ∷ []) ∷ eighty ∷ (b'u' ∷ []) ∷ (b'v' ∷ []) ∷ [])
unfolding packargs
packargs_test = refl

getport_test : Args.getport (λ text. pos 0) port_flag arguments 5683 ≡ some (pos 0, 80)
unfolding Args.getport Args.option_value atoi
getport_test = refl
