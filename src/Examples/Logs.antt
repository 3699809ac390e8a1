-- ===== src/Examples/Logs.antt =====
-- Logged lines, names and bytes.
use mcoap.Base.{◌≡◌, ◌++◌, refl, some, [], ◌∷◌}
use mcoap.CString.{Text}
use mcoap.Log.{Log, Call, Level, getname, hex_line}
use mcoap.Log.Filter.{ms_log_all, lines, ms_log-lines}

abbrev path : Text
path = b'a' ∷ b'/' ∷ b'b' ∷ b'.' ∷ b'c' ∷ []

getname_test : getname path ≡ b'b' ∷ b'.' ∷ b'c' ∷ []
unfolding getname
getname_test = refl

abbrev call : Level → Call
call level = record {
  level = level;
  fname = path;
  line = 12;
  datebuf = b'7' ∷ [];
  message = b'm' ∷ [];
}

abbrev log : Log
log = record { logfile = some (b'x' ∷ []); loglevel = Level.ms_warn }

ms_log-lines_example :
    ms_log_all log (call Level.ms_debug ∷ call Level.ms_fatal ∷ [])
    ≡ some (record log {
      logfile = some ((b'x' ∷ []) ++ lines 1 (call Level.ms_debug ∷ call Level.ms_fatal ∷ []));
    })
ms_log-lines_example =
    ms_log-lines log (b'x' ∷ []) (call Level.ms_debug ∷ call Level.ms_fatal ∷ []) refl

hex_line_test : hex_line (171 ∷ []) ≡ b'0' ∷ b'x' ∷ b'a' ∷ b'b' ∷ b' ' ∷ []
unfolding hex_line
hex_line_test = refl
