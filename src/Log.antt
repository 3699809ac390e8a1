-- ===== src/Log.antt =====
-- msys/ms_log.c, as it is built where there is no WINCE: the log and its level. A result `none` is a fault:
-- a write to a null file, or a read outside the bytes. The time of day, a formatted message and `isprint`
-- are arguments.
pub mod Name
pub mod Filter
pub mod Dump
use mcoap.Base.{
  ℕ, zero, suc, ◌+◌, ◌-◌, ◌/◌, ◌%◌, Bool, true, false, Option, none, some, List, [], ◌∷◌, ◌++◌,
  drop, read_at, ltb, ◌==◌, if◌then◌else◌, ◌>>=◌,
}
use mcoap.CString.{Text, strrchr, decimal}

-- `ms_log_level_t`
pub data Level : Type 0 where
  ms_debug ms_warn ms_fatal : Level

-- The number of the constant.
abbrev pub rank : Level → ℕ
rank ms_debug = 0
rank ms_warn = 1
rank ms_fatal = 2

-- `logfile`, null or what was written to it, and `loglevel`.
pub record Log : Type 0 where
  pub logfile : Option Text
  pub loglevel : Level

-- The two variables at the start.
abbrev pub start : Log
start = record { logfile = none; loglevel = ms_fatal }

unfoldable pub setfile : Log → Option Text → Log
setfile log newfile = record log { logfile = newfile }

unfoldable pub setlevel : Log → Level → Log
setlevel log level = record log { loglevel = level }

unfoldable pub getlevel : Level → Text
getlevel ms_debug = b'D' ∷ b'E' ∷ b'B' ∷ b'U' ∷ b'G' ∷ []
getlevel ms_warn = b'W' ∷ b'A' ∷ b'R' ∷ b'N' ∷ []
getlevel ms_fatal = b'F' ∷ b'A' ∷ b'T' ∷ b'A' ∷ b'L' ∷ []

-- `ms_log_getlevel`
unfoldable pub current_level : Log → Level
current_level log = log.loglevel

unfoldable pub getname : Text → Text
getname fname = elim (strrchr b'/' fname) [
  | some result ↦ drop 1 result
  | none ↦ elim (strrchr b'\\' fname) [ some result ↦ drop 1 result | none ↦ fname ]
]

-- What `%d` prints of an `unsigned int`.
abbrev printed_int : ℕ → Text
printed_int n = if ltb n 2147483648 then decimal n else b'-' ∷ decimal (4294967296 - n)

-- A call of `ms_log`, with the time of day and the message that its format makes.
pub record Call : Type 0 where
  pub level : Level
  pub fname : Text
  pub line : ℕ
  pub datebuf : Text
  pub message : Text

abbrev pub line_of : Call → Text
unfolding getlevel getname
line_of c =
    getlevel c.level
    ++ (b'@'
        ∷ (getname c.fname
            ++ (b':'
                ∷ (printed_int c.line
                    ++ (b' '
                        ∷ b'('
                        ∷ (c.datebuf ++ (b')' ∷ b' ' ∷ (c.message ++ (b'\n' ∷ [])))))))))

-- Writes behind what the file holds.
unfoldable pub write : Log → Text → Option Log
write log text = do file ← log.logfile; some (record log { logfile = some (file ++ text) })

unfoldable pub ms_log : Log → Call → Option Log
unfolding write
ms_log log c = if ltb (rank c.level) (rank log.loglevel) then some log else write log (line_of c)

unfoldable pub hex_digit : ℕ → ℕ
hex_digit n = if ltb n 10 then b'0' + n else b'a' + (n - 10)

-- "0x%02x " for each byte.
unfoldable pub hex_line : List ℕ → Text
unfolding hex_digit
hex_line [] = []
hex_line (byte ∷ bytes) =
    b'0' ∷ b'x' ∷ hex_digit (byte / 16) ∷ hex_digit (byte % 16) ∷ b' ' ∷ hex_line bytes

unfoldable pub char_line : (ℕ → Bool) → List ℕ → Text
char_line isprint [] = []
char_line isprint (byte ∷ bytes) = (if isprint byte then byte else b'.') ∷ char_line isprint bytes

unfoldable pub ms_log_bytes : (ℕ → Bool) → Log → Level → ℕ → List ℕ → Option Log
unfolding write hex_line char_line
ms_log_bytes isprint log level count bytes =
    if ltb (rank level) (rank log.loglevel) then some log else (do
      shown ← read_at bytes 0 count
      log' ← write log (hex_line shown ++ (b'\n' ∷ []))
      write log' (char_line isprint shown ++ (b'\n' ∷ [])))
