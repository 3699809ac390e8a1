-- ===== src/Log/Filter.antt =====
-- What the log holds after many calls.
use mcoap.Base.{
  ℕ, ◌≡◌, inl, inr, refl, ap, ◌∙◌, Bool-cases, Option, some, List, [], ◌∷◌, ◌++◌, append-nil,
  append_assoc, ltb, if◌then◌else◌, ◌>>=◌,
}
use mcoap.CString.{Text}
use mcoap.Log.{Log, Call, rank, line_of, write, ms_log}

abbrev pub ms_log_all : Log → List Call → Option Log
ms_log_all log [] = some log
ms_log_all log (c ∷ calls) = do log' ← ms_log log c; ms_log_all log' calls

-- The lines of the calls whose level is not below.
abbrev pub lines : ℕ → List Call → Text
lines least [] = []
lines least (c ∷ calls) =
    let rest = lines least calls in if ltb (rank c.level) least then rest else line_of c ++ rest

-- After any calls of `ms_log` the file holds, behind what it held, the lines of those whose level is not
-- below the log's, in their order. The file is not null.
pub ms_log-lines :
    (log : Log) (file : Text) (calls : List Call)
    → log.logfile ≡ some file
    → ms_log_all log calls
      ≡ some (record log { logfile = some (file ++ lines (rank log.loglevel) calls) })
unfolding ms_log write
ms_log-lines log file [] e = rw append-nil (ap (λ f. some (record log { logfile = f })) e)
ms_log-lines log file (c ∷ calls) e = elim (Bool-cases (ltb (rank c.level) (rank log.loglevel))) [
  | inl below ↦ rw below (ms_log-lines log file calls e)
  | inr above ↦
      rw (above, e)
        (ms_log-lines (record log { logfile = some (file ++ line_of c) }) (file ++ line_of c) calls
            refl
          ∙ ap (λ t. some (record log { logfile = some t }))
              (append_assoc file (line_of c) (lines (rank log.loglevel) calls)))
]
