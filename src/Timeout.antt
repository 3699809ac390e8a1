-- ===== src/Timeout.antt =====
-- mnet/mn_timeout.c. A finite `double` of seconds is the integer of the smallest doubles, 2 ^ -1074, that
-- it holds; infinities and NaN are left out. The rounding of an exact result to a `double`, which is the
-- machine's, and what the clock shows are arguments.
pub mod Passed
use mcoap.Base.{ℕ, ◌-◌, ◌^◌, Bool, ◌&&◌, if◌then◌else◌}
use mcoap.Base.Int.{ℤ, pos, negsuc, ◌+ℤ◌, ◌-ℤ◌, ltb_ℤ}

-- 1.0 seconds.
abbrev pub second : ℕ
second = 2 ^ 1074

-- -1.0 seconds.
abbrev pub unlimited : ℤ
unlimited = negsuc (2 ^ 1074 - 1)

-- What the floating point unit makes of an exact result, and of a quotient of whole numbers.
pub record Rounding : Type 0 where
  pub round : ℤ → ℤ
  pub ratio : ℕ → ℕ → ℤ

-- What `mn_gettime` returns, with the rounding of what is done with it.
pub record Clock : Type 0 where
  pub now : ℤ
  pub rounding : Rounding

-- `mn_timeout_t`
pub record Timeout : Type 0 where
  pub block : ℤ
  pub total : ℤ
  pub start : ℤ

unfoldable pub init : Timeout → ℤ → ℤ → Timeout
init tout block total = record tout { block = block; total = total; start = pos 0 }

abbrev pub is_negative : ℤ → Bool
is_negative a = ltb_ℤ a (pos 0)

-- The macros `MIN` and `MAX`.
abbrev pub min_ℤ : ℤ → ℤ → ℤ
min_ℤ x y = if ltb_ℤ x y then x else y

abbrev pub max_ℤ : ℤ → ℤ → ℤ
max_ℤ x y = if ltb_ℤ y x then x else y

-- The time left of `limit` since the start: `limit - mn_gettime() + tout->start`, rounded twice.
abbrev pub left : ℤ → Clock → Timeout → ℤ
left limit clock tout =
    clock.rounding.round (clock.rounding.round (limit -ℤ clock.now) +ℤ tout.start)

unfoldable pub get : Clock → Timeout → ℤ
get clock tout =
    if is_negative tout.block && is_negative tout.total
    then unlimited
    else if is_negative tout.block
    then max_ℤ (left tout.total clock tout) (pos 0)
    else if is_negative tout.total
    then tout.block
    else min_ℤ tout.block (max_ℤ (left tout.total clock tout) (pos 0))

unfoldable pub getstart : Timeout → ℤ
getstart tout = tout.start

unfoldable pub getretry : Clock → Timeout → ℤ
getretry clock tout =
    if is_negative tout.block && is_negative tout.total
    then unlimited
    else if is_negative tout.block
    then max_ℤ (left tout.total clock tout) (pos 0)
    else if is_negative tout.total
    then max_ℤ (left tout.block clock tout) (pos 0)
    else min_ℤ tout.block (max_ℤ (left tout.total clock tout) (pos 0))

unfoldable pub markstart : ℤ → Timeout → Timeout
markstart now tout = record tout { start = now }

-- The time of `gettimeofday`.
unfoldable pub gettime : Rounding → ℕ → ℕ → ℤ
gettime r tv_sec tv_usec = r.round (r.ratio tv_sec 1 +ℤ r.ratio tv_usec 1000000)
