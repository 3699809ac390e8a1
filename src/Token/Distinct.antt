-- ===== src/Token/Distinct.antt =====
-- Tokens of distinct prefixes are distinct, whatever the random suffixes are.
use mcoap.Base.{ℕ, ◌≡◌, arith, IsU32}
use mcoap.Buffer.{alloc, init}
use mcoap.Token.{create4}

-- A token of a 32-bit prefix determines the prefix: tokens made of different prefixes are different,
-- whatever `rand()` returned for either.
pub prefix_of_token :
    (rand rand' p q : ℕ) → IsU32 p → IsU32 q → create4 rand p ≡ create4 rand' q → p ≡ q
unfolding create4 init alloc
prefix_of_token rand rand' p q a b e = ground arith
