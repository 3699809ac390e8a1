-- ===== src/Token.antt =====
-- mcoap/mc_token.c: tokens of a caller's prefix and a random suffix. What `rand()` returned is an
-- argument.
pub mod Distinct
use mcoap.Base.{ℕ, ◌%◌, some, [], ◌∷◌, ◌++◌, u32_mod}
use mcoap.Endian.{host, bytes_of_u16, bytes_of_u32}
use mcoap.Buffer.{Buffer, alloc, init}

unfoldable pub create1 : ℕ → ℕ → Buffer
create1 rand prefix =
    let suffix = rand % u32_mod in init alloc 5 (some ((prefix ∷ []) ++ bytes_of_u32 host suffix))

unfoldable pub create2 : ℕ → ℕ → Buffer
create2 rand prefix =
    let suffix = rand % u32_mod in
    init alloc 6 (some (bytes_of_u16 host prefix ++ bytes_of_u32 host suffix))

unfoldable pub create4 : ℕ → ℕ → Buffer
create4 rand prefix =
    let suffix = rand % u32_mod in
    init alloc 8 (some (bytes_of_u32 host prefix ++ bytes_of_u32 host suffix))
