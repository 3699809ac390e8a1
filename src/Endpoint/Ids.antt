-- ===== src/Endpoint/Ids.antt =====
-- The message ids that an endpoint gives out.
use mcoap.Base.{ℕ, zero, suc, ◌+◌, ◌-◌, ◌%◌, ◌≤◌, ◌<◌, ◌≡◌, ◌≢◌, to_u16, arith}
use mcoap.Endpoint.{Endpoint, next_id, skip_zero}

-- The endpoint after `n` ids were taken, and the id that it gives out then.
abbrev pub taken : ℕ → Endpoint → Endpoint
unfolding next_id
taken zero endpt = endpt
taken (suc n) endpt = (next_id (taken n endpt)).1

abbrev pub id_after : ℕ → Endpoint → ℕ
unfolding next_id
id_after n endpt = (next_id (taken n endpt)).0

IsId : ℕ → Type 0
IsId id = (1 ≤ id) × (id < 65536)

skip_zero_lem : (m n : ℕ) → skip_zero (to_u16 (((m + n) % 65535 + 1) + 1)) ≡ (m + suc n) % 65535 + 1
skip_zero_lem m n = ground arith

nextid_lem :
    (endpt : Endpoint) (n : ℕ)
    → 1 ≤ endpt.nextid
    → endpt.nextid < 65536
    → (taken n endpt).nextid ≡ (endpt.nextid - 1 + n) % 65535 + 1
unfolding next_id
nextid_lem endpt zero low high = omega arith
nextid_lem endpt (suc n) low high =
    rw (nextid_lem endpt n low high) (skip_zero_lem (endpt.nextid - 1) n)

-- From an id between 1 and 65535 on, the ids are counted up and go from 65535 back to 1: 0 is never
-- given out, and two of 65535 ids in a row are never the same.
pub next_id-distinct :
    (endpt : Endpoint) (m n : ℕ)
    → 1 ≤ endpt.nextid
    → endpt.nextid < 65536
    → m < n
    → n < m + 65535
    → (id_after m endpt ≢ 0) × (id_after m endpt < 65536) × (id_after m endpt ≢ id_after n endpt)
unfolding next_id
next_id-distinct endpt m n low high less near =
    rw (nextid_lem endpt m low high, nextid_lem endpt n low high)
      (omega arith, omega arith, omega arith)
