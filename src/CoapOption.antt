-- ===== src/CoapOption.antt =====
-- mcoap/mc_option.c: one option in memory, its number and its value.
pub mod Uint
use mcoap.Base.{
  ℕ, ◌+◌, ◌-◌, ◌%◌, ◌≤◌, Option, none, some, List, [], ◌∷◌, ◌++◌, length, get_elem?, read_at,
  block_of, add32, sub32, to_u8, to_u16, ltb, leb, ◌==◌, if◌then◌else◌, ◌>>=◌,
}
use mcoap.Endian.{host, bytes_of_u16, bytes_of_u32, u16_of_bytes, u32_of_bytes, swap_u16, swap_u32}
use mcoap.Buffer
use mcoap.Buffer.{Buffer}

-- `mc_option_t`
pub record CoapOption : Type 0 where
  pub option_num : ℕ
  pub value : Buffer

-- `ms_calloc(1, mc_option_t)`
unfoldable pub alloc : CoapOption
unfolding Buffer.alloc
alloc = record { option_num = 0; value = Buffer.alloc }

unfoldable pub deinit : CoapOption → CoapOption
deinit option = record option { value = Buffer.deinit option.value }

-- The loop of `mc_option_ndeinit` over a block of options.
unfoldable pub ndeinit : List CoapOption → ℕ → List CoapOption
ndeinit [] count = []
ndeinit (option ∷ options) count =
    if count == 0 then option ∷ options else deinit option ∷ ndeinit options (count - 1)

unfoldable pub init : CoapOption → ℕ → ℕ → Option (List ℕ) → CoapOption
init option option_num nbytes bytes = record option {
  option_num = option_num;
  value = record { nbytes = nbytes; bytes = bytes };
}

-- The C string is given by its characters; its terminating 0 is in the block and not in the count.
unfoldable pub init_str : CoapOption → ℕ → List ℕ → CoapOption
unfolding Buffer.init
init_str option option_num value = record option {
  option_num = option_num;
  value = Buffer.init option.value (length value % 4294967296) (some (value ++ (0 ∷ [])));
}

-- `ms_copy_uint16` and `ms_copy_uint32` allocate more than they copy; the block here is what they
-- copy.
unfoldable pub init_uint32 : CoapOption → ℕ → ℕ → CoapOption
unfolding Buffer.init
init_uint32 option option_num value =
    if leb value 0xff
    then record option {
      option_num = option_num;
      value = Buffer.init option.value 1 (some (to_u8 value ∷ []));
    }
    else if leb value 0xffff
    then record option {
      option_num = option_num;
      value = Buffer.init option.value 2 (some (bytes_of_u16 host (swap_u16 (to_u16 value))));
    }
    else record option {
      option_num = option_num;
      value = Buffer.init option.value 4 (some (bytes_of_u32 host (swap_u32 value)));
    }

-- `ms_copy_uint8`: a read of the whole count; a null block holds nothing.
unfoldable pub copy_uint8 : ℕ → Option (List ℕ) → Option (List ℕ)
copy_uint8 count bytes = read_at (block_of bytes) 0 count

unfoldable pub copy_to : Option CoapOption → CoapOption → Option (Option CoapOption)
unfolding copy_uint8 init
copy_to none from = some none
copy_to (some to) from = do
  bytes ← copy_uint8 from.value.nbytes from.value.bytes
  some (some (init to from.option_num from.value.nbytes (some bytes)))

unfoldable pub read_u8 : List ℕ → Option ℕ
read_u8 block = get_elem? block 0

unfoldable pub read_u16 : List ℕ → Option ℕ
read_u16 block = do two ← read_at block 0 2; v ← u16_of_bytes host two; some (swap_u16 v)

unfoldable pub read_u32 : List ℕ → Option ℕ
read_u32 block = do four ← read_at block 0 4; v ← u32_of_bytes host four; some (swap_u32 v)

unfoldable pub as_uint32_of : ℕ → Option (List ℕ) → Option ℕ
unfolding read_u8 read_u16 read_u32
as_uint32_of nbytes none = some 0
as_uint32_of nbytes (some block) =
    if nbytes == 1 then read_u8 block else if nbytes == 2 then read_u16 block else read_u32 block

unfoldable pub as_uint32 : Option CoapOption → Option ℕ
unfolding as_uint32_of
as_uint32 none = some 0
as_uint32 (some option) = as_uint32_of option.value.nbytes option.value.bytes

unfoldable pub extended_int_size : ℕ → ℕ
extended_int_size delta =
    if ltb delta 13 then 1 else if ltb delta 269 then 2 else if ltb delta 65805 then 3 else 0

-- All sums are of `uint32_t`.
unfoldable pub buffer_size : CoapOption → ℕ → ℕ
unfolding extended_int_size
buffer_size option prev_option_num =
    let delta = sub32 option.option_num prev_option_num in
    let nbytes = option.value.nbytes in
    sub32 (add32 (add32 (extended_int_size delta) (extended_int_size nbytes)) nbytes) 1
