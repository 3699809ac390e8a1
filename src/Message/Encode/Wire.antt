-- ===== src/Message/Encode/Wire.antt =====
-- The format of RFC 7252, section 3: header, token, options, and a payload behind its marker.
use mcoap.Base.{ℕ, ◌≤◌, ◌≡◌, Option, none, some, List, [], ◌∷◌, ◌++◌, length, take, block_of, IsU32}
use mcoap.Endian.{big, bytes_of_u32}
use mcoap.Buffer.{Buffer}
use mcoap.CoapOption.{CoapOption}
use mcoap.OptionsList.{OptionsList}
use mcoap.OptionsList.Encode.Format.{encode}
use mcoap.Message.{Message}

-- A payload stands behind its marker; without payload bytes there is no marker.
abbrev pub marked : List ℕ → List ℕ
marked [] = []
marked (byte ∷ bytes) = 0xff ∷ byte ∷ bytes

unfoldable pub wire : ℕ → List ℕ → List CoapOption → List ℕ → List ℕ
wire header token options payload =
    bytes_of_u32 big header ++ (token ++ (encode 0 options ++ marked payload))

-- A buffer that holds just these bytes, from its block's start.
pub record Carries (buffer : Buffer) (bytes : List ℕ) : Type 0 where
  pub count : buffer.nbytes ≡ length bytes
  pub held : buffer.nbytes ≤ length (block_of buffer.bytes)
  pub first : take buffer.nbytes (block_of buffer.bytes) ≡ bytes
  pub small : IsU32 buffer.nbytes

abbrev pub CarriesPayload : Option Buffer → List ℕ → Type 0
CarriesPayload none bytes = bytes ≡ []
CarriesPayload (some buffer) bytes = Carries buffer bytes

-- The array may have more entries than are counted.
abbrev pub CarriesOptions : Option OptionsList → List CoapOption → Type 0
CarriesOptions none options = options ≡ []
CarriesOptions (some list) options =
    (unused : List CoapOption) × (list.options ≡ some (options ++ unused))
    × (list.noptions ≡ length options)

-- A message with these parts.
pub record IsMessage {Addr : Type 0} (message : Message Addr) (token : List ℕ)
    (options : List CoapOption) (payload : List ℕ) : Type 0 where
  pub token_buffer : Buffer
  pub token_there : message.token ≡ some token_buffer
  pub token_carries : Carries token_buffer token
  pub options_carry : CarriesOptions message.options options
  pub payload_carries : CarriesPayload message.payload payload
