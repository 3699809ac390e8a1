-- ===== src/Message.antt =====
-- mcoap/mc_message.c and mcoap/mc_message.h: a message in memory. Writing one into a buffer is in
-- `Encode`, reading one from a buffer in `Decode`. The type of socket addresses is a parameter.
pub mod Encode
pub mod Decode
use mcoap.Base.{ℕ, Bool, false, Option, none, some, ◌==◌, ◌>>=◌}
use mcoap.Header
use mcoap.Buffer
use mcoap.Buffer.{Buffer}
use mcoap.OptionsList.{OptionsList}

-- MC_CONFIRM, MC_NOCONFIRM, MC_ACK, MC_RESET and MESSAGE_VERSION
abbrev pub type_confirm : ℕ
type_confirm = 0

abbrev pub type_noconfirm : ℕ
type_noconfirm = 1

abbrev pub type_ack : ℕ
type_ack = 2

abbrev pub type_reset : ℕ
type_reset = 3

abbrev pub message_version : ℕ
message_version = 1

-- `mc_message_t`
pub record Message (Addr : Type 0) : Type 0 where
  pub header : ℕ
  pub token : Option Buffer
  pub options : Option OptionsList
  pub payload : Option Buffer
  pub source : Option Addr

module _ {Addr : Type 0} where
  unfoldable pub alloc : Message Addr
  alloc = record { header = 0; token = none; options = none; payload = none; source = none }

  -- A null token is a fault.
  unfoldable pub init :
      ℕ → ℕ → ℕ → ℕ → Option Buffer → Option OptionsList → Option Buffer → Option (Message Addr)
  init version message_type code message_id token options payload = do
    t ← token
    some (record {
      header = Header.create version message_type t.nbytes code message_id;
      token = token;
      options = options;
      payload = payload;
      source = none;
    })

  unfoldable pub con_init :
      ℕ → ℕ → Option Buffer → Option OptionsList → Option Buffer → Option (Message Addr)
  unfolding init
  con_init code message_id token options payload =
      init message_version type_confirm code message_id token options payload

  unfoldable pub non_init :
      ℕ → ℕ → Option Buffer → Option OptionsList → Option Buffer → Option (Message Addr)
  unfolding init
  non_init code message_id token options payload =
      init message_version type_noconfirm code message_id token options payload

  unfoldable pub ack_init :
      ℕ → ℕ → Option Buffer → Option OptionsList → Option Buffer → Option (Message Addr)
  unfolding init
  ack_init code message_id token options payload =
      init message_version type_ack code message_id token options payload

  unfoldable pub rst_init :
      ℕ → ℕ → Option Buffer → Option OptionsList → Option Buffer → Option (Message Addr)
  unfolding init
  rst_init code message_id token options payload =
      init message_version type_reset code message_id token options payload

  -- All that the message owns is freed and its pointers are cleared.
  unfoldable pub deinit : Message Addr → Message Addr
  deinit message = record message { token = none; options = none; payload = none; source = none }

  unfoldable pub get_version : Message Addr → ℕ
  get_version message = Header.get_version message.header

  unfoldable pub get_type : Message Addr → ℕ
  get_type message = Header.get_message_type message.header

  unfoldable pub is_ack : Option (Message Addr) → Bool
  unfolding get_type
  is_ack none = false
  is_ack (some msg) = type_ack == get_type msg

  unfoldable pub is_confirmable : Message Addr → Bool
  unfolding get_type
  is_confirmable msg = type_confirm == get_type msg

  unfoldable pub is_reset : Message Addr → Bool
  unfolding get_type
  is_reset msg = type_reset == get_type msg

  unfoldable pub get_token_len : Message Addr → ℕ
  get_token_len message = Header.get_token_length message.header

  unfoldable pub get_code : Message Addr → ℕ
  get_code message = Header.get_code message.header

  unfoldable pub get_message_id : Message Addr → ℕ
  get_message_id message = Header.get_message_id message.header

  unfoldable pub copy_token : Message Addr → Option (Option Buffer)
  unfolding get_token_len
  copy_token message = Buffer.copy message.token 0 (get_token_len message)
