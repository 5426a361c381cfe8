-- ===== src/Tui/State.antt =====
-- The state of the terminal interface (internal/tui/model.go), the messages it reacts to, and what it
-- reads from outside. Styles are left out. A pointer to an account is the account's identifier; the
-- account behind it is shared with the server, so it is read when it is used.
use sg_emulator.Base.{ℕ, Bool, false, Option, none, List, []}
use sg_emulator.Base.Bytes.{Bytes}
use sg_emulator.Base.Dict.{Dict}
use sg_emulator.Base.Int.{ℤ}
use sg_emulator.Errors.{Error}
use sg_emulator.Id.{ScalegraphId}
use sg_emulator.Token.{Token}
use sg_emulator.Account.{Account}
use sg_emulator.Verify.{PayloadBytes}
use sg_emulator.Server.{Request}
use sg_emulator.Client.{Delivery}

-- `ViewState`
pub data View : Type 0 where
  menu create_account account_detail account_detail_single transaction_detail send_money : View
  virtual_nodes token_menu mint_token authorize_token_transfer : View
  unauthorize_token_transfer transfer_token token_list burn_token clawback_token freeze_token : View
  unfreeze_token lookup_token : View

-- A move is asked for with an arrow or with a letter (`k` up, `j` down).
pub data Press : Type 0 where
  arrow letter : Press

-- What `msg.String()` is tested for; `other` has any other text.
pub data Key : Type 0 where
  ctrl_c esc q tab shift_tab enter backspace : Key
  up down : Press → Key
  other : Bytes → Key

-- `tea.KeyMsg` and `tea.WindowSizeMsg`; another message changes nothing.
pub data Message : Type 0 where
  key : Key → Message
  window_size : (width height : ℕ) → Message
  another : Message

pub record AccountCredentials : Type 0 where
  pub private_key_pem : Bytes
  pub certificate_pem : Bytes

-- `textinput.Model`: its text, and whether it has the focus.
pub record Input : Type 0 where
  pub value : Bytes
  pub is_focused : Bool

-- The texts of `statusMsg`, with the error or the text that they cite.
pub data Status : Type 0 where
  empty invalid_balance account_created invalid_amount transfer_complete : Status
  failed credentials_failed private_key_failed sign_failed : Error → Status
  value_empty need_two_accounts no_owned_tokens no_matching_tokens id_empty : Status
  token_minted : Bytes → Status
  authorized unauthorized transferred burned clawed_back frozen unfrozen : Status

-- `Model`, without the client and the server, which the `World` stands for.
pub record Model : Type 0 where
  pub width : ℕ
  pub height : ℕ
  pub ready : Bool
  pub view : View
  pub account_names : Dict Bytes
  pub credential_cache : Dict AccountCredentials
  pub cached_accounts : List ScalegraphId
  pub cached_tokens : List Token
  pub menu_cursor : ℕ
  pub balance_input : Input
  pub name_input : Input
  pub create_account_focus : ℕ
  pub selected_account_index : ℕ
  pub transaction_offset : ℕ
  pub selected_transaction_index : ℕ
  pub token_list_offset : ℕ
  pub send_from_index : ℕ
  pub send_to_index : ℕ
  pub send_amount : Bytes
  pub send_step : ℕ
  pub token_menu_cursor : ℕ
  pub token_step : ℕ
  pub token_account_index : ℕ
  pub token_to_account_index : ℕ
  pub token_source_index : ℕ
  pub token_clawback_index : ℕ
  pub token_freeze_index : ℕ
  pub token_token_index : ℕ
  pub token_value_input : Input
  pub lookup_token_input : Input
  pub lookup_result : Option Token
  pub status_msg : Status

abbrev blank : Input
blank = record { value = []; is_focused = false }

-- `NewModel`
unfoldable pub new_model : Model
new_model = record {
  width = 0;
  height = 0;
  ready = false;
  view = View.menu;
  account_names = [];
  credential_cache = [];
  cached_accounts = [];
  cached_tokens = [];
  menu_cursor = 0;
  balance_input = blank;
  name_input = blank;
  create_account_focus = 0;
  selected_account_index = 0;
  transaction_offset = 0;
  selected_transaction_index = 0;
  token_list_offset = 0;
  send_from_index = 0;
  send_to_index = 0;
  send_amount = [];
  send_step = 0;
  token_menu_cursor = 0;
  token_step = 0;
  token_account_index = 0;
  token_to_account_index = 0;
  token_source_index = 0;
  token_clawback_index = 0;
  token_freeze_index = 0;
  token_token_index = 0;
  token_value_input = blank;
  lookup_token_input = blank;
  lookup_result = none;
  status_msg = Status.empty;
}

-- The CA of the server, and the store of the accounts' credentials (internal/ca): the PEM texts
-- under an account's identifier in print, `none` where they cannot be read.
pub record Authority : Type 0 where
  pub public_key : Bytes
  pub private_key : Bytes
  pub account_private_key_pem : Bytes → Option Bytes
  pub account_certificate_pem : Bytes → Option Bytes

-- What a message meets outside of the model.
pub record World : Type 0 where
  -- the clock, when the payload of a payment is built, and when a payload is signed
  pub payload_time : ℤ
  pub now : ℤ
  -- what becomes of a request that the client sends
  pub deliver : Request → Delivery
  -- the account behind a pointer
  pub account : ScalegraphId → Account
  -- the identifier of a new account in the server's answer
  pub created : ScalegraphId
  pub ca : Option Authority
  -- SHA-1 of a public key, Ed25519, and the JSON text of each payload
  pub derive_account_id : Bytes → Bytes
  pub ed25519_sign : Bytes → Bytes → Bytes
  pub json : PayloadBytes
  -- `crypto.DecodePrivateKeyPEM`
  pub decode_private_key_pem : Bytes → Option Bytes
  -- `strconv.ParseFloat`, where it gives a finite number
  pub parse_float : Bytes → Option ℤ
  -- `textinput.Update`
  pub edit : Key → Input → Input

-- A new model, the end of the program (`tea.Quit`), or a run-time panic.
pub data Outcome : Type 0 where
  next : Model → Outcome
  quit crash : Outcome
