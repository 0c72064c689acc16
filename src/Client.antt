-- ===== src/Client.antt =====
-- Client/Client.c: registering and logging in from the client. The connection
-- (ClientServerComm/ClientServerComm.c) is an argument: what `recv` puts into the client's buffer,
-- at most `buff_size` bytes, after it has sent a message, or none where `send` fails.
pub mod Connect
pub mod Details
pub mod EndToEnd
pub mod Groups
pub mod Chats
mod Tests
use chat_project.Prelude.{
  ℕ, ◌+◌, Bool, true, false, Option, none, some, List, [], ◌∷◌, ◌++◌, Run, ok, fault, ◌>>=◌, ◌==◌,
  if◌then◌else◌, ltb, Bytes, strcpy, take, drop, length, replicate,
}
use chat_project.Protocol.{
  ProtocolType, ByteOrder, answer_code, register_req, login_req, register_success,
  register_user_name_allready_exist, login_user_successfully_connected, login_user_name_not_exist,
  login_wrong_psw, login_allready_connected, short_answer, pack, unpack, read_word,
}
use chat_project.Buffer.{receive}

-- `Client_err`
pub data ClientErr : Type 0 where
  client_success client_alloc_fail client_fail client_packing_fail client_init_fail : ClientErr
  client_wrong_psw client_user_name_not_exist client_allready_connected : ClientErr
  client_send_to_server_fail client_fail_group_create client_fail_group_leave : ClientErr

abbrev pub buff_size : ℕ
buff_size = 4093

-- the sizes of `m_password` and `m_userName`
abbrev pub max_field : ℕ
max_field = 17

-- `strcpy` into the array of `size` bytes at `offset` of a block: the string and its NUL have to
-- fit into the array, and into the block.
unfoldable pub put_string : (size offset : ℕ) → Bytes → Bytes → Run Bytes
put_string size offset s block = strcpy size s >>= λ t.
    if ltb (offset + length t) (length block)
    then ok (take offset block ++ (t ++ (0 ∷ drop (offset + length t + 1) block)))
    else fault

-- `CreateUserDetails`; `block` is what `malloc` gives
unfoldable pub create_user_details : Option Bytes → (user_name psw : Bytes) → Run (Option Bytes)
create_user_details none user_name psw = ok none
create_user_details (some block) user_name psw = do
  named ← put_string max_field 18 user_name block
  user ← put_string max_field 1 psw named
  ok (some user)

-- The exchange that `User_Register` and `User_LogIn` share: `m_answer` of what was received, or
-- none where the code returns `CLIENT_ALLOC_FAIL`. `Pack` never fails.
ask_server :
    ByteOrder
    → ProtocolType
    → (connection : Bytes → Option Bytes) → Option Bytes
    → (user_name psw : Bytes) → Run (Option ℕ)
ask_server order type connection block user_name psw = do
  created ← create_user_details block user_name psw
  elim created [
    | none ↦ ok none
    | some user ↦ do
      packed ← pack order type user
      elim (connection packed) [
        | none ↦ ok none
        | some message ↦ do
          (_, buffer) ← unpack order (receive (replicate buff_size 0) message)
          answer ← read_word order short_answer buffer
          ok (some answer)
      ]
  ]

-- what `User_Register` returns for an answer
abbrev pub register_result : ℕ → ClientErr
register_result answer =
    if answer == answer_code register_success
    then client_success
    else if answer == answer_code register_user_name_allready_exist
    then client_fail
    else client_fail

-- what `User_LogIn` returns for an answer; `none` stands for -1
abbrev pub login_result : ℕ → Option ClientErr
login_result answer =
    if answer == answer_code login_user_successfully_connected
    then some client_success
    else if answer == answer_code login_user_name_not_exist
    then some client_user_name_not_exist
    else if answer == answer_code login_wrong_psw
    then some client_wrong_psw
    else if answer == answer_code login_allready_connected
    then some client_allready_connected
    else none

-- `User_Register`; each argument may be NULL
unfoldable pub user_register :
    ByteOrder
    → Option (Bytes → Option Bytes)
    → Option Bytes
    → (user_name psw : Option Bytes) → Run ClientErr
unfolding ask_server
user_register order (some connection) block (some user_name) (some psw) =
    ask_server order register_req connection block user_name psw >>= λ reply. elim reply [
      | none ↦ ok client_alloc_fail
      | some answer ↦ ok (register_result answer)
    ]
user_register order _ block _ _ = ok client_alloc_fail

-- `User_LogIn`; each argument may be NULL
unfoldable pub user_log_in :
    ByteOrder
    → Option (Bytes → Option Bytes)
    → Option Bytes
    → (user_name psw : Option Bytes) → Run (Option ClientErr)
unfolding ask_server
user_log_in order (some connection) block (some user_name) (some psw) =
    ask_server order login_req connection block user_name psw >>= λ reply. elim reply [
      | none ↦ ok (some client_alloc_fail)
      | some answer ↦ ok (login_result answer)
    ]
user_log_in order _ block _ _ = ok (some client_alloc_fail)
