-- ===== src/Client/Groups.antt =====
-- Client/Client.c: creating, joining and leaving groups from the client. The connection is an
-- argument as in Client.antt; the windows that `OpenChatWindow` starts are one too: given the
-- address, the two process ids that they write to their files, or none where a file cannot be read.
-- `memory` is what the keys of the map of process ids point to.
use chat_project.Prelude.{
  ℕ, Bool, true, false, Option, none, some, Run, ok, fault, Ref, ◌>>=◌, ◌==◌, if◌then◌else◌, Bytes,
  replicate,
}
use chat_project.Protocol.{
  ProtocolType, ByteOrder, answer_code, create_group_conversation_req, join_conversation_req,
  leave_conversation_req, group_successfully_insert, group_name_already_exist,
  group_successfully_join, group_name_not_exist, group_successfully_found, group_answer, pack,
  unpack, read_word,
}
use chat_project.Buffer.{CharPtr, receive, received, c_string}
use chat_project.HashMap
use chat_project.HashMap.{HashMap, MapResult, InsertMemory}
use chat_project.Client.{
  ClientErr, client_success, client_alloc_fail, client_send_to_server_fail,
  client_fail_group_create, client_fail_group_leave, buff_size, max_field, put_string,
}

-- `struct PID`
pub record Pid : Type 0 where
  pub sender : ℕ
  pub listen : ℕ

abbrev pub PidMap : Type 0
PidMap = Ref (HashMap Bytes CharPtr Pid)

-- the size of `m_groupName` of a request
abbrev pub group_field : ℕ
group_field = 18

-- `Init_Group_struct`; `block` is what `malloc` gives
unfoldable pub init_group_struct :
    Option Bytes → (user_name group_name : Bytes) → Run (Option Bytes)
init_group_struct none user_name group_name = ok none
init_group_struct (some block) user_name group_name = do
  named ← put_string group_field 1 group_name block
  group ← put_string max_field 19 user_name named
  ok (some group)

-- What comes of a request: nothing is made, nothing is sent, or `m_answer` and `m_groupIP` of the
-- answer.
pub data Reply : Type 0 where
  unmade unsent : Reply
  answered : ℕ → Bytes → Reply

unfoldable pub ask_about_group :
    ByteOrder
    → ProtocolType
    → (connection : Bytes → Option Bytes) → Option Bytes
    → (user_name group_name : Bytes) → Run Reply
ask_about_group order type connection block user_name group_name = do
  made ← init_group_struct block user_name group_name
  elim made [
    | none ↦ ok unmade
    | some group ↦ do
      packed ← pack order type group
      elim (connection packed) [
        | none ↦ ok unsent
        | some message ↦ do
          (_, buffer) ← unpack order (receive (replicate buff_size 0) message)
          answer ← read_word order group_answer buffer
          ok (answered answer (c_string buffer (received 1)))
      ]
  ]

-- `InsertPID`
unfoldable pub insert_pid :
    (pid_ok : Bool)
    → InsertMemory
    → (memory : Bytes) → (pid_sender pid_listener : ℕ) → CharPtr
    → PidMap
    → Run PidMap
insert_pid false a memory pid_sender pid_listener group pids = ok pids
insert_pid true a memory pid_sender pid_listener group pids = do
  (_, pids') ←
      HashMap.insert a memory pids (some group)
        (record { sender = pid_sender; listen = pid_listener })
  ok pids'

-- the end of `OpenChatWindow`, which gives the id of the listener as that of the sender
unfoldable pub open_chat_window :
    (windows : Bytes → Option (ℕ × ℕ))
    → (pid_ok : Bool) → InsertMemory
    → (memory : Bytes) → (ip_address : Bytes) → CharPtr
    → PidMap
    → Run PidMap
open_chat_window windows pid_ok a memory ip_address group pids = elim (windows ip_address) [
  | none ↦ ok pids
  | some (listen_pid, sender_pid) ↦ insert_pid pid_ok a memory listen_pid sender_pid group pids
]

is_map_success : MapResult → Bool
is_map_success HashMap.map_success = true
is_map_success _ = false

-- `RemovePID`. Where nothing is removed, it reads a pointer that was never written.
unfoldable pub remove_pid : (memory : Bytes) → CharPtr → PidMap → Run PidMap
unfolding is_map_success
remove_pid memory group pids = do
  (removed, _, pids') ← HashMap.remove memory pids (some group)
  if is_map_success removed then ok pids' else fault

module _ (order : ByteOrder) (connection : Bytes → Option Bytes) (windows : Bytes → Option (ℕ × ℕ))
    (block : Option Bytes) (pid_ok : Bool) (a : InsertMemory) (memory user_name : Bytes)
    (group : CharPtr) where
  -- `Create_New_Group`, which hands NULL to `Pack` where nothing is made
  unfoldable pub create_new_group : PidMap → Run (ClientErr × PidMap)
  create_new_group pids = do
    reply ←
        ask_about_group order create_group_conversation_req connection block user_name
          (c_string memory group)
    elim reply [
      | unmade ↦ fault
      | unsent ↦ ok (client_send_to_server_fail, pids)
      | answered answer ip ↦
          if answer == answer_code group_successfully_insert
          then (do
            pids' ← open_chat_window windows pid_ok a memory ip group pids
            ok (client_success, pids'))
          else if answer == answer_code group_name_already_exist
          then ok (client_fail_group_create, pids)
          else ok (client_success, pids)
    ]

  -- `Join_To_Group`
  unfoldable pub join_to_group : PidMap → Run (ClientErr × PidMap)
  join_to_group pids = do
    reply ←
        ask_about_group order join_conversation_req connection block user_name
          (c_string memory group)
    elim reply [
      | unmade ↦ ok (client_alloc_fail, pids)
      | unsent ↦ ok (client_send_to_server_fail, pids)
      | answered answer ip ↦
          if answer == answer_code group_successfully_join
          then (do
            pids' ← open_chat_window windows pid_ok a memory ip group pids
            ok (client_success, pids'))
          else if answer == answer_code group_name_not_exist
          then ok (client_fail_group_create, pids)
          else ok (client_success, pids)
    ]

  -- `Leave_Group_Conversation`
  unfoldable pub leave_group_conversation : PidMap → Run (ClientErr × PidMap)
  leave_group_conversation pids = do
    reply ←
        ask_about_group order leave_conversation_req connection block user_name
          (c_string memory group)
    elim reply [
      | unmade ↦ ok (client_alloc_fail, pids)
      | unsent ↦ ok (client_send_to_server_fail, pids)
      | answered answer ip ↦
          if answer == answer_code group_successfully_found
          then (do pids' ← remove_pid memory group pids; ok (client_success, pids'))
          else if answer == answer_code group_name_not_exist
          then ok (client_fail_group_leave, pids)
          else ok (client_success, pids)
    ]
