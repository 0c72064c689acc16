-- ===== src/ServerApp.antt =====
-- ServerApp/ServerApp.c: one request. The message stands in the receive buffer, and the answer is
-- the bytes of a C struct that `malloc` gave, so the bytes that the code does not write are what
-- was in that block before.
pub mod Answer
pub mod Unserved
pub mod Address
pub mod Samples
mod Tests
use chat_project.Prelude.{
  ℕ, zero, suc, ◌+◌, Bool, true, false, not, Option, none, some, List, [], ◌∷◌, ◌++◌, Run, ok,
  fault, ◌>>=◌, load, store, ◌==◌, if◌then◌else◌, Bytes, strcpy, drop, take, length,
}
use chat_project.Protocol.{
  ProtocolType, ByteOrder, little_endian, big_endian, Answers, answer_code, type_code, type_of,
  register_req, register_ans, login_req, login_ans, create_group_conversation_req,
  create_group_conversation_ans, join_conversation_req, join_conversation_ans,
  leave_conversation_req, leave_conversation_ans, register_success,
  register_user_name_allready_exist, login_user_successfully_connected, login_user_name_not_exist,
  login_wrong_psw, login_allready_connected, group_successfully_insert, group_name_already_exist,
  group_name_not_exist, group_successfully_join, short_answer, group_answer, pack, unpack,
}
use chat_project.Buffer.{user_details, group_details}
use chat_project.DataBase.{
  DataBase, DbErr, db_connect_succesfully, db_already_connected, db_worng_user_name, db_worng_psw,
  db_group_successfully_insert, db_group_name_already_exist, db_group_name_not_exist,
  db_group_join_successfully, db_group_remove_successfully, uniqe, already_exist,
}
use chat_project.DataBase.Users.{UserMemory, is_user_name_unique, check_client_status_and_connect}
use chat_project.DataBase.Groups.{
  GroupMemory, check_group_name_and_insert, try_to_join_to_group, try_to_leave_to_group,
}

-- What the allocator does for one request: for the answer, whether it is given and what stands in
-- the block, and for the data base.
pub record RequestMemory : Type 0 where
  pub answer_ok : Bool
  pub block : Bytes
  pub user : UserMemory
  pub group : GroupMemory

-- `m_answer = a`, at `offset`
unfoldable pub write_word : ByteOrder → (offset : ℕ) → ℕ → Bytes → Run Bytes
write_word little_endian zero a (_ ∷ _ ∷ _ ∷ _ ∷ rest) = ok (a ∷ 0 ∷ 0 ∷ 0 ∷ rest)
write_word big_endian zero a (_ ∷ _ ∷ _ ∷ _ ∷ rest) = ok (0 ∷ 0 ∷ 0 ∷ a ∷ rest)
write_word order zero a _ = fault
write_word order (suc n) a [] = fault
write_word order (suc n) a (x ∷ xs) = write_word order n a xs >>= λ ys. ok (x ∷ ys)

-- `strcpy( m_groupIP, ip )`: the string and its NUL from offset 1 on
unfoldable pub write_ip : Bytes → Bytes → Run Bytes
write_ip ip [] = fault
write_ip ip (t ∷ rest) = strcpy 17 ip >>= λ s. ok (t ∷ s ++ (0 ∷ drop (length s + 1) rest))

-- the cases of the switch over the result of the data base, with the address that each copies
pub group_reply : DbErr → (created joined left : Bytes) → Option (Option Bytes × Answers)
group_reply err created joined left = elim err [
  | db_group_successfully_insert ↦ some (some created, group_successfully_insert)
  | db_group_name_already_exist ↦ some (none, group_name_already_exist)
  | db_group_name_not_exist ↦ some (some created, group_name_not_exist)
  | db_group_join_successfully ↦ some (some joined, group_successfully_join)
  | db_group_remove_successfully ↦ some (some left, group_successfully_join)
  | _ ↦ none
]

write_reply : ByteOrder → Option (Option Bytes × Answers) → Bytes → Run Bytes
write_reply order none answer = ok answer
write_reply order (some (none, a)) answer = write_word order group_answer (answer_code a) answer
write_reply order (some (some ip, a)) answer =
    write_ip ip answer >>= write_word order group_answer (answer_code a)

group_answer_of :
    ByteOrder
    → Bytes
    → ProtocolType
    → DbErr
    → (created joined left : Bytes) → Option DataBase
    → Run (Option Bytes × Option DataBase)
unfolding group_reply write_reply
group_answer_of order block type err created joined left db = do
  answer ← store block 0 (type_code type)
  answer' ← write_reply order (group_reply err created joined left) answer
  ok (some answer', db)

-- `ANSForGroupRequests`, by the type of the request
unfoldable pub ans_for_group_requests :
    ByteOrder
    → RequestMemory
    → Bytes
    → Option DataBase
    → ProtocolType
    → Run (Option Bytes × Option DataBase)
unfolding group_answer_of
ans_for_group_requests order a buffer db type =
    if not a.answer_ok then ok (none, db) else elim type [
      | create_group_conversation_req ↦ do
        (err, ip, db') ← check_group_name_and_insert a.group buffer (some group_details) db []
        group_answer_of order a.block create_group_conversation_ans err ip [] [] db'
      | join_conversation_req ↦ do
        (err, _, ip, db') ← try_to_join_to_group buffer (some group_details) db [] []
        group_answer_of order a.block join_conversation_ans err [] ip [] db'
      | leave_conversation_req ↦ do
        (err, ip, db') ← try_to_leave_to_group buffer (some group_details) db []
        group_answer_of order a.block leave_conversation_ans err [] [] ip db'
      | _ ↦ ok (some a.block, db)
    ]

short_answer_of :
    ByteOrder
    → Bytes
    → ProtocolType
    → Option Answers
    → Option DataBase
    → Run (Option Bytes × Option DataBase)
short_answer_of order block type none db =
    store block 0 (type_code type) >>= λ answer. ok (some answer, db)
short_answer_of order block type (some a) db = do
  answer ← store block 0 (type_code type)
  answer' ← write_word order short_answer (answer_code a) answer
  ok (some answer', db)

unfoldable pub login_reply : DbErr → Option Answers
login_reply err = elim err [
  | db_connect_succesfully ↦ some login_user_successfully_connected
  | db_already_connected ↦ some login_allready_connected
  | db_worng_user_name ↦ some login_user_name_not_exist
  | db_worng_psw ↦ some login_wrong_psw
  | _ ↦ none
]

-- `CheckUserNameOnDB`, by the type of the request
unfoldable pub check_user_name_on_db :
    ByteOrder
    → RequestMemory
    → Bytes
    → Option DataBase
    → ProtocolType
    → Run (Option Bytes × Option DataBase)
unfolding short_answer_of login_reply
check_user_name_on_db order a buffer none type = ok (none, none)
check_user_name_on_db order a buffer (some db) type =
    if not a.answer_ok then ok (none, some db) else elim type [
      | register_req ↦ do
        (res, db') ← is_user_name_unique a.user buffer db user_details
        let reply =
            if res == uniqe
            then some register_success
            else if res == already_exist
            then some register_user_name_allready_exist
            else none
        short_answer_of order a.block register_ans reply (some db')
      | login_req ↦ do
        (rcv, db') ← check_client_status_and_connect a.user buffer (some db) (some user_details)
        short_answer_of order a.block login_ans (login_reply rcv) db'
      | _ ↦ fault
    ]

-- `Pack( answer->m_type, answer )`: a NULL answer is read through
pack_answer : ByteOrder → Option Bytes → Option DataBase → Run (Option Bytes × Option DataBase)
pack_answer order none db = fault
pack_answer order (some answer) db = do
  type_byte ← load answer 0
  elim (type_of type_byte) [
    | none ↦ ok (some answer, db)
    | some type ↦ pack order type answer >>= λ packed. ok (some packed, db)
  ]

-- the switch of `GetFromClientAndSendToServer`
unfoldable pub dispatch :
    ByteOrder
    → RequestMemory
    → Bytes
    → Option DataBase
    → Option ProtocolType
    → Run (Option Bytes × Option DataBase)
unfolding pack_answer
dispatch order a buffer db none = pack_answer order none db
dispatch order a buffer db (some type) = elim type [
  | register_req ↦ check_user_name_on_db order a buffer db register_req >>= λ (answer, db').
      elim answer [ none ↦ ok (none, db') | some bytes ↦ pack_answer order (some bytes) db' ]
  | login_req ↦ check_user_name_on_db order a buffer db login_req >>= λ (answer, db'). elim answer [
    | none ↦ ok (none, db')
    | some bytes ↦ pack_answer order (some bytes) db'
  ]
  | create_group_conversation_req ↦
      ans_for_group_requests order a buffer db create_group_conversation_req >>= λ (answer, db').
      pack_answer order answer db'
  | join_conversation_req ↦
      ans_for_group_requests order a buffer db join_conversation_req >>= λ (answer, db').
      pack_answer order answer db'
  | leave_conversation_req ↦
      ans_for_group_requests order a buffer db leave_conversation_req >>= λ (answer, db').
      pack_answer order answer db'
  | _ ↦ pack_answer order none db
]

-- `GetFromClientAndSendToServer`: the answer, or NULL, and the data base
unfoldable pub get_from_client_and_send_to_server :
    ByteOrder → RequestMemory → Bytes → Option DataBase → Run (Option Bytes × Option DataBase)
get_from_client_and_send_to_server order a buffer db = do
  (type, buffer') ← unpack order buffer
  dispatch order a buffer' db type
