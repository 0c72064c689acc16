-- ===== src/Client/EndToEnd.antt =====
-- Client/Client.c against ServerApp/ServerApp.c: a login from the client's call to what it returns.
use chat_project.Prelude.{
  ℕ, ◌≤◌, ◌≡◌, refl, ap, true, Option, none, some, ◌∷◌, Run, ok, Bytes, store, drop, length,
  replicate,
}
use chat_project.Protocol.{
  ByteOrder, Answers, answer_code, login_req, login_ans, short_answer, type_code, pack, unpack,
  read_word,
}
use chat_project.Protocol.Extend.{unpack-append, read_word-append}
use chat_project.Buffer.{receive, user_details}
use chat_project.DataBase.{DataBase, DbErr}
use chat_project.DataBase.Users.{check_client_status_and_connect}
use chat_project.ServerApp.{RequestMemory, login_reply, get_from_client_and_send_to_server}
use chat_project.ServerApp.Answer.{login_answered}
use chat_project.Client.{login_result, create_user_details, ask_server, user_log_in, buff_size}

-- the message that goes back after a request was served
abbrev pub message_of : Run (Option Bytes × Option DataBase) → Option Bytes
message_of (ok (answer, db)) = answer
message_of _ = none

-- the connection to a server that serves one request at this state of the data base
abbrev pub served_by : ByteOrder → RequestMemory → DataBase → Bytes → Option Bytes
served_by order a db request =
    message_of (get_from_client_and_send_to_server order a request (some db))

ask_server-replies :
    (order : ByteOrder) (connection : Bytes → Option Bytes) (block name psw rest sent v : Bytes)
    (t answer : ℕ)
    → create_user_details (some block) name psw ≡ ok (some (t ∷ rest))
    → connection (2 ∷ rest) ≡ some sent
    → unpack order sent ≡ ok (some login_ans, v)
    → read_word order short_answer v ≡ ok answer
    → ask_server order login_req connection (some block) name psw ≡ ok (some answer)
unfolding ask_server pack store type_code receive
ask_server-replies order connection block name psw rest sent v t answer made answered unpacks
      reads =
    let zeros = drop (length sent) (replicate buff_size 0) in
    let buffered = unpack-append order sent zeros unpacks in
    let read = read_word-append order short_answer v zeros reads in
    rw (made, answered, buffered, read) refl

-- Where the client makes its message and the server has a block of at least the 8 bytes of a
-- `Login_Ans`, `User_LogIn` returns the result for what the data base of the server answers to that
-- message, if that is one of the four results that `CheckUserNameOnDB` has an answer for, on hosts
-- of the same byte order.
pub log_in_end_to_end :
    (order : ByteOrder) (a : RequestMemory) (db : DataBase) (block name psw rest : Bytes) (t : ℕ)
    (rcv : DbErr) (reply : Answers) (db' : Option DataBase)
    → a.answer_ok ≡ true
    → 8 ≤ length a.block
    → create_user_details (some block) name psw ≡ ok (some (t ∷ rest))
    → check_client_status_and_connect a.user (2 ∷ rest) (some db) (some user_details)
      ≡ ok (rcv, db')
    → login_reply rcv ≡ some reply
    → user_log_in order (some (served_by order a db)) (some block) (some name) (some psw)
      ≡ ok (login_result (answer_code reply))
unfolding user_log_in
log_in_end_to_end order a db block name psw rest t rcv reply db' given size made answers replies =
    let (sent, serves, arrives) =
      login_answered order a rest db db' rcv reply given size answers replies in
    let (v, unpacks, reads) = arrives in
    let replied =
      ask_server-replies order (served_by order a db) block name psw rest sent v t
        (answer_code reply) made (ap message_of serves) unpacks reads in
    rw replied refl
