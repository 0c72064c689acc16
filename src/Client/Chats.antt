-- ===== src/Client/Chats.antt =====
-- Client/Client.c against ServerApp/ServerApp.c: creating and joining a group, from the client's
-- call to the chat windows.
use chat_project.Prelude.{
  ℕ, ◌≤◌, ◌<◌, ◌≡◌, refl, ap, Bool, true, [], Option, some, ◌∷◌, ok, ◌>>=◌, Bytes, store, drop,
  length, replicate, until_nul,
}
use chat_project.Protocol.{
  ByteOrder, create_group_conversation_req, create_group_conversation_ans, join_conversation_req,
  join_conversation_ans, group_answer, answer_code, group_successfully_insert,
  group_successfully_join, type_code, pack,
}
use chat_project.Protocol.Extend.{unpack-append, read_word-append}
use chat_project.Buffer.{CharPtr, receive, c_string, group_details}
use chat_project.HashMap.{InsertMemory}
use chat_project.DataBase.{DataBase, db_group_successfully_insert, db_group_join_successfully}
use chat_project.DataBase.Groups.{check_group_name_and_insert, try_to_join_to_group}
use chat_project.ServerApp.{RequestMemory}
use chat_project.ServerApp.Address.{Carries, create_answered-ip, join_answered-ip}
use chat_project.Client.{client_success, buff_size}
use chat_project.Client.EndToEnd.{message_of, served_by}
use chat_project.Client.Groups.{
  PidMap, answered, init_group_struct, ask_about_group, open_chat_window, create_new_group,
  join_to_group,
}

module _ (order : ByteOrder) (connection : Bytes → Option Bytes)
    (block user group rest sent : Bytes) (t c : ℕ) (ip : Bytes)
    (made : init_group_struct (some block) user group ≡ ok (some (t ∷ rest))) where
  create-replies :
      connection (7 ∷ rest) ≡ some sent
      → Carries order create_group_conversation_ans c ip sent
      → ask_about_group order create_group_conversation_req connection (some block) user group
        ≡ ok (answered c ip)
  unfolding ask_about_group pack store type_code receive
  create-replies sends (v, unpacks, reads, names) =
      let zeros = drop (length sent) (replicate buff_size 0) in
      let buffered = unpack-append order sent zeros unpacks in
      let read = read_word-append order group_answer v zeros reads in
      rw (made, sends, buffered, read, names zeros) refl

  join-replies :
      connection (9 ∷ rest) ≡ some sent
      → Carries order join_conversation_ans c ip sent
      → ask_about_group order join_conversation_req connection (some block) user group
        ≡ ok (answered c ip)
  unfolding ask_about_group pack store type_code receive
  join-replies sends (v, unpacks, reads, names) =
      let zeros = drop (length sent) (replicate buff_size 0) in
      let buffered = unpack-append order sent zeros unpacks in
      let read = read_word-append order group_answer v zeros reads in
      rw (made, sends, buffered, read, names zeros) refl

module _ (order : ByteOrder) (a : RequestMemory) (db : DataBase) (db' : Option DataBase)
    (windows : Bytes → Option (ℕ × ℕ)) (block user rest ip memory : Bytes) (t : ℕ) (pid_ok : Bool)
    (mem : InsertMemory) (group : CharPtr) (pids : PidMap) (given : a.answer_ok ≡ true)
    (size : 24 ≤ length a.block) (fits : length ip < 17) (whole : until_nul ip ≡ ip)
    (made : init_group_struct (some block) user (c_string memory group)
      ≡ ok (some (t ∷ rest))) where
  -- Where the data base of the server takes the name of the group that the client's message
  -- carries, `Create_New_Group` opens its windows with the very address that the data base has
  -- given to the group, and reports success, on hosts of the same byte order. The client has a
  -- block for its message and the server one of at least 24 bytes for its answer; the address has
  -- at most 16 characters and no NUL.
  pub create_end_to_end :
      check_group_name_and_insert a.group (7 ∷ rest) (some group_details) (some db) []
        ≡ ok (db_group_successfully_insert, ip, db')
      → create_new_group order
          (served_by order a db)
          windows
          (some block)
          pid_ok
          mem
          memory
          user
          group
          pids
        ≡ (open_chat_window windows pid_ok mem memory ip group pids >>= λ pids'.
            ok (client_success, pids'))
  unfolding create_new_group answer_code open_chat_window
  create_end_to_end answers =
      let (sent, serves, carries) =
        create_answered-ip order a rest (some db) db' ip given size fits whole answers in
      let asked =
        create-replies order (served_by order a db) block user (c_string memory group) rest sent t
          (answer_code group_successfully_insert) ip made (ap message_of serves) carries in
      rw asked refl

  -- Where the data base of the server has a group of the name that the client's message carries,
  -- `Join_To_Group` opens its windows with the address of that group, and reports success, on hosts
  -- of the same byte order. The client has a block for its message and the server one of at least
  -- 24 bytes for its answer; the address has at most 16 characters and no NUL.
  pub join_end_to_end :
      (created : Bytes)
      → try_to_join_to_group (9 ∷ rest) (some group_details) (some db) [] []
        ≡ ok (db_group_join_successfully, created, ip, db')
      → join_to_group order
          (served_by order a db)
          windows
          (some block)
          pid_ok
          mem
          memory
          user
          group
          pids
        ≡ (open_chat_window windows pid_ok mem memory ip group pids >>= λ pids'.
            ok (client_success, pids'))
  unfolding join_to_group answer_code open_chat_window
  join_end_to_end created answers =
      let (sent, serves, carries) =
        join_answered-ip order a rest (some db) db' ip given size fits whole created answers in
      let asked =
        join-replies order (served_by order a db) block user (c_string memory group) rest sent t
          (answer_code group_successfully_join) ip made (ap message_of serves) carries in
      rw asked refl
