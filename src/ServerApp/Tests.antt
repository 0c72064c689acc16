-- ===== src/ServerApp/Tests.antt =====
-- The server at concrete inputs.
use chat_project.Prelude.{
  ◌≡◌, refl, arith, some, ◌∷◌, ◌++◌, ok, fault, Bytes, codes, replicate, rem, load, str_equal,
}
use chat_project.Protocol.{
  little_endian, big_endian, login_ans, register_ans, create_group_conversation_ans, short_answer,
  group_answer, read_word, answer_code, login_user_successfully_connected, type_of,
}
use chat_project.HashMap.{find, find_item, valid_data, index_of}
use chat_project.Buffer.{c_string, hash_function, equality_function, user_details}
use chat_project.DataBase.{
  db_group_successfully_insert, names_of, already_exist, db_connect_succesfully,
}
use chat_project.DataBase.Users.{user_made, insert_user_to_list, is_user_name_unique}
use chat_project.DataBase.Samples.{ann_db, nan_request, nan_logs_in}
use chat_project.ServerApp.{login_reply, group_reply, get_from_client_and_send_to_server}
use chat_project.ServerApp.Answer.{Arrives, login_answered, register_answered, create_answered}
use chat_project.ServerApp.Unserved.{unserved_faults}
use chat_project.ServerApp.Samples.{memory, group_rest, before_create, after_create, group_created}

login_answered_example :
    (sent : Bytes) × (get_from_client_and_send_to_server little_endian memory nan_request
        (some ann_db)
      ≡ ok (some sent, some ann_db))
    × Arrives little_endian login_ans short_answer 2 sent
unfolding answer_code login_reply
login_answered_example =
    login_answered little_endian memory
      (codes "key" ++ (replicate 14 0 ++ (codes "nan" ++ replicate 14 0))) ann_db (some ann_db)
      db_connect_succesfully login_user_successfully_connected refl (omega arith) nan_logs_in refl

-- the name is taken
abbrev register_rest : Bytes
register_rest = codes "key" ++ (replicate 14 0 ++ (codes "ann" ++ replicate 14 0))

ann_taken :
    is_user_name_unique user_made (0 ∷ register_rest) ann_db user_details
    ≡ ok (already_exist, ann_db)
unfolding is_user_name_unique names_of find valid_data index_of rem load hash_function c_string
    equality_function str_equal insert_user_to_list find_item
ann_taken = refl

register_answered_example :
    (sent : Bytes) × (get_from_client_and_send_to_server big_endian memory
        (0 ∷ register_rest)
        (some ann_db)
      ≡ ok (some sent, some ann_db))
    × Arrives big_endian register_ans short_answer 1 sent
register_answered_example =
    register_answered big_endian memory register_rest ann_db ann_db 0 refl (omega arith) ann_taken

create_answered_example :
    (sent : Bytes) × (get_from_client_and_send_to_server little_endian memory
        (7 ∷ group_rest)
        (some before_create)
      ≡ ok (some sent, some after_create))
    × Arrives little_endian create_group_conversation_ans group_answer 6 sent
unfolding answer_code group_reply read_word
create_answered_example =
    create_answered little_endian memory group_rest (some before_create) (some after_create)
      db_group_successfully_insert (codes "229.1.0.1") 2863311530 refl (omega arith) group_created
      (omega arith) refl

unserved_faults_example :
    get_from_client_and_send_to_server little_endian memory (4 ∷ register_rest) (some ann_db)
    ≡ fault
unfolding type_of
unserved_faults_example = unserved_faults little_endian memory 4 register_rest (some ann_db) refl
