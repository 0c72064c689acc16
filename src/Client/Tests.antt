-- ===== src/Client/Tests.antt =====
-- The client at concrete inputs.
use chat_project.Prelude.{
  ℕ, ◌+◌, ◌≡◌, refl, arith, true, false, Option, none, some, List, [], ◌∷◌, ◌++◌, ok, null, live,
  Bytes, codes, replicate, strcpy, until_nul,
}
use chat_project.Protocol.{big_endian, login_user_successfully_connected, answer_code}
use chat_project.HashMap.{HashMap, Slot, item_made, map_made}
use chat_project.HashMap.View.{IsMap, view}
use chat_project.Buffer.{CharPtr, owned, c_string}
use chat_project.DataBase.{db_connect_succesfully}
use chat_project.DataBase.Users.{user_made}
use chat_project.DataBase.Samples.{ann_db, nan_logs_in}
use chat_project.ServerApp.{RequestMemory, login_reply}
use chat_project.Client.{client_success, put_string, create_user_details, user_log_in}
use chat_project.Client.EndToEnd.{served_by, log_in_end_to_end}
use chat_project.Client.Groups.{
  Pid, init_group_struct, open_chat_window, create_new_group, join_to_group,
}
use chat_project.Client.Chats.{create_end_to_end, join_end_to_end}
use chat_project.Client.Connect.{connect_user, connected, connect_user-IsMap}
use chat_project.ClientServerComm.{Sockets, client_status_connected}
use chat_project.ServerApp.Samples
use chat_project.ServerApp.Samples.{
  group_rest, before_create, after_create, chess_of, group_created, group_joined,
}

abbrev blank : Bytes
blank = replicate 34 0

abbrev message : Bytes
message = codes "key" ++ (replicate 14 0 ++ (codes "nan" ++ replicate 14 0))

message_made :
    create_user_details (some (7 ∷ blank)) (codes "nan") (codes "key") ≡ ok (some (7 ∷ message))
unfolding create_user_details put_string strcpy
message_made = refl

abbrev memory : RequestMemory
memory = record {
  answer_ok = true;
  block = replicate 24 170;
  user = user_made;
  group = record {
    value_ok = true;
    item = item_made;
    name_ok = true;
    name_block = 24;
    user_item = item_made;
  };
}

log_in_end_to_end_example :
    user_log_in big_endian
      (some (served_by big_endian memory ann_db))
      (some (7 ∷ blank))
      (some (codes "nan"))
      (some (codes "key"))
    ≡ ok (some client_success)
unfolding answer_code login_reply
log_in_end_to_end_example =
    log_in_end_to_end big_endian memory ann_db (7 ∷ blank) (codes "nan") (codes "key") message 7
      db_connect_succesfully login_user_successfully_connected (some ann_db) refl (omega arith)
      message_made nan_logs_in refl

-- the block of a request about a group
abbrev group_block : Bytes
group_block = 5 ∷ replicate 36 0

group_made_up :
    init_group_struct (some group_block) (codes "ann") (c_string [] (owned (codes "chess")))
    ≡ ok (some (5 ∷ group_rest))
unfolding init_group_struct put_string strcpy c_string
group_made_up = refl

abbrev no_windows : Bytes → Option (ℕ × ℕ)
no_windows ip = none

address_whole : until_nul (codes "229.1.0.1") ≡ codes "229.1.0.1"
unfolding until_nul
address_whole = refl

create_end_to_end_example :
    create_new_group big_endian
      (served_by big_endian Samples.memory before_create)
      no_windows
      (some group_block)
      true
      item_made
      []
      (codes "ann")
      (owned (codes "chess"))
      null
    ≡ ok (client_success, null)
unfolding open_chat_window
create_end_to_end_example =
    create_end_to_end big_endian Samples.memory before_create (some after_create) no_windows
      group_block (codes "ann") group_rest (codes "229.1.0.1") [] 5 true item_made
      (owned (codes "chess")) null refl (omega arith) (omega arith) address_whole group_made_up
      group_created

join_end_to_end_example :
    join_to_group big_endian
      (served_by big_endian Samples.memory after_create)
      no_windows
      (some group_block)
      true
      item_made
      []
      (codes "ann")
      (owned (codes "chess"))
      null
    ≡ ok (client_success, null)
unfolding open_chat_window
join_end_to_end_example =
    join_end_to_end big_endian Samples.memory after_create (some (chess_of 2)) no_windows
      group_block (codes "ann") group_rest (codes "229.1.0.1") [] 5 true item_made
      (owned (codes "chess")) null refl (omega arith) (omega arith) address_whole group_made_up
      (codes "229.1.0.1") group_joined

-- a system that gives a block and socket 3, and reaches no server
abbrev unreachable : Sockets ℕ
unreachable = record {
  malloc = λ w. (true, w + 1);
  socket = λ w. (some 3, w + 1);
  connect_to = λ sock ip port w. (false, w + 1);
  send = λ sock message w. (true, w);
  recv = λ sock len w. (none, w);
  close = λ sock w. w;
}

connect_user-IsMap_example :
    (map : HashMap Bytes CharPtr Pid) × (slots : List (Slot CharPtr Pid)) × (connect_user
        unreachable 50 true map_made
        (codes "10.0.0.1")
        5555
        0
      ≡ ok (
        connected (record {
          client_net = record { sock = 3; status = client_status_connected };
          server_port = 5555;
          pid_hash = live map;
        }),
        3,
      ))
    × IsMap [] map slots
    × ((q : CharPtr) → view [] map slots q ≡ none)
connect_user-IsMap_example =
    connect_user-IsMap unreachable 50 3 5555 (codes "10.0.0.1") [] 0 refl refl (omega arith)
