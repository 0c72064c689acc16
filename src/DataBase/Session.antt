-- ===== src/DataBase/Session.antt =====
-- ServerDB/DataBase.c over the requests of a session, as ServerApp/ServerApp.c calls it: each with
-- the names where its type of request has them in the receive buffer.
use chat_project.Prelude.{ℕ, ◌≡◌, ◌≢◌, arith, some, [], ok, Bytes}
use mathlib.Core.Path.{subst}
use chat_project.Buffer.{received, c_string, user_details, group_details}
use chat_project.DataBase.{DataBase, DbErr, db_group_name_not_exist}
use chat_project.DataBase.Users.{UserMemory, is_user_name_unique, check_client_status_and_connect}
use chat_project.DataBase.Groups.{
  GroupMemory, check_group_name_and_insert, try_to_join_to_group, try_to_leave_to_group,
}
use chat_project.DataBase.Login.{login_keeps}
use chat_project.DataBase.Leave.{leave_not_found}
use chat_project.DataBase.Keyed.{Keyed, Keyed-same, registers-Keyed, creates-Keyed, joins-names}

-- One request that returns, with the data base before and after it, whichever `malloc` fails. A
-- request to create or to leave a group has the name of a user.
pub data Step (db : DataBase) : DataBase → Type 0 where
  registers :
      (a : UserMemory) (buffer : Bytes) {res : ℕ} {db' : DataBase}
      → is_user_name_unique a buffer db user_details ≡ ok (res, db')
      → Step db db'
  logs_in :
      (a : UserMemory) (buffer : Bytes) {e : DbErr} {db' : DataBase}
      → check_client_status_and_connect a buffer (some db) (some user_details) ≡ ok (e, some db')
      → Step db db'
  creates :
      (a : GroupMemory) (buffer ip : Bytes) {e : DbErr} {ip' : Bytes} {db' : DataBase}
      → c_string buffer (received 19) ≢ []
      → check_group_name_and_insert a buffer (some group_details) (some db) ip
        ≡ ok (e, ip', some db')
      → Step db db'
  joins :
      (buffer ip ip_join : Bytes) {e : DbErr} {ip' ip_join' : Bytes} {db' : DataBase}
      → try_to_join_to_group buffer (some group_details) (some db) ip ip_join
        ≡ ok (e, ip', ip_join', some db')
      → Step db db'
  leaves :
      (buffer ip : Bytes) {e : DbErr} {ip' : Bytes} {db' : DataBase}
      → c_string buffer (received 19) ≢ []
      → try_to_leave_to_group buffer (some group_details) (some db) ip ≡ ok (e, ip', some db')
      → Step db db'

pub data Reach (db : DataBase) : DataBase → Type 0 where
  here : Reach db db
  next : {between db' : DataBase} → Reach db between → Step between db' → Reach db db'

Step-Keyed : {db db' : DataBase} → Step db db' → Keyed db → Keyed db'
Step-Keyed {db} (registers a buffer run) w = registers-Keyed a buffer db w run
Step-Keyed {db} (logs_in a buffer {e} {db'} run) w =
    let same : some db' ≡ some db =
      login_keeps a buffer (some db) (some user_details) e (some db') run in
    let known : db ≡ db' = ground (arith, same) in subst Keyed known w
Step-Keyed {db} (creates a buffer ip named run) w = creates-Keyed a buffer ip db w named run
Step-Keyed {db} {db'} (joins buffer ip ip_join run) w =
    Keyed-same db db' (joins-names buffer ip ip_join db run) w
Step-Keyed {db} (leaves buffer ip {e} {ip'} {db'} named run) w =
    let known : db ≡ db' =
      ground (arith, run, leave_not_found buffer db w.map w.slots ip w.at w.collapsed named) in
    subst Keyed known w

Reach-Keyed : {db db' : DataBase} → Keyed db → Reach db db' → Keyed db'
Reach-Keyed w here = w
Reach-Keyed w (next reach step) = Step-Keyed step (Reach-Keyed w reach)

-- From a data base whose users are stored as registering stores them, no run of requests to
-- register, log in, create, join and leave ever leads to a data base in which a user can leave a
-- group: the request is answered that the group does not exist and changes nothing, unless the name
-- in it is empty. In the run, every request returns, whichever `malloc` fails in it, and the names
-- in requests to create and to leave groups are not empty.
pub nobody_leaves :
    {db db' : DataBase} (buffer ip : Bytes)
    → Keyed db
    → Reach db db'
    → c_string buffer (received 19) ≢ []
    → try_to_leave_to_group buffer (some group_details) (some db') ip
      ≡ ok (db_group_name_not_exist, ip, some db')
nobody_leaves {db} {db'} buffer ip w reach named =
    let w' = Reach-Keyed w reach in
    leave_not_found buffer db' w'.map w'.slots ip w'.at w'.collapsed named
