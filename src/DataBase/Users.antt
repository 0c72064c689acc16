-- ===== src/DataBase/Users.antt =====
-- ServerDB/DataBase.c: registering and logging in.
use chat_project.Prelude.{
  ℕ, Bool, true, not, Option, none, some, Run, ok, Ref, null, of_option, ◌>>=◌, ◌==◌, if◌then◌else◌,
  Bytes, str_equal, strcpy,
}
use chat_project.HashMap
use chat_project.HashMap.{CreateMemory, InsertMemory, item_made, map_made}
use chat_project.Buffer.{CharPtr, UserDetails, c_string, hash_function, equality_function}
use chat_project.DataBase.{
  DataBase, DbErr, UserValue, StringMap, db_insert_fail, db_success, db_worng_user_name,
  db_already_connected, db_worng_psw, db_connect_succesfully, user_groups_capacity, connect,
  disconnect, uniqe, already_exist, max_length, names_of, with_names, is_not_found, is_success,
}

-- whether the allocations of `InsertUserToList` succeed
pub record UserMemory : Type 0 where
  pub value_ok : Bool
  pub groups : CreateMemory
  pub item : InsertMemory

abbrev pub user_made : UserMemory
user_made = record { value_ok = true; groups = map_made; item = item_made }

-- The size of the table for 50 entries is found within 60 rounds.
abbrev pub rounds : ℕ
rounds = 60

unfoldable pub register_value :
    UserMemory
    → Bytes
    → DataBase
    → UserDetails
    → Bytes
    → Ref (StringMap CharPtr)
    → Run (DbErr × DataBase)
register_value a buffer db user psw my_groups = elim my_groups [
  | null ↦ ok (db_insert_fail, db)
  | groups ↦ do
    names ← names_of db
    (rcv, names') ←
        HashMap.insert a.item buffer names (some user.user_name)
          (record { status = disconnect; psw = psw; my_groups = groups })
    ok (if is_success rcv then db_success else db_insert_fail, with_names db names')
]

-- `InsertUserToList`. With the status of a login it only allocates a value.
unfoldable pub insert_user_to_list :
    UserMemory → Bytes → DataBase → UserDetails → (status : ℕ) → Run (DbErr × DataBase)
unfolding register_value
insert_user_to_list a buffer db user status =
    if not a.value_ok
    then ok (db_insert_fail, db)
    else if status == disconnect
    then (do
      psw ← strcpy max_length (c_string buffer user.password)
      my_groups ←
          HashMap.create rounds a.groups user_groups_capacity (some hash_function)
            (some equality_function)
      register_value a buffer db user psw my_groups)
    else ok (db_success, db)

-- `IsUserNameUnique`; it does not return the result of `InsertUserToList`
unfoldable pub is_user_name_unique :
    UserMemory → Bytes → DataBase → UserDetails → Run (ℕ × DataBase)
is_user_name_unique a buffer db user = do
  names ← names_of db
  (found, _) ← HashMap.find buffer names (some user.user_name)
  if is_not_found found
      then (do (res, db') ← insert_user_to_list a buffer db user disconnect; ok (uniqe, db'))
      else ok (already_exist, db)

unfoldable pub login_user :
    UserMemory → Bytes → DataBase → UserDetails → UserValue → Run (DbErr × DataBase)
login_user a buffer db user value =
    if value.status == connect
    then ok (db_already_connected, db)
    else if not (str_equal (c_string buffer user.password) value.psw)
    then ok (db_worng_psw, db)
    else (do
      (res, db') ← insert_user_to_list a buffer db user connect
      ok (db_connect_succesfully, db'))

-- `CheckClientStatusAndConnect`; `none` is a NULL argument. If the search fails in another way
-- than by not finding the key, the code reads a pointer that was never written.
unfoldable pub check_client_status_and_connect :
    UserMemory → Bytes → Option DataBase → Option UserDetails → Run (DbErr × Option DataBase)
unfolding login_user
check_client_status_and_connect a buffer none user = ok (db_worng_user_name, none)
check_client_status_and_connect a buffer (some db) none = ok (db_worng_user_name, some db)
check_client_status_and_connect a buffer (some db) (some user) = do
  names ← names_of db
  (found, p_value) ← HashMap.find buffer names (some user.user_name)
  if is_not_found found then ok (db_worng_user_name, some db) else (do
    value ← of_option p_value
    (err, db') ← login_user a buffer db user value
    ok (err, some db'))
