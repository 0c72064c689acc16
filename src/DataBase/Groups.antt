-- ===== src/DataBase/Groups.antt =====
-- ServerDB/DataBase.c: creating, joining and leaving groups. The buffers that the caller passes for
-- addresses have 16 bytes; what they hold before a call is an argument, what they hold after it a
-- result.
use chat_project.Prelude.{
  ℕ, ◌+◌, ◌-◌, ◌%◌, ◌^◌, Bool, not, Option, none, some, Run, ok, Ref, of_option, ◌>>=◌,
  if◌then◌else◌, Bytes, str_equal, strcpy,
}
use chat_project.HashMap
use chat_project.HashMap.{InsertMemory, item_made}
use chat_project.HashMap.Write
use chat_project.IpPool
use chat_project.Buffer.{CharPtr, owned, GroupDetails, c_string}
use chat_project.DataBase.{
  DataBase, DbErr, UserValue, db_insert_fail, db_alloc_fail, db_group_successfully_insert,
  db_group_name_already_exist, db_group_name_not_exist, db_group_join_successfully,
  db_group_remove_successfully, max_length, names_of, with_names, groups_of, with_groups,
  is_not_found, is_success,
}

-- the size of the buffers for addresses
abbrev pub max_ip_addr : ℕ
max_ip_addr = 16

-- What the allocator does for a new group: whether the value and the entries of the two maps are
-- made, whether `calloc` gives a block for the name, and how many bytes the block really has.
pub record GroupMemory : Type 0 where
  pub value_ok : Bool
  pub item : InsertMemory
  pub name_ok : Bool
  pub name_block : ℕ
  pub user_item : InsertMemory

add_group :
    GroupMemory
    → Bytes
    → DataBase
    → Ref (HashMap.HashMap Bytes CharPtr UserValue)
    → CharPtr
    → CharPtr
    → Option UserValue
    → Run DataBase
add_group a buffer db names user_name_key group_to_add p_value = if not a.name_ok then ok db else do
  value ← of_option p_value
  name ← strcpy a.name_block (c_string buffer group_to_add)
  (_, my_groups') ←
      HashMap.insert a.user_item buffer value.my_groups (some (owned name)) (owned name)
  let value' = record value { my_groups = my_groups' }
  ok (with_names db (Write.write_found buffer names user_name_key value'))

-- `Update_Group_Details_For_User`. The block is asked for without room for the NUL.
unfoldable pub update_group_details_for_user :
    GroupMemory → Bytes → DataBase → (user_name_key group_to_add : CharPtr) → Run DataBase
unfolding add_group
update_group_details_for_user a buffer db user_name_key group_to_add = do
  names ← names_of db
  (found, p_value) ← HashMap.find buffer names (some user_name_key)
  if not (is_success found)
      then ok db
      else add_group a buffer db names user_name_key group_to_add p_value

unfoldable pub insert_group :
    GroupMemory → Bytes → DataBase → GroupDetails → Bytes → Bytes → Run (DbErr × Bytes × DataBase)
insert_group a buffer db group group_name ip_address = do
  (_, ip_address', pool') ← IpPool.get_ip_address db.add_ip_pool max_ip_addr ip_address
  ip_add_group ← strcpy max_length ip_address'
  groups ← groups_of db
  (rcv, groups') ←
      HashMap.insert a.item buffer groups (some group.group_name)
        (record { num_of_partic = 1; group_name = group_name; ip_add_group = ip_add_group })
  let db' = record (with_groups db groups') { add_ip_pool = pool' }
  if not (is_success rcv) then ok (db_insert_fail, ip_address', db') else (do
    db'' ← update_group_details_for_user a buffer db' group.user_name group.group_name
    ok (db_group_successfully_insert, ip_address', db''))

-- `Check_Group_Name_And_Insert`, with both pointers given
unfoldable pub check_group_name_and_insert :
    GroupMemory
    → Bytes
    → Option GroupDetails
    → Option DataBase
    → Bytes
    → Run (DbErr × Bytes × Option DataBase)
unfolding insert_group
check_group_name_and_insert a buffer none db ip_address = ok (db_insert_fail, ip_address, db)
check_group_name_and_insert a buffer (some group) none ip_address =
    ok (db_insert_fail, ip_address, none)
check_group_name_and_insert a buffer (some group) (some db) ip_address =
    if not a.value_ok then ok (db_alloc_fail, ip_address, some db) else do
      group_name ← strcpy max_length (c_string buffer group.group_name)
      groups ← groups_of db
      (found, _) ← HashMap.find buffer groups (some group.group_name)
      if not (is_not_found found)
          then ok (db_group_name_already_exist, ip_address, some db)
          else (do
            (err, ip_address', db') ← insert_group a buffer db group group_name ip_address
            ok (err, ip_address', some db'))

-- `Try_to_Join_To_Group`; the results are the code, the two address buffers and the data base
unfoldable pub try_to_join_to_group :
    Bytes
    → Option GroupDetails
    → Option DataBase
    → (ip_address ip_join_group : Bytes) → Run (DbErr × Bytes × Bytes × Option DataBase)
try_to_join_to_group buffer none db ip ip_join = ok (db_insert_fail, ip, ip_join, db)
try_to_join_to_group buffer (some group) none ip ip_join = ok (db_insert_fail, ip, ip_join, none)
try_to_join_to_group buffer (some group) (some db) ip ip_join = do
  groups ← groups_of db
  (found, p_value) ← HashMap.find buffer groups (some group.group_name)
  if is_not_found found
      then ok (db_group_name_not_exist, ip, ip_join, some db)
      else if not (is_success found)
      then ok (db_group_successfully_insert, ip, ip_join, some db)
      else (do
        value ← of_option p_value
        if not (str_equal (c_string buffer group.group_name) value.group_name)
            then ok (db_group_successfully_insert, ip, ip_join, some db)
            else (do
              ip' ← strcpy max_ip_addr value.ip_add_group
              ip_join' ← strcpy max_ip_addr value.ip_add_group
              let value' = record value { num_of_partic = (value.num_of_partic + 1) % 2 ^ 32 }
              let groups' = Write.write_found buffer groups group.group_name value'
              ok (db_group_join_successfully, ip', ip_join', some (with_groups db groups'))))

leave_group : Bytes → GroupDetails → DataBase → Bytes → Run (DbErr × Bytes × Option DataBase)
leave_group buffer group db ip = do
  groups ← groups_of db
  (found, p_value) ← HashMap.find buffer groups (some group.group_name)
  if not (is_success found) then ok (db_group_remove_successfully, ip, some db) else (do
    value ← of_option p_value
    if not (str_equal (c_string buffer group.group_name) value.group_name)
        then ok (db_group_remove_successfully, ip, some db)
        else (do
          ip' ← strcpy max_ip_addr value.ip_add_group
          let value' = record value { num_of_partic = (value.num_of_partic + 2 ^ 32 - 1) % 2 ^ 32 }
          let groups' = Write.write_found buffer groups group.group_name value'
          ok (db_group_remove_successfully, ip', some (with_groups db groups'))))

-- `Try_to_Leave_To_Group`
unfoldable pub try_to_leave_to_group :
    Bytes
    → Option GroupDetails
    → Option DataBase
    → (ip_remove_group : Bytes) → Run (DbErr × Bytes × Option DataBase)
unfolding leave_group
try_to_leave_to_group buffer none db ip = ok (db_insert_fail, ip, db)
try_to_leave_to_group buffer (some group) none ip = ok (db_insert_fail, ip, none)
try_to_leave_to_group buffer (some group) (some db) ip = do
  names ← names_of db
  (found, p_value) ← HashMap.find buffer names (some group.user_name)
  if not (is_success found) then ok (db_group_name_not_exist, ip, some db) else (do
    value ← of_option p_value
    (removed, _, my_groups') ← HashMap.remove buffer value.my_groups (some group.group_name)
    let names' =
        Write.write_found buffer names group.user_name (record value { my_groups = my_groups' })
    let db' = with_names db names'
    if not (is_success removed)
        then ok (db_group_name_not_exist, ip, some db')
        else leave_group buffer group db' ip)
