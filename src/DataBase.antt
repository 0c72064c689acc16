-- ===== src/DataBase.antt =====
-- ServerDB/DataBase.c: the users and the groups. `buffer` is the memory that the strings of a
-- request stand in. The keys of the two maps are the pointers that the caller gives, as the code
-- stores them; the values are objects of their own. What the allocator does is an argument.
pub mod Users
pub mod Groups
pub mod Lifecycle
pub mod Collapse
pub mod Login
pub mod Leave
pub mod Keyed
pub mod Session
pub mod Stored
pub mod Samples
mod Tests
use chat_project.Prelude.{
  ℕ, zero, suc, ◌+◌, ◌-◌, ◌%◌, ◌^◌, Bool, true, false, not, ◌&&◌, ◌||◌, Option, none, some, List,
  [], ◌∷◌, Run, ok, fault, Ref, null, dangling, live, deref, of_option, ◌>>=◌, ◌==◌, if◌then◌else◌,
  Bytes, str_equal, strcpy,
}
use chat_project.HashMap
use chat_project.HashMap.{HashMap, MapResult}
use chat_project.IpPool.{IpPool}
use chat_project.Buffer.{CharPtr}

-- `DB_Err`
pub data DbErr : Type 0 where
  db_alloc_fail db_insert_fail db_create_fail db_success db_connect_succesfully : DbErr
  db_already_connected db_worng_user_name db_worng_psw db_group_successfully_insert : DbErr
  db_group_name_already_exist db_group_name_not_exist db_group_join_successfully : DbErr
  db_group_remove_successfully : DbErr

abbrev pub capacity : ℕ
capacity = 50

abbrev pub user_groups_capacity : ℕ
user_groups_capacity = 50

abbrev pub connect : ℕ
connect = 1

abbrev pub disconnect : ℕ
disconnect = 0

abbrev pub already_exist : ℕ
already_exist = 0

abbrev pub uniqe : ℕ
uniqe = 1

-- the size of `m_psw`, `m_groupName` and `m_ip_add_group`
abbrev pub max_length : ℕ
max_length = 17

-- a map whose keys are strings
abbrev pub StringMap : Type 0 → Type 0
StringMap V = HashMap Bytes CharPtr V

-- `struct UserValue`
pub record UserValue : Type 0 where
  pub status : ℕ
  pub psw : Bytes
  pub my_groups : Ref (StringMap CharPtr)

-- `struct GroupValue`; `m_numOfPartic` is an `int`, as its bit pattern
pub record GroupValue : Type 0 where
  pub num_of_partic : ℕ
  pub group_name : Bytes
  pub ip_add_group : Bytes

-- `struct UsersDB` and `struct GroupsDB`
pub record UsersDb : Type 0 where
  pub user_names : Ref (StringMap UserValue)

pub record GroupsDb : Type 0 where
  pub group_names : Ref (StringMap GroupValue)
  pub num_of_participant : ℕ

-- `struct DataBase`
pub record DataBase : Type 0 where
  pub user_db : Ref UsersDb
  pub group_db : Ref GroupsDb
  pub add_ip_pool : Ref IpPool

-- `_dataBase->m_userDB->m_userNames`, read and written
unfoldable pub names_of : DataBase → Run (Ref (StringMap UserValue))
names_of db = deref db.user_db >>= λ users. ok users.user_names

abbrev pub with_names : DataBase → Ref (StringMap UserValue) → DataBase
with_names db names = record db { user_db = live (record { user_names = names }) }

-- `_dataBase->m_groupDB->m_groupNames`, read and written
unfoldable pub groups_of : DataBase → Run (Ref (StringMap GroupValue))
groups_of db = deref db.group_db >>= λ groups. ok groups.group_names

unfoldable pub with_groups : DataBase → Ref (StringMap GroupValue) → DataBase
with_groups db names = elim db.group_db [
  | live groups ↦ record db { group_db = live (record groups { group_names = names }) }
  | _ ↦ db
]

-- `MAP_KEY_NOT_FOUND_ERROR == r` and `MAP_SUCCESS == r`
abbrev pub is_not_found : MapResult → Bool
is_not_found HashMap.map_key_not_found_error = true
is_not_found _ = false

abbrev pub is_success : MapResult → Bool
is_success HashMap.map_success = true
is_success _ = false
