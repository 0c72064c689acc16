-- ===== src/DataBase/Lifecycle.antt =====
-- ServerDB/DataBase.c: making and destroying the data base.
use chat_project.Prelude.{
  ℕ, Bool, true, not, some, Run, ok, fault, Ref, null, dangling, live, ◌>>=◌, if◌then◌else◌,
}
use chat_project.HashMap
use chat_project.HashMap.{CreateMemory, map_made}
use chat_project.HashMap.Destroy
use chat_project.IpPool
use chat_project.IpPool.{PoolMemory, plenty}
use chat_project.Buffer.{hash_function, equality_function}
use chat_project.DataBase.{DataBase, UsersDb, GroupsDb, StringMap, capacity}
use chat_project.DataBase.Users.{rounds}

-- whether the allocations of `CreateMainDataBase` succeed
pub record DataBaseMemory : Type 0 where
  pub data_ok : Bool
  pub users_ok : Bool
  pub user_map : CreateMemory
  pub groups_ok : Bool
  pub group_map : CreateMemory
  pub pool : PoolMemory

-- the map of users and of groups, empty
abbrev new_map : {V : Type 0} → CreateMemory → Run (Ref (StringMap V))
new_map mem = HashMap.create rounds mem capacity (some hash_function) (some equality_function)

-- `CreateUserDataBase`
unfoldable pub create_user_data_base : Bool → CreateMemory → Run (Ref UsersDb)
create_user_data_base users_ok mem = if not users_ok then ok null else do
  names ← new_map mem
  elim names [ null ↦ ok null | map ↦ ok (live (record { user_names = map })) ]

-- `CreateGroupsDataBase`
unfoldable pub create_groups_data_base : Bool → CreateMemory → Run (Ref GroupsDb)
create_groups_data_base groups_ok mem = if not groups_ok then ok null else do
  names ← new_map mem
  elim names [
    | null ↦ ok null
    | map ↦ ok (live (record { group_names = map; num_of_participant = 0 }))
  ]

-- `CreateMainDataBase`; it does not look at what the three parts return
unfoldable pub create_main_data_base : DataBaseMemory → Run (Ref DataBase)
unfolding create_user_data_base create_groups_data_base
create_main_data_base mem = if not mem.data_ok then ok null else do
  users ← create_user_data_base mem.users_ok mem.user_map
  groups ← create_groups_data_base mem.groups_ok mem.group_map
  pool ← IpPool.create mem.pool
  ok (live (record { user_db = users; group_db = groups; add_ip_pool = pool }))

-- `DestroyUserDB`; the destroyers of keys and values do nothing
unfoldable pub destroy_user_db : (fuel : ℕ) → Ref UsersDb → Run (Ref UsersDb)
destroy_user_db fuel null = ok null
destroy_user_db fuel dangling = fault
destroy_user_db fuel (live users) =
    Destroy.destroy true true fuel users.user_names >>= λ _. ok dangling

-- `DestroyGroupsDB`
unfoldable pub destroy_groups_db : (fuel : ℕ) → Ref GroupsDb → Run (Ref GroupsDb)
destroy_groups_db fuel null = ok null
destroy_groups_db fuel dangling = fault
destroy_groups_db fuel (live groups) =
    Destroy.destroy true true fuel groups.group_names >>= λ _. ok dangling

-- `DestroyDB`; it frees neither the pool nor the data base itself
unfoldable pub destroy_db : (fuel : ℕ) → Ref DataBase → Run (Ref DataBase)
destroy_db fuel null = ok null
destroy_db fuel dangling = fault
destroy_db fuel (live db) = do
  users ← destroy_user_db fuel db.user_db
  groups ← destroy_groups_db fuel db.group_db
  ok (live (record db { user_db = users; group_db = groups }))
