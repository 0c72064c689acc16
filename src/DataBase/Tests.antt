-- ===== src/DataBase/Tests.antt =====
-- The data base at concrete inputs: its theorems.
use chat_project.Prelude.{◌≡◌, refl, arith, true, some, [], ok, live, str_equal, rem, if◌then◌else◌}
use chat_project.HashMap.{map_made, create}
use chat_project.Primes.{find_prime_larger_than, check_if_prime}
use chat_project.Buffer.{received, c_string, hash_function, user_details, group_details}
use chat_project.DataBase.{
  DataBase, UserValue, GroupValue, names_of, uniqe, already_exist, db_connect_succesfully,
  db_worng_psw, db_group_name_not_exist,
}
use chat_project.DataBase.Users.{user_made, is_user_name_unique, check_client_status_and_connect}
use chat_project.DataBase.Groups.{try_to_leave_to_group}
use chat_project.DataBase.Lifecycle.{create_user_data_base, create_groups_data_base}
use chat_project.DataBase.Collapse.{bucket}
use chat_project.DataBase.Login.{login_keeps, register_then_login, register-free, db_registered}
use chat_project.DataBase.Session.{Step, registers, here, next, nobody_leaves}
use chat_project.DataBase.Samples.{
  no_slots, empty_map, start, empty_map-Collapsed, chain_at-none, ann_request, nan_request,
  leave_request, ann_db, nan_logs_in,
}

login_keeps_example : some ann_db ≡ some ann_db
login_keeps_example =
    login_keeps user_made nan_request (some ann_db) (some user_details) db_connect_succesfully
      (some ann_db) nan_logs_in

register_then_login_example :
    (db' : DataBase) × (is_user_name_unique user_made ann_request start user_details
      ≡ ok (uniqe, db'))
    × (check_client_status_and_connect user_made nan_request (some db') (some user_details)
        ≡ ok (
          if str_equal (c_string nan_request (received 1)) (c_string ann_request (received 1))
              then db_connect_succesfully
              else db_worng_psw,
          some db',
        ))
    × (is_user_name_unique user_made nan_request db' user_details ≡ ok (already_exist, db'))
unfolding names_of hash_function c_string
register_then_login_example =
    register_then_login ann_request nan_request start (empty_map UserValue) (no_slots UserValue)
      user_made refl (empty_map-Collapsed UserValue)
      (chain_at-none UserValue 53 (bucket 18 ann_request (empty_map UserValue))) (omega arith) refl

start_names : names_of start ≡ ok (live (empty_map UserValue))
unfolding names_of
start_names = refl

-- the data base after the request of ann, who registers at the empty one
abbrev ann_registered : DataBase
ann_registered =
    db_registered ann_request start (empty_map UserValue) (no_slots UserValue) start_names
      (empty_map-Collapsed UserValue)

ann_registers : Step start ann_registered
unfolding c_string
ann_registers = registers user_made ann_request (
    register-free ann_request start (empty_map UserValue) (no_slots UserValue) start_names
      (empty_map-Collapsed UserValue)
      (chain_at-none UserValue 53 (bucket 18 ann_request (empty_map UserValue))) (omega arith))

nobody_leaves_example :
    try_to_leave_to_group leave_request (some group_details) (some ann_registered) []
    ≡ ok (db_group_name_not_exist, [], some ann_registered)
unfolding c_string
nobody_leaves_example =
    nobody_leaves leave_request []
      (record {
        map = empty_map UserValue;
        slots = no_slots UserValue;
        at = start_names;
        collapsed = empty_map-Collapsed UserValue;
      })
      (next here ann_registers) (λ e. ground arith)

create_users :
    create_user_data_base true map_made
    ≡ ok (live (record { user_names = live (empty_map UserValue) }))
unfolding create_user_data_base create find_prime_larger_than check_if_prime rem
create_users = refl

create_groups :
    create_groups_data_base true map_made
    ≡ ok (live (record { group_names = live (empty_map GroupValue); num_of_participant = 0 }))
unfolding create_groups_data_base create find_prime_larger_than check_if_prime rem
create_groups = refl
