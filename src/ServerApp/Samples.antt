-- ===== src/ServerApp/Samples.antt =====
-- Requests about a group, and states of the data base, for the runs at concrete inputs.
use chat_project.Prelude.{
  ℕ, ◌≡◌, refl, true, none, some, [], ◌∷◌, ◌++◌, ok, Ref, live, Bytes, codes, set, replicate, rem,
  load, strcpy, store, str_equal,
}
use chat_project.HashMap
use chat_project.HashMap.{item_made, find, insert, find_item, valid_data, index_of}
use chat_project.Queue
use chat_project.IpPool
use chat_project.IpPool.{IpPool}
use chat_project.Buffer.{received, c_string, hash_function, equality_function, group_details}
use chat_project.DataBase.{
  DataBase, GroupValue, db_group_successfully_insert, db_group_join_successfully, names_of,
  groups_of, with_groups,
}
use chat_project.DataBase.Users.{user_made}
use chat_project.DataBase.Groups.{
  GroupMemory, check_group_name_and_insert, try_to_join_to_group, update_group_details_for_user,
}
use chat_project.DataBase.Samples.{start, empty_map, no_slots}
use chat_project.ServerApp.{RequestMemory}

abbrev pub group_made : GroupMemory
group_made = record {
  value_ok = true;
  item = item_made;
  name_ok = true;
  name_block = 24;
  user_item = item_made;
}

abbrev pub memory : RequestMemory
memory = record { answer_ok = true; block = replicate 24 170; user = user_made; group = group_made }

-- a request about the group chess by ann
abbrev pub group_rest : Bytes
group_rest = codes "chess" ++ (replicate 13 0 ++ (codes "ann" ++ replicate 15 0))

abbrev pub pool_of : (head n_items pool_size : ℕ) → Ref IpPool
pool_of head n_items pool_size = live (record {
  queue_addr = live (record {
    queue_array = some (some (codes "229.1.0.1") ∷ none ∷ []);
    size = 2;
    head = head;
    tail = 1;
    n_items = n_items;
    magic_number = Queue.megic_num;
  });
  pool_size = pool_size;
})

abbrev pub before_create : DataBase
before_create = record start { add_ip_pool = pool_of 0 1 2 }

abbrev pub chess : GroupValue
chess = record { num_of_partic = 1; group_name = codes "chess"; ip_add_group = codes "229.1.0.1" }

abbrev pub after_create : DataBase
after_create = record start {
  group_db = live (record {
    group_names = live (record (empty_map GroupValue) {
      m_data =
          some
            (set (no_slots GroupValue) 4 (some (record { key = received 1; value = chess } ∷ [])));
      num_of_items = 1;
    });
    num_of_participant = 0;
  });
  add_ip_pool = pool_of 1 0 1;
}

pub group_created :
    check_group_name_and_insert group_made
      (7 ∷ group_rest)
      (some group_details)
      (some before_create)
      []
    ≡ ok (db_group_successfully_insert, codes "229.1.0.1", some after_create)
unfolding check_group_name_and_insert update_group_details_for_user groups_of with_groups names_of
    find insert valid_data index_of rem load store strcpy hash_function c_string equality_function
    str_equal find_item IpPool.get_ip_address Queue.remove
group_created = refl

abbrev pub chess_of : ℕ → DataBase
chess_of participants = record start {
  group_db = live (record {
    group_names = live (record (empty_map GroupValue) {
      m_data = some (
          set (no_slots GroupValue) 4 (
            some (
              record { key = received 1; value = record chess { num_of_partic = participants } }
              ∷ [])));
      num_of_items = 1;
    });
    num_of_participant = 0;
  });
  add_ip_pool = pool_of 1 0 1;
}

-- a second user joins the group
pub group_joined :
    try_to_join_to_group (9 ∷ group_rest) (some group_details) (some after_create) [] []
    ≡ ok (db_group_join_successfully, codes "229.1.0.1", codes "229.1.0.1", some (chess_of 2))
unfolding try_to_join_to_group groups_of with_groups HashMap.Write.write_found find valid_data
    index_of rem load store strcpy hash_function c_string equality_function str_equal find_item
group_joined = refl
