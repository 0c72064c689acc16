-- ===== src/DataBase/Samples.antt =====
-- A data base without users and groups, one with a user, and messages in the receive buffer.
use chat_project.Prelude.{
  ℕ, zero, suc, ◌≡◌, refl, arith, none, some, List, [], ◌∷◌, ◌++◌, ok, live, null, Bytes, codes,
  replicate, str_equal, rem, load,
}
use chat_project.HashMap.{Slot, magic_number, find, find_item, valid_data, index_of}
use chat_project.HashMap.View.{chain_at}
use chat_project.Buffer.{
  CharPtr, received, c_string, hash_function, equality_function, user_details,
}
use chat_project.DataBase.{
  DataBase, StringMap, UserValue, GroupValue, names_of, disconnect, db_connect_succesfully,
}
use chat_project.DataBase.Users.{user_made, insert_user_to_list, check_client_status_and_connect}
use chat_project.DataBase.Collapse.{Collapsed}

abbrev pub no_slots : (V : Type 0) → List (Slot CharPtr V)
no_slots V = replicate 53 none

abbrev pub empty_map : (V : Type 0) → StringMap V
empty_map V = record {
  m_data = some (no_slots V);
  hash_size = 50;
  alloc_size = 53;
  num_of_items = 0;
  magic_num = magic_number;
  hash_func = hash_function;
  keys_equal_func = equality_function;
}

abbrev pub start : DataBase
start = record {
  user_db = live (record { user_names = live (empty_map UserValue) });
  group_db = live (record { group_names = live (empty_map GroupValue); num_of_participant = 0 });
  add_ip_pool = null;
}

pub chain_at-none :
    (V : Type 0) (n i : ℕ) → chain_at {V = V} (replicate {A = Slot CharPtr V} n none) i ≡ []
chain_at-none V zero i = refl
chain_at-none V (suc n) zero = refl
chain_at-none V (suc n) (suc i) = chain_at-none V n i

pub empty_map-Collapsed : (V : Type 0) → Collapsed 18 (empty_map V) (no_slots V)
empty_map-Collapsed V = record {
  at = refl;
  magic = refl;
  width = refl;
  pos = omega arith;
  hash = refl;
  equal = refl;
  keyed = λ i. rw (chain_at-none V 53 i) tt;
}

-- a request with the password "key" and the name "ann", and one with another name of the same hash
abbrev pub ann_request : Bytes
ann_request = 0 ∷ codes "key" ++ (replicate 14 0 ++ (codes "ann" ++ replicate 14 0))

abbrev pub nan_request : Bytes
nan_request = 2 ∷ codes "key" ++ (replicate 14 0 ++ (codes "nan" ++ replicate 14 0))

abbrev pub leave_request : Bytes
leave_request = 12 ∷ codes "chess" ++ (replicate 13 0 ++ (codes "ann" ++ replicate 15 0))

-- the data base after the user ann has registered
abbrev pub ann_value : UserValue
ann_value = record { status = disconnect; psw = codes "key"; my_groups = null }

abbrev pub ann_map : StringMap UserValue
ann_map = record (empty_map UserValue) {
  m_data =
      some
        (replicate 52 none ++ (some (record { key = received 18; value = ann_value } ∷ []) ∷ []));
  num_of_items = 1;
}

abbrev pub ann_db : DataBase
ann_db = record start { user_db = live (record { user_names = live ann_map }) }

pub nan_logs_in :
    check_client_status_and_connect user_made nan_request (some ann_db) (some user_details)
    ≡ ok (db_connect_succesfully, some ann_db)
unfolding check_client_status_and_connect names_of find valid_data index_of rem load hash_function
    c_string equality_function str_equal insert_user_to_list find_item
nan_logs_in = refl
