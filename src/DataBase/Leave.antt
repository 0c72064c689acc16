-- ===== src/DataBase/Leave.antt =====
-- ServerDB/DataBase.c: what leaving a group does. The users are stored under the place of the name
-- in a request to register, which is byte 18, and a request about a group has the name at byte 19.
use chat_project.Prelude.{
  ℕ, suc, ◌%◌, ◌<◌, ◌≡◌, ◌≢◌, refl, arith, none, some, List, [], ◌∷◌, ok, live, load, load-ok,
  rem-ok, ◌>>=◌, length, get_or, Option-cases, inl, inr, Bytes, All,
}
use chat_project.HashMap
use chat_project.HashMap.{DataItem, Slot, find_item, valid_data, index_of, map_key_not_found_error}
use chat_project.HashMap.View.{get_elem?-chain_at}
use chat_project.Buffer.{CharPtr, received, c_string, hash_function, group_details}
use chat_project.Buffer.Keys.{next_string}
use chat_project.DataBase.{DataBase, StringMap, UserValue, names_of, db_group_name_not_exist}
use chat_project.DataBase.Groups.{try_to_leave_to_group}
use chat_project.DataBase.Collapse.{Collapsed}

module _ {V : Type 0} (offset : ℕ) where
  find_item-miss :
      (same : CharPtr → ℕ) (chain : List (DataItem CharPtr V))
      → same (received offset) ≡ 0
      → All (λ d. d.key ≡ received offset) chain
      → find_item same chain ≡ none
  unfolding find_item
  find_item-miss same [] h k = refl
  find_item-miss same (d ∷ chain) h k = rw (k.0, h) (find_item-miss same chain h k.1)

  module _ (buffer : Bytes) (map : StringMap V) (slots : List (Slot CharPtr V))
      (w : Collapsed offset map slots) where
    abbrev next_bucket : ℕ
    next_bucket = hash_function buffer (received (suc offset)) % map.alloc_size

    valid : valid_data map ≡ some slots
    unfolding valid_data
    valid = ground (arith, w.at, w.magic)

    here-lt : next_bucket < length slots
    here-lt = rw w.width (let p = w.pos in omega arith)

    index : index_of buffer map (received (suc offset)) ≡ ok next_bucket
    unfolding index_of
    index = rw w.hash (rem-ok (hash_function buffer (received (suc offset))) map.alloc_size w.pos)

    loaded : load slots next_bucket ≡ ok (get_or slots next_bucket none)
    loaded = load-ok slots next_bucket (get_elem?-chain_at slots next_bucket here-lt)

    search_chain :
        (chain : List (DataItem CharPtr V))
        → c_string buffer (received (suc offset)) ≢ []
        → get_or slots next_bucket none ≡ some chain
        → find_item (λ k. map.keys_equal_func buffer k (received (suc offset))) chain ≡ none
    search_chain chain named e =
        find_item-miss (λ k. map.keys_equal_func buffer k (received (suc offset))) chain
          (rw w.equal (next_string buffer offset named)) (let k = w.keyed next_bucket in rw e at k)

    -- A search for the name that stands one byte later finds nothing.
    pub find-next :
        c_string buffer (received (suc offset)) ≢ []
        → HashMap.find buffer (live map) (some (received (suc offset)))
          ≡ ok (map_key_not_found_error, none)
    unfolding HashMap.find
    find-next named = elim (Option-cases (get_or slots next_bucket none)) [
      | inl e ↦ ground (arith, valid, index, loaded, e)
      | inr (chain, e) ↦ ground (arith, valid, index, loaded, e, search_chain chain named e)
    ]

-- While every user is stored under the place of the name in a request to register, a request to
-- leave a group is answered that the group does not exist and changes nothing, whoever sends it
-- and whatever groups the user has, unless the name in it is empty.
pub leave_not_found :
    (buffer : Bytes) (db : DataBase) (map : StringMap UserValue)
    (slots : List (Slot CharPtr UserValue)) (ip : Bytes)
    → names_of db ≡ ok (live map)
    → Collapsed 18 map slots
    → c_string buffer (received 19) ≢ []
    → try_to_leave_to_group buffer (some group_details) (some db) ip
      ≡ ok (db_group_name_not_exist, ip, some db)
unfolding try_to_leave_to_group
leave_not_found buffer db map slots ip at w named =
    rw (at, ◌>>=◌, find-next 18 buffer map slots w named)
