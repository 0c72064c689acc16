-- ===== src/HashMap/OnList/Tests.antt =====
-- A map of two slots over linked lists in memory, from its creation on.
use chat_project.Prelude.{
  ℕ, ◌≡◌, refl, arith, none, some, List, [], ◌∷◌, ok, live, ◌==◌, if◌then◌else◌, load, store, rem,
}
use chat_project.DLinkedList.{
  create, push_head, update, get_next, get_prev, get_item, set_next, set_prev, set_item, free,
  node_at, same_ptr,
}
use chat_project.ListItr.{begin, end_of, equals, step_next, get, remove}
use chat_project.HashMap
use chat_project.HashMap.{
  HashMap, find_item, remove_item, magic_number, valid_data, index_of, insert,
}
use chat_project.HashMap.OnList.{
  Heap, Given, put_block, block_at, search, search_list, find_slot, remove_slot, insert_slot,
  push_slot,
}
use chat_project.HashMap.OnList.Slot.{Call, look, put, take_out, CallResult, memory_call}
use chat_project.HashMap.OnList.Rows.{Row}
use chat_project.HashMap.OnList.Whole.{
  ListMap, memory_of, key_of, counted, is_there, table_call, map_call,
}
use chat_project.HashMap.OnList.Calls.{
  Represents, AllReady, table_calls, map_calls, table_calls_refine,
}
use chat_project.HashMap.OnList.Start.{no_rows, empty-Represents}

abbrev same_number : Unit {0} → ℕ → ℕ → ℕ
same_number mem a b = if a == b then 1 else 0

abbrev itself : Unit {0} → ℕ → ℕ
itself mem a = a

abbrev empty : Heap ℕ ℕ
empty = record { nodes = λ a. none; blocks = λ a. none }

abbrev table : ListMap (Unit {0}) ℕ ℕ
table = record {
  slots = none ∷ none ∷ [];
  alloc_size = 2;
  num_of_items = 0;
  hash_func = itself;
  keys_equal_func = same_number;
  heap = empty;
}

abbrev map : HashMap (Unit {0}) ℕ ℕ
map = record {
  m_data = some (none ∷ none ∷ []);
  hash_size = 2;
  alloc_size = 2;
  num_of_items = 0;
  magic_num = magic_number;
  hash_func = itself;
  keys_equal_func = same_number;
}

abbrev given : (list item new : ℕ) → Given
given list item new = record {
  list = some list;
  head_data = 7;
  tail_data = 8;
  item = some item;
  node = some new;
}

abbrev calls : List (Call ℕ ℕ)
calls =
    look 3
    ∷ put (given 100 500 10) 3 33
    ∷ put (given 200 501 11) 4 44
    ∷ put (given 300 502 12) 5 55
    ∷ take_out 3
    ∷ look 4
    ∷ []

calls_ready : AllReady tt 3 calls table map
unfolding memory_call find_slot remove_slot insert_slot push_slot put_block block_at search
    search_list create push_head update get_next get_prev get_item set_next set_prev set_item free
    node_at same_ptr begin end_of equals step_next get remove find_item remove_item table_call
    map_call memory_of key_of counted is_there HashMap.find insert HashMap.remove valid_data
    index_of rem load store
calls_ready = (
  (tt, tt),
  (
    (((refl, refl), ((refl, refl, λ e. ground (arith, e)), refl)), tt),
    (
      (((refl, refl), ((refl, refl, λ e. ground (arith, e)), refl)), tt),
      (
        ((tt, ((refl, refl, λ e. ground (arith, e)), refl)), omega arith),
        ((tt, omega arith), ((tt, omega arith), tt)),
      ),
    ),
  ),
)

table_calls_refine_example :
    (results : List (CallResult ℕ ℕ)) × (t' : ListMap (Unit {0}) ℕ ℕ) × (map' : HashMap
      (Unit {0})
      ℕ
      ℕ)
    × (rows' : List (Row ℕ ℕ)) × (table_calls tt 3 calls table ≡ ok (results, t'))
    × (map_calls tt 3 calls (live map) ≡ ok (results, live map'))
    × Represents t' map' rows'
table_calls_refine_example =
    table_calls_refine tt 3 calls table map (no_rows ℕ ℕ 2)
      (empty-Represents empty itself same_number 2 2 (omega arith)) calls_ready
