-- ===== src/HashMap/OnList/Whole.antt =====
-- GenericHash/GenericHash.c: `HashMap_Find`, `HashMap_Insert` and `HashMap_Remove` of a map that is
-- valid, at a key that is not NULL, with the table of linked lists in memory; and the same calls of
-- the map whose slots are sequences.
use chat_project.Prelude.{
  ℕ, ◌+◌, ◌-◌, ◌%◌, ◌^◌, Bool, true, false, none, some, List, Run, ok, ◌>>=◌, Ref, live, load,
  store, rem,
}
use chat_project.DLinkedList.{Ptr}
use chat_project.HashMap
use chat_project.HashMap.{HashMap, MapResult, map_success, DataItem, InsertMemory, insert, remove}
use chat_project.HashMap.OnList.{Heap, Given}
use chat_project.HashMap.OnList.Slot.{
  Call, look, put, take_out, CallResult, looked, done, taken, memory_call,
}

-- `struct HashMap`, with the memory of its lists and items
pub record ListMap (M K V : Type 0) : Type 0 where
  pub slots : List Ptr
  pub alloc_size : ℕ
  pub num_of_items : ℕ
  pub hash_func : M → K → ℕ
  pub keys_equal_func : M → K → K → ℕ
  pub heap : Heap K V

unfoldable pub is_there : Ptr → Bool
is_there none = false
is_there (some a) = true

-- which allocations of `HashMap_Insert` succeed
unfoldable pub memory_of : Given → InsertMemory
unfolding is_there
memory_of given = record {
  list_ok = is_there given.list;
  item_ok = is_there given.item;
  node_ok = is_there given.node;
}

module _ {K V : Type 0} where
  unfoldable pub key_of : Call K V → K
  key_of (look key) = key
  key_of (put given key value) = key
  key_of (take_out key) = key

  -- `++_map->m_numOfItems` and `--_map->m_numOfItems`
  unfoldable pub counted : CallResult K V → ℕ → ℕ
  counted (done map_success) n = (n + 1) % 2 ^ 64
  counted (taken map_success item) n = (n + 2 ^ 64 - 1) % 2 ^ 64
  counted _ n = n

module _ {M K V : Type 0} (mem : M) where
  -- the call at the slot of its key
  unfoldable pub table_call :
      (fuel : ℕ) → Call K V → ListMap M K V → Run (CallResult K V × ListMap M K V)
  unfolding key_of counted
  table_call fuel call t = do
    index ← rem (t.hash_func mem (key_of call)) t.alloc_size
    list ← load t.slots index
    (result, list', heap) ← memory_call (t.keys_equal_func mem) fuel call list t.heap
    slots ← store t.slots index list'
    ok (
      result,
      record t { slots = slots; heap = heap; num_of_items = counted result t.num_of_items },
    )

  unfoldable pub map_call : Call K V → HashMap M K V → Run (CallResult K V × Ref (HashMap M K V))
  unfolding memory_of
  map_call (look key) map = do
    (result, value) ← HashMap.find mem (live map) (some key)
    ok (looked result value, live map)
  map_call (put given key value) map = do
    (result, map') ← insert (memory_of given) mem (live map) (some key) value
    ok (done result, map')
  map_call (take_out key) map = do
    (result, item, map') ← remove mem (live map) (some key)
    ok (taken result item, map')
