-- ===== src/HashMap/OnList.antt =====
-- GenericHash/GenericHash.c over GenericDLinkedList/LinkedListGeneric.c and its iterators: what
-- finding, inserting and removing do to one slot of the table in memory. The data of the list's
-- nodes are the addresses of the `DataItem`s, which have a memory of their own.
pub mod Search
pub mod Slot
mod Tests
pub mod Kept
pub mod Frame
pub mod Foot
pub mod Steps
pub mod Inserts
pub mod Refine
pub mod Rows
pub mod Table
pub mod Whole
pub mod Bridge
pub mod Calls
pub mod Start
use chat_project.Prelude.{
  ℕ, zero, suc, Bool, true, false, Option, none, some, Run, ok, fault, out_of_fuel, ◌>>=◌, ◌==◌,
  if◌then◌else◌,
}
use chat_project.DLinkedList.{Ptr, Memory, ListResult, list_allocation_error, create, push_head}
use chat_project.ListItr
use chat_project.HashMap.{
  MapResult, map_success, map_key_duplicate_error, map_key_not_found_error, map_allocation_error,
  DataItem,
}

-- The nodes of the lists, and the items.
pub record Heap (K V : Type 0) : Type 0 where
  pub nodes : Memory
  pub blocks : ℕ → Option (DataItem K V)

-- what `HashMap_Insert` gets from `malloc`: for `List_Create`, with what the data of the sentinels
-- happen to be, for the item, and for the node of the list
pub record Given : Type 0 where
  pub list : Ptr
  pub head_data : ℕ
  pub tail_data : ℕ
  pub item : Ptr
  pub node : Ptr

module _ {K V : Type 0} where
  -- the item at an address, or nothing there
  unfoldable pub put_block : Heap K V → ℕ → Option (DataItem K V) → Heap K V
  put_block h a block = record h { blocks = λ q. if q == a then block else h.blocks q }

  -- `*foundData`
  unfoldable pub block_at : Heap K V → ℕ → Run (DataItem K V)
  block_at h a = if a == 0 then fault else elim (h.blocks a) [ none ↦ fault | some d ↦ ok d ]

  -- The loop over a chain: the iterator where it stops, and the last `foundData`.
  unfoldable pub search :
      (fuel : ℕ)
      → (is_equal : K → ℕ) → Heap K V
      → (itrator end_itrator : Ptr) → (found_data : ℕ) → Run (Ptr × ℕ)
  search zero is_equal h itrator end_itrator found_data = out_of_fuel
  search (suc fuel) is_equal h itrator end_itrator found_data =
      let rest = λ (next : Ptr) (found : ℕ). search fuel is_equal h next end_itrator found in
      do
        over ← ListItr.equals h.nodes itrator end_itrator
        if over then ok (itrator, found_data) else (do
          found ← ListItr.get h.nodes itrator
          d ← block_at h found
          if is_equal d.key == 1
              then ok (itrator, found)
              else (do next ← ListItr.step_next h.nodes itrator; rest next found))

  -- The search of the whole chain: whether it came to the end, the iterator and `foundData`.
  unfoldable pub search_list :
      (fuel : ℕ) → (is_equal : K → ℕ) → Heap K V → Ptr → Run (Bool × Ptr × ℕ)
  search_list fuel is_equal h list = do
    end_itrator ← ListItr.end_of h.nodes list
    first ← ListItr.begin h.nodes list
    (itrator, found_data) ← search fuel is_equal h first end_itrator 0
    over ← ListItr.equals h.nodes itrator end_itrator
    ok (over, itrator, found_data)

  -- `HashMap_Find` at the slot of the key
  unfoldable pub find_slot :
      (fuel : ℕ) → (is_equal : K → ℕ) → Heap K V → Ptr → Run (MapResult × Option V)
  find_slot fuel is_equal h none = ok (map_key_not_found_error, none)
  find_slot fuel is_equal h (some list) = do
    (over, itrator, found_data) ← search_list fuel is_equal h (some list)
    if over
        then ok (map_key_not_found_error, none)
        else (do d ← block_at h found_data; ok (map_success, some d.value))

  -- `HashMap_Remove` at the slot of the key
  unfoldable pub remove_slot :
      (fuel : ℕ)
      → (is_equal : K → ℕ) → Heap K V
      → Ptr
      → Run (MapResult × Option (DataItem K V) × Heap K V)
  remove_slot fuel is_equal h none = ok (map_key_not_found_error, none, h)
  remove_slot fuel is_equal h (some list) = do
    (over, itrator, _) ← search_list fuel is_equal h (some list)
    if over then ok (map_key_not_found_error, none, h) else (do
      (found_data, nodes) ← ListItr.remove h.nodes itrator
      d ← block_at h found_data
      ok (map_success, some d, put_block (record h { nodes = nodes }) found_data none))

  -- behind `List_PushHead`
  pushed : ListResult → Ptr → (item : ℕ) → Heap K V → MapResult × Ptr × Heap K V
  pushed list_allocation_error list item h = (map_allocation_error, list, put_block h item none)
  pushed _ list item h = (map_success, list, h)

  -- `HashMap_Insert` behind the search
  unfoldable pub push_slot : Given → Heap K V → Ptr → K → V → Run (MapResult × Ptr × Heap K V)
  unfolding pushed
  push_slot given h list key value = elim given.item [
    | none ↦ ok (map_allocation_error, list, h)
    | some item ↦ do
      let h₁ = put_block h item (some (record { value = value; key = key }))
      (err, nodes) ← push_head given.node h₁.nodes list item
      ok (pushed err list item (record h₁ { nodes = nodes }))
  ]

  -- `HashMap_Insert` at the slot of the key, with what is in the slot afterwards
  unfoldable pub insert_slot :
      (fuel : ℕ)
      → Given
      → (is_equal : K → ℕ) → Heap K V
      → Ptr
      → K
      → V
      → Run (MapResult × Ptr × Heap K V)
  unfolding push_slot
  insert_slot fuel given is_equal h none key value =
      let (list, nodes) = create given.list given.head_data given.tail_data h.nodes in
      push_slot given (record h { nodes = nodes }) list key value
  insert_slot fuel given is_equal h (some list) key value = do
    (over, _, _) ← search_list fuel is_equal h (some list)
    if over
        then push_slot given h (some list) key value
        else ok (map_key_duplicate_error, some list, h)
