-- ===== src/HashMap/OnList/Slot.antt =====
-- GenericHash/GenericHash.c: runs of calls at one slot, in memory and on the slot's chain, and what
-- `malloc` has to give in them.
use chat_project.Prelude.{
  ℕ, ◌≡◌, ◌≢◌, false, Option, none, some, List, [], ◌∷◌, Run, ok, ◌>>=◌, ◌==◌, length, ◌<◌,
}
use chat_project.DLinkedList.{Ptr, Memory, create, tail_of}
use chat_project.DLinkedList.Path.{item_at}
use chat_project.DLinkedList.Shape.{Cell}
use chat_project.HashMap.{
  MapResult, map_success, map_key_duplicate_error, map_key_not_found_error, map_allocation_error,
  DataItem, Slot, find_item, remove_item,
}
use chat_project.HashMap.OnList.{Heap, Given, find_slot, remove_slot, insert_slot}
use chat_project.HashMap.OnList.Search.{IsChain}

pub data Call (K V : Type 0) : Type 0 where
  look : K → Call K V
  put : Given → K → V → Call K V
  take_out : K → Call K V

-- what the caller gets of `HashMap_Find`, `HashMap_Insert` and `HashMap_Remove`
pub data CallResult (K V : Type 0) : Type 0 where
  looked : MapResult → Option V → CallResult K V
  done : MapResult → CallResult K V
  taken : MapResult → Option (DataItem K V) → CallResult K V

-- `malloc` gives addresses that are not in use, and that of an item is not what the data of the
-- tail sentinel happens to be.
abbrev UnlikeTail : Memory → Ptr → ℕ → Type 0
UnlikeTail nodes none item = Unit
UnlikeTail nodes (some list) item = item_at nodes (tail_of list) ≢ some item

module _ {K V : Type 0} where
  -- each call on the chain, from the result of the search
  abbrev pub found_in : Option (DataItem K V) → MapResult × Option V
  found_in none = (map_key_not_found_error, none)
  found_in (some d) = (map_success, some d.value)

  abbrev pub find_in : (K → ℕ) → Slot K V → MapResult × Option V
  find_in same none = (map_key_not_found_error, none)
  find_in same (some chain) = found_in (find_item same chain)

  abbrev pub removed_from :
      Option (DataItem K V)
      → (chain rest : List (DataItem K V)) → MapResult × Option (DataItem K V) × Slot K V
  removed_from none chain rest = (map_key_not_found_error, none, some chain)
  removed_from (some d) chain rest = (map_success, some d, some rest)

  abbrev pub remove_from : (K → ℕ) → Slot K V → MapResult × Option (DataItem K V) × Slot K V
  remove_from same none = (map_key_not_found_error, none, none)
  remove_from same (some chain) = removed_from (find_item same chain) chain (remove_item same chain)

  -- Without the list, the item or its node; a failed `List_Create` is reported as success.
  abbrev pub pushed_to : (item new : Ptr) → Slot K V → K → V → MapResult × Slot K V
  pushed_to none new slot key value = (map_allocation_error, slot)
  pushed_to (some item) new none key value = (map_success, none)
  pushed_to (some item) none (some chain) key value = (map_allocation_error, some chain)
  pushed_to (some item) (some n) (some chain) key value =
      (map_success, some (record { value = value; key = key } ∷ chain))

  abbrev pub made_by : Ptr → Slot K V
  made_by none = none
  made_by (some list) = some []

  abbrev pub insert_found :
      Option (DataItem K V) → Given → List (DataItem K V) → K → V → MapResult × Slot K V
  insert_found none given chain key value = pushed_to given.item given.node (some chain) key value
  insert_found (some d) given chain key value = (map_key_duplicate_error, some chain)

  abbrev pub insert_to : (K → ℕ) → Given → Slot K V → K → V → MapResult × Slot K V
  insert_to same given none key value =
      pushed_to given.item given.node (made_by given.list) key value
  insert_to same given (some chain) key value =
      insert_found (find_item same chain) given chain key value

  -- A chain shorter than the fuel.
  abbrev pub Short : (fuel : ℕ) → Slot K V → Type 0
  Short fuel none = Unit
  Short fuel (some chain) = length chain < fuel

  -- The pointer in the slot, and what it stands for.
  abbrev pub IsSlot : Heap K V → Ptr → Slot K V → Type 0
  IsSlot h none none = Unit
  IsSlot h none (some chain) = ⊥
  IsSlot h (some list) none = ⊥
  IsSlot h (some list) (some chain) =
      (mark : ℕ) × (cells : List Cell) × IsChain h list mark cells chain

  abbrev pub FreshItem : Memory → (ℕ → Option (DataItem K V)) → (list item : Ptr) → Type 0
  FreshItem nodes blocks list none = Unit
  FreshItem nodes blocks list (some item) =
      ((item == 0) ≡ false) × (blocks item ≡ none) × UnlikeTail nodes list item

abbrev pub FreshNode : Memory → Ptr → Type 0
FreshNode nodes none = Unit
FreshNode nodes (some n) = nodes n ≡ none

module _ {K V : Type 0} where
  abbrev pub FreshFor : Heap K V → (list : Ptr) → Given → Type 0
  FreshFor h list given = FreshItem h.nodes h.blocks list given.item × FreshNode h.nodes given.node

  -- the slot and the memory behind `List_Create`
  abbrev pub with_list : Given → Ptr → Heap K V → Ptr × Heap K V
  with_list given none h =
      let (list, nodes) = create given.list given.head_data given.tail_data h.nodes in
      (list, record h { nodes = nodes })
  with_list given (some list) h = (some list, h)

  -- A new list and its tail sentinel.
  abbrev pub FreshList : Heap K V → (slot given : Ptr) → Type 0
  FreshList h none (some list) = (h.nodes list ≡ none) × (h.nodes (tail_of list) ≡ none)
  FreshList h none none = Unit
  FreshList h (some list) given = Unit

  abbrev pub Fits : Call K V → Ptr → Heap K V → Type 0
  Fits (look key) slot h = Unit
  Fits (take_out key) slot h = Unit
  Fits (put given key value) slot h =
      let (list, h') = with_list given slot h in
      FreshList h slot given.list × FreshFor h' list given

  module _ (equal : K → K → ℕ) where
    -- a call in memory
    unfoldable pub memory_call :
        (fuel : ℕ) → Call K V → Ptr → Heap K V → Run (CallResult K V × Ptr × Heap K V)
    memory_call fuel (look key) slot h = do
      (result, value) ← find_slot fuel (λ k. equal k key) h slot
      ok (looked result value, slot, h)
    memory_call fuel (put given key value) slot h = do
      (result, slot', h') ← insert_slot fuel given (λ k. equal k key) h slot key value
      ok (done result, slot', h')
    memory_call fuel (take_out key) slot h = do
      (result, item, h') ← remove_slot fuel (λ k. equal k key) h slot
      ok (taken result item, slot, h')

    -- the same call on the chain
    unfoldable pub chain_call : Call K V → Slot K V → CallResult K V × Slot K V
    chain_call (look key) slot =
        let (result, value) = find_in (λ k. equal k key) slot in (looked result value, slot)
    chain_call (put given key value) slot =
        let (result, slot') = insert_to (λ k. equal k key) given slot key value in
        (done result, slot')
    chain_call (take_out key) slot =
        let (result, item, slot') = remove_from (λ k. equal k key) slot in
        (taken result item, slot')
